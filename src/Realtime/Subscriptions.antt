-- ===== src/Realtime/Subscriptions.antt =====
-- lib/realtime/ws-client.ts: what a subscription does and what its end undoes.
use omni_python_web_template.Base.{
  ℕ, ◌+◌, ◌-◌, String, ◌≡◌, refl, sym, ap, ◌∙◌, inl, inr, Bool, true, false, not, ◌&&◌, ◌||◌,
  Option, none, some, List, [], ◌∷◌, arith, if◌then◌else◌, ◌==◌, nat_eq, string_eq, Bool-cases,
  Option-cases, and_true_parts, is_nil,
}
use omni_python_web_template.Base.Collections.{
  includes, set_add, set_delete, includes-set_add, includes-set_delete, lookup, insert, remove,
  lookup-insert, lookup-remove,
}
use omni_python_web_template.Realtime.{Request, Socket, World, change_socket, send}
use omni_python_web_template.Realtime.Events.{
  handlers_of, count_of, subscribe, drop_handler, unsubscribe,
}

pub client-change_socket :
    (o : Option ℕ) (f : Socket → Socket) (w : World) → (change_socket o f w).client ≡ w.client
client-change_socket none f w = refl
client-change_socket (some id) f w = refl

pub client-send : (body : Request) (w : World) → (send body w).client ≡ w.client
unfolding send
client-send body w = client-change_socket w.client.socket _ w

abbrev pub is_subscribed : ℕ → String → World → Bool
is_subscribed handler channel w = includes handler (handlers_of (lookup channel w.client.handlers))

abbrev pub ref_count : String → World → ℕ
ref_count channel w = count_of (lookup channel w.client.ref_counts)

handlers-subscribe :
    (channel : String) (handler : ℕ) (w : World)
    → (subscribe channel handler w).client.handlers
      ≡ insert channel
          (set_add (handlers_of (lookup channel w.client.handlers)) handler)
          w.client.handlers
unfolding subscribe
handlers-subscribe channel handler w =
    elim (Bool-cases (count_of (lookup channel w.client.ref_counts) == 0)) [
      | inl e ↦ rw e (ap (λ c. c.handlers) (client-send _ _))
      | inr e ↦ rw e refl
    ]

ref_counts-subscribe :
    (channel : String) (handler : ℕ) (w : World)
    → (subscribe channel handler w).client.ref_counts
      ≡ insert channel (ref_count channel w + 1) w.client.ref_counts
unfolding subscribe
ref_counts-subscribe channel handler w =
    elim (Bool-cases (count_of (lookup channel w.client.ref_counts) == 0)) [
      | inl e ↦ rw e (ap (λ c. c.ref_counts) (client-send _ _))
      | inr e ↦ rw e refl
    ]

handlers-unsubscribe :
    (channel : String) (handler : ℕ) (w : World)
    → (unsubscribe channel handler w).client.handlers
      ≡ drop_handler channel handler (lookup channel w.client.handlers) w.client.handlers
unfolding unsubscribe
handlers-unsubscribe channel handler w =
    elim (Bool-cases (count_of (lookup channel w.client.ref_counts) - 1 == 0)) [
      | inl e ↦ rw e (ap (λ c. c.handlers) (client-send _ _))
      | inr e ↦ rw e refl
    ]

pub ref_counts-unsubscribe :
    (channel : String) (handler : ℕ) (w : World)
    → (unsubscribe channel handler w).client.ref_counts ≡ (
        if ref_count channel w - 1 == 0
        then remove channel w.client.ref_counts
        else insert channel (ref_count channel w - 1) w.client.ref_counts)
unfolding unsubscribe
ref_counts-unsubscribe channel handler w =
    elim (Bool-cases (count_of (lookup channel w.client.ref_counts) - 1 == 0)) [
      | inl e ↦ rw e (ap (λ c. c.ref_counts) (client-send _ _))
      | inr e ↦ rw e refl
    ]

handlers_of-drop :
    (channel : String) (handler : ℕ) (handlers : List (String × List ℕ)) (c : String)
    → handlers_of (lookup c (drop_handler channel handler (lookup channel handlers) handlers)) ≡ (
        if channel == c
        then set_delete (handlers_of (lookup channel handlers)) handler
        else handlers_of (lookup c handlers))
handlers_of-drop channel handler handlers c = elim (Option-cases (lookup channel handlers)) [
  | inl e ↦ rw e (elim (Bool-cases (channel == c)) [
    | inl same ↦ rw same (
        ap handlers_of
          (ap (λ k. lookup k handlers) (sym ((string_eq.beq_iff channel c).0 same)) ∙ e))
    | inr other ↦ rw other refl
  ])
  | inr (set, e) ↦ rw e (elim (Bool-cases (is_nil (set_delete set handler))) [
    | inl empty ↦ rw empty (
        ap handlers_of (lookup-remove channel c handlers)
        ∙ ground (arith, nil_of (set_delete set handler) empty))
    | inr more ↦
        rw more (
          ap handlers_of (lookup-insert channel c (set_delete set handler) handlers) ∙ ground arith)
  ])
]
  where
    nil_of : (xs : List ℕ) → is_nil xs ≡ true → xs ≡ []
    nil_of [] h = refl
    nil_of (x ∷ xs) h = ground arith

-- Subscribing adds the handler on its channel and changes no other channel's handlers.
is_subscribed-subscribe :
    (channel : String) (handler : ℕ) (w : World) (h : ℕ) (c : String)
    → is_subscribed h c (subscribe channel handler w)
      ≡ ((channel == c && h == handler) || is_subscribed h c w)
is_subscribed-subscribe channel handler w h c =
    rw
      (
        handlers-subscribe channel handler w,
        lookup-insert channel c (set_add (handlers_of (lookup channel w.client.handlers)) handler)
            w.client.handlers,
      )
      (elim (Bool-cases (channel == c)) [
        | inl same ↦ rw same (
            includes-set_add h (handlers_of (lookup channel w.client.handlers)) handler
            ∙ ap (λ k. h == handler || is_subscribed h k w) ((string_eq.beq_iff channel c).0 same))
        | inr other ↦ rw other refl
      ])

is_subscribed-unsubscribe :
    (channel : String) (handler : ℕ) (w : World) (h : ℕ) (c : String)
    → is_subscribed h c (unsubscribe channel handler w)
      ≡ (is_subscribed h c w && not (channel == c && h == handler))
is_subscribed-unsubscribe channel handler w h c =
    rw
      (handlers-unsubscribe channel handler w, handlers_of-drop channel handler w.client.handlers c)
      (elim (Bool-cases (channel == c)) [
        | inl same ↦ rw same (
            includes-set_delete h (handlers_of (lookup channel w.client.handlers)) handler
            ∙ ap (λ k. is_subscribed h k w && not (h == handler))
                ((string_eq.beq_iff channel c).0 same))
        | inr other ↦ rw other (ground arith)
      ])

ref_count-subscribe :
    (channel : String) (handler : ℕ) (w : World) (c : String)
    → ref_count c (subscribe channel handler w) ≡ ref_count c w + (if channel == c then 1 else 0)
ref_count-subscribe channel handler w c =
    rw
      (
        ref_counts-subscribe channel handler w,
        lookup-insert channel c (ref_count channel w + 1) w.client.ref_counts,
      )
      (elim (Bool-cases (channel == c)) [
        | inl same ↦ rw same (ap (λ k. ref_count k w + 1) ((string_eq.beq_iff channel c).0 same))
        | inr other ↦ rw other (omega arith)
      ])

ref_count-unsubscribe :
    (channel : String) (handler : ℕ) (w : World) (c : String)
    → ref_count c (unsubscribe channel handler w) ≡ ref_count c w - (if channel == c then 1 else 0)
ref_count-unsubscribe channel handler w c =
    rw (ref_counts-unsubscribe channel handler w)
      (elim (Bool-cases (ref_count channel w - 1 == 0)) [
        | inl last ↦
            rw (last, lookup-remove channel c w.client.ref_counts)
              (elim (Bool-cases (channel == c)) [
                | inl same ↦
                    rw same (
                      ground
                        (arith, ap (λ k. ref_count k w) ((string_eq.beq_iff channel c).0 same)))
                | inr other ↦ rw other (omega arith)
              ])
        | inr more ↦
            rw (more, lookup-insert channel c (ref_count channel w - 1) w.client.ref_counts)
              (elim (Bool-cases (channel == c)) [
                | inl same ↦
                    rw same (ap (λ k. ref_count k w - 1) ((string_eq.beq_iff channel c).0 same))
                | inr other ↦ rw other (omega arith)
              ])
      ])

-- Ending a subscription undoes it, if the handler was not subscribed to the channel before: every
-- handler is then subscribed where it was, and every channel is referred to as often as before.
pub unsubscribe-subscribe :
    (channel : String) (handler : ℕ) (w : World)
    → is_subscribed handler channel w ≡ false
    → (c : String) (h : ℕ)
    → (is_subscribed h c (unsubscribe channel handler (subscribe channel handler w))
        ≡ is_subscribed h c w)
      × (ref_count c (unsubscribe channel handler (subscribe channel handler w)) ≡ ref_count c w)
unsubscribe-subscribe channel handler w new c h =
    let w' = subscribe channel handler w in
    (
      is_subscribed-unsubscribe channel handler w' h c
          ∙ ap (λ b. b && not (channel == c && h == handler))
              (is_subscribed-subscribe channel handler w h c)
          ∙ undone,
      ref_count-unsubscribe channel handler w' c
          ∙ ap (λ n. n - (if channel == c then 1 else 0)) (ref_count-subscribe channel handler w c)
          ∙ omega arith,
    )
  where
    undone :
        (((channel == c && h == handler) || is_subscribed h c w)
          && not (channel == c && h == handler))
        ≡ is_subscribed h c w
    undone = elim (Bool-cases (channel == c && h == handler)) [
      | inl same ↦
          let (p, q) = and_true_parts (channel == c) (h == handler) same in
          rw same (
            sym (
              ap (λ k. is_subscribed h k w) (sym ((string_eq.beq_iff channel c).0 p))
              ∙ ap (λ j. is_subscribed j channel w) ((nat_eq.beq_iff h handler).0 q)
              ∙ new))
      | inr other ↦ rw other (ground arith)
    ]
