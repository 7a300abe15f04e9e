-- ===== src/Realtime/Steps.antt =====
-- lib/realtime/ws-client.ts: each call and callback keeps the open connection subscribed to the
-- channels that are referred to.
use omni_python_web_template.Base.{
  ℕ, ◌+◌, ◌-◌, String, ◌≡◌, refl, sym, ap, ◌∙◌, inl, inr, Bool, true, false, not, ◌&&◌, ◌||◌,
  Option, none, some, List, [], ◌∷◌, ◌++◌, arith, if◌then◌else◌, ◌==◌, nat_eq, string_eq,
  Bool-cases,
}
use omni_python_web_template.Base.Collections.{
  includes, includes-set_add, includes-set_delete, lookup, insert, remove, keys,
  includes-keys-insert, lookup_cases,
}
use omni_python_web_template.Realtime.{
  Request, subscribe_to, unsubscribe_from, ping, Socket, Client, World, with_client, change_socket,
  send, is_open,
}
use omni_python_web_template.Realtime.Events.{
  is_current, drop_handler, subscribe, unsubscribe, count_of,
}
use omni_python_web_template.Realtime.Invariant.{
  request_channels, server_channels, server_channels-append, Subscribes, Unsent, Sound, change-all,
  Over, send-Sound,
}

includes-keys-remove :
    (a k : String) (m : List (String × ℕ))
    → includes a (keys (remove k m)) ≡ (includes a (keys m) && not (a == k))
includes-keys-remove a k [] = refl
includes-keys-remove a k ((j, w) ∷ m) = ground (
  arith,
  string_eq.beq_iff j k,
  string_eq.beq_iff a k,
  string_eq.beq_iff a j,
  includes-keys-remove a k m,
)

-- Changing the channels that are referred to, together with the request that says so.
pub served_of :
    (body : Request) (sent : List Request) (old new : List String)
    → ((c : String) → includes c (request_channels (server_channels [] sent) body) ≡ includes c new)
    → Subscribes (sent ++ (body ∷ [])) new
served_of body sent old new h c = rw (server_channels-append [] sent body) (h c)

known_channel :
    (channel : String) (m : List (String × ℕ))
    → ¬ (count_of (lookup channel m) ≡ 0)
    → includes channel (keys m) ≡ true
known_channel channel m h = elim (lookup_cases channel m) [
  | inl (e, absent) ↦ absurd (h (ap count_of e))
  | inr (n, e, present) ↦ present
]

add_known :
    (channel c : String) (xs : List String)
    → includes channel xs ≡ true
    → (c == channel || includes c xs) ≡ includes c xs
add_known channel c xs h = elim (Bool-cases (c == channel)) [
  | inl e ↦ rw e (sym (ap (λ k. includes k xs) ((string_eq.beq_iff c channel).0 e) ∙ h))
  | inr e ↦ rw e refl
]

-- A client with other handlers and references, that sends a request or need not.
update-Sound :
    (w : World) (c' : Client) (body : Request) (sends : Bool)
    → c'.socket ≡ w.client.socket
    → ((set : List String)
        → ((c : String) → includes c set ≡ includes c (keys w.client.ref_counts))
        → (c : String)
        → (if sends then includes c (request_channels set body) else includes c set)
          ≡ includes c (keys c'.ref_counts))
    → Sound w
    → Sound (if sends then send body (with_client w c') else with_client w c')
update-Sound w c' body true same h sound = send-Sound (with_client w c') body (λ id s found. (
  (sound id s found).0,
  λ cur o.
      served_of body s.sent [] (keys c'.ref_counts)
        (h (server_channels [] s.sent) ((sound id s found).1 (rw (← same) cur) o)),
))
update-Sound w c' body false same h sound = λ id s found. (
  (sound id s found).0,
  λ cur o. h (server_channels [] s.sent) ((sound id s found).1 (rw (← same) cur) o),
)

pub subscribe-Sound :
    (channel : String) (handler : ℕ) (w : World) → Sound w → Sound (subscribe channel handler w)
unfolding subscribe
subscribe-Sound channel handler w sound =
    let n = count_of (lookup channel w.client.ref_counts) in
    update-Sound w _ (subscribe_to (channel ∷ [])) (n == 0) refl
      (λ set k c. elim (Bool-cases (n == 0)) [
        | inl e ↦ rw e (
            includes-set_add c set channel
            ∙ ap (λ b. c == channel || b) (k c)
            ∙ sym (includes-keys-insert c channel (n + 1) w.client.ref_counts))
        | inr e ↦ rw e (
            k c
            ∙ sym (
                includes-keys-insert c channel (n + 1) w.client.ref_counts
                ∙ add_known channel c (keys w.client.ref_counts)
                    (known_channel channel w.client.ref_counts (λ z. ground (arith, e, z)))))
      ])
      sound

pub unsubscribe-Sound :
    (channel : String) (handler : ℕ) (w : World) → Sound w → Sound (unsubscribe channel handler w)
unfolding unsubscribe
unsubscribe-Sound channel handler w sound =
    elim (Bool-cases (count_of (lookup channel w.client.ref_counts) - 1 == 0)) [
      | inl e ↦ rw e (
          update-Sound w _ (unsubscribe_from (channel ∷ [])) true refl
            (λ set k c.
              includes-set_delete c set channel
              ∙ ap (λ b. b && not (c == channel)) (k c)
              ∙ sym (includes-keys-remove c channel w.client.ref_counts))
            sound)
      | inr e ↦ rw e (
          update-Sound w
            (record (w.client) {
              handlers =
                  drop_handler channel handler (lookup channel w.client.handlers) w.client.handlers;
              ref_counts =
                  insert channel (count_of (lookup channel w.client.ref_counts) - 1)
                    w.client.ref_counts;
            })
            ping false refl
            (λ set k c.
              k c
              ∙ sym (
                  includes-keys-insert c channel (count_of (lookup channel w.client.ref_counts) - 1)
                    w.client.ref_counts
                  ∙ add_known channel c (keys w.client.ref_counts)
                      (known_channel channel w.client.ref_counts (λ z. ground (arith, e, z)))))
            sound)
    ]

-- Closing or ending a socket, by the client or by the browser.
pub change-Sound :
    (w : World) (o : Option ℕ) (f : Socket → Socket)
    → ((s : Socket) → Over (f s))
    → Sound w
    → Sound (change_socket o f w)
change-Sound w none f h sound = sound
change-Sound w (some k) f h sound =
    change-all
      (λ id s.
        Unsent s
        × (is_current w.client.socket id ≡ true
            → is_open s.ready ≡ true
            → Subscribes s.sent (keys w.client.ref_counts)))
      (λ id s.
        Unsent s
        × (is_current w.client.socket id ≡ true
            → is_open s.ready ≡ true
            → Subscribes s.sent (keys w.client.ref_counts)))
      k f w.sockets sound (λ j s ne p. p)
      (λ s p. ((h s).1, λ cur o. absurd (ground (arith, (h s).0))))
