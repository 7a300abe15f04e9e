-- ===== src/Realtime/Invariant.antt =====
-- lib/realtime/ws-client.ts: in every state that calls and callbacks can lead to, what was sent on
-- an open connection subscribes to the channels that are referred to.
use omni_python_web_template.Base.{
  ℕ, String, ◌≡◌, refl, sym, ap, ◌∙◌, subst, inl, inr, true, false, Option, some, List, [], ◌∷◌,
  ◌++◌, arith, if◌then◌else◌, ◌==◌, nat_eq, string_eq, Bool-cases, Option-cases, beq_refl,
}
use omni_python_web_template.Base.Collections.{
  includes, set_add_all, set_delete_all, lookup, keys, lookup-insert,
}
use omni_python_web_template.Realtime.{
  Request, subscribe_to, unsubscribe_from, ping, ReadyState, connecting, opened, closing, closed,
  Socket, World, closing_from, change_found, send, receive, is_open,
}
use omni_python_web_template.Realtime.Events.{is_current}

-- The channels that the requests leave subscribed, as the server reads them in order.
abbrev pub request_channels : List String → Request → List String
request_channels set (subscribe_to channels) = set_add_all set channels
request_channels set (unsubscribe_from channels) = set_delete_all set channels
request_channels set ping = set

abbrev pub server_channels : List String → List Request → List String
server_channels set [] = set
server_channels set (r ∷ rs) = server_channels (request_channels set r) rs

pub server_channels-append :
    (set : List String) (rs : List Request) (r : Request)
    → server_channels set (rs ++ (r ∷ [])) ≡ request_channels (server_channels set rs) r
server_channels-append set [] r = refl
server_channels-append set (x ∷ rs) r = server_channels-append (request_channels set x) rs r

-- The requests subscribe to exactly these channels.
abbrev pub Subscribes : List Request → List String → Type 0
Subscribes sent channels = (c : String) → includes c (server_channels [] sent) ≡ includes c channels

-- Nothing is sent on a socket before it opens.
abbrev pub Unsent : Socket → Type 0
Unsent s = s.ready ≡ connecting → s.sent ≡ []

-- While a socket is the client's and open, its requests with these in addition subscribe to exactly
-- the channels.
abbrev pub Served : Option ℕ → List Request → List String → ℕ → Socket → Type 0
Served current more channels id s =
    is_current current id ≡ true → is_open s.ready ≡ true → Subscribes (s.sent ++ more) channels

abbrev pub Sound : World → Type 0
Sound w =
    (id : ℕ) (s : Socket)
    → lookup id w.sockets ≡ some s
    → Unsent s
      × (is_current w.client.socket id ≡ true
          → is_open s.ready ≡ true
          → Subscribes s.sent (keys w.client.ref_counts))

-- A change of one socket keeps a property of all sockets, if it does at that socket.
pub change-all :
    (P Q : ℕ → Socket → Type 0) (id : ℕ) (f : Socket → Socket) (sockets : List (ℕ × Socket))
    → ((j : ℕ) (s : Socket) → lookup j sockets ≡ some s → P j s)
    → ((j : ℕ) (s : Socket) → (id == j) ≡ false → P j s → Q j s)
    → ((s : Socket) → P id s → Q id (f s))
    → (j : ℕ) (s : Socket) → lookup j (change_found id f (lookup id sockets) sockets) ≡ some s
    → Q j s
change-all P Q id f sockets h other same j s e = elim (Option-cases (lookup id sockets)) [
  | inl none_here ↦
      let e' : lookup j sockets ≡ some s = rw none_here at e in
      elim (Bool-cases (id == j)) [
        | inl eq ↦
            let id_is : id ≡ j = (nat_eq.beq_iff id j).0 eq in
            absurd (ground (arith, ap (λ k. lookup k sockets) id_is))
        | inr ne ↦ other j s ne (h j s e')
      ]
  | inr (t, found) ↦
      let e' : (if id == j then some (f t) else lookup j sockets) ≡ some s =
        sym (lookup-insert id j (f t) sockets) ∙ (rw found at e) in
      elim (Bool-cases (id == j)) [
        | inl eq ↦
            let id_is : id ≡ j = (nat_eq.beq_iff id j).0 eq in
            let is_f : f t ≡ s = ground arith in
            subst (λ k. Q k s) id_is (subst (Q id) is_f (same t (h id t found)))
        | inr ne ↦ other j s ne (h j s (ground arith))
      ]
]

-- A socket that is neither open nor connecting satisfies both.
abbrev pub Over : Socket → Type 0
Over s = (is_open s.ready ≡ false) × (s.ready ≡ connecting → s.sent ≡ [])

pub closing_from-Over : (s : Socket) (f : Socket) → f.ready ≡ closing_from s.ready → Over f
closing_from-Over s f e = (e' s.ready (ap is_open e), λ h. absurd (never s.ready (sym e ∙ h)))
  where
    e' : (r : ReadyState) → is_open f.ready ≡ is_open (closing_from r) → is_open f.ready ≡ false
    e' connecting h = h
    e' opened h = h
    e' closing h = h
    e' closed h = h

    never : (r : ReadyState) → ¬ (closing_from r ≡ connecting)
    never connecting h = ground arith
    never opened h = ground arith
    never closing h = ground arith
    never closed h = ground arith

receive-served :
    (body : Request) (channels : List String) (s : Socket)
    → Unsent s
    → (is_open s.ready ≡ true → Subscribes (s.sent ++ (body ∷ [])) channels)
    → Unsent (receive body s)
      × (is_open (receive body s).ready ≡ true → Subscribes (receive body s).sent channels)
receive-served body channels s unsent served = elim (Bool-cases (is_open s.ready)) [
  | inl e ↦ rw e ((λ h. absurd (ground (arith, e, ap is_open h))), (λ o. served e))
  | inr e ↦ rw e (unsent, λ o. absurd (ground arith))
]

-- A request keeps the client sound, if the open socket is served with it.
pub send-Sound :
    (w : World) (body : Request)
    → ((id : ℕ) (s : Socket)
        → lookup id w.sockets ≡ some s
        → Unsent s × Served w.client.socket (body ∷ []) (keys w.client.ref_counts) id s)
    → Sound (send body w)
unfolding send
send-Sound w body h = elim (Option-cases w.client.socket) [
  | inl e ↦ rw e (λ id s found. ((h id s found).0, λ no. ground arith))
  | inr (cur, e) ↦ rw e (
      change-all (λ id s. Unsent s × Served (some cur) (body ∷ []) (keys w.client.ref_counts) id s)
        (λ id s.
          Unsent s
          × (is_current (some cur) id ≡ true
              → is_open s.ready ≡ true
              → Subscribes s.sent (keys w.client.ref_counts)))
        cur (receive body) w.sockets
        (λ id s found. ((h id s found).0, λ c. (h id s found).1 (rw e c)))
        (λ j s ne k. (k.0, λ c. ground arith))
        (λ s k. (
          (receive-served body (keys w.client.ref_counts) s k.0 (k.1 (beq_refl cur))).0,
          λ c. (receive-served body (keys w.client.ref_counts) s k.0 (k.1 (beq_refl cur))).1,
        )))
]
