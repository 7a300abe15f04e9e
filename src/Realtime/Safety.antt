-- ===== src/Realtime/Safety.antt =====
-- lib/realtime/ws-client.ts: connecting, the socket's callbacks and the timers, and the invariant of
-- all of them.
use omni_python_web_template.Base.{
  ℕ, String, ◌≡◌, refl, sym, ap, ◌∙◌, subst, ◌⊎◌, inl, inr, Bool, true, false, not, ◌&&◌, Option,
  none, some, List, [], ◌∷◌, arith, if◌then◌else◌, ◌==◌, nat_eq, string_eq, Bool-cases, is_nil,
}
use omni_python_web_template.Base.Collections.{
  includes, set_delete, includes-set_add_all, lookup, keys, lookup-insert,
}
use omni_python_web_template.Realtime.{
  subscribe_to, ping, connecting, opened, closed, Socket, Client, World, with_client,
  clear_reconnect, clear_heartbeat, close, change_socket, is_same_token, socket_alive, open_socket,
  open_with, connect, disconnect, is_open, new_socket, detach_and_close, set_socket,
}
use omni_python_web_template.Realtime.Events.{
  Step, connects, disconnects, subscribes, unsubscribes, opens, closes, closes_unheard, fails,
  reconnects, beats, Reachable, at_start, after, is_current, opened_by_browser, closed_by_browser,
  on_open, on_close, resubscribe_all, start_reconnect, has_token,
}
use omni_python_web_template.Realtime.Invariant.{
  server_channels, server_channels-append, Subscribes, Unsent, Sound, change-all, Over,
  closing_from-Over, send-Sound,
}
use omni_python_web_template.Realtime.Steps.{
  subscribe-Sound, unsubscribe-Sound, change-Sound, served_of,
}

set_socket-Sound : (w : World) (token : String) → Sound w → Sound (set_socket w token)
set_socket-Sound w token sound id s found =
    let found' : (if w.next == id then some (new_socket token) else lookup id w.sockets) ≡ some s =
      sym (lookup-insert w.next id (new_socket token) w.sockets) ∙ found in
    elim (Bool-cases (w.next == id)) [
      | inl e ↦
          let is_new : new_socket token ≡ s = ground arith in
          subst
            (λ t.
              Unsent t
              × ((w.next == id) ≡ true
                  → is_open t.ready ≡ true
                  → Subscribes t.sent (keys w.client.ref_counts)))
            is_new ((λ h. refl), λ cur o. absurd (ground arith))
      | inr e ↦ ((sound id s (ground arith)).0, λ cur o. absurd (ground arith))
    ]

open_with-Sound : (token : Option String) (w : World) → Sound w → Sound (open_with token w)
unfolding clear_heartbeat clear_reconnect
open_with-Sound none w sound = sound
open_with-Sound (some token) w sound = elim (Bool-cases (token == "")) [
  | inl e ↦ rw e sound
  | inr e ↦ rw e (
      set_socket-Sound
        (change_socket w.client.socket detach_and_close (clear_heartbeat (clear_reconnect w))) token
        (change-Sound (clear_heartbeat (clear_reconnect w)) w.client.socket detach_and_close
          (λ s. closing_from-Over s (detach_and_close s) refl) sound))
]

open_socket-Sound : (w : World) → Sound w → Sound (open_socket w)
unfolding open_socket
open_socket-Sound w sound = open_with-Sound w.client.token w sound

connect-Sound :
    (token : String) (force : Bool) (w : World) → Sound w → Sound (connect token force w)
unfolding connect
connect-Sound token force w sound =
    elim (Bool-cases
      (not force && (is_same_token w.client.token token && socket_alive w w.client.socket))) [
        | inl e ↦ rw e sound
        | inr e ↦ rw e (
            open_socket-Sound
              (with_client w (record (w.client) { intentional_close = false; token = some token }))
              sound)
      ]

-- Without a socket, only what was sent before a socket opened matters.
drop_socket-Sound :
    (w : World) (c' : Client) → c'.socket ≡ none → Sound w → Sound (with_client w c')
drop_socket-Sound w c' e sound id s found =
    ((sound id s found).0, λ cur o. absurd (ground (arith, ap (λ k. is_current k id) e)))

disconnect-Sound : (w : World) → Sound w → Sound (disconnect w)
unfolding disconnect clear_heartbeat clear_reconnect
disconnect-Sound w sound =
    let cleared = clear_heartbeat (
      clear_reconnect
        (with_client w (record (w.client) { intentional_close = true; token = none }))) in
    let gone = change_socket cleared.client.socket close cleared in
    drop_socket-Sound gone (record (gone.client) { socket = none; handlers = []; ref_counts = [] })
      refl
      (change-Sound cleared cleared.client.socket close (λ s. closing_from-Over s (close s) refl)
        sound)

closed-Over : (s : Socket) → Over (record s { ready = closed })
closed-Over s = (refl, λ h. ground arith)

maybe_reconnect :
    (needed : Bool) (w : World) → Sound w → Sound (if needed then start_reconnect w else w)
maybe_reconnect true w sound = sound
maybe_reconnect false w sound = sound

on_close-Sound : (id : ℕ) (w : World) → Sound w → Sound (on_close id w)
unfolding on_close clear_heartbeat
on_close-Sound id w sound =
    let cleared = clear_heartbeat w in
    let forgotten =
      if is_current cleared.client.socket id
      then with_client cleared (record (cleared.client) { socket = none })
      else cleared in
    maybe_reconnect (not forgotten.client.intentional_close && has_token forgotten.client.token)
      forgotten
      (elim (Bool-cases (is_current w.client.socket id)) [
        | inl e ↦
            rw e (drop_socket-Sound cleared (record (cleared.client) { socket = none }) refl sound)
        | inr e ↦ rw e sound
      ])

nil_keys : (xs : List String) (c : String) → is_nil xs ≡ true → false ≡ includes c xs
nil_keys [] c h = refl
nil_keys (x ∷ xs) c h = absurd (ground arith)

-- What an opening leaves of each socket: nothing sent on the one that opens, the others as they were.
opened-all :
    (id : ℕ) (w : World) (s : Socket)
    → lookup id w.sockets ≡ some s
    → s.ready ≡ connecting
    → Sound w
    → (j : ℕ) (t : Socket) → lookup j (opened_by_browser id w).sockets ≡ some t
    → Unsent t
      × (is_current w.client.socket j ≡ true
          → is_open t.ready ≡ true
          → (t.sent ≡ []) ⊎ Subscribes t.sent (keys w.client.ref_counts))
opened-all id w s found ready sound =
    change-all
      (λ j t.
        (Unsent t
          × (is_current w.client.socket j ≡ true
              → is_open t.ready ≡ true
              → Subscribes t.sent (keys w.client.ref_counts)))
        × (lookup j w.sockets ≡ some t))
      (λ j t.
        Unsent t
        × (is_current w.client.socket j ≡ true
            → is_open t.ready ≡ true
            → (t.sent ≡ []) ⊎ Subscribes t.sent (keys w.client.ref_counts)))
      id (λ t. record t { ready = opened }) w.sockets (λ j t e. (sound j t e, e))
      (λ j t ne p. (p.0.0, λ cur o. inr (p.0.1 cur o)))
      (λ t p.
        let same : s ≡ t = ground arith in
        let empty : t.sent ≡ [] = p.0.0 (ap (λ (u : Socket). u.ready) (sym same) ∙ ready) in
        ((λ h. empty), λ cur o. inl empty))

on_open-Sound :
    (id : ℕ) (w : World) (s : Socket)
    → lookup id w.sockets ≡ some s
    → s.ready ≡ connecting
    → Sound w
    → Sound (on_open (opened_by_browser id w))
unfolding on_open resubscribe_all
on_open-Sound id w s found ready sound =
    let v = opened_by_browser id w in
    let channels = keys w.client.ref_counts in
    let sockets = opened-all id w s found ready sound in
    elim (Bool-cases (is_nil channels)) [
      | inl e ↦ rw e (λ j t f. (
        (sockets j t f).0,
        λ cur o. elim ((sockets j t f).1 cur o) [
          | inl empty ↦ λ c. rw empty (nil_keys channels c e)
          | inr served ↦ served
        ],
      ))
      | inr e ↦ rw e (
          send-Sound v (subscribe_to channels) (λ j t f. (
            (sockets j t f).0,
            λ cur o. elim ((sockets j t f).1 cur o) [
              | inl empty ↦ λ c. rw empty (includes-set_add_all c [] channels)
              | inr served ↦ served_of (subscribe_to channels) t.sent [] channels (λ c.
                  includes-set_add_all c (server_channels [] t.sent) channels
                  ∙ ground (arith, served c))
            ],
          )))
    ]

Step-Sound : (w w' : World) → Step w w' → Sound w → Sound w'
Step-Sound _ _ (connects w token force) sound = connect-Sound token force w sound
Step-Sound _ _ (disconnects w) sound = disconnect-Sound w sound
Step-Sound _ _ (subscribes w channel handler) sound = subscribe-Sound channel handler w sound
Step-Sound _ _ (unsubscribes w channel handler) sound = unsubscribe-Sound channel handler w sound
Step-Sound _ _ (opens w id s found ready) sound = on_open-Sound id w s found ready sound
Step-Sound _ _ (closes w id s found l) sound =
    on_close-Sound id (closed_by_browser id w)
      (change-Sound w (some id) (λ s. record s { ready = closed }) closed-Over sound)
Step-Sound _ _ (closes_unheard w id s found l) sound =
    change-Sound w (some id) (λ s. record s { ready = closed }) closed-Over sound
Step-Sound _ _ (fails w id s found l) sound =
    change-Sound w (some id) close (λ s. closing_from-Over s (close s) refl) sound
Step-Sound _ _ (reconnects w timer pending) sound =
    open_socket-Sound (record w { timeouts = set_delete w.timeouts timer }) sound
Step-Sound _ _ (beats w timer pending) sound = send-Sound w ping (λ id s found. (
  (sound id s found).0,
  λ cur o c. rw (server_channels-append [] s.sent ping) ((sound id s found).1 cur o c),
))

-- In every state that calls of the client and callbacks of its sockets and timers can lead to,
-- nothing was sent on a socket that is still connecting, and while the client's socket is open, the
-- requests sent on it subscribe to exactly the channels that are referred to.
pub Reachable-Sound : (w : World) → Reachable w → Sound w
Reachable-Sound _ at_start = λ id s found. ground arith
Reachable-Sound _ (after v w r step) = Step-Sound v w step (Reachable-Sound v r)
