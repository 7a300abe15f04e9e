-- ===== src/Realtime.antt =====
-- lib/realtime/ws-client.ts: the client that keeps one web socket and shares it among the
-- subscriptions of many channels. The browser's sockets and timers are part of the state: what is
-- still pending there decides which callbacks can run.
pub mod Events
pub mod Subscriptions
pub mod Invariant
pub mod Steps
pub mod Safety
use omni_python_web_template.Base.{
  ℕ, zero, suc, ◌+◌, ◌-◌, ◌*◌, ◌/◌, ◌%◌, ◌≤◌, ◌<◌, min, max, String, ◌≡◌, refl, sym, ap, ◌∙◌, subst,
  ◌≢◌, ◌↔◌, ◌⊎◌, inl, inr, Bool, true, false, not, ◌&&◌, ◌||◌, Option, none, some, List, [], ◌∷◌,
  ◌++◌, map, append-nil, append_assoc, map-append, arith, ltb, leb, if◌then◌else◌, Eq, ◌==◌, nat_eq,
  string_eq, Bool-cases, Option-cases, or_true_cases, and_true_parts, beq_refl, beq_sym, length,
  take, drop, get_elem?, filter, find?, any, all, All, length-append, take-append-drop, length-take,
  length-drop, take_of_length_le, length-map, filter-append, length-filter-le, filter-filter,
  All-append, All-filter_self, sum_of, sum_of-append, is_nil, sum_of-map, All-map,
}
use omni_python_web_template.Base.Collections.{
  includes, IsNodup, set_add, set_add_all, set_of, set_delete, set_delete_all, includes-append,
  includes-filter, includes-set_add, includes-set_add_all, includes-set_delete,
  includes-set_delete_all, IsNodup-append_one, set_add-IsNodup, set_add_all-IsNodup, filter-IsNodup,
  lookup, insert, remove, keys, lookup-insert, lookup-remove, includes-keys-insert,
  keys-insert_of_includes, lookup_cases, keys-insert, lookup_absent, map_ext, All-of_includes,
  All-includes, filter_of_All, set_add_all_of_All,
}

-- What the client sends.
pub data Request : Type 0 where
  subscribe_to : List String → Request
  unsubscribe_from : List String → Request
  ping : Request

-- `WebSocket.readyState`
pub data ReadyState : Type 0 where
  connecting opened closing closed : ReadyState

abbrev pub is_open : ReadyState → Bool
is_open opened = true
is_open _ = false

-- `readyState <= WebSocket.OPEN`
abbrev pub is_alive : ReadyState → Bool
is_alive connecting = true
is_alive opened = true
is_alive _ = false

-- A browser socket: the token of its address, whether `onclose`, `onerror` and `onmessage` are still
-- set, and what was sent on it, oldest first.
pub record Socket : Type 0 where
  pub address_token : String
  pub ready : ReadyState
  pub listening : Bool
  pub sent : List Request

-- The fields of `RealtimeClient`; sockets, timers and handlers are numbers.
pub record Client : Type 0 where
  pub token : Option String
  pub socket : Option ℕ
  pub handlers : List (String × List ℕ)
  pub ref_counts : List (String × ℕ)
  pub reconnect_timer : Option ℕ
  pub heartbeat_timer : Option ℕ
  pub intentional_close : Bool

-- The client and the browser: the sockets made, the timers pending, and the next unused number.
pub record World : Type 0 where
  pub client : Client
  pub sockets : List (ℕ × Socket)
  pub timeouts : List ℕ
  pub intervals : List ℕ
  pub next : ℕ

abbrev pub initial_client : Client
initial_client = record {
  token = none;
  socket = none;
  handlers = [];
  ref_counts = [];
  reconnect_timer = none;
  heartbeat_timer = none;
  intentional_close = false;
}

abbrev pub initial : World
initial = record { client = initial_client; sockets = []; timeouts = []; intervals = []; next = 0 }

abbrev pub with_client : World → Client → World
with_client w c = record w { client = c }

abbrev pub clear_timer : List ℕ → Option ℕ → List ℕ
clear_timer timers none = timers
clear_timer timers (some t) = set_delete timers t

unfoldable pub clear_reconnect : World → World
clear_reconnect w = record w {
  client = record (w.client) { reconnect_timer = none };
  timeouts = clear_timer w.timeouts w.client.reconnect_timer;
}

unfoldable pub clear_heartbeat : World → World
clear_heartbeat w = record w {
  client = record (w.client) { heartbeat_timer = none };
  intervals = clear_timer w.intervals w.client.heartbeat_timer;
}

-- A change of one socket of the browser; a number without a socket changes nothing.
abbrev pub change_found :
    ℕ → (Socket → Socket) → Option Socket → List (ℕ × Socket) → List (ℕ × Socket)
change_found id f none sockets = sockets
change_found id f (some s) sockets = insert id (f s) sockets

abbrev pub change_socket : Option ℕ → (Socket → Socket) → World → World
change_socket none f w = w
change_socket (some id) f w = record w {
  sockets = change_found id f (lookup id w.sockets) w.sockets;
}

abbrev pub closing_from : ReadyState → ReadyState
closing_from closed = closed
closing_from _ = closing

-- `socket.close()`
abbrev pub close : Socket → Socket
close s = record s { ready = closing_from s.ready }

abbrev pub detach_and_close : Socket → Socket
detach_and_close s = record s { listening = false; ready = closing_from s.ready }

-- `send`: only on the client's socket, and only if that is open.
abbrev pub receive : Request → Socket → Socket
receive body s = if is_open s.ready then record s { sent = s.sent ++ (body ∷ []) } else s

unfoldable pub send : Request → World → World
send body w = change_socket w.client.socket (receive body) w

abbrev pub new_socket : String → Socket
new_socket token = record { address_token = token; ready = connecting; listening = true; sent = [] }

abbrev pub set_socket : World → String → World
set_socket w token = record w {
  client = record (w.client) { socket = some w.next };
  sockets = insert w.next (new_socket token) w.sockets;
  next = w.next + 1;
}

abbrev pub open_with : Option String → World → World
open_with none w = w
open_with (some token) w =
    let cleared = clear_heartbeat (clear_reconnect w) in
    if token == ""
    then w
    else set_socket (change_socket cleared.client.socket detach_and_close cleared) token

unfoldable pub open_socket : World → World
open_socket w = open_with w.client.token w

abbrev pub is_same_token : Option String → String → Bool
is_same_token none token = false
is_same_token (some t) token = t == token

abbrev pub ready_alive : Option Socket → Bool
ready_alive none = false
ready_alive (some s) = is_alive s.ready

abbrev pub socket_alive : World → Option ℕ → Bool
socket_alive w none = false
socket_alive w (some id) = ready_alive (lookup id w.sockets)

unfoldable pub connect : String → Bool → World → World
connect token force w =
    if not force && (is_same_token w.client.token token && socket_alive w w.client.socket)
    then w
    else open_socket
        (with_client w (record (w.client) { intentional_close = false; token = some token }))

unfoldable pub disconnect : World → World
disconnect w =
    let marked = with_client w (record (w.client) { intentional_close = true; token = none }) in
    let cleared = clear_heartbeat (clear_reconnect marked) in
    let gone = change_socket cleared.client.socket close cleared in
    with_client gone (record (gone.client) { socket = none; handlers = []; ref_counts = [] })
