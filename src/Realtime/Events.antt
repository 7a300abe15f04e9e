-- ===== src/Realtime/Events.antt =====
-- lib/realtime/ws-client.ts: subscriptions, the socket's callbacks and the timers, and the steps
-- that the browser and the callers can take.
use omni_python_web_template.Base.{
  ℕ, ◌+◌, ◌-◌, String, ◌≡◌, Bool, true, false, not, ◌&&◌, ◌||◌, Option, none, some, List, [], ◌∷◌,
  map, if◌then◌else◌, ◌==◌, nat_eq, string_eq, is_nil,
}
use omni_python_web_template.Base.Collections.{
  includes, set_add, set_delete, lookup, insert, remove, keys,
}
use omni_python_web_template.Realtime.{
  subscribe_to, unsubscribe_from, ping, connecting, opened, closed, Socket, World, initial,
  with_client, clear_heartbeat, close, change_socket, send, open_socket, connect, disconnect,
}

abbrev pub handlers_of : Option (List ℕ) → List ℕ
handlers_of none = []
handlers_of (some set) = set

-- `refCounts.get(channel) ?? 0`
abbrev pub count_of : Option ℕ → ℕ
count_of none = 0
count_of (some n) = n

unfoldable pub subscribe : String → ℕ → World → World
subscribe channel handler w =
    let set = set_add (handlers_of (lookup channel w.client.handlers)) handler in
    let prev = count_of (lookup channel w.client.ref_counts) in
    let w' = with_client w (record (w.client) {
      handlers = insert channel set w.client.handlers;
      ref_counts = insert channel (prev + 1) w.client.ref_counts;
    }) in
    if prev == 0 then send (subscribe_to (channel ∷ [])) w' else w'

-- The handlers after one is dropped; a channel without handlers is forgotten.
abbrev pub drop_handler :
    String → ℕ → Option (List ℕ) → List (String × List ℕ) → List (String × List ℕ)
drop_handler channel handler none handlers = handlers
drop_handler channel handler (some set) handlers =
    let left = set_delete set handler in
    if is_nil left then remove channel handlers else insert channel left handlers

unfoldable pub unsubscribe : String → ℕ → World → World
unsubscribe channel handler w =
    let left = drop_handler channel handler (lookup channel w.client.handlers) w.client.handlers in
    let next = count_of (lookup channel w.client.ref_counts) - 1 in
    if next == 0
    then send (unsubscribe_from (channel ∷ [])) (
        with_client w
          (record (w.client) { handlers = left; ref_counts = remove channel w.client.ref_counts }))
    else with_client w (record (w.client) {
      handlers = left;
      ref_counts = insert channel next w.client.ref_counts;
    })

unfoldable pub resubscribe_all : World → World
resubscribe_all w =
    let channels = keys w.client.ref_counts in
    if is_nil channels then w else send (subscribe_to channels) w

abbrev pub start_heartbeat : World → World
start_heartbeat w = record w {
  client = record (w.client) { heartbeat_timer = some w.next };
  intervals = set_add w.intervals w.next;
  next = w.next + 1;
}

-- `onopen` of a socket
unfoldable pub on_open : World → World
on_open w = start_heartbeat (resubscribe_all w)

abbrev pub is_current : Option ℕ → ℕ → Bool
is_current none id = false
is_current (some j) id = j == id

abbrev pub has_token : Option String → Bool
has_token none = false
has_token (some t) = not (t == "")

abbrev pub start_reconnect : World → World
start_reconnect w = record w {
  client = record (w.client) { reconnect_timer = some w.next };
  timeouts = set_add w.timeouts w.next;
  next = w.next + 1;
}

-- `onclose` of the socket `id`
unfoldable pub on_close : ℕ → World → World
on_close id w =
    let cleared = clear_heartbeat w in
    let forgotten =
      if is_current cleared.client.socket id
      then with_client cleared (record (cleared.client) { socket = none })
      else cleared in
    if not forgotten.client.intentional_close && has_token forgotten.client.token
    then start_reconnect forgotten
    else forgotten

-- A message of the server; `malformed` stands for what is no string or no JSON.
pub record ServerMessage (Payload : Type 0) : Type 0 where
  pub op : String
  pub channel : Option String
  pub event_type : Option String
  pub payload : Option Payload

pub record RealtimeEvent (Payload : Type 0) : Type 0 where
  pub channel : String
  pub event_type : String
  pub payload : Payload

module _ {Payload : Type 0} (no_payload : Payload) where
  abbrev pub default_of {ℓ} : {A : Type ℓ} → Option A → A → A
  default_of none d = d
  default_of (some a) d = a

  abbrev pub event_of : ServerMessage Payload → String → RealtimeEvent Payload
  event_of msg channel = record {
    channel = channel;
    event_type = default_of msg.event_type "changed";
    payload = default_of msg.payload no_payload;
  }

  abbrev pub calls_on :
      Option String → ServerMessage Payload → World → List (ℕ × RealtimeEvent Payload)
  calls_on none msg w = []
  calls_on (some channel) msg w =
      if channel == ""
      then []
      else map (λ h. (h, event_of msg channel)) (handlers_of (lookup channel w.client.handlers))

  -- The handlers that `onMessage` calls, in order, each with its event.
  unfoldable pub on_message :
      Option (ServerMessage Payload) → World → List (ℕ × RealtimeEvent Payload)
  on_message none w = []
  on_message (some msg) w =
      if msg.op == "pong" || (msg.op == "subscribed" || msg.op == "unsubscribed")
      then []
      else if not (msg.op == "event")
      then []
      else calls_on msg.channel msg w

-- What the browser does to a socket before the callback runs.
abbrev pub opened_by_browser : ℕ → World → World
opened_by_browser id w = change_socket (some id) (λ s. record s { ready = opened }) w

abbrev pub closed_by_browser : ℕ → World → World
closed_by_browser id w = change_socket (some id) (λ s. record s { ready = closed }) w

-- The steps: calls of the client, and callbacks of what is pending in the browser.
pub data Step : World → World → Type 0 where
  connects : (w : World) (token : String) (force : Bool) → Step w (connect token force w)
  disconnects : (w : World) → Step w (disconnect w)
  subscribes : (w : World) (channel : String) (handler : ℕ) → Step w (subscribe channel handler w)
  unsubscribes :
      (w : World) (channel : String) (handler : ℕ) → Step w (unsubscribe channel handler w)
  opens :
      (w : World) (id : ℕ) (s : Socket)
      → lookup id w.sockets ≡ some s
      → s.ready ≡ connecting
      → Step w (on_open (opened_by_browser id w))
  closes :
      (w : World) (id : ℕ) (s : Socket)
      → lookup id w.sockets ≡ some s
      → s.listening ≡ true
      → Step w (on_close id (closed_by_browser id w))
  closes_unheard :
      (w : World) (id : ℕ) (s : Socket)
      → lookup id w.sockets ≡ some s
      → s.listening ≡ false
      → Step w (closed_by_browser id w)
  fails :
      (w : World) (id : ℕ) (s : Socket)
      → lookup id w.sockets ≡ some s
      → s.listening ≡ true
      → Step w (change_socket (some id) close w)
  reconnects :
      (w : World) (timer : ℕ)
      → includes timer w.timeouts ≡ true
      → Step w (open_socket (record w { timeouts = set_delete w.timeouts timer }))
  beats : (w : World) (timer : ℕ) → includes timer w.intervals ≡ true → Step w (send ping w)

pub data Reachable : World → Type 0 where
  at_start : Reachable initial
  after : (w w' : World) → Reachable w → Step w w' → Reachable w'
