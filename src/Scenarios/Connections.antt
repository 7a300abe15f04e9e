-- ===== src/Scenarios/Connections.antt =====
-- A client that connects and subscribes to the channel of a badge.
use omni_python_web_template.Base.{◌≡◌, refl, false, some, [], nat_eq, string_eq}
use omni_python_web_template.Base.Collections.{lookup}
use omni_python_web_template.Realtime.{
  clear_heartbeat, clear_reconnect, send, World, initial, connect,
}
use omni_python_web_template.Realtime.Events.{
  subscribe, unsubscribe, at_start, after, connects, subscribes,
}
use omni_python_web_template.Realtime.Invariant.{Sound}
use omni_python_web_template.Realtime.Safety.{Reachable-Sound}
use omni_python_web_template.Realtime.Subscriptions.{
  is_subscribed, ref_count, unsubscribe-subscribe,
}
use omni_python_web_template.Realtime.Events.{opens}
use omni_python_web_template.Realtime.Events.{on_open}
use omni_python_web_template.Realtime.Events.{Reachable}
use omni_python_web_template.Realtime.{clear_heartbeat, clear_reconnect, send, open_socket}
use omni_python_web_template.Realtime.{clear_heartbeat, clear_reconnect, send, Socket}
use omni_python_web_template.Realtime.Events.{opened_by_browser}
use omni_python_web_template.Realtime.{clear_heartbeat, clear_reconnect, send, connecting}
use omni_python_web_template.Base.{true}

abbrev connected : World
connected = connect "t1" false initial

abbrev watching : World
watching = subscribe "export_job.badge" 5 connected

abbrev fresh_socket : Socket
fresh_socket = record { address_token = "t1"; ready = connecting; listening = true; sent = [] }

socket_found : lookup {V = Socket} 0 watching.sockets ≡ some fresh_socket
unfolding connect open_socket subscribe clear_heartbeat clear_reconnect send
socket_found = refl

-- The socket opens, and the subscription is sent.
abbrev opened : World
opened = on_open (opened_by_browser 0 watching)

watching-Reachable : Reachable watching
watching-Reachable =
    after connected watching (after initial connected at_start (connects initial "t1" false))
      (subscribes connected "export_job.badge" 5)

Reachable-Sound_example : Sound opened
Reachable-Sound_example =
    Reachable-Sound opened
      (after watching opened watching-Reachable (opens watching 0 fresh_socket socket_found refl))

unsubscribe-subscribe_example :
    (is_subscribed 5 "a" (unsubscribe "a" 5 (subscribe "a" 5 initial))
      ≡ is_subscribed 5 "a" initial)
    × (ref_count "a" (unsubscribe "a" 5 (subscribe "a" 5 initial)) ≡ ref_count "a" initial)
unsubscribe-subscribe_example = unsubscribe-subscribe "a" 5 initial refl "a" 5
