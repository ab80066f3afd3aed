-- ===== src/Web/Tests.antt =====
-- The theorems about the dashboard, at concrete services, requests and clients.
use p2ptest.Base.{
  Str, lit, str_eq, str_beq, true, false, none, List, [], ◌∷◌, ◌++◌, ◌≡◌, refl, arith, done,
  Returns, ◌≤◌,
}
use p2ptest.Notification.{Notification, object, new_message_received, new_peer_online, field}
use p2ptest.Notifier.{new, history}
use p2ptest.Notifier.Recent.{Event, emitted, run, emissions}
use p2ptest.Registry.Tests.{same_order}
use p2ptest.Addr.{failed, peer_not_found}
use p2ptest.Services.{Services, ok, pos}
use p2ptest.Web.{Request, Upgrader, refused, send_response}
use p2ptest.Web.Routes.{serve}
use p2ptest.Web.Handlers.{handle_get_messages, handle_send_message}
use p2ptest.Web.Messages.{HasShown, message_shown}
use p2ptest.Web.Socket.{
  Socket, pumping, gone, accepted, Step, push, subscribe, start, Steps, here, later, Reach,
  read_fails, MayPanic, are_pump_steps,
}
use p2ptest.Web.Socket.Sound.{stage}
use p2ptest.Web.Socket.Invariant.{IsKept, Reach-IsKept}
use p2ptest.Web.Socket.Order.{IsSublist, Reach-IsSublist}
use p2ptest.Web.Socket.Closing.{closing, closed_then_called, pumping_started}

abbrev text : Notification
text = new_message_received (lit "bob") (lit "hi") 1

abbrev events : List Event
events = emitted same_order text ∷ emitted same_order (new_peer_online (lit "bob") [] 2) ∷ []

-- A node whose state is the list of the addresses that it has sent to.
abbrev stub : Services (List Str)
stub = record {
  get_online_peers = λ s. done [];
  get_addr_by_name = λ s name. failed peer_not_found;
  send_text_message = λ s a content. (none, a ∷ s);
  broadcast_message = λ s content. ((1, 0), s);
  connect_to_peer = λ s a. done (none, a ∷ s);
  disconnect_peer = λ s name. done (ok name, s);
  send_ping = λ s a. (ok (pos 1500000), s);
  set_node_status = λ s status. (none, s);
  get_node_status = λ s. lit "online";
  history = λ s. history (run (new 100) events);
}

abbrev post : Request
post = record {
  method = lit "POST";
  body = object ((lit "target", lit "1:2") ∷ (lit "content", lit "hi") ∷ []);
}

abbrev refusing : Upgrader
refusing r = refused 400 (lit "Bad Request")

sends : serve refusing stub [] (lit "/api/send") post ≡ done (send_response true [], lit "1:2" ∷ [])
unfolding serve lit send_response handle_send_message field str_beq
sends = refl

abbrev read_messages : Request
read_messages = record { method = lit "GET"; body = object [] }

emitted_text : emissions events ≡ [] ++ text ∷ new_peer_online (lit "bob") [] 2 ∷ []
emitted_text = refl

message_shown_example :
    Returns (HasShown {S = List Str} text []) (handle_get_messages stub [] read_messages)
message_shown_example =
    message_shown stub [] read_messages 100 events [] (new_peer_online (lit "bob") [] 2 ∷ [])
      (lit "bob") (lit "hi") 1 refl refl emitted_text (omega arith)

abbrev one_text : List Notification
one_text = text ∷ []

abbrev at_work : Socket
at_work = record (accepted []) {
  subscribed = true;
  writer = pumping;
  stopped = true;
  queue = one_text;
}

to_work : Reach one_text at_work
to_work =
    later
      (later (later (later here (push text [] refl (omega arith))) (subscribe refl refl refl))
        (start refl refl))
      (read_fails (λ e. pumping_started e) refl)

Reach-IsKept_example : IsKept at_work
Reach-IsKept_example = Reach-IsKept one_text at_work (omega arith) to_work

Reach-IsSublist_example : IsSublist [] (one_text ++ [])
Reach-IsSublist_example = Reach-IsSublist one_text at_work (omega arith) to_work

closing_example :
    ((t : Socket) × (path : Steps at_work t) × (are_pump_steps path ≡ true)
      × (t.writer ≡ gone)
      × (t.written ≡ [])
      × (t.registered ≡ false)
      × (t.subscribed ≡ false)
      × (t.closed ≡ true))
    × ((u : Socket) → Step at_work u → (1 ≤ stage u.writer) × (u.stopped ≡ true))
closing_example = closing one_text at_work (omega arith) to_work refl (omega arith)

closed_then_called_example : (s : Socket) × Reach one_text s × MayPanic text s
closed_then_called_example = closed_then_called one_text text (omega arith)
