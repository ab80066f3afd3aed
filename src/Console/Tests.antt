-- ===== src/Console/Tests.antt =====
-- Runs of the console, and its theorems at concrete commands.
use p2ptest.Base.{Str, lit, str_beq, true, false, none, List, [], ◌∷◌, ◌≡◌, ◌≤◌, refl, done}
use p2ptest.Base.Fields.{fields}
use p2ptest.Addr.{decimal, failed, peer_not_found}
use p2ptest.Notification.{Notification, new_message_received, field}
use p2ptest.Services.{Services, error, ok, pos, negsuc}
use p2ptest.Web.{Upgrader, refused}
use p2ptest.Web.Routes.{serve_route}
use p2ptest.Console.{new_model, handle_notification, notification_line}
use p2ptest.Console.Commands.{Backend, handle_command, format_latency}
use p2ptest.Console.Agreement.{
  Order, to_send, as_words, as_request, after_command, after_request, command_as_request,
}
use p2ptest.Console.Closing.{
  Feed, channel_closed, capacity, started, Step, run_returns, close_channel, Reach, start, later,
  Steps, emitted, position, Panics, closed_while_subscribed,
}

-- A node whose state is the list of the addresses that it has sent to.
abbrev stub : Services (List Str)
stub = record {
  get_online_peers = λ s. done [];
  get_addr_by_name = λ s name. failed peer_not_found;
  send_text_message = λ s a content. (none, a ∷ s);
  broadcast_message = λ s content. ((1, 0), s);
  connect_to_peer = λ s a. done (none, a ∷ s);
  disconnect_peer = λ s name. done (error (lit "no"), s);
  send_ping = λ s a. (ok (pos 1500000), s);
  set_node_status = λ s status. (none, s);
  get_node_status = λ s. lit "online";
  history = λ s. [];
}

abbrev backend : Backend (List Str)
backend = record { services = stub; has_ping = true; has_status = true }

spaced : fields (lit "  send\t节点 hi") ≡ lit "send" ∷ lit "节点" ∷ lit "hi" ∷ []
unfolding fields lit
spaced = refl

wide_space : fields (97 ∷ 0xe3 ∷ 0x80 ∷ 0x80 ∷ 98 ∷ []) ≡ lit "a" ∷ lit "b" ∷ []
unfolding fields lit
wide_space = refl

micro : format_latency (negsuc 1999) ≡ lit "-2µs"
unfolding format_latency lit decimal
micro = refl

milli : format_latency (pos 1999999) ≡ lit "1ms"
unfolding format_latency lit decimal
milli = refl

shown_text :
    (handle_notification new_model (new_message_received (lit "bob") (lit "hi") 1)).notifications
    ≡ lit "[消息] bob: hi" ∷ []
unfolding handle_notification notification_line new_model new_message_received field lit str_beq
shown_text = refl

abbrev order : Order
order = to_send (lit "1:2") (lit "hi") []

typed : fields (lit "send 1:2 hi") ≡ as_words order
unfolding fields lit
typed = refl

abbrev refusing : Upgrader
refusing r = refused 400 (lit "Bad Request")

command_as_request_example :
    after_command (handle_command {S = List Str} backend new_model [] (lit "send 1:2 hi"))
    ≡ after_request
        (serve_route {S = List Str} refusing stub [] (as_request order).1 (as_request order).0)
command_as_request_example =
    command_as_request refusing backend new_model [] order (lit "send 1:2 hi") typed refl refl

abbrev at_close : Feed
at_close = record started { stage = channel_closed; closed = true }

to_close : Reach at_close
to_close = later (later start (run_returns refl)) (close_channel refl)

closed_while_subscribed_example :
    (0 ≤ capacity)
    × (position channel_closed ≤ 1 → true ≡ false)
    × (channel_closed ≡ channel_closed
        → (x : Notification)
        → Step at_close (emitted at_close x)
          × ((t : Feed) → Steps (emitted at_close x) t → Panics x t))
closed_while_subscribed_example = closed_while_subscribed at_close to_close
