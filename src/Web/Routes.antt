-- ===== src/Web/Routes.antt =====
-- `setupRoutes`, `Start` and `Stop` of internal/web/server.go. A path is matched as it is: what `ServeMux` does
-- with paths that it would clean is not modelled.
use p2ptest.Base.{
  Str, lit, str_eq, ◌==◌, if◌then◌else◌, Bool, true, false, Option, none, some, ◌++◌, Outcome, done,
}
use p2ptest.Services.{Services}
use p2ptest.Web.{
  Request, Answer, Response, Upgraded, Upgrader, upgraded, refused, hung_up, http_error, switched,
  unanswered,
}
use p2ptest.Web.Handlers.{
  handle_send_message, handle_broadcast_message, handle_connect, handle_disconnect,
  handle_get_notifications, handle_get_messages, handle_ping, handle_status, handle_get_peers,
}

pub data Route : Type 0 where
  get_peers send_message broadcast_message connect disconnect : Route
  get_notifications get_messages ping status ws : Route

-- `setupRoutes`
unfoldable pub route_of : Str → Option Route
route_of path =
    if path == lit "/api/peers"
    then some get_peers
    else if path == lit "/api/send"
    then some send_message
    else if path == lit "/api/broadcast"
    then some broadcast_message
    else if path == lit "/api/connect"
    then some connect
    else if path == lit "/api/disconnect"
    then some disconnect
    else if path == lit "/api/notifications"
    then some get_notifications
    else if path == lit "/api/messages"
    then some get_messages
    else if path == lit "/api/ping"
    then some ping
    else if path == lit "/api/status"
    then some status
    else if path == lit "/ws"
    then some ws
    else none

abbrev pub upgrade_answer : Upgraded → Response
upgrade_answer upgraded = switched
upgrade_answer (refused n text) = http_error n text
upgrade_answer hung_up = unanswered

-- `handleWebSocket`, up to its call of `Upgrade`: what is answered. Socket.antt has the rest, for a connection
-- that is taken over.
unfoldable pub handle_web_socket : {S : Type 0} → Upgrader → S → Request → Answer S
handle_web_socket upgrade s r = (upgrade_answer (upgrade r), s)

-- The handler of a route.
unfoldable pub serve_route :
    {S : Type 0} → Upgrader → Services S → S → Request → Route → Outcome (Answer S)
unfolding handle_web_socket
serve_route upgrade srv s r get_peers = handle_get_peers srv s r
serve_route upgrade srv s r send_message = handle_send_message srv s r
serve_route upgrade srv s r broadcast_message = handle_broadcast_message srv s r
serve_route upgrade srv s r connect = handle_connect srv s r
serve_route upgrade srv s r disconnect = handle_disconnect srv s r
serve_route upgrade srv s r get_notifications = handle_get_notifications srv s r
serve_route upgrade srv s r get_messages = handle_get_messages srv s r
serve_route upgrade srv s r ping = handle_ping srv s r
serve_route upgrade srv s r status = handle_status srv s r
serve_route upgrade srv s r ws = done (handle_web_socket upgrade s r)

unfoldable pub serve : {S : Type 0} → Upgrader → Services S → S → Str → Request → Outcome (Answer S)
unfolding route_of serve_route
serve upgrade srv s path r = elim (route_of path) [
  | none ↦ done (http_error 404 (lit "404 page not found"), s)
  | some route ↦ serve_route upgrade srv s r route
]

-- `httpServer`: none before `Start`, and whether it has been shut down after it.
pub record Listening : Type 0 where
  pub address : Str
  pub http_server : Option Bool

-- `Start`, with the text of the error of `net.Listen`, if it has one.
unfoldable pub start : Listening → Option Str → Option Str × Listening
start l (some why) = (some (lit "web server listen " ++ l.address ++ lit " failed: " ++ why), l)
start l none = (none, record l { http_server = some true })

-- `Stop`, with the error of `Shutdown`.
unfoldable pub stop : Listening → Option Str → Option Str × Listening
stop l shutdown = elim l.http_server [
  | none ↦ (none, l)
  | some serving ↦ (shutdown, record l { http_server = some false })
]
