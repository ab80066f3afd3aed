-- ===== src/Web/Handlers.antt =====
-- internal/web/handlers.go: a handler takes the state of the node and a request, and returns its answer
-- and the new state.
use p2ptest.Base.{
  Str, lit, str_eq, ◌==◌, ◌||◌, Bool, true, false, if◌then◌else◌, is_empty, contains, Option, none,
  some, List, [], ◌∷◌, ◌++◌, Outcome, done, ◌>>=◌,
}
use p2ptest.Addr.{AddrResult, addr, failed}
use p2ptest.Notification.{
  Notification, NotificationType, message_received, peer_online, peer_offline, peer_discovered,
  zero_type, field,
}
use p2ptest.Services.{ℤ, pos, milliseconds, Services, Result, error, ok}
use p2ptest.Web.{
  Request, Answer, Response, json, missing, notifications, number, peers, send_response,
  disconnect_response, ping_response, status_response, posted, got,
}

-- `containsColon`
abbrev pub contains_colon : Str → Bool
contains_colon s = contains b':' s

-- Where a message to `target` goes: to the address that is known by the name, if there is one that
-- is not empty.
unfoldable pub named_or : Option Str → AddrResult → Option Str
named_or otherwise (failed e) = otherwise
named_or otherwise (addr a) = if is_empty a then otherwise else some a

abbrev pub literal : Str → Option Str
literal target = if contains_colon target then some target else none

-- The answer to a call that returns an error or nil.
abbrev pub sent_answer : {S : Type 0} → Option Str × S → Answer S
sent_answer (none, s) = (send_response true [], s)
sent_answer (some why, s) = (send_response false why, s)

abbrev pub unresolved : Str → Response
unresolved target = send_response false (lit "cannot resolve target '" ++ target ++ lit "'")

abbrev pub disconnect_answer : {S : Type 0} → Result Str × S → Answer S
disconnect_answer (error why, s) = (disconnect_response false [] why, s)
disconnect_answer (ok a, s) = (disconnect_response true a [], s)

abbrev pub ping_answer : {S : Type 0} → Result ℤ × S → Answer S
ping_answer (error why, s) = (ping_response false (pos 0) why, s)
ping_answer (ok latency, s) = (ping_response true (milliseconds latency) [], s)

abbrev pub status_answer : {S : Type 0} → Str → Option Str × S → Answer S
status_answer status (none, s) = (status_response true status [], s)
status_answer status (some why, s) = (status_response false [] why, s)

-- The address that a ping goes to.
abbrev pub target_or : Str → Option Str → Str
target_or target none = target
target_or target (some a) = a

-- `n.Type == "message_received"`
abbrev pub is_message : NotificationType → Bool
is_message message_received = true
is_message peer_online = false
is_message peer_offline = false
is_message peer_discovered = false
is_message zero_type = false

-- The loop of `handleGetMessages`.
unfoldable pub messages_of : List Notification → List Notification
messages_of [] = []
messages_of (x ∷ rest) =
    let later = messages_of rest in if is_message x.kind then x ∷ later else later

module _ {S : Type 0} (srv : Services S) (s : S) where
  -- `handleSendMessage`, past its first tests
  unfoldable pub send_fields : Str → Str → Answer S
  unfolding named_or
  send_fields target content =
      if is_empty target || is_empty content
      then (missing (lit "fields: target and content"), s)
      else (elim (named_or (literal target) (srv.get_addr_by_name s target)) [
        | none ↦ (unresolved target, s)
        | some a ↦ sent_answer (srv.send_text_message s a content)
      ])

  -- `handleSendMessage`
  unfoldable pub handle_send_message : Request → Outcome (Answer S)
  unfolding posted send_fields
  handle_send_message r =
      posted s r (λ f. done (send_fields (field f (lit "target")) (field f (lit "content"))))

  unfoldable pub broadcast_fields : Str → Answer S
  broadcast_fields content =
      if is_empty content
      then (missing (lit "field: content"), s)
      else (let ((success, failures), s') = srv.broadcast_message s content in
          (
            json (
                (lit "success", number (pos success)) ∷ (lit "failed", number (pos failures)) ∷ []),
            s',
          ))

  -- `handleBroadcastMessage`
  unfoldable pub handle_broadcast_message : Request → Outcome (Answer S)
  unfolding posted broadcast_fields
  handle_broadcast_message r = posted s r (λ f. done (broadcast_fields (field f (lit "content"))))

  unfoldable pub connect_fields : Str → Outcome (Answer S)
  connect_fields a =
      if is_empty a
      then done (missing (lit "field: addr"), s)
      else (srv.connect_to_peer s a >>= λ out. done (sent_answer out))

  -- `handleConnect`
  unfoldable pub handle_connect : Request → Outcome (Answer S)
  unfolding posted connect_fields
  handle_connect r = posted s r (λ f. connect_fields (field f (lit "addr")))

  unfoldable pub disconnect_fields : Str → Outcome (Answer S)
  disconnect_fields name =
      if is_empty name
      then done (missing (lit "field: name"), s)
      else (srv.disconnect_peer s name >>= λ out. done (disconnect_answer out))

  -- `handleDisconnect`
  unfoldable pub handle_disconnect : Request → Outcome (Answer S)
  unfolding posted disconnect_fields
  handle_disconnect r = posted s r (λ f. disconnect_fields (field f (lit "name")))

  -- `handleGetNotifications`
  unfoldable pub handle_get_notifications : Request → Outcome (Answer S)
  unfolding got
  handle_get_notifications r =
      got s r (done (json ((lit "notifications", notifications (srv.history s)) ∷ []), s))

  -- `handleGetMessages`
  unfoldable pub handle_get_messages : Request → Outcome (Answer S)
  unfolding got messages_of
  handle_get_messages r =
      got s r (done (json ((lit "messages", notifications (messages_of (srv.history s))) ∷ []), s))

  unfoldable pub ping_fields : Str → Answer S
  unfolding named_or
  ping_fields target =
      if is_empty target
      then (missing (lit "field: target"), s)
      else ping_answer
          (srv.send_ping s (target_or target (named_or none (srv.get_addr_by_name s target))))

  -- `handlePing`
  unfoldable pub handle_ping : Request → Outcome (Answer S)
  unfolding posted ping_fields
  handle_ping r = posted s r (λ f. done (ping_fields (field f (lit "target"))))

  unfoldable pub status_fields : Str → Answer S
  status_fields status =
      if is_empty status
      then (missing (lit "field: status"), s)
      else status_answer status (srv.set_node_status s status)

  -- `handleStatus`
  unfoldable pub handle_status : Request → Outcome (Answer S)
  unfolding posted status_fields
  handle_status r =
      if r.method == lit "GET"
      then done (status_response true (srv.get_node_status s) [], s)
      else posted s r (λ f. done (status_fields (field f (lit "status"))))

  -- `handleGetPeers`: `json.Marshal` of rows of strings has no error.
  unfoldable pub handle_get_peers : Request → Outcome (Answer S)
  unfolding got
  handle_get_peers r =
      got s r (srv.get_online_peers s >>= λ rows. done (json ((lit "peers", peers rows) ∷ []), s))
