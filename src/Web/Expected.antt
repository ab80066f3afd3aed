-- ===== src/Web/Expected.antt =====
-- The status that each request of internal/web/server.go is to be answered with, as a table.
use p2ptest.Base.{
  ℕ, Str, lit, str_eq, ◌==◌, ◌&&◌, not, Bool, true, false, if◌then◌else◌, is_empty, Option, none,
  some, List, [], ◌∷◌, ◌≡◌, ◌≢◌, Returns,
}
use p2ptest.Notification.{unmarshal, field}
use p2ptest.Services.{Services}
use p2ptest.Web.{
  Request, Answer, Response, http_error, json, switched, unanswered, Upgraded, upgraded, refused,
  hung_up, Upgrader,
}
use p2ptest.Web.Routes.{
  Route, get_peers, send_message, broadcast_message, connect, disconnect, get_notifications,
  get_messages, ping, status, ws,
}

-- The status that an answer is sent with, 0 for none.
abbrev pub code : Response → ℕ
code (http_error n text) = n
code (json fields) = 200
code switched = 101
code unanswered = 0

-- The fields that a POST must fill, where a route takes one.
abbrev pub required : Route → Option (List Str)
required send_message = some (lit "target" ∷ lit "content" ∷ [])
required broadcast_message = some (lit "content" ∷ [])
required connect = some (lit "addr" ∷ [])
required disconnect = some (lit "name" ∷ [])
required ping = some (lit "target" ∷ [])
required status = some (lit "status" ∷ [])
required get_peers = none
required get_notifications = none
required get_messages = none
required ws = none

-- The routes that take a GET.
abbrev pub is_readable : Route → Bool
is_readable get_peers = true
is_readable get_notifications = true
is_readable get_messages = true
is_readable status = true
is_readable send_message = false
is_readable broadcast_message = false
is_readable connect = false
is_readable disconnect = false
is_readable ping = false
is_readable ws = false

abbrev pub are_filled : List Str → List (Str × Str) → Bool
are_filled [] fields = true
are_filled (key ∷ rest) fields = not (is_empty (field fields key)) && are_filled rest fields

abbrev pub body_code : List Str → Option (List (Str × Str)) → ℕ
body_code keys none = 400
body_code keys (some fields) = if are_filled keys fields then 200 else 400

abbrev pub post_code : Option (List Str) → Request → ℕ
post_code none r = 405
post_code (some keys) r = if r.method == lit "POST" then body_code keys (unmarshal r.body) else 405

-- The status of a request to the web socket.
abbrev pub upgrade_code : Upgraded → ℕ
upgrade_code upgraded = 101
upgrade_code (refused n text) = n
upgrade_code hung_up = 0

-- The status that a request is answered with, by the table.
abbrev pub expected_code : Upgrader → Route → Request → ℕ
expected_code upgrade ws r = upgrade_code (upgrade r)
expected_code upgrade route r =
    if is_readable route && (r.method == lit "GET") then 200 else post_code (required route) r

-- An answer with the status `n`, which leaves the node as it is unless it is a success.
abbrev pub IsServed : {S : Type 0} → S → ℕ → Answer S → Type 0
IsServed s n out = (code out.0 ≡ n) × (n ≢ 200 → out.1 ≡ s)

-- The services that may panic return.
pub record AreTotal {S : Type 0} (srv : Services S) (s : S) : Type 0 where
  pub lists : Returns (λ rows. Unit) (srv.get_online_peers s)
  pub connects : (a : Str) → Returns (λ out. Unit) (srv.connect_to_peer s a)
  pub disconnects : (name : Str) → Returns (λ out. Unit) (srv.disconnect_peer s name)
