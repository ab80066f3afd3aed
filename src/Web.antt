-- ===== src/Web.antt =====
-- internal/web/handlers.go and internal/web/server.go: the routes and handlers of the dashboard, over the
-- services of the node. A request's body is what `json.Decode` reads into a struct of strings: its
-- fields, or an error. The headers that every answer carries are left out.
pub mod Handlers
pub mod Routes
pub mod Expected
pub mod Refusals
pub mod Keeping
pub mod Messages
pub mod Socket
mod Tests
use p2ptest.Base.{
  ℕ, zero, Str, lit, str_eq, ◌==◌, Bool, true, false, if◌then◌else◌, is_empty, Option, none, some,
  List, [], ◌∷◌, ◌++◌, Outcome, done,
}
use p2ptest.Notification.{RawMessage, unmarshal, field, Notification}
use p2ptest.Services.{ℤ, pos, negsuc, PeerRow}

pub record Request : Type 0 where
  pub method : Str
  pub body : RawMessage

-- The values that the answers hold.
pub data Value : Type 0 where
  boolean : Bool → Value
  string : Str → Value
  number : ℤ → Value
  notifications : List Notification → Value
  peers : List PeerRow → Value

-- An answer: `http.Error`, an object with status 200, the change to another protocol, or none, as the
-- connection is closed.
pub data Response : Type 0 where
  http_error : ℕ → Str → Response
  json : List (Str × Value) → Response
  switched unanswered : Response

-- What `Upgrade` of github.com/gorilla/websocket does with a request: it takes the connection over, it
-- answers with an error, or it closes the connection and returns an error.
pub data Upgraded : Type 0 where
  upgraded : Upgraded
  refused : ℕ → Str → Upgraded
  hung_up : Upgraded

-- It reads the headers of the request, which are not modelled, so it is a parameter.
abbrev pub Upgrader : Type 0
Upgrader = Request → Upgraded

abbrev pub Answer : Type 0 → Type 0
Answer S = Response × S

abbrev pub method_not_allowed : Response
method_not_allowed = http_error 405 (lit "Method not allowed")

abbrev pub invalid_json : Response
invalid_json = http_error 400 (lit "Invalid JSON")

abbrev pub missing : Str → Response
missing what = http_error 400 (lit "Missing required " ++ what)

-- A field of a struct: with `omitempty` it is left out where its value is the zero of its type.
abbrev pub omit_empty : Str → Str → List (Str × Value) → List (Str × Value)
omit_empty key [] rest = rest
omit_empty key (c ∷ s) rest = (key, string (c ∷ s)) ∷ rest

abbrev pub omit_zero : Str → ℤ → List (Str × Value) → List (Str × Value)
omit_zero key (pos zero) rest = rest
omit_zero key n rest = (key, number n) ∷ rest

-- `sendResponse`, `connectResponse`
unfoldable pub send_response : Bool → Str → Response
send_response success why =
    json ((lit "success", boolean success) ∷ omit_empty (lit "error") why [])

-- `disconnectResponse`
unfoldable pub disconnect_response : Bool → Str → Str → Response
disconnect_response success addr why = json (
    (lit "success", boolean success)
    ∷ omit_empty (lit "addr") addr (omit_empty (lit "error") why []))

-- `pingResponse`
unfoldable pub ping_response : Bool → ℤ → Str → Response
ping_response success latency_ms why = json (
    (lit "success", boolean success)
    ∷ omit_zero (lit "latency_ms") latency_ms (omit_empty (lit "error") why []))

-- `statusResponse`
unfoldable pub status_response : Bool → Str → Str → Response
status_response success status why = json (
    (lit "success", boolean success)
    ∷ (lit "status", string status)
    ∷ omit_empty (lit "error") why [])

-- The two tests that a handler of a POST begins with, and the rest of it.
unfoldable pub posted :
    {S : Type 0} → S → Request → (List (Str × Str) → Outcome (Answer S)) → Outcome (Answer S)
posted s r handle =
    if r.method == lit "POST"
    then (elim (unmarshal r.body) [ none ↦ done (invalid_json, s) | some fields ↦ handle fields ])
    else done (method_not_allowed, s)

-- The test that a handler of a GET begins with.
unfoldable pub got : {S : Type 0} → S → Request → Outcome (Answer S) → Outcome (Answer S)
got s r answer = if r.method == lit "GET" then answer else done (method_not_allowed, s)
