-- ===== src/Services.antt =====
-- What internal/console/console.go and internal/web/server.go ask of the node: the interfaces
-- `PeerInfoProvider`, `MessageSender`, `PeerConnector`, `PingSender` and `StatusSetter`, which
-- both declare in the same words, and the durations and rows that they exchange. The node's
-- methods work on a state `S`; those that may panic say so.
mod Numbers
pub use Numbers.*
use p2ptest.Base.{ℕ, Str, Option, List, Outcome}
use p2ptest.Notification.{Notification}
use p2ptest.Addr.{AddrResult}

-- A value, or the text of an error.
pub data Result (A : Type 0) : Type 0 where
  error : Str → Result A
  ok : A → Result A

-- A `map[string]string` of `GetOnlinePeers`.
abbrev pub PeerRow : Type 0
PeerRow = List (Str × Str)

pub record Services (S : Type 0) : Type 0 where
  pub get_online_peers : S → Outcome (List PeerRow)
  pub get_addr_by_name : S → Str → AddrResult
  pub send_text_message : S → Str → Str → Option Str × S
  pub broadcast_message : S → Str → (ℕ × ℕ) × S
  pub connect_to_peer : S → Str → Outcome (Option Str × S)
  pub disconnect_peer : S → Str → Outcome (Result Str × S)
  pub send_ping : S → Str → Result ℤ × S
  pub set_node_status : S → Str → Option Str × S
  pub get_node_status : S → Str
  pub history : S → List Notification
