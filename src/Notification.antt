-- ===== src/Notification.antt =====
-- internal/notifier/notification.go: the notifications and their constructors. A payload is the
-- JSON text of a map of strings: it is modelled by the map that `json.Marshal` writes, and
-- `unreadable` stands for any text that `json.Unmarshal` refuses.
use p2ptest.Base.{ℕ, Str, str_eq, lit, List, [], ◌∷◌, Option, none, some, ◌==◌, if◌then◌else◌}

pub data RawMessage : Type 0 where
  object : List (Str × Str) → RawMessage
  unreadable : RawMessage

-- `json.Unmarshal` into a `map[string]string`
abbrev pub unmarshal : RawMessage → Option (List (Str × Str))
unmarshal (object fields) = some fields
unmarshal unreadable = none

-- `payload[key]` of the decoded map: the empty string where there is no such key.
unfoldable pub field : List (Str × Str) → Str → Str
field [] key = []
field ((k, v) ∷ rest) key = if k == key then v else field rest key

-- The values that the code gives to `Type`.
pub data NotificationType : Type 0 where
  message_received peer_online peer_offline peer_discovered zero_type : NotificationType

pub record Notification : Type 0 where
  pub kind : NotificationType
  pub time : ℕ
  pub payload : RawMessage

-- What `make` fills a buffer with.
abbrev pub zero_notification : Notification
zero_notification = record { kind = zero_type; time = 0; payload = unreadable }

unfoldable pub new_message_received : Str → Str → ℕ → Notification
new_message_received from content now = record {
  kind = message_received;
  time = now;
  payload = object ((lit "from", from) ∷ (lit "content", content) ∷ []);
}

unfoldable pub new_peer_online : Str → Str → ℕ → Notification
new_peer_online name addr now = record {
  kind = peer_online;
  time = now;
  payload = object ((lit "name", name) ∷ (lit "addr", addr) ∷ []);
}

unfoldable pub new_peer_offline : Str → Str → ℕ → Notification
new_peer_offline name reason now = record {
  kind = peer_offline;
  time = now;
  payload = object ((lit "name", name) ∷ (lit "reason", reason) ∷ []);
}

unfoldable pub new_peer_discovered : Str → Str → Str → ℕ → Notification
new_peer_discovered name addr uuid now = record {
  kind = peer_discovered;
  time = now;
  payload = object ((lit "name", name) ∷ (lit "addr", addr) ∷ (lit "uuid", uuid) ∷ []);
}
