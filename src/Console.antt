-- ===== src/Console.antt =====
-- internal/console/console.go: the model of the terminal, its commands and its notifications, over the
-- services of the node. The text field is the bubble library's: its value and its view are all that
-- is known of it.
pub mod Commands
pub mod Agreement
pub mod Closing
mod Tests
use p2ptest.Base.{
  ℕ, Str, lit, str_eq, ◌==◌, Bool, true, false, if◌then◌else◌, is_empty, Option, none, some, List,
  [], ◌∷◌, ◌++◌,
}
use p2ptest.Notification.{
  Notification, message_received, peer_online, peer_offline, peer_discovered, zero_type, unmarshal,
  field,
}

-- `model`, without the services. `err` is never set by the source.
pub record Screen : Type 0 where
  pub input : Str
  pub notifications : List Str
  pub quitting : Bool
  pub err : Option Str
  pub output : List Str

-- `newModel`
unfoldable pub new_model : Screen
new_model = record {
  input = [];
  notifications = [];
  quitting = false;
  err = none;
  output =
      lit "\n===== P2P节点控制台 ====="
      ∷ lit "send <节点名称/IP地址> <消息内容> - 发送文本消息"
      ∷ lit "list                     - 查看在线节点"
      ∷ lit "exit                     - 退出节点"
      ∷ lit "=========================="
      ∷ [];
}

-- `m.output = append(m.output, line)`
abbrev pub say : Screen → Str → Screen
say m line = record m { output = m.output ++ line ∷ [] }

abbrev pub notify : Screen → Str → Screen
notify m line = record m { notifications = m.notifications ++ line ∷ [] }

-- The line of a notification whose payload is read, none for the types that are not shown.
unfoldable pub notification_line : Notification → List (Str × Str) → Option Str
notification_line n payload = elim n.kind [
  | message_received ↦
      some (lit "[消息] " ++ field payload (lit "from") ++ lit ": " ++ field payload (lit "content"))
  | peer_online ↦ some (
      lit "[上线] "
      ++ field payload (lit "name")
      ++ lit " ("
      ++ field payload (lit "addr")
      ++ lit ")")
  | peer_offline ↦ some (
      lit "[下线] "
      ++ field payload (lit "name")
      ++ lit " ("
      ++ field payload (lit "reason")
      ++ lit ")")
  | peer_discovered ↦ none
  | zero_type ↦ none
]

-- `handleNotification`
unfoldable pub handle_notification : Screen → Notification → Screen
unfolding notification_line
handle_notification m n = elim (unmarshal n.payload) [
  | none ↦ m
  | some payload ↦ elim (notification_line n payload) [ none ↦ m | some line ↦ notify m line ]
]

abbrev pub lines : List Str → Str
lines [] = []
lines (l ∷ rest) = l ++ lit "\n" ++ lines rest

-- `View`, with the view of the text field.
unfoldable pub view : (Str → Str) → Screen → Str
view text_view m =
    if m.quitting
    then []
    else (lines m.notifications
        ++ lines m.output
        ++ (elim m.err [ none ↦ [] | some why ↦ lit "[ERROR] " ++ why ++ lit "\n" ])
        ++ text_view m.input)
