-- ===== src/Console/Commands.antt =====
-- The commands of internal/console/console.go.
use p2ptest.Base.{
  Str, lit, str_eq, ◌==◌, Bool, true, false, if◌then◌else◌, is_empty, contains, Option, none, some,
  List, [], ◌∷◌, ◌++◌, Outcome, done, ◌>>=◌,
}
use p2ptest.Base.Fields.{fields, join_words}
use p2ptest.Addr.{AddrResult, addr, failed, decimal}
use p2ptest.Notification.{Notification, field}
use p2ptest.Services.{
  Services, Result, error, ok, ℤ, PeerRow, is_below, microseconds, milliseconds, shown,
}
use p2ptest.Console.{Screen, say, handle_notification}

-- The services, of which two may be missing.
pub record Backend (S : Type 0) : Type 0 where
  pub services : Services S
  pub has_ping : Bool
  pub has_status : Bool

-- What a command leaves: the screen, the node, and whether the program is told to quit.
pub record Ran (S : Type 0) : Type 0 where
  pub screen : Screen
  pub state : S
  pub quit : Bool

abbrev pub ran : {S : Type 0} → Screen → S → Ran S
ran m s = record { screen = m; state = s; quit = false }

-- `formatLatency`
unfoldable pub format_latency : ℤ → Str
format_latency d =
    if is_below d 1000000
    then shown (microseconds d) ++ lit "µs"
    else shown (milliseconds d) ++ lit "ms"

-- Where a message to `target` goes, none where the target is not resolved.
unfoldable pub resolve : AddrResult → Str → Option Str
resolve (failed e) target = if contains b':' target then some target else none
resolve (addr a) target =
    if is_empty a then (if contains b':' target then some target else none) else some a

-- Where a ping to `target` goes.
unfoldable pub ping_target : AddrResult → Str → Str
ping_target (failed e) target = target
ping_target (addr a) target = if is_empty a then target else a

-- A line of the list, where the row has a value.
abbrev pub line_of : Str → Str → List Str
line_of label value = if is_empty value then [] else (label ++ value) ∷ []

unfoldable pub peer_lines : PeerRow → List Str
peer_lines row =
    (lit "名称: " ++ field row (lit "name")) ∷ line_of (lit "地址: ") (field row (lit "addr"))
    ++ line_of (lit "最后心跳: ") (field row (lit "last_active"))
    ++ line_of (lit "在线时长: ") (field row (lit "online_for"))
    ++ line_of (lit "连接状态: ") (field row (lit "stream"))
    ++ lit "------------------------" ∷ []

-- The loop of `handleListCommand`.
unfoldable pub rows_lines : List PeerRow → List Str
unfolding peer_lines
rows_lines [] = []
rows_lines (row ∷ rest) = peer_lines row ++ rows_lines rest

unfoldable pub list_lines : List PeerRow → List Str
unfolding rows_lines
list_lines [] = lit "暂无在线节点" ∷ []
list_lines (row ∷ rest) =
    lit "\n===== 在线节点列表 =====" ∷ rows_lines (row ∷ rest) ++ lit "========================" ∷ []

abbrev pub say_all : Screen → List Str → Screen
say_all m lines = record m { output = m.output ++ lines }

unfoldable pub help_text : List Str
help_text =
    lit "\n===== 帮助信息 ====="
    ∷ lit "send <节点名称/IP地址> <消息内容> - 发送文本消息"
    ∷ lit "broadcast <消息内容>              - 广播消息"
    ∷ lit "list                              - 查看在线节点"
    ∷ lit "connect <IP:Port>                 - 连接节点"
    ∷ lit "disconnect <节点名称>              - 断开节点"
    ∷ lit "ping <节点名称/IP地址>             - 测试延迟"
    ∷ lit "status [online|busy]              - 查看或设置状态"
    ∷ lit "exit                              - 退出"
    ∷ lit "========================"
    ∷ []

-- What is said of an error, or of a success.
abbrev pub verdict : Str → Str → Option Str → Str
verdict at_error at_success none = at_success
verdict at_error at_success (some why) = at_error ++ why

abbrev pub disconnect_line : Str → Result Str → Str
disconnect_line name (error why) = lit "[ERROR] 断开失败: " ++ why
disconnect_line name (ok a) = lit "[SUCCESS] 已断开节点 " ++ name ++ lit " (" ++ a ++ lit ")"

unfoldable pub ping_line : Str → Result ℤ → Str
unfolding format_latency
ping_line target (error why) = lit "[ERROR] ping 失败: " ++ why
ping_line target (ok latency) = lit "[SUCCESS] " ++ target ++ lit " 延迟: " ++ format_latency latency

module _ {S : Type 0} (b : Backend S) (m : Screen) (s : S) where
  -- `handleListCommand`
  unfoldable pub handle_list : Outcome (Ran S)
  unfolding list_lines
  handle_list = b.services.get_online_peers s >>= λ rows. done (ran (say_all m (list_lines rows)) s)

  unfoldable pub send_to : Str → Str → Ran S
  unfolding resolve
  send_to target content = elim (resolve (b.services.get_addr_by_name s target) target) [
    | none ↦ ran (say m (lit "[ERROR] 无法解析目标节点: " ++ target)) s
    | some a ↦
        let (err, s') = b.services.send_text_message s a content in
        ran
          (say m (
            verdict (lit "[ERROR] 发送失败: ") (lit "[SUCCESS] 消息已发送到 " ++ a ++ lit ": " ++ content)
              err))
          s'
  ]

  -- `handleSendCommand`, of the words after the first
  unfoldable pub handle_send : List Str → Ran S
  unfolding send_to join_words
  handle_send [] = ran (say m (lit "用法：send <节点名称/IP地址> <消息内容>")) s
  handle_send (target ∷ []) = ran (say m (lit "用法：send <节点名称/IP地址> <消息内容>")) s
  handle_send (target ∷ w ∷ words) = send_to target (join_words (w ∷ words))

  -- `handleBroadcastCommand`
  unfoldable pub handle_broadcast : List Str → Ran S
  unfolding join_words
  handle_broadcast [] = ran (say m (lit "用法：broadcast <消息内容>")) s
  handle_broadcast (w ∷ words) =
      let ((success, failures), s') = b.services.broadcast_message s (join_words (w ∷ words)) in
      ran (say m (lit "广播完成: 成功 " ++ decimal success ++ lit ", 失败 " ++ decimal failures)) s'

  unfoldable pub connect_to : Str → Outcome (Ran S)
  connect_to a = b.services.connect_to_peer s a >>= λ out.
      done (ran (say m (verdict (lit "[ERROR] 连接失败: ") (lit "[SUCCESS] 已连接到 " ++ a) out.0)) out.1)

  -- `handleConnectCommand`
  unfoldable pub handle_connect : List Str → Outcome (Ran S)
  unfolding connect_to
  handle_connect [] = done (ran (say m (lit "用法：connect <IP:Port>")) s)
  handle_connect (a ∷ words) =
      if contains b':' a
      then connect_to a
      else done (ran (say m (lit "[ERROR] 地址格式错误，请使用 IP:Port 格式")) s)

  -- `handleDisconnectCommand`
  unfoldable pub handle_disconnect : List Str → Outcome (Ran S)
  handle_disconnect [] = done (ran (say m (lit "用法：disconnect <节点名称>")) s)
  handle_disconnect (name ∷ words) = b.services.disconnect_peer s name >>= λ out.
      done (ran (say m (disconnect_line name out.0)) out.1)

  -- `handlePingCommand`
  unfoldable pub handle_ping : List Str → Ran S
  unfolding ping_target ping_line
  handle_ping [] = ran (say m (lit "用法：ping <节点名称/IP地址>")) s
  handle_ping (target ∷ words) =
      let (result, s') =
        b.services.send_ping s (ping_target (b.services.get_addr_by_name s target) target) in
      if b.has_ping
      then ran (say m (ping_line target result)) s'
      else ran (say m (lit "[ERROR] ping 功能不可用")) s

  unfoldable pub status_words : List Str → Ran S
  status_words [] = ran (say m (lit "当前状态: " ++ b.services.get_node_status s)) s
  status_words (status ∷ []) =
      let (err, s') = b.services.set_node_status s status in
      ran (say m (verdict (lit "[ERROR] 设置状态失败: ") (lit "[SUCCESS] 状态已设置为 " ++ status) err)) s'
  status_words (status ∷ w ∷ words) = ran (say m (lit "用法：status 或 status <online|busy>")) s

  -- `handleStatusCommand`
  unfoldable pub handle_status : List Str → Ran S
  unfolding status_words
  handle_status words =
      if b.has_status then status_words words else ran (say m (lit "[ERROR] 状态功能不可用")) s

  -- The `switch` of `handleCommand`
  unfoldable pub dispatch : Str → List Str → Outcome (Ran S)
  unfolding handle_list handle_send handle_broadcast handle_connect handle_disconnect handle_ping
      handle_status help_text
  dispatch command words =
      if command == lit "exit"
      then done (record { screen = record m { quitting = true }; state = s; quit = true })
      else if command == lit "list"
      then handle_list
      else if command == lit "send"
      then done (handle_send words)
      else if command == lit "broadcast"
      then done (handle_broadcast words)
      else if command == lit "connect"
      then handle_connect words
      else if command == lit "disconnect"
      then handle_disconnect words
      else if command == lit "ping"
      then done (handle_ping words)
      else if command == lit "status"
      then done (handle_status words)
      else if command == lit "help"
      then done (ran (say_all m help_text) s)
      else done (ran (say m (lit "[ERROR] 未知命令: " ++ command)) s)

  unfoldable pub run_words : List Str → Outcome (Ran S)
  unfolding dispatch
  run_words [] = done (ran m s)
  run_words (command ∷ words) = dispatch command words

  -- `handleCommand`
  unfoldable pub handle_command : Str → Outcome (Ran S)
  unfolding run_words fields
  handle_command input = run_words (fields input)

-- A message to the program. For another one than these, the text field takes the value `typed`.
pub data Msg : Type 0 where
  ctrl_c enter : Msg
  notified : Notification → Msg
  other : (typed : Str) → Msg

-- `Update`
unfoldable pub update : {S : Type 0} → Backend S → Screen → S → Msg → Outcome (Ran S)
unfolding handle_command handle_notification
update b m s ctrl_c =
    done (record { screen = record m { quitting = true }; state = s; quit = true })
update b m s enter = handle_command b (record m { input = [] }) s m.input
update b m s (notified n) = done (ran (handle_notification m n) s)
update b m s (other typed) = done (ran (record m { input = typed }) s)
