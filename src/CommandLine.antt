-- ===== src/CommandLine.antt =====
-- cmd/p2pnode/root/root.go: the options of the program, its run, and the connection to each peer that is discovered.
-- The flags are parsed by the cobra library: their values are arguments.
pub mod Discovered
pub mod Adapter
pub mod Served
mod Tests
mod ServedTests
use p2ptest.Base.{
  ℕ, suc, ltb, Str, lit, str_eq, nat_eq, ◌==◌, ◌||◌, ◌&&◌, not, Bool, true, false, if◌then◌else◌,
  is_empty, Option, none, some, List, [], ◌∷◌, ◌++◌, take, last_index, Outcome, done, panic, ◌>>=◌,
}
use p2ptest.Proto.{NodeInfo, NodeStatus, online, busy, unknown}
use p2ptest.Config.{NodeConfig, default_proto_ver}
use p2ptest.Addr.{decimal, format_node_addr}
use p2ptest.Addr.Parse.{must_parse_port}
use p2ptest.Notification.{
  Notification, NotificationType, peer_discovered, message_received, peer_online, peer_offline,
  zero_type, unmarshal, field,
}
use p2ptest.Node.{Node}
use p2ptest.Node

-- `App`, less the node and its callback.
pub record App : Type 0 where
  pub config : NodeConfig
  pub pprof_addr : Str
  pub seed_addr : Str

pub data AppOption : Type 0 where
  with_pprof with_seed_addr : Str → AppOption

unfoldable pub apply : App → AppOption → App
apply a (with_pprof addr) = record a { pprof_addr = addr }
apply a (with_seed_addr addr) = record a { seed_addr = addr }

abbrev pub apply_all : App → List AppOption → App
apply_all a [] = a
apply_all a (o ∷ rest) = apply_all (apply a o) rest

-- `NewApp`: the version is written to the configuration itself.
unfoldable pub new_app : NodeConfig → List AppOption → App
unfolding apply
new_app cfg opts =
    let cfg' : NodeConfig = record cfg {
      proto_ver = if cfg.proto_ver == 0 then default_proto_ver else cfg.proto_ver;
    } in
    apply_all (record { config = cfg'; pprof_addr = []; seed_addr = [] }) opts

-- The values of the flags, besides those of the configuration.
pub record Flags : Type 0 where
  pub peer_ip : Str
  pub peer_port : ℕ
  pub debug : Bool

-- `opts` of `runNode`
unfoldable pub options : Flags → List AppOption
options f =
    let seed : List AppOption =
      if not (is_empty f.peer_ip) && ltb 0 f.peer_port
      then with_seed_addr (format_node_addr f.peer_ip f.peer_port) ∷ []
      else [] in
    if f.debug then with_pprof (lit "127.0.0.1:6060") ∷ seed else seed

-- What `Run` does, one after the other.
pub data Action : Type 0 where
  init_logger start_node node_started wait stop_node : Action
  start_pprof handshake_and_connect : Str → Action

-- `Run`, where `started` is whether the node starts without an error.
unfoldable pub run : App → (started : Bool) → List Action
run a started =
    let seed : List Action =
      if is_empty a.seed_addr
      then wait ∷ stop_node ∷ []
      else handshake_and_connect a.seed_addr ∷ wait ∷ stop_node ∷ [] in
    let rest : List Action =
      if started then start_node ∷ node_started ∷ seed else start_node ∷ [] in
    init_logger ∷ (if is_empty a.pprof_addr then rest else start_pprof a.pprof_addr ∷ rest)

-- `SetNodeStatus` of the adapter: the error's text, and the node.
unfoldable pub set_node_status : Node → Str → Option Str × Node
set_node_status n status =
    if status == lit "online"
    then (none, Node.set_node_status n online)
    else if status == lit "busy"
    then (none, Node.set_node_status n busy)
    else (some (lit "invalid status: " ++ status), n)

-- `addr[:strings.LastIndex(addr, ":")]`
unfoldable pub before_last_colon : Str → Outcome Str
before_last_colon addr = elim (last_index b':' addr) [ none ↦ panic | some i ↦ done (take i addr) ]

-- `peerInfo`
unfoldable pub peer_info : Str → Str → Str → Outcome NodeInfo
unfolding before_last_colon
peer_info addr uuid name = before_last_colon addr >>= λ ip. done (record {
  id = some (record { uuid = uuid; name = name; public_key = [] });
  addrs = record { ip = ip; port = must_parse_port addr } ∷ [];
  status = unknown;
  last_seen = 0;
})

-- What is tested of the payload, and the peer to connect to.
unfoldable pub discovered_peer : Str → Str → List (Str × Str) → Outcome (Option NodeInfo)
unfolding peer_info
discovered_peer own_uuid self_addr payload =
    let addr = field payload (lit "addr") in
    let uuid = field payload (lit "uuid") in
    if is_empty addr || is_empty uuid || (uuid == own_uuid)
    then done none
    else if addr == self_addr
    then done none
    else (peer_info addr uuid (field payload (lit "name")) >>= λ p. done (some p))

-- `notif.Type == "peer_discovered"`
abbrev pub is_discovery : NotificationType → Bool
is_discovery peer_discovered = true
is_discovery message_received = false
is_discovery peer_online = false
is_discovery peer_offline = false
is_discovery zero_type = false

-- The callback that `runNode` subscribes: the peer that it connects to, if any.
unfoldable pub on_notification : Str → Str → Notification → Outcome (Option NodeInfo)
unfolding discovered_peer
on_notification own_uuid self_addr n =
    if is_discovery n.kind
    then (elim (unmarshal n.payload) [
      | none ↦ done none
      | some payload ↦ discovered_peer own_uuid self_addr payload
    ])
    else done none
