-- ===== src/Node/Start.antt =====
-- internal/node/node.go: a new node, and the methods that it passes on to its registry and its
-- pool. The identity and the key are random, and are parameters.
use p2ptest.Base.{
  ℕ, Str, str_eq, nat_eq, Bool, Option, none, some, List, [], ◌∷◌, ◌≡◌, refl, Outcome, done, ◌>>=◌,
}
use p2ptest.Base.Dict
use p2ptest.Base.Dict.{Visit, get-empty}
use p2ptest.Proto.{NodeInfo, Envelope, online}
use p2ptest.Config.{NodeConfig}
use p2ptest.Addr.{Error, AddrResult}
use p2ptest.Notifier
use p2ptest.Registry
use p2ptest.Registry.Invariant
use p2ptest.Registry.Invariant.{new-IsValid}
use p2ptest.ConnPool
use p2ptest.ConnPool.{ConnPool, Conn, Stream, Call, Sent}
use p2ptest.Node.{Node}
use p2ptest.Node.Pings.{IsValid}

-- `buildNodeInfo`, with the public key that `NewNode` then sets.
unfoldable pub build_node_info : NodeConfig → Str → Str → NodeInfo
build_node_info cfg uuid public_key = record {
  id = some (record { uuid = uuid; name = cfg.node_name; public_key = public_key });
  addrs = record { ip = cfg.listen_ip; port = cfg.listen_port } ∷ [];
  status = online;
  last_seen = 0;
}

-- `NewNode`: the part of the node that its methods change.
unfoldable pub new_node : NodeConfig → Str → Str → Node
new_node cfg uuid public_key = record {
  node_id = record { uuid = uuid; name = cfg.node_name; public_key = public_key };
  self_status = online;
  registry = Registry.new uuid;
  conn_pool = ConnPool.new;
  notifier = Notifier.new 100;
  pending_pings = Dict.empty;
  channels = Dict.empty;
  next_channel = 0;
}

-- `GetAddrByName`
unfoldable pub get_addr_by_name : Node → Str → AddrResult
get_addr_by_name n name = Registry.get_addr_by_name n.registry name

-- `AddOnlinePeer`
unfoldable pub add_online_peer : Node → Option NodeInfo → ℕ → ℕ → Option Error × Node
add_online_peer n peer now now' =
    let (err, r) = Registry.register n.registry peer now now' in (err, record n { registry = r })

-- `RemoveOnlinePeer`
unfoldable pub remove_online_peer : Node → Str → Outcome (Bool × Node)
remove_online_peer n uuid =
    Registry.unregister n.registry uuid >>= λ out. done (out.0, record n { registry = out.1 })

-- `HasStream`
unfoldable pub node_has_stream : Node → Str → Bool
node_has_stream n addr = ConnPool.has_stream n.conn_pool addr

-- `StreamAddrs`
unfoldable pub node_stream_addrs : Node → Visit (Str × Stream) → List Str
node_stream_addrs n visit = ConnPool.stream_addrs n.conn_pool visit

-- `SendToStream`
unfoldable pub node_send_to_stream : Node → Str → Envelope → Sent
node_send_to_stream n addr env = ConnPool.send_to_stream n.conn_pool addr env

-- `SetPeerConn`
unfoldable pub set_peer_conn : Node → Str → Option Conn → Node
set_peer_conn n addr conn = record n { conn_pool = ConnPool.set_conn n.conn_pool addr conn }

-- `SetPeerStream`
unfoldable pub set_peer_stream : Node → Str → Stream → Node
set_peer_stream n addr stream = record n { conn_pool = ConnPool.set_stream n.conn_pool addr stream }

-- `DeletePeerConn`
unfoldable pub delete_peer_conn : Node → Str → Node × List Call
delete_peer_conn n addr =
    let (pool, calls) = ConnPool.delete_conn n.conn_pool addr in
    (record n { conn_pool = pool }, calls)

-- `DeletePeerStream`
unfoldable pub delete_peer_stream : Node → Str → Node
delete_peer_stream n addr = record n { conn_pool = ConnPool.delete_stream n.conn_pool addr }

none-some {ℓ} : {A : Type ℓ} {o : Option A} {a : A} → o ≡ none → o ≡ some a → ⊥
none-some p q = cc

-- A new node has a valid registry, which knows the node's own identity, and no ping waits.
pub new_node-IsValid :
    (cfg : NodeConfig) (uuid public_key : Str)
    → Invariant.IsValid (new_node cfg uuid public_key).registry
      × ((new_node cfg uuid public_key).registry.self_uuid ≡ uuid)
      × IsValid (new_node cfg uuid public_key)
unfolding new_node Registry.new
new_node-IsValid cfg uuid public_key = (
  new-IsValid uuid,
  refl,
  record {
    made = λ k ch h. absurd (none-some (get-empty k) h);
    unfilled = λ k ch h. get-empty ch;
    filled_made = λ ch rtt h. absurd (none-some (get-empty ch) h);
    own = λ a b ch h h'. absurd (none-some (get-empty a) h);
  },
)
