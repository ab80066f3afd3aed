-- ===== src/Node/Remote.antt =====
-- What internal/node/node.go asks of other nodes: the connection for a remote call, heartbeats,
-- announcements, a round of gossip, and the end of the node. What dialling and the remote calls return is a
-- parameter.
use p2ptest.Base.{
  Outcome, done, ◌>>=◌, deref, ℕ, Str, lit, str_eq, Option, none, some, List, [], ◌∷◌, ◌++◌,
}
use p2ptest.Base.Dict.{Visit}
use p2ptest.Proto.{NodeId, NodeInfo, HeartbeatReq, HeartbeatResp, NotifyNodeJoinReq, DisconnectReq}
use p2ptest.Crypto.{Ed25519, Identity, sign, heartbeat_sign_data}
use p2ptest.Notification.{Notification}
use p2ptest.Notifier
use p2ptest.Notifier.{Callback, Delivery}
use p2ptest.Registry
use p2ptest.Registry.{Registry}
use p2ptest.ConnPool.{ConnPool, Conn, Stream, Call, get_conn, set_conn, close_all, stream_addrs}
use p2ptest.Node.{Node, heartbeat_answered}
use p2ptest.Node.Peers.{Target, gossip_notifications, send_disconnect_to_peer}

-- What dialling returns: nothing where it has an error. The connection of the pool may be nil.
abbrev pub Dial : Type 0
Dial = Option Conn

-- The connection that is found or made for a remote call: none where there is none to call on.
unfoldable pub conn_for : ConnPool → Str → Dial → Option (Option Conn) × ConnPool
conn_for pool addr dial = elim (get_conn pool addr) [
  | some conn ↦ (some conn, pool)
  | none ↦ (elim dial [
    | none ↦ (none, pool)
    | some conn ↦ (some (some conn), set_conn pool addr (some conn))
  ])
]

-- The request of a heartbeat, at the time `ts`.
unfoldable pub heartbeat_req : Ed25519 → Identity → NodeId → ℕ → HeartbeatReq
heartbeat_req e identity id ts = record {
  node_id = some id;
  timestamp = ts;
  signature = sign e identity (heartbeat_sign_data id.uuid ts);
}

abbrev pub with_pool : Node → ConnPool → Node
with_pool n pool = record n { conn_pool = pool }

-- `sendHeartbeatToPeer`, where `answer` is what the remote call returns: none where it has an error. A call on a nil
-- connection panics.
unfoldable pub send_heartbeat_to_peer :
    Ed25519
    → Identity
    → ℕ
    → Dial
    → (HeartbeatReq → Option HeartbeatResp)
    → Node
    → Target
    → Outcome Node
unfolding conn_for heartbeat_req
send_heartbeat_to_peer e identity ts dial answer n t =
    let (conn, pool) = conn_for n.conn_pool t.address dial in
    elim conn [
      | none ↦ done (with_pool n pool)
      | some c ↦ deref c >>= λ live. done (
          heartbeat_answered (with_pool n pool) t.uuid
            (answer (heartbeat_req e identity n.node_id ts)))
    ]

-- `notifySinglePeerJoin`: the request, if it is sent, and the node.
unfoldable pub notify_single_peer_join :
    Dial → Node → Str → NodeInfo → Outcome (Option NotifyNodeJoinReq × Node)
unfolding conn_for
notify_single_peer_join dial n addr info =
    let (conn, pool) = conn_for n.conn_pool addr dial in
    elim conn [
      | none ↦ done (none, with_pool n pool)
      | some c ↦ deref c >>= λ live. done (some (record { new_node = some info }), with_pool n pool)
    ]

-- The emissions of a round of gossip.
unfoldable pub emit_all :
    (ℕ → Visit (ℕ × Callback)) → ℕ → Node → List Notification → Node × List Delivery
emit_all visit i n [] = (n, [])
emit_all visit i n (x ∷ rest) =
    let (notifier, calls) = Notifier.emit n.notifier (visit i) x in
    let (n', calls') = emit_all visit i (record n { notifier = notifier }) rest in
    (n', calls ++ calls')

-- `performGossipRound`, over the addresses of the streams: `answers` has what `GossipWithPeer` returns for each, none
-- where it has an error. What the callbacks do with a notification is not a part of it.
unfoldable pub gossip_rounds :
    (ℕ → Visit (ℕ × Callback))
    → ℕ
    → (Str → Option (List NodeInfo))
    → Node
    → List Str
    → Node × List Delivery
unfolding emit_all
gossip_rounds visit now answers n [] = (n, [])
gossip_rounds visit now answers n (addr ∷ rest) = elim (answers addr) [
  | none ↦ gossip_rounds visit now answers n rest
  | some peers ↦
      let (n', calls) = emit_all visit 0 n (gossip_notifications now n peers) in
      let (n'', calls') = gossip_rounds visit now answers n' rest in (n'', calls ++ calls')
]

unfoldable pub perform_gossip_round :
    (ℕ → Visit (ℕ × Callback))
    → Visit (Str × Stream)
    → ℕ
    → (Str → Option (List NodeInfo))
    → Node
    → Node × List Delivery
unfolding gossip_rounds
perform_gossip_round visit visit' now answers n =
    gossip_rounds visit now answers n (stream_addrs n.conn_pool visit')

-- The loop of `Stop`: the addresses that are told of the end.
unfoldable pub told_of_end : Node → List NodeInfo → List Str
told_of_end n [] = []
told_of_end n (p ∷ rest) =
    let later = told_of_end n rest in
    elim (send_disconnect_to_peer n p) [ none ↦ later | some addr ↦ addr ∷ later ]

-- The request that they get.
unfoldable pub disconnect_req : Node → DisconnectReq
disconnect_req n = record { node_id = some n.node_id; reason = lit "node stopping" }

-- What `Stop` does: whom it tells, the node, and the calls of the pool's connections and streams.
unfoldable pub stop :
    Visit (Str × NodeInfo)
    → Visit (Str × Stream)
    → Visit (Str × Option Conn)
    → Node
    → List Str × Node × List Call
unfolding told_of_end
stop visit visit' visit'' n =
    let (pool, calls) = close_all n.conn_pool visit' visit'' in
    (told_of_end n (Registry.list n.registry visit), with_pool n pool, calls)
