-- ===== src/Node/Peers.antt =====
-- internal/node/node.go: the ending of one peer's session, and the choice of the peers that a
-- heartbeat, an announcement or a round of gossip is about.
use p2ptest.Base.{
  ℕ, Str, lit, str_eq, ◌==◌, ◌||◌, if◌then◌else◌, is_some, is_empty, Option, none, some, List, [],
  ◌∷◌, ◌≡◌, Outcome, done, ◌>>=◌, deref, Returns, Returns-bind, Returns-deref, Bool-cases, inl, inr,
}
use p2ptest.Base.Dict.{Visit, IsVisit}
use p2ptest.Proto.{NodeId, NodeAddr, NodeInfo, unknown}
use p2ptest.Addr.{Error, addr, failed, first_addr, get_peer_first_addr}
use p2ptest.Addr.Parse.{parse_host_port}
use p2ptest.Notification.{Notification, new_peer_offline, new_peer_discovered}
use p2ptest.Notifier
use p2ptest.Registry
use p2ptest.Registry.{Registry}
use p2ptest.Registry.Invariant.{IsValid}
use p2ptest.Registry.Preserve.{unregister-IsValid}
use p2ptest.Registry.ByName.{Finds, get_by_name-Finds}
use p2ptest.ConnPool.{close_by_addr}
use p2ptest.Node.{Node, Moment, Effects, no_effects, addr_or_empty}

-- `sendDisconnectToPeer`: the address that is told of the disconnection, if any.
unfoldable pub send_disconnect_to_peer : Node → NodeInfo → Option Str
send_disconnect_to_peer n p = elim p.id [
  | none ↦ none
  | some id ↦ if id.uuid == n.node_id.uuid then none else first_addr p.addrs
]

-- What `DisconnectPeer` returns: that the peer is not online, that it has no address, or its
-- address. `told` is the address of the remote call, if it is made.
pub data Disconnection : Type 0 where
  not_online : Disconnection
  no_address : Error → Disconnection
  disconnected : (address : Str) (told : Option Str) → Disconnection

-- The removal of the peer, and what follows if it was there.
unfoldable pub remove_peer : Moment → Node → Str → Str → Str → Outcome (Node × Effects)
remove_peer m n name uuid address = Registry.unregister n.registry uuid >>= λ out.
    let (pool, closings) = close_by_addr n.conn_pool address in
    let (notifier, calls) =
      Notifier.emit n.notifier m.callbacks_order
        (new_peer_offline name (lit "主动断开") m.emitted_at) in
    let n' : Node = record n { registry = out.1 } in
    if out.0
    then done (
      record n' { conn_pool = pool; notifier = notifier },
      record { calls = calls; closings = closings },
    )
    else done (n', no_effects)

-- `DisconnectPeer` of a peer that was found.
unfoldable pub disconnect_found :
    Moment → Node → Str → NodeInfo → Outcome (Disconnection × Node × Effects)
unfolding remove_peer
disconnect_found m n name peer = elim (get_peer_first_addr (some peer)) [
  | failed e ↦ done (no_address e, n, no_effects)
  | addr address ↦ deref peer.id >>= λ id. remove_peer m n name id.uuid address >>= λ out.
      done (disconnected address (send_disconnect_to_peer n peer), out.0, out.1)
]

-- What `DisconnectPeer` does with what the search by name returns.
unfoldable pub found_or_not :
    Moment → Node → Str → Option NodeInfo → Outcome (Disconnection × Node × Effects)
unfolding disconnect_found
found_or_not m n name none = done (not_online, n, no_effects)
found_or_not m n name (some peer) = disconnect_found m n name peer

-- `DisconnectPeer`
unfoldable pub disconnect_peer :
    Visit (Str × NodeInfo) → Moment → Node → Str → Outcome (Disconnection × Node × Effects)
unfolding found_or_not
disconnect_peer visit m n name =
    Registry.get_by_name n.registry visit name >>= λ found. found_or_not m n name found

-- A heartbeat that is sent: the address, and the identity of the peer.
pub record Target : Type 0 where
  pub address : Str
  pub uuid : Str

abbrev pub target : List NodeAddr → Str → List Target → List Target
target addrs uuid rest = elim (first_addr addrs) [
  | none ↦ rest
  | some a ↦ record { address = a; uuid = uuid } ∷ rest
]

-- The loop of `sendHeartbeatToAllPeers`, over the listed peers.
unfoldable pub heartbeat_targets : Node → List NodeInfo → Outcome (List Target)
heartbeat_targets n [] = done []
heartbeat_targets n (p ∷ rest) = deref p.id >>= λ id. heartbeat_targets n rest >>= λ later.
    done (if id.uuid == n.node_id.uuid then later else target p.addrs id.uuid later)

-- `sendHeartbeatToAllPeers`
unfoldable pub send_heartbeat_to_all_peers : Visit (Str × NodeInfo) → Node → Outcome (List Target)
unfolding heartbeat_targets
send_heartbeat_to_all_peers visit n = heartbeat_targets n (Registry.list n.registry visit)

-- The loop of `broadcastNodeJoin`, over the listed peers: whom the node that has joined is
-- announced to.
unfoldable pub join_targets : Node → Str → List NodeInfo → Outcome (List Target)
join_targets n joined [] = done []
join_targets n joined (p ∷ rest) = deref p.id >>= λ id. join_targets n joined rest >>= λ later.
    done (
      if id.uuid == n.node_id.uuid || id.uuid == joined
      then later
      else target p.addrs id.uuid later)

-- The announcement of `broadcastNodeJoin`, for the fields of the notification's payload.
unfoldable pub new_node_info : Str → Str → Str → Option NodeInfo
new_node_info address uuid name =
    if is_empty address || is_empty uuid then none else (elim (parse_host_port address) [
      | none ↦ none
      | some (host, port) ↦ some (record {
        id = some (record { uuid = uuid; name = name; public_key = [] });
        addrs = record { ip = host; port = port } ∷ [];
        status = unknown;
        last_seen = 0;
      })
    ])

-- `broadcastNodeJoin`: the announcement, and whom it is sent to.
unfoldable pub broadcast_node_join :
    Visit (Str × NodeInfo) → Node → Str → Str → Str → Outcome (Option (NodeInfo × List Target))
unfolding new_node_info join_targets
broadcast_node_join visit n address uuid name = elim (new_node_info address uuid name) [
  | none ↦ done none
  | some info ↦ join_targets n uuid (Registry.list n.registry visit) >>= λ targets.
      done (some (info, targets))
]

-- The inner loop of `performGossipRound`: a notification for each peer that is not known.
unfoldable pub gossip_notifications : ℕ → Node → List NodeInfo → List Notification
gossip_notifications now n [] = []
gossip_notifications now n (p ∷ rest) =
    let later = gossip_notifications now n rest in
    elim p.id [
      | none ↦ later
      | some id ↦
          if is_empty id.uuid || id.uuid == n.node_id.uuid
          then later
          else if is_some (Registry.get n.registry id.uuid)
          then later
          else new_peer_discovered id.name (addr_or_empty (first_addr p.addrs)) id.uuid now ∷ later
    ]

remove_peer_keeps :
    (m : Moment) (n : Node) (name uuid address : Str)
    → IsValid n.registry
    → Returns (λ out. IsValid out.0.registry) (remove_peer m n name uuid address)
unfolding remove_peer
remove_peer_keeps m n name uuid address v =
    Returns-bind (λ out. IsValid out.1) _ (Registry.unregister n.registry uuid) _
      (unregister-IsValid v uuid)
      (λ out w. elim (Bool-cases out.0) [ inl removed ↦ rw removed w | inr absent ↦ rw absent w ])

disconnect_found_keeps :
    (m : Moment) (n : Node) (name : Str) (peer : NodeInfo) (id : NodeId)
    → IsValid n.registry
    → peer.id ≡ some id
    → Returns (λ out. IsValid out.1.registry) (disconnect_found m n name peer)
unfolding disconnect_found
disconnect_found_keeps m n name peer id v has =
    elim (get_peer_first_addr (some peer))
      as (λ res.
        Returns (λ out. IsValid out.1.registry)
          (elim res as (λ _. Outcome (Disconnection × Node × Effects)) [
            | failed e ↦ done (no_address e, n, no_effects)
            | addr address ↦ deref peer.id >>= λ id'.
                remove_peer m n name id'.uuid address >>= λ out.
                done (disconnected address (send_disconnect_to_peer n peer), out.0, out.1)
          ])) [
            | failed e ↦ v
            | addr address ↦ Returns-deref _ _ has (
                Returns-bind _ _ (remove_peer m n name id.uuid address) _
                  (remove_peer_keeps m n name id.uuid address v) (λ out w. w))
          ]

found_or_not_keeps :
    (m : Moment) (n : Node) (name : Str) (found : Option NodeInfo)
    → IsValid n.registry
    → Finds n.registry name found
    → Returns (λ out. IsValid out.1.registry) (found_or_not m n name found)
unfolding found_or_not
found_or_not_keeps m n name none v h = v
found_or_not_keeps m n name (some peer) v h = disconnect_found_keeps m n name peer h.0 v h.1

-- A disconnection of a peer by its name never panics on a valid registry, and leaves it valid.
pub disconnect_peer-IsValid :
    (visit : Visit (Str × NodeInfo)) (m : Moment) (n : Node) (name : Str)
    → IsValid n.registry
    → IsVisit visit
    → Returns (λ out. IsValid out.1.registry) (disconnect_peer visit m n name)
unfolding disconnect_peer
disconnect_peer-IsValid visit m n name v once =
    Returns-bind (Finds n.registry name) _ (Registry.get_by_name n.registry visit name) _
      (get_by_name-Finds v name visit once) (λ found h. found_or_not_keeps m n name found v h)
