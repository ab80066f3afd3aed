-- ===== src/Membership/Leave.antt =====
-- internal/membership/application/service.go, `Disconnect` and `NotifyNodeJoin`.
use p2ptest.Base.{
  Str, str_eq, ◌==◌, Bool, true, false, if◌then◌else◌, is_some, is_empty, Option, none, some, List,
  [], Outcome, done, ◌>>=◌, deref,
}
use p2ptest.Proto.{
  offline, NodeId, NodeInfo, DisconnectReq, DisconnectResp, NotifyNodeJoinReq, NotifyNodeJoinResp,
}
use p2ptest.Notification.{new_peer_offline, new_peer_discovered}
use p2ptest.Notifier.{Delivery}
use p2ptest.Registry
use p2ptest.Registry.{Registry}
use p2ptest.Membership.{Service, Runtime, Reply, peer_addr, emit, with_registry}

abbrev pub acknowledge : Bool → Service → List Delivery → Reply DisconnectResp
acknowledge b s calls = record { resp = record { acknowledged = b }; service = s; calls = calls }

-- `Disconnect` of an identity that is not empty.
unfoldable pub disconnect_id : Runtime → Service → NodeId → Str → Outcome (Reply DisconnectResp)
unfolding emit
disconnect_id rt s id reason =
    let r =
      if is_some (Registry.get s.registry id.uuid)
      then (Registry.update_status s.registry id.uuid offline).1
      else s.registry in
    Registry.unregister r id.uuid >>= λ out.
    let s' = with_registry s out.1 in
    let (s'', calls) = emit s' rt.callbacks_order (new_peer_offline id.name reason rt.emitted_at) in
    if out.0 then done (acknowledge true s'' calls) else done (acknowledge true s' [])

-- `Disconnect`
unfoldable pub disconnect :
    Runtime → Service → Option DisconnectReq → Outcome (Reply DisconnectResp)
unfolding disconnect_id
disconnect rt s none = done (acknowledge true s [])
disconnect rt s (some req) = elim req.node_id [
  | none ↦ done (acknowledge true s [])
  | some id ↦
      if is_empty id.uuid then done (acknowledge true s []) else disconnect_id rt s id req.reason
]

abbrev pub joined : Bool → Service → List Delivery → Reply NotifyNodeJoinResp
joined b s calls = record { resp = record { acknowledged = b }; service = s; calls = calls }

-- The registration of a node that another node has told of.
unfoldable pub join_new : Runtime → Service → NodeInfo → NodeId → Reply NotifyNodeJoinResp
unfolding emit
join_new rt s info id =
    let (err, r) = Registry.register s.registry (some info) rt.active_at rt.registered_at in
    let (s', calls) =
      emit (with_registry s r) rt.callbacks_order
        (new_peer_discovered id.name (peer_addr info.addrs) id.uuid rt.emitted_at) in
    elim err [ some e ↦ joined false (with_registry s r) [] | none ↦ joined true s' calls ]

-- `NotifyNodeJoin` of an identity that is not empty: `s.selfInfo.Id.Uuid` panics where the
-- service has no identity.
unfoldable pub join_id : Runtime → Service → NodeInfo → NodeId → Outcome (Reply NotifyNodeJoinResp)
unfolding join_new
join_id rt s info id = deref s.self_info >>= λ self. deref self.id >>= λ self_id.
    if id.uuid == self_id.uuid
    then done (joined true s [])
    else if is_some (Registry.get s.registry id.uuid)
    then done (
        joined true (with_registry s (Registry.update_last_active s.registry id.uuid rt.active_at))
          [])
    else done (join_new rt s info id)

-- `req.NewNode.Id`, nil where `req` or `req.NewNode` is
abbrev pub join_request : Option NotifyNodeJoinReq → Option (NodeInfo × NodeId)
join_request none = none
join_request (some req) = elim req.new_node [
  | none ↦ none
  | some info ↦ elim info.id [ none ↦ none | some id ↦ some (info, id) ]
]

-- `NotifyNodeJoin`
unfoldable pub notify_node_join :
    Runtime → Service → Option NotifyNodeJoinReq → Outcome (Reply NotifyNodeJoinResp)
unfolding join_id
notify_node_join rt s req = elim (join_request req) [
  | none ↦ done (joined true s [])
  | some (info, id) ↦ if is_empty id.uuid then done (joined true s []) else join_id rt s info id
]
