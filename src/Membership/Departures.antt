-- ===== src/Membership/Departures.antt =====
-- What the departure and the arrival of a peer do in internal/membership/application/service.go.
use mathlib.Core.Option
use p2ptest.Base.{
  Str, str_eq, ◌==◌, true, false, if◌then◌else◌, is_some, is_empty, none, some, ◌≡◌, ◌≢◌, arith,
  ◌&&◌, not, ◌∙◌, sym, Option-cases, Bool-cases, inl, inr, str_beq_iff, Returns, Returns-bind,
  Returns-both,
}
use p2ptest.Base.Dict.{get-put}
use p2ptest.Proto.{offline, NodeId, NodeInfo, DisconnectReq, DisconnectResp, NotifyNodeJoinReq}
use p2ptest.Notification.{new_peer_offline, new_peer_discovered}
use p2ptest.Notifier
use p2ptest.Notifier.{Notifier}
use p2ptest.Registry
use p2ptest.Registry.{Registry, get, get_last_active, is_online, update_status, unregister}
use p2ptest.Registry.Invariant.{IsValid}
use p2ptest.Registry.Preserve.{update_status-IsValid, unregister-IsValid}
use p2ptest.Registry.Lookup.{get-unregister, get-register}
use p2ptest.Membership.{Service, Runtime, Reply, emit, peer_addr}
use p2ptest.Membership.Leave.{disconnect_id, disconnect, notify_node_join}

-- The registry as `Disconnect` finds it before it unregisters.
abbrev pub marked : Registry → Str → Registry
marked r uuid = if is_some (get r uuid) then (update_status r uuid offline).1 else r

pub marked-IsValid : {r : Registry} (v : IsValid r) (uuid : Str) → IsValid (marked r uuid)
marked-IsValid {r} v uuid = elim (Bool-cases (is_some (get r uuid))) [
  | inl on ↦ rw on (update_status-IsValid v uuid offline)
  | inr off ↦ rw off v
]

-- It is online as before, and no other peer has changed.
get-marked :
    (r : Registry) (uuid k : Str)
    → (is_online (marked r uuid) k ≡ is_online r k)
      × (get_last_active (marked r uuid) k ≡ get_last_active r k)
      × ((uuid == k) ≡ false → get (marked r uuid) k ≡ get r k)
unfolding update_status
get-marked r uuid k = elim (Option-cases (get r uuid)) [
  | inl off ↦ ground (arith, off)
  | inr (p, on) ↦
      ground (
        arith,
        on,
        get-put r.online_peers uuid k (record p { status = offline }),
        str_beq_iff uuid k,
      )
]

-- The notifier after the departure of a peer.
abbrev pub parted : Runtime → NodeId → Str → Notifier → Notifier
parted rt id reason n =
    (Notifier.emit n rt.callbacks_order (new_peer_offline id.name reason rt.emitted_at)).0

-- What is promised of the reply to a disconnection.
abbrev pub HasParted : Runtime → Service → NodeId → Str → Str → Reply DisconnectResp → Type 0
HasParted rt s id reason k reply =
    (reply.resp.acknowledged ≡ true)
    × (get reply.service.registry k ≡ (if id.uuid == k then none else get s.registry k))
    × (get_last_active reply.service.registry k
        ≡ (if id.uuid == k then none else get_last_active s.registry k))
    × IsValid reply.service.registry
    × (reply.service.notifier ≡ (
        if is_online s.registry id.uuid
        then Option.map (parted rt id reason) s.notifier
        else s.notifier))

disconnect_named :
    (rt : Runtime) (s : Service) (id : NodeId) (reason k : Str)
    → IsValid s.registry
    → Returns (HasParted rt s id reason k) (disconnect_id rt s id reason)
unfolding disconnect_id emit
disconnect_named rt s id reason k v =
    let r : Registry = marked s.registry id.uuid in
    let w : IsValid r = marked-IsValid v id.uuid in
    Returns-bind _ (HasParted rt s id reason k) (unregister r id.uuid) _
      (Returns-both _ _ (unregister r id.uuid) (get-unregister w id.uuid k)
        (unregister-IsValid w id.uuid))
      (λ out h.
        ground (arith, h, get-marked s.registry id.uuid k, get-marked s.registry id.uuid id.uuid))

-- A disconnection of a named peer on a valid registry returns, and is acknowledged. The peer is
-- then gone with its activity, every other one is as it was, the registry is valid, and the
-- departure is emitted exactly if the peer was there.
pub disconnect_effects :
    (rt : Runtime) (s : Service) (req : DisconnectReq) (id : NodeId) (k : Str)
    → IsValid s.registry
    → req.node_id ≡ some id
    → is_empty id.uuid ≡ false
    → Returns (HasParted rt s id req.reason k) (disconnect rt s (some req))
unfolding disconnect
disconnect_effects rt s req id k v has ne = rw (has, ne) (disconnect_named rt s id req.reason k v)

-- The notifier after the arrival of a peer that was not known.
abbrev pub announced : Runtime → NodeInfo → NodeId → Notifier → Notifier
announced rt info id n =
    (Notifier.emit n rt.callbacks_order
      (new_peer_discovered id.name (peer_addr info.addrs) id.uuid rt.emitted_at)).0

-- The announcement of another node is acknowledged. A node that was not known is stored as it was
-- announced and the discovery is emitted; what is stored of a node that was known stays, and
-- nothing is emitted. Both count as activity of that node, and no other node is affected.
pub join_effects :
    (rt : Runtime) (s : Service) (req : NotifyNodeJoinReq) (self info : NodeInfo)
    (self_id id : NodeId) (k : Str)
    → s.self_info ≡ some self
    → self.id ≡ some self_id
    → self_id.uuid ≡ s.registry.self_uuid
    → req.new_node ≡ some info
    → info.id ≡ some id
    → is_empty id.uuid ≡ false
    → id.uuid ≢ self_id.uuid
    → Returns
        (λ reply.
          (reply.resp.acknowledged ≡ true)
          × (get reply.service.registry k ≡ (
              if id.uuid == k && not (is_online s.registry k) then some info else get s.registry k))
          × (get_last_active reply.service.registry k
              ≡ (if id.uuid == k then some rt.active_at else get_last_active s.registry k))
          × (reply.service.notifier ≡ (
              if is_online s.registry id.uuid
              then s.notifier
              else Option.map (announced rt info id) s.notifier)))
        (notify_node_join rt s (some req))
unfolding notify_node_join Registry.update_last_active emit
join_effects rt s req self info self_id id k has_self has_self_id same has_node has_id ne other =
    ground (
      arith,
      has_self,
      has_self_id,
      same,
      has_node,
      has_id,
      ne,
      str_beq_iff id.uuid self_id.uuid,
      str_beq_iff id.uuid k,
      get-put s.registry.last_active id.uuid k rt.active_at,
      get-register s.registry id info rt.active_at rt.registered_at k has_id ne
          (λ e. other (e ∙ sym same)),
    )
