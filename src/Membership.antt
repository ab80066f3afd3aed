-- ===== src/Membership.antt =====
-- internal/membership/application/service.go: the Membership service. A handler takes the state
-- of the service and the readings of the clock and visiting orders of its run, and returns its
-- response, the new state, and the calls of the notifier's callbacks that it made, in their order.
-- The error of a handler is always nil. Its log lines and the unused `cfg` are left out.
pub mod Leave
pub mod Accepting
pub mod Effects
pub mod Heartbeats
pub mod Departures
pub mod Keeping
mod Tests
use p2ptest.Base.{
  ℕ, ◌<◌, ltb, Str, lit, str_eq, ◌==◌, Bool, true, false, not, if◌then◌else◌, is_some, is_empty,
  Option, none, some, List, [], ◌++◌, length, Outcome, done, ◌>>=◌, deref,
}
use p2ptest.Base.Dict.{Visit}
use p2ptest.Proto.{
  NodeStatus, unknown, online, offline, NodeId, NodeAddr, NodeInfo, HandshakeReq, HandshakeResp,
  HeartbeatReq, HeartbeatResp, DisconnectReq, DisconnectResp, NotifyNodeJoinReq, NotifyNodeJoinResp,
}
use p2ptest.Addr.{Error, message, first_addr}
use p2ptest.Crypto.{Ed25519, verify, handshake_sign_data, heartbeat_sign_data}
use p2ptest.Notification.{Notification, new_peer_online, new_peer_offline, new_peer_discovered}
use p2ptest.Notifier
use p2ptest.Notifier.{Notifier, Callback, Delivery}
use p2ptest.Registry
use p2ptest.Registry.{Registry}

-- `MembershipService`. `statusGetter` holds nothing, or a function, which may read the status in
-- the shared `selfInfo`.
pub record Service : Type 0 where
  pub registry : Registry
  pub self_info : Option NodeInfo
  pub notifier : Option Notifier
  pub status_getter : Option (Option NodeInfo → NodeStatus)

-- `NewMembershipService`
unfoldable pub new_service : Registry → Option NodeInfo → Option Notifier → Service
new_service registry self_info notifier = record {
  registry = registry;
  self_info = self_info;
  notifier = notifier;
  status_getter = if is_some self_info then some (λ s. online) else none;
}

-- `SetStatusGetter`
unfoldable pub set_status_getter : Service → (Option NodeInfo → NodeStatus) → Service
set_status_getter s fn = record s { status_getter = some fn }

-- What a run of a handler meets: the readings of the clock, in the order in which they are made,
-- and the order of each `range` over a map.
pub record Runtime : Type 0 where
  pub active_at : ℕ
  pub registered_at : ℕ
  pub emitted_at : ℕ
  pub emitted_again_at : ℕ
  pub peers_order : Visit (Str × NodeInfo)
  pub callbacks_order : Visit (ℕ × Callback)
  pub callbacks_order_again : Visit (ℕ × Callback)

pub record Reply (A : Type 0) : Type 0 where
  pub resp : A
  pub service : Service
  pub calls : List Delivery

-- `fmt.Sprintf("%s:%d", …)` of the first address, "" where there is none
abbrev pub peer_addr : List NodeAddr → Str
peer_addr addrs = elim (first_addr addrs) [ none ↦ [] | some a ↦ a ]

-- `if s.notifier != nil { s.notifier.Emit(…) }`
unfoldable pub emit : Service → Visit (ℕ × Callback) → Notification → Service × List Delivery
emit s visit x = elim s.notifier [
  | none ↦ (s, [])
  | some n ↦ (record s { notifier = some (Notifier.emit n visit x).0 }, (Notifier.emit n visit x).1)
]

abbrev pub with_registry : Service → Registry → Service
with_registry s r = record s { registry = r }

abbrev pub reject : Service → Str → Reply HandshakeResp
reject s reason = record {
  resp = record { peer = none; known_peers = []; accepted = false; reject_reason = reason };
  service = s;
  calls = [];
}

-- The answer once the peer is registered, and the two notifications.
unfoldable pub accept : Runtime → Service → NodeInfo → NodeId → Reply HandshakeResp
unfolding emit
accept rt s info id =
    let known = Registry.list s.registry rt.peers_order in
    let addr = peer_addr info.addrs in
    let (s', calls) = emit s rt.callbacks_order (new_peer_online id.name addr rt.emitted_at) in
    let (s'', calls') =
      emit s' rt.callbacks_order_again
        (new_peer_discovered id.name addr id.uuid rt.emitted_again_at) in
    let resp : HandshakeResp = record {
      peer = s.self_info;
      known_peers = known;
      accepted = true;
      reject_reason = [];
    } in
    if ltb 0 (length known)
    then record { resp = resp; service = s''; calls = calls ++ calls' }
    else record { resp = resp; service = s'; calls = calls }

-- The registration of the peer, and the rest of the handler.
unfoldable pub admit : Runtime → Service → NodeInfo → NodeId → Reply HandshakeResp
admit rt s info id =
    let (err, r) = Registry.register s.registry (some info) rt.active_at rt.registered_at in
    elim err [
      | some e ↦ reject (with_registry s r) (message e)
      | none ↦ accept rt (with_registry s r) info id
    ]

-- The test of the signature, if there is one.
unfoldable pub check_handshake :
    Ed25519 → Runtime → Service → HandshakeReq → NodeInfo → NodeId → Reply HandshakeResp
check_handshake e rt s req info id =
    if not (is_empty req.signature)
    then (if is_empty id.public_key
        then reject s (lit "public_key required when signature present")
        else if not (verify e id.public_key (handshake_sign_data id.uuid) req.signature)
        then reject s (lit "invalid signature")
        else admit rt s info id)
    else admit rt s info id

-- `req.Self.Id`, nil where `req` or `req.Self` is
abbrev pub handshake_id : Option HandshakeReq → Option (HandshakeReq × NodeInfo × NodeId)
handshake_id none = none
handshake_id (some req) = elim req.self [
  | none ↦ none
  | some info ↦ elim info.id [ none ↦ none | some id ↦ some (req, info, id) ]
]

-- `Handshake`
unfoldable pub handshake : Ed25519 → Runtime → Service → Option HandshakeReq → Reply HandshakeResp
unfolding check_handshake
handshake e rt s req = elim (handshake_id req) [
  | none ↦ reject s (lit "invalid handshake request")
  | some (req', info, id) ↦
      if is_empty id.uuid
      then reject s (lit "invalid handshake request")
      else check_handshake e rt s req' info id
]

abbrev pub heartbeat_resp : NodeStatus → ℕ → HeartbeatResp
heartbeat_resp status timestamp = record { status = status; timestamp = timestamp }

-- The status that an accepted heartbeat is answered with.
abbrev pub own_status : Service → NodeStatus
own_status s = elim s.status_getter [ none ↦ online | some fn ↦ fn s.self_info ]

unfoldable pub heartbeat_answer : Ed25519 → Service → HeartbeatReq → NodeId → HeartbeatResp
heartbeat_answer e s req id =
    if not (is_empty req.signature)
    then (if is_empty id.public_key
        then heartbeat_resp unknown 0
        else if not
            (verify e id.public_key (heartbeat_sign_data id.uuid req.timestamp) req.signature)
        then heartbeat_resp unknown 0
        else heartbeat_resp (own_status s) req.timestamp)
    else heartbeat_resp (own_status s) req.timestamp

-- `Heartbeat`, at the time `now`: the update of the activity stands before the test of the
-- signature.
unfoldable pub heartbeat : Ed25519 → ℕ → Service → Option HeartbeatReq → HeartbeatResp × Service
unfolding heartbeat_answer
heartbeat e now s none = (heartbeat_resp unknown 0, s)
heartbeat e now s (some req) = elim req.node_id [
  | none ↦ (heartbeat_resp unknown 0, s)
  | some id ↦
      let s' = with_registry s (Registry.update_last_active s.registry id.uuid now) in
      (heartbeat_answer e s' req id, s')
]
