-- ===== src/Membership/Heartbeats.antt =====
-- What heartbeats do in internal/membership/application/service.go.
use p2ptest.Base.{
  ℕ, Str, str_eq, ◌==◌, true, false, if◌then◌else◌, is_empty, some, ◌≡◌, arith, str_beq_iff,
}
use p2ptest.Proto.{unknown, NodeId, NodeInfo, HeartbeatReq}
use p2ptest.Crypto.{Ed25519, verify, heartbeat_sign_data}
use p2ptest.Registry
use p2ptest.Registry.{Registry}
use p2ptest.Crypto.{IsEd25519, Identity, public_key, sign}
use p2ptest.Crypto.Signing.{verify-sign}
use p2ptest.Membership.{Service}
use p2ptest.Membership.Effects.{has_public_key}
use p2ptest.Base.Dict.{Visit, IsVisit, get-put}
use p2ptest.Registry.{get_last_active, get_stale, is_stale, is_online, update_last_active}
use p2ptest.Registry.Invariant.{IsValid}
use p2ptest.Registry.Preserve.{update_last_active-IsValid}
use p2ptest.Registry.Stale.{mem-get_stale}
use p2ptest.Membership.{heartbeat, own_status, heartbeat_resp}
use p2ptest.Base.{◌&&◌, ◌+◌, ◌≤◌, Bool, Mem, subst, sym}

-- `UpdateLastActive` touches the activity of a peer that is online, and nothing else.
touched :
    (r : Registry) (uuid : Str) (now : ℕ) (k : Str)
    → (Registry.get (update_last_active r uuid now) k ≡ Registry.get r k)
      × (get_last_active (update_last_active r uuid now) k
          ≡ (if uuid == k && is_online r uuid then some now else get_last_active r k))
unfolding update_last_active
touched r uuid now k = ground (arith, get-put r.last_active uuid k now)

-- A heartbeat changes no stored peer, and no activity but that of the identity that it names, if
-- that is online: to the time of its arrival.
pub heartbeat_effects :
    (e : Ed25519) (now : ℕ) (s : Service) (req : HeartbeatReq) (id : NodeId) (k : Str)
    → req.node_id ≡ some id
    → let s' = (heartbeat e now s (some req)).1 in
      (Registry.get s'.registry k ≡ Registry.get s.registry k)
      × (get_last_active s'.registry k ≡ (
          if id.uuid == k && is_online s.registry id.uuid
          then some now
          else get_last_active s.registry k))
unfolding heartbeat
heartbeat_effects e now s req id k has = ground (arith, has, touched s.registry id.uuid now k)

-- What a heartbeat whose signature does not verify does.
forged_heartbeat_counts :
    (e : Ed25519) (now : ℕ) (s : Service) (req : HeartbeatReq) (id : NodeId)
    → req.node_id ≡ some id
    → is_empty req.signature ≡ false
    → verify e id.public_key (heartbeat_sign_data id.uuid req.timestamp) req.signature ≡ false
    → is_online s.registry id.uuid ≡ true
    → ((heartbeat e now s (some req)).0.status ≡ unknown)
      × (get_last_active (heartbeat e now s (some req)).1.registry id.uuid ≡ some now)
unfolding heartbeat
forged_heartbeat_counts e now s req id has signed bad on = ground (
  arith,
  has,
  signed,
  bad,
  on,
  touched s.registry id.uuid now id.uuid,
  str_beq_iff id.uuid id.uuid,
)

registry-heartbeat :
    (e : Ed25519) (now : ℕ) (s : Service) (req : HeartbeatReq) (id : NodeId)
    → req.node_id ≡ some id
    → (heartbeat e now s (some req)).1.registry ≡ update_last_active s.registry id.uuid now
unfolding heartbeat
registry-heartbeat e now s req id has = ground (arith, has)

recent :
    (last later threshold : ℕ)
    → later ≤ last + threshold
    → is_stale (some last) later threshold ≡ false
recent last later threshold h = ground (arith, h)

true-false : {b : Bool} → b ≡ true → b ≡ false → ⊥
true-false p q = cc

-- A heartbeat that names a peer that is online, with a signature that is not empty and does not verify, at
-- a service with a valid registry: it is answered with the status unknown, and still counts as activity, so that
-- `GetStale` does not list the peer until the threshold has passed again since it came.
pub forged_heartbeat_refreshes :
    (e : Ed25519) (now : ℕ) (s : Service) (req : HeartbeatReq) (id : NodeId)
    (visit : Visit (Str × NodeInfo)) (later threshold : ℕ)
    → IsValid s.registry
    → IsVisit visit
    → req.node_id ≡ some id
    → is_empty req.signature ≡ false
    → verify e id.public_key (heartbeat_sign_data id.uuid req.timestamp) req.signature ≡ false
    → is_online s.registry id.uuid ≡ true
    → later ≤ now + threshold
    → let out = heartbeat e now s (some req) in
      (out.0.status ≡ unknown)
      × (get_last_active out.1.registry id.uuid ≡ some now)
      × ¬ (Mem id.uuid (get_stale out.1.registry visit later threshold))
forged_heartbeat_refreshes e now s req id visit later threshold v once has signed bad on soon =
    let counts = forged_heartbeat_counts e now s req id has signed bad on in
    let r : Registry = (heartbeat e now s (some req)).1.registry in
    let w : IsValid r =
      subst IsValid (sym (registry-heartbeat e now s req id has))
        (update_last_active-IsValid v id.uuid now) in
    (
      counts.0,
      counts.1,
      λ m.
          true-false
            (subst (λ o. is_stale o later threshold ≡ true) counts.1
              ((mem-get_stale visit later threshold id.uuid w once).0 m).1)
            (recent now later threshold soon),
    )

-- The same heartbeat delivered again at any later time is answered as the first time, and counts
-- as activity again, however old its timestamp is.
pub replayed_heartbeat :
    (e : Ed25519) (now later : ℕ) (s : Service) (req : HeartbeatReq) (id : NodeId)
    → req.node_id ≡ some id
    → is_online s.registry id.uuid ≡ true
    → let first = heartbeat e now s (some req) in
      let second = heartbeat e later first.1 (some req) in
      (second.0 ≡ first.0) × (get_last_active second.1.registry id.uuid ≡ some later)
unfolding heartbeat
replayed_heartbeat e now later s req id has on =
    let r' : Registry = update_last_active s.registry id.uuid now in
    ground (
      arith,
      has,
      on,
      touched s.registry id.uuid now id.uuid,
      touched r' id.uuid later id.uuid,
      str_beq_iff id.uuid id.uuid,
    )

-- A heartbeat signed with the key whose public key it carries is answered with the node's own
-- status and the heartbeat's timestamp.
pub genuine_heartbeat :
    (e : Ed25519) (now : ℕ) (s : Service) (sender : Identity) (uuid name : Str) (timestamp : ℕ)
    → IsEd25519 e
    → let id : NodeId = record { uuid = uuid; name = name; public_key = public_key e sender } in
      let req : HeartbeatReq = record {
        node_id = some id;
        timestamp = timestamp;
        signature = sign e sender (heartbeat_sign_data uuid timestamp);
      } in
      (heartbeat e now s (some req)).0 ≡ heartbeat_resp (own_status s) timestamp
unfolding heartbeat
genuine_heartbeat e now s sender uuid name timestamp law =
    ground (
      arith,
      has_public_key law sender,
      verify-sign law sender (heartbeat_sign_data uuid timestamp),
    )
