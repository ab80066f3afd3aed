-- ===== src/Registry/Lookup.antt =====
-- What a registration, a deletion and the listings of internal/discovery/domain/registry.go mean
-- for a lookup by identity.
use p2ptest.Base.{
  ◌≡◌, refl, ◌==◌, ◌≢◌, str_eq, str_beq_iff, Str, false, none, some, is_empty, Returns, arith, ℕ,
  Option-cases, inl, inr, if◌then◌else◌,
}
use p2ptest.Base.Dict.{get-put, get-remove}
use p2ptest.Proto.{NodeId, NodeInfo}
use p2ptest.Registry.{
  Registry, get, is_online, get_last_active, get_registered_at, register, unregister, refresh,
}
use p2ptest.Registry.Invariant.{IsValid, online-enroll, active-enroll, registered-enroll}

-- `Register` of a peer with an identity that is neither empty nor the node's own: no error, the
-- peer is found under its identity, its last activity is the clock's reading, the time of its
-- registration is kept if it was there and is the second reading if not, and nothing changes
-- under another identity.
pub get-register :
    (r : Registry) (id : NodeId) (peer : NodeInfo) (now now' : ℕ) (k : Str)
    → peer.id ≡ some id
    → is_empty id.uuid ≡ false
    → id.uuid ≢ r.self_uuid
    → let (err, r') = register r (some peer) now now' in
      (err ≡ none)
      × (get r' k ≡ (if id.uuid == k then some peer else get r k))
      × (get_last_active r' k ≡ (if id.uuid == k then some now else get_last_active r k))
      × (get_registered_at r' k ≡ (
          if id.uuid == k
          then (if is_online r k then get_registered_at r k else some now')
          else get_registered_at r k))
unfolding register
get-register r id peer now now' k has ne other =
    let r' : Registry = refresh r id.uuid peer now in
    ground (
      arith,
      has,
      ne,
      str_beq_iff id.uuid r.self_uuid,
      str_beq_iff id.uuid k,
      online-enroll r' id peer now',
      active-enroll r' id peer now',
      registered-enroll r' id peer now',
      get-put r.online_peers id.uuid k peer,
      get-put r.last_active id.uuid k now,
      get-put r.registered_at id.uuid k now',
    )

-- `Unregister` on a valid registry returns whether the peer was there; after it the identity is in
-- none of the three maps, and every other identity keeps its peer and its times.
pub get-unregister :
    {r : Registry}
    → IsValid r
    → (uuid k : Str)
    → Returns
        (λ out.
          (out.0 ≡ is_online r uuid)
          × (get out.1 k ≡ (if uuid == k then none else get r k))
          × (get_last_active out.1 k ≡ (if uuid == k then none else get_last_active r k))
          × (get_registered_at out.1 k ≡ (if uuid == k then none else get_registered_at r k)))
        (unregister r uuid)
unfolding unregister
get-unregister {r} v uuid k = elim (Option-cases (get r uuid)) [
  | inl off ↦
      rw (off, unregister)
        (ground (arith, off, v.active uuid, v.registered uuid, str_beq_iff uuid k))
  | inr (p, on) ↦
      rw (on, unregister, (v.entry uuid p on).has_id)
        (refl, get-remove _ uuid k, get-remove _ uuid k, get-remove _ uuid k)
]
