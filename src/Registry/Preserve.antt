-- ===== src/Registry/Preserve.antt =====
-- Every operation of the registry of internal/discovery/domain/registry.go keeps its invariant,
-- and none of them panics on a valid registry.
use p2ptest.Base.{
  ◌≡◌, refl, ◌==◌, str_eq, str_beq_iff, Str, true, Option, none, some, List, [], ◌∷◌, is_some,
  is_empty, Returns, arith, ℕ, Bool-cases, Option-cases, inl, inr, Returns-bind, Outcome, done,
  ◌>>=◌,
}
use p2ptest.Base.Dict
use p2ptest.Base.Dict.{get-put, get-remove, put-IsMap, remove-IsMap}
use p2ptest.Proto.{NodeStatus, NodeId, NodeInfo}
use p2ptest.Registry.{
  Registry, new, refresh, enroll, register_id, register, unregister, update_last_active,
  update_status,
}
use p2ptest.Registry.Invariant.{
  IsEntry, IsValid, new-IsValid, status-IsEntry, put-IsEntry, remove-IsEntry, store_addrs-named,
  online-enroll, active-enroll, registered-enroll, self-enroll, named-enroll,
}

module _ {r : Registry} (v : IsValid r) where
  -- `UpdateLastActive` leaves a valid registry.
  pub update_last_active-IsValid : (uuid : Str) (now : ℕ) → IsValid (update_last_active r uuid now)
  unfolding update_last_active
  update_last_active-IsValid uuid now = elim (Bool-cases (is_some (Dict.get r.online_peers uuid))) [
    | inl on ↦ rw on (record {
      peers_map = v.peers_map;
      entry = v.entry;
      active =
          λ k. ground (arith, get-put r.last_active uuid k now, v.active k, str_beq_iff uuid k);
      registered = v.registered;
      named = v.named;
    })
    | inr off ↦ rw off v
  ]

  -- `UpdateStatus` leaves a valid registry.
  pub update_status-IsValid : (uuid : Str) (st : NodeStatus) → IsValid (update_status r uuid st).1
  unfolding update_status
  update_status-IsValid uuid st = elim (Option-cases (Dict.get r.online_peers uuid)) [
    | inl off ↦ rw (off, update_status) v
    | inr (p, on) ↦
        rw (on, update_status)
          (record {
            peers_map = put-IsMap r.online_peers uuid _ v.peers_map;
            entry = put-IsEntry r.online_peers uuid _ (status-IsEntry (v.entry uuid p on)) v.entry;
            active = λ k. ground (
              arith,
              get-put r.online_peers uuid k (record p { status = st }),
              v.active k,
              v.active uuid,
              str_beq_iff uuid k,
            );
            registered = λ k. ground (
              arith,
              get-put r.online_peers uuid k (record p { status = st }),
              v.registered k,
              v.registered uuid,
              str_beq_iff uuid k,
            );
            named = v.named;
          })
  ]

  -- `Unregister` never panics here, and leaves a valid registry.
  pub unregister-IsValid : (uuid : Str) → Returns (λ out. IsValid out.1) (unregister r uuid)
  unfolding unregister
  unregister-IsValid uuid = elim (Option-cases (Dict.get r.online_peers uuid)) [
    | inl off ↦ rw (off, unregister) v
    | inr (p, on) ↦
        rw (on, unregister, (v.entry uuid p on).has_id)
          (record {
            peers_map = remove-IsMap r.online_peers uuid v.peers_map;
            entry = remove-IsEntry r.online_peers uuid v.entry;
            active = λ k. ground (
              arith,
              get-remove r.online_peers uuid k,
              get-remove r.last_active uuid k,
              v.active k,
            );
            registered = λ k. ground (
              arith,
              get-remove r.online_peers uuid k,
              get-remove r.registered_at uuid k,
              v.registered k,
            );
            named = store_addrs-named r.name_to_addrs _ _ v.named;
          })
  ]

  module _ (id : NodeId) (peer : NodeInfo) (now now' : ℕ)
      (e : IsEntry r.self_uuid id.uuid peer) where
    refresh-IsValid :
        is_some (Dict.get r.online_peers id.uuid) ≡ true → IsValid (refresh r id.uuid peer now)
    refresh-IsValid on = record {
      peers_map = put-IsMap r.online_peers id.uuid peer v.peers_map;
      entry = put-IsEntry r.online_peers id.uuid peer e v.entry;
      active = λ k. ground (
        arith,
        get-put r.online_peers id.uuid k peer,
        get-put r.last_active id.uuid k now,
        v.active k,
      );
      registered = λ k.
          ground
            (arith, get-put r.online_peers id.uuid k peer, v.registered k, str_beq_iff id.uuid k);
      named = v.named;
    }

    enroll-IsValid : IsValid (enroll (refresh r id.uuid peer now) id peer now')
    enroll-IsValid =
        let r' : Registry = refresh r id.uuid peer now in
        record {
          peers_map =
              rw (online-enroll r' id peer now')
                (put-IsMap r.online_peers id.uuid peer v.peers_map);
          entry =
              rw (online-enroll r' id peer now', self-enroll r' id peer now')
                (put-IsEntry r.online_peers id.uuid peer e v.entry);
          active = λ k. ground (
            arith,
            online-enroll r' id peer now',
            active-enroll r' id peer now',
            get-put r.online_peers id.uuid k peer,
            get-put r.last_active id.uuid k now,
            v.active k,
          );
          registered = λ k. ground (
            arith,
            online-enroll r' id peer now',
            registered-enroll r' id peer now',
            get-put r.online_peers id.uuid k peer,
            get-put r.registered_at id.uuid k now',
            v.registered k,
          );
          named = named-enroll r' id peer now' v.named;
        }

  -- `Register` leaves a valid registry, whatever it is given.
  pub register-IsValid :
      (peer : Option NodeInfo) (now now' : ℕ) → IsValid (register r peer now now').1
  unfolding register
  register-IsValid none now now' = v
  register-IsValid (some peer) now now' = elim (Option-cases peer.id) [
    | inl anonymous ↦ rw (anonymous, register) v
    | inr (id, has) ↦ rw (has, register) (by_tests id has)
  ]
    where
      by_tests : (id : NodeId) → peer.id ≡ some id → IsValid (register_id r id peer now now').1
      by_tests id has = elim (Bool-cases (is_empty id.uuid)) [
        | inl e ↦ rw (e, register_id) v
        | inr ne ↦ elim (Bool-cases (id.uuid == r.self_uuid)) [
          | inl self ↦ rw (ne, register_id, self) v
          | inr other ↦
              let e : IsEntry r.self_uuid id.uuid peer = record {
                id = id;
                has_id = has;
                same_uuid = refl;
                not_empty = ne;
                not_self = other;
              } in
              elim (Bool-cases (is_some (Dict.get r.online_peers id.uuid))) [
                | inl on ↦ rw (ne, register_id, other, on) (refresh-IsValid id peer now now' e on)
                | inr off ↦ rw (ne, register_id, other, off) (enroll-IsValid id peer now now' e)
              ]
        ]
      ]

-- One call of a method that changes the registry, with the readings of the clock that it makes.
pub data Op : Type 0 where
  add : Option NodeInfo → ℕ → ℕ → Op
  drop : Str → Op
  touch : Str → ℕ → Op
  mark : Str → NodeStatus → Op

unfoldable pub step : Registry → Op → Outcome Registry
step r (add peer now now') = done (register r peer now now').1
step r (drop uuid) = unregister r uuid >>= λ out. done out.1
step r (touch uuid now) = done (update_last_active r uuid now)
step r (mark uuid st) = done (update_status r uuid st).1

unfoldable pub run : Registry → List Op → Outcome Registry
unfolding step
run r [] = done r
run r (op ∷ ops) = step r op >>= λ r'. run r' ops

step-IsValid : {r : Registry} (op : Op) → IsValid r → Returns IsValid (step r op)
unfolding step
step-IsValid (add peer now now') v = register-IsValid v peer now now'
step-IsValid {r} (drop uuid) v =
    Returns-bind (λ out. IsValid out.1) IsValid (unregister r uuid) _ (unregister-IsValid v uuid)
      (λ out h. h)
step-IsValid (touch uuid now) v = update_last_active-IsValid v uuid now
step-IsValid (mark uuid st) v = update_status-IsValid v uuid st

run_from-IsValid : {r : Registry} (ops : List Op) → IsValid r → Returns IsValid (run r ops)
unfolding run
run_from-IsValid [] v = v
run_from-IsValid {r} (op ∷ ops) v =
    Returns-bind IsValid IsValid (step r op) _ (step-IsValid op v)
      (λ r' v'. run_from-IsValid ops v')

-- Whatever calls are made of a new registry, in whatever order, none panics, and the registry
-- stays valid: its three maps agree, every peer is stored under its own identity, and no name is
-- left with an empty list of addresses.
pub run-IsValid : (self_uuid : Str) (ops : List Op) → Returns IsValid (run (new self_uuid) ops)
run-IsValid self_uuid ops = run_from-IsValid ops (new-IsValid self_uuid)
