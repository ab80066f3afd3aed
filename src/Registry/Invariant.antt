-- ===== src/Registry/Invariant.antt =====
-- The representation invariant of the registry of internal/discovery/domain/registry.go.
use p2ptest.Base.{
  ◌≡◌, refl, subst, ◌≢◌, ◌==◌, str_eq, str_beq_iff, Str, false, some, List, [], ◌∷◌, is_some,
  is_empty, arith, ℕ, Bool-cases, inl, inr,
}
use p2ptest.Base.Dict
use p2ptest.Base.Dict.{Dict, IsMap, get-put, get-remove, get-empty, put-IsMap, remove-IsMap}
use p2ptest.Proto.{NodeStatus, NodeId, NodeInfo}
use p2ptest.Addr.{addr, failed, get_peer_first_addr}
use p2ptest.Registry.{Registry, new, addrs_of, append_addr, add_name_addr, enroll, store_addrs}

-- What is stored under `uuid` has that identity, and is not the node itself.
pub record IsEntry (self_uuid uuid : Str) (p : NodeInfo) : Type 0 where
  pub id : NodeId
  pub has_id : p.id ≡ some id
  pub same_uuid : id.uuid ≡ uuid
  pub not_empty : is_empty uuid ≡ false
  pub not_self : (uuid == self_uuid) ≡ false

-- No name has an empty list of addresses.
abbrev pub HasNamed : Dict Str (List Str) → Type 0
HasNamed m = (k : Str) → Dict.get m k ≢ some []

-- The three maps of a peer have the same keys, every peer is stored under its own identity, and
-- no name has an empty list of addresses.
pub record IsValid (r : Registry) : Type 0 where
  pub peers_map : IsMap r.online_peers
  pub entry :
      (k : Str) (p : NodeInfo) → Dict.get r.online_peers k ≡ some p → IsEntry r.self_uuid k p
  pub active : (k : Str) → is_some (Dict.get r.last_active k) ≡ is_some (Dict.get r.online_peers k)
  pub registered :
      (k : Str) → is_some (Dict.get r.registered_at k) ≡ is_some (Dict.get r.online_peers k)
  pub named : HasNamed r.name_to_addrs

-- A registry just made is valid.
pub new-IsValid : (self_uuid : Str) → IsValid (new self_uuid)
unfolding new Dict.empty Dict.get Dict.lookup
new-IsValid self_uuid = record {
  peers_map = tt;
  entry = λ k p h. cc;
  active = λ k. refl;
  registered = λ k. refl;
  named = λ k h. cc;
}

-- The status is no part of what an entry must be.
pub status-IsEntry :
    {self_uuid uuid : Str} {p : NodeInfo} {st : NodeStatus}
    → IsEntry self_uuid uuid p
    → IsEntry self_uuid uuid (record p { status = st })
status-IsEntry e = record {
  id = e.id;
  has_id = e.has_id;
  same_uuid = e.same_uuid;
  not_empty = e.not_empty;
  not_self = e.not_self;
}

-- The entries after a write, and after a deletion.
module _ {self_uuid : Str} (d : Dict Str NodeInfo) (uuid : Str) where
  pub put-IsEntry :
      (peer : NodeInfo)
      → IsEntry self_uuid uuid peer
      → ((k : Str) (p : NodeInfo) → Dict.get d k ≡ some p → IsEntry self_uuid k p)
      → (k : Str) (p : NodeInfo) → Dict.get (Dict.put d uuid peer) k ≡ some p
      → IsEntry self_uuid k p
  put-IsEntry peer e old k p h = elim (Bool-cases (uuid == k)) [
    | inl same ↦
        subst (IsEntry self_uuid k) (ground (arith, get-put d uuid k peer))
          (subst (λ u. IsEntry self_uuid u peer) ((str_beq_iff uuid k).0 same) e)
    | inr other ↦ old k p (ground (arith, get-put d uuid k peer))
  ]

  pub remove-IsEntry :
      ((k : Str) (p : NodeInfo) → Dict.get d k ≡ some p → IsEntry self_uuid k p)
      → (k : Str) (p : NodeInfo) → Dict.get (Dict.remove d uuid) k ≡ some p
      → IsEntry self_uuid k p
  remove-IsEntry old k p h = old k p (ground (arith, get-remove d uuid k))

append_addr-ne : (xs : List Str) (a : Str) → append_addr xs a ≢ []
unfolding append_addr
append_addr-ne [] a h = cc
append_addr-ne (x ∷ xs) a h = cc

pub add_name_addr-named :
    (r : Registry) (name a : Str)
    → HasNamed r.name_to_addrs
    → HasNamed (add_name_addr r name a).name_to_addrs
unfolding add_name_addr
add_name_addr-named r name a old k h =
    let new_addrs = append_addr (addrs_of r name) a in
    ground
      (arith, old k, get-put r.name_to_addrs name k new_addrs, append_addr-ne (addrs_of r name) a)

pub store_addrs-named :
    (m : Dict Str (List Str)) (name : Str) (xs : List Str)
    → HasNamed m
    → HasNamed (store_addrs m name xs)
store_addrs-named m name [] old k h = ground (arith, old k, get-remove m name k)
store_addrs-named m name (x ∷ xs) old k h = ground (arith, old k, get-put m name k (x ∷ xs))

-- What a registration that finds no such peer changes.
module _ (r : Registry) (id : NodeId) (peer : NodeInfo) (now : ℕ) where
  pub online-enroll : (enroll r id peer now).online_peers ≡ r.online_peers
  unfolding enroll add_name_addr
  online-enroll = ground arith

  pub active-enroll : (enroll r id peer now).last_active ≡ r.last_active
  unfolding enroll add_name_addr
  active-enroll = ground arith

  pub registered-enroll :
      (enroll r id peer now).registered_at ≡ Dict.put r.registered_at id.uuid now
  unfolding enroll add_name_addr
  registered-enroll = ground arith

  pub self-enroll : (enroll r id peer now).self_uuid ≡ r.self_uuid
  unfolding enroll add_name_addr
  self-enroll = ground arith

  pub named-enroll : HasNamed r.name_to_addrs → HasNamed (enroll r id peer now).name_to_addrs
  unfolding enroll
  named-enroll old =
      elim (get_peer_first_addr (some peer))
        as (λ res.
          HasNamed
            (elim res as (λ _. Registry) [
              | addr a ↦
                  add_name_addr (record r { registered_at = Dict.put r.registered_at id.uuid now })
                    id.name a
              | failed e ↦ record r { registered_at = Dict.put r.registered_at id.uuid now }
            ]).name_to_addrs) [
              | addr a ↦
                  add_name_addr-named
                    (record r { registered_at = Dict.put r.registered_at id.uuid now }) id.name a
                    old
              | failed e ↦ old
            ]
