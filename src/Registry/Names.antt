-- ===== src/Registry/Names.antt =====
-- The index of addresses by name of internal/discovery/domain/registry.go: `nameToAddrs`,
-- `addNameAddrUnlocked`, `cleanNameAddrUnlocked` and `GetAddrByName`.
use p2ptest.Base.{
  ◌≡◌, refl, ◌==◌, ◌≢◌, str_eq, str_beq_iff, Str, Bool, true, false, not, ◌&&◌, none, some, List,
  [], ◌∷◌, is_empty, Returns, arith, ℕ, Option-cases, inl, inr, done, if◌then◌else◌, subst, sym,
  get_or,
}
use p2ptest.Base.Dict
use p2ptest.Base.Dict.{Dict, get-put, get-remove, get-put_self, get-remove_self}
use p2ptest.Proto.{NodeId, NodeInfo, NodeAddr}
use p2ptest.Addr.{addr, get_peer_first_addr, format_node_addr}
use p2ptest.Registry.{
  Registry, get, addrs_at, addrs_of, has_addr, append_addr, add_name_addr, enroll, refresh,
  register, is_addr_of, keep_addrs, store_addrs, unregister, get_addr_by_name, is_online, head_addr,
  forget,
}
use p2ptest.Registry.Invariant.{IsEntry, IsValid}

addrs-store_addrs :
    (m : Dict Str (List Str)) (name k : Str) (xs : List Str)
    → addrs_at (Dict.get (store_addrs m name xs) k)
      ≡ (if name == k then xs else addrs_at (Dict.get m k))
addrs-store_addrs m name k [] = ground (arith, get-remove m name k)
addrs-store_addrs m name k (x ∷ xs) = ground (arith, get-put m name k (x ∷ xs))

has_addr-keep_addrs :
    (peer_addrs : List NodeAddr) (old : List Str) (a : Str)
    → has_addr (keep_addrs peer_addrs old) a ≡ has_addr old a && not (is_addr_of peer_addrs a)
unfolding has_addr keep_addrs
has_addr-keep_addrs peer_addrs [] a = refl
has_addr-keep_addrs peer_addrs (x ∷ xs) a =
    ground (arith, has_addr-keep_addrs peer_addrs xs a, str_beq_iff x a)

-- The registry after `Unregister` of a peer that is there.
abbrev cleaned : Registry → NodeInfo → NodeId → Str → Registry
cleaned r p id uuid =
    forget
      (record r {
        name_to_addrs =
            store_addrs r.name_to_addrs id.name (keep_addrs p.addrs (addrs_of r id.name));
      })
      uuid

unregister_known :
    (r : Registry) {p : NodeInfo} {id : NodeId} (uuid : Str)
    → get r uuid ≡ some p
    → p.id ≡ some id
    → unregister r uuid ≡ done (true, cleaned r p id uuid)
unfolding unregister
unregister_known r uuid on has = rw (on, unregister) (ground (arith, has))

-- `Unregister` of a peer that is online: under the peer's name exactly the peer's addresses
-- are gone, and every other name keeps its addresses.
pub has_addr-unregister :
    (r : Registry) {p : NodeInfo} {id : NodeId} (uuid k a : Str)
    → get r uuid ≡ some p
    → p.id ≡ some id
    → Returns
        (λ out. has_addr (addrs_of out.1 k) a ≡ (
          if id.name == k
          then has_addr (addrs_of r k) a && not (is_addr_of p.addrs a)
          else has_addr (addrs_of r k) a))
        (unregister r uuid)
has_addr-unregister r {p} {id} uuid k a on has =
    let kept : List Str = keep_addrs p.addrs (addrs_of r id.name) in
    rw (unregister_known r uuid on has) (
      ground (
        arith,
        addrs-store_addrs r.name_to_addrs id.name k kept,
        has_addr-keep_addrs p.addrs (addrs_of r id.name) a,
        str_beq_iff id.name k,
      ))

-- What a registration does to a peer that is there already: the index is not touched.
register_known :
    {r : Registry} (peer : NodeInfo) {id : NodeId} (now now' : ℕ)
    → IsValid r
    → peer.id ≡ some id
    → is_online r id.uuid ≡ true
    → register r (some peer) now now' ≡ (none, refresh r id.uuid peer now)
unfolding register
register_known {r} peer {id} now now' v has on = elim (Option-cases (get r id.uuid)) [
  | inl off ↦ ground (arith, off)
  | inr (p, at) ↦
      let e : IsEntry r.self_uuid id.uuid p = v.entry id.uuid p at in
      ground (arith, has, e.not_empty, e.not_self)
]

-- A peer that registers again under another name, and is then unregistered, leaves the addresses
-- of its old name behind: the name resolves as before, though the peer is gone.
pub rename_leaks :
    {r : Registry} (peer : NodeInfo) {id : NodeId} (now now' : ℕ) (old : Str)
    → IsValid r
    → peer.id ≡ some id
    → is_online r id.uuid ≡ true
    → id.name ≢ old
    → Returns
        (λ out. (get out.1 id.uuid ≡ none) × (get_addr_by_name out.1 old ≡ get_addr_by_name r old))
        (unregister (register r (some peer) now now').1 id.uuid)
unfolding get_addr_by_name
rename_leaks {r} peer {id} now now' old v has on ne =
    let r' : Registry = refresh r id.uuid peer now in
    let kept : List Str = keep_addrs peer.addrs (addrs_of r id.name) in
    let Gone = λ (out : Bool × Registry).
      (get out.1 id.uuid ≡ none) × (get_addr_by_name out.1 old ≡ get_addr_by_name r old) in
    subst (λ x. Returns Gone (unregister x.1 id.uuid)) (sym (register_known peer now now' v has on))
      (subst (Returns Gone)
        (sym (unregister_known r' id.uuid (get-put_self r.online_peers id.uuid peer) has))
        (
          get-remove_self r'.online_peers id.uuid,
          ground
              (arith, addrs-store_addrs r.name_to_addrs id.name old kept, str_beq_iff id.name old),
        ))

-- The first address of a list after one is added, and of a list that holds it.
head-append_addr : (xs : List Str) (a : Str) → head_addr (append_addr xs a) ≡ addr (get_or xs 0 a)
unfolding append_addr
head-append_addr [] a = refl
head-append_addr (x ∷ xs) a = refl

head-has_addr :
    (xs : List Str) (a : Str) → has_addr xs a ≡ true → head_addr xs ≡ addr (get_or xs 0 a)
unfolding has_addr
head-has_addr [] a h = cc
head-has_addr (x ∷ xs) a h = refl

addr-add_name_addr :
    (r : Registry) (name k a : Str)
    → get_addr_by_name (add_name_addr r name a) k
      ≡ (if name == k then addr (get_or (addrs_of r k) 0 a) else get_addr_by_name r k)
unfolding get_addr_by_name add_name_addr
addr-add_name_addr r name k a =
    let xs : List Str = addrs_of r name in
    ground (
      arith,
      get-put r.name_to_addrs name k (append_addr xs a),
      head-append_addr xs a,
      head-has_addr xs a,
      str_beq_iff name k,
    )

-- The registration of a peer that is not online and has an address makes its name resolve: to the
-- address that the name had before, if any, and to the peer's first address otherwise. Every
-- other name resolves as before.
pub addr-register :
    (r : Registry) (peer : NodeInfo) (id : NodeId) (a : NodeAddr) (rest : List NodeAddr)
    (now now' : ℕ) (k : Str)
    → peer.id ≡ some id
    → peer.addrs ≡ a ∷ rest
    → is_empty id.uuid ≡ false
    → id.uuid ≢ r.self_uuid
    → is_online r id.uuid ≡ false
    → get_addr_by_name (register r (some peer) now now').1 k ≡ (
        if id.name == k
        then addr (get_or (addrs_of r k) 0 (format_node_addr a.ip a.port))
        else get_addr_by_name r k)
unfolding register enroll get_peer_first_addr get_addr_by_name
addr-register r peer id a rest now now' k has first ne other off =
    let r' : Registry = refresh r id.uuid peer now in
    ground (
      arith,
      has,
      first,
      ne,
      off,
      str_beq_iff id.uuid r.self_uuid,
      addr-add_name_addr (record r' { registered_at = Dict.put r.registered_at id.uuid now' })
          id.name k (format_node_addr a.ip a.port),
    )
