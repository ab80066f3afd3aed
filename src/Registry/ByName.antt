-- ===== src/Registry/ByName.antt =====
-- `GetByName` of internal/discovery/domain/registry.go.
use mathlib.Core.List.{mem-cons, not-mem-nil}
use mathlib.Core.Logic.Or
use mathlib.Core.HLevel.{⊥_prop}
use mathlib.Core.List.Perm
use p2ptest.Base.{
  ◌≡◌, refl, ◌==◌, ◌≢◌, str_eq, str_beq_iff, Str, Option, none, some, List, [], ◌∷◌, Returns, arith,
  Bool-cases, inl, inr, done, Mem, if◌then◌else◌, ap, sym, ◌∙◌, subst, Returns-weaken,
}
use p2ptest.Base.Dict.{mem-entries, Visit, IsVisit}
use p2ptest.Proto.{NodeId, NodeInfo}
use p2ptest.Registry.{Registry, get, first_by_name, get_by_name}
use p2ptest.Registry.Invariant.{IsEntry, IsValid}

pub NodeInfo-set : IsSet (Option NodeInfo)
NodeInfo-set = hlevel

-- What is visited is what is stored.
module _ {r : Registry} (v : IsValid r) (visit : Visit (Str × NodeInfo))
    (once : IsVisit visit) where
  pub visited_sound :
      (k : Str) (p : NodeInfo) → Mem (k, p) (visit r.online_peers.entries) → get r k ≡ some p
  visited_sound k p m =
      (mem-entries NodeInfo-set r.online_peers k p v.peers_map).0 ((Perm.mem_iff (once _)).0 m)

  pub visited_complete :
      (k : Str) (p : NodeInfo) → get r k ≡ some p → Mem (k, p) (visit r.online_peers.entries)
  visited_complete k p at =
      (Perm.mem_iff (once _)).1 ((mem-entries NodeInfo-set r.online_peers k p v.peers_map).1 at)

id_name : {a b : NodeId} {name : Str} → some a ≡ some b → b.name ≡ name → a.name ≡ name
id_name p q = ground arith

-- What `GetByName` may return.
abbrev pub Finds : Registry → Str → Option NodeInfo → Type 0
Finds r name none =
    (k : Str) (p : NodeInfo) (id : NodeId) → get r k ≡ some p → p.id ≡ some id → id.name ≢ name
Finds r name (some p) =
    (id : NodeId) × (p.id ≡ some id) × (id.name ≡ name) × (get r id.uuid ≡ some p)

module _ {r : Registry} (v : IsValid r) (name : Str) where
  -- The same of the entries that are still to be visited.
  abbrev FindsIn : List (Str × NodeInfo) → Option NodeInfo → Type 0
  FindsIn l none =
      (k : Str) (p : NodeInfo) (id : NodeId) → Mem (k, p) l → p.id ≡ some id → id.name ≢ name
  FindsIn l (some p) = Finds r name (some p)

  visited :
      (visit : Visit (Str × NodeInfo))
      → IsVisit visit
      → (o : Option NodeInfo) → FindsIn (visit r.online_peers.entries) o
      → Finds r name o
  visited visit once (some p) h = h
  visited visit once none h = λ k p id at has. h k p id (visited_complete v visit once k p at) has

  -- The first entry does not bear the name.
  FindsIn-cons :
      (k : Str) (p : NodeInfo) (id : NodeId) (l : List (Str × NodeInfo))
      → p.id ≡ some id
      → id.name ≢ name
      → (o : Option NodeInfo) → FindsIn l o
      → FindsIn ((k, p) ∷ l) o
  FindsIn-cons k p id l has ne (some q) h = h
  FindsIn-cons k p id l has ne none h = λ j q id' m has' same.
      Or.elim ⊥_prop (mem-cons.0 m)
        (λ e. ne (id_name (sym has ∙ ap (λ t. t.1.id) (sym e) ∙ has') same))
        (λ m'. h j q id' m' has' same)

  first_by_name_head :
      (k : Str) (p : NodeInfo) (id : NodeId) (l : List (Str × NodeInfo))
      → p.id ≡ some id
      → first_by_name name ((k, p) ∷ l)
        ≡ (if id.name == name then done (some p) else first_by_name name l)
  unfolding first_by_name
  first_by_name_head k p id l has = ground (arith, has)

  first_by_name-Finds :
      (l : List (Str × NodeInfo))
      → ((k : Str) (p : NodeInfo) → Mem (k, p) l → get r k ≡ some p)
      → Returns (FindsIn l) (first_by_name name l)
  unfolding first_by_name
  first_by_name-Finds [] from = λ k p id m. absurd (not-mem-nil m)
  first_by_name-Finds ((k, p) ∷ l) from =
      let at : get r k ≡ some p = from k p (mem-cons.1 (Or.inl refl)) in
      let e : IsEntry r.self_uuid k p = v.entry k p at in
      let ih : Returns (FindsIn l) (first_by_name name l) =
        first_by_name-Finds l (λ j q m. from j q (mem-cons.1 (Or.inr m))) in
      subst (Returns (FindsIn ((k, p) ∷ l))) (sym (first_by_name_head k p e.id l e.has_id))
        (elim (Bool-cases (e.id.name == name)) [
          | inl same ↦ rw same (
            e.id,
            e.has_id,
            (str_beq_iff e.id.name name).0 same,
            subst (λ u. get r u ≡ some p) (sym e.same_uuid) at,
          )
          | inr ne ↦ rw ne (
              Returns-weaken (FindsIn l) (FindsIn ((k, p) ∷ l)) (first_by_name name l) ih (
                FindsIn-cons k p e.id l e.has_id (λ q. ground (arith, str_beq_iff e.id.name name))))
        ])

  -- `GetByName` on a valid registry does not panic, whatever the visiting order: what it returns
  -- is a peer of that name that is online, and it returns none only if no peer online has the name.
  pub get_by_name-Finds :
      (visit : Visit (Str × NodeInfo))
      → IsVisit visit
      → Returns (Finds r name) (get_by_name r visit name)
  unfolding get_by_name
  get_by_name-Finds visit once =
      let l : List (Str × NodeInfo) = visit r.online_peers.entries in
      Returns-weaken (FindsIn l) (Finds r name) (first_by_name name l)
        (first_by_name-Finds l (visited_sound v visit once)) (visited visit once)
