-- ===== src/Registry/Stale.antt =====
-- `GetStale` and `List` of internal/discovery/domain/registry.go.
use mathlib.Core.List.{mem-cons, not-mem-nil, Mem-prop}
use mathlib.Core.Logic.Or
use mathlib.Core.Logic.{∥∥₁_prop, ∥∥₁_map, ∥∥₁_elim}
use mathlib.Core.HLevel.{⊥_prop}
use p2ptest.Base.{
  ◌≡◌, refl, ◌↔◌, str_eq, Str, Bool, true, false, Option, none, some, List, [], ◌∷◌, is_some, arith,
  ℕ, Bool-cases, Option-cases, inl, inr, Mem, ap, sym, subst,
}
use p2ptest.Base.Dict.{Visit, IsVisit}
use p2ptest.Proto.{NodeId, NodeInfo}
use p2ptest.Registry.{
  Registry, get, is_online, get_last_active, values, list, collect_stale, get_stale, is_stale,
}
use p2ptest.Registry.Invariant.{IsEntry, IsValid}
use p2ptest.Registry.ByName.{NodeInfo-set, visited_sound, visited_complete}

stale_and_fresh : {b : Bool} → b ≡ true → b ≡ false → ⊥
stale_and_fresh p q = cc

-- Online, and without activity for longer than the threshold.
abbrev pub IsExpired : Registry → ℕ → ℕ → Str → Type 0
IsExpired r now threshold u =
    (is_online r u ≡ true) × (is_stale (get_last_active r u) now threshold ≡ true)

IsExpired-prop : (r : Registry) (now threshold : ℕ) (u : Str) → IsProp (IsExpired r now threshold u)
IsExpired-prop r now threshold u = hlevel

module _ (r : Registry) (now threshold : ℕ) where
  collect_stale_sound :
      (u : Str) (l : List (Str × NodeInfo))
      → ((k : Str) (p : NodeInfo) → Mem (k, p) l → get r k ≡ some p)
      → Mem u (collect_stale r now threshold l)
      → IsExpired r now threshold u
  unfolding collect_stale
  collect_stale_sound u [] from m = absurd (not-mem-nil m)
  collect_stale_sound u ((k, p) ∷ l) from m =
      let later = λ (m' : Mem u (collect_stale r now threshold l)).
        collect_stale_sound u l (λ j q h. from j q (mem-cons.1 (Or.inr h))) m' in
      elim (Bool-cases (is_stale (get_last_active r k) now threshold)) [
        | inl old ↦
            Or.elim (IsExpired-prop r now threshold u) (mem-cons.0 (rw (old, collect_stale) at m))
              (λ e. rw e (ap is_some (from k p (mem-cons.1 (Or.inl refl))), old)) later
        | inr fresh ↦ later (rw (fresh, collect_stale) at m)
      ]

  collect_stale_complete :
      (u : Str) (p : NodeInfo) (l : List (Str × NodeInfo))
      → is_stale (get_last_active r u) now threshold ≡ true
      → Mem (u, p) l
      → Mem u (collect_stale r now threshold l)
  unfolding collect_stale
  collect_stale_complete u p [] old m = absurd (not-mem-nil m)
  collect_stale_complete u p ((k, q) ∷ l) old m =
      let here = λ (e : Path (Str × NodeInfo) (u, p) (k, q)). ap (λ t. t.0) e in
      elim (Bool-cases (is_stale (get_last_active r k) now threshold)) [
        | inl also ↦
            rw (also, collect_stale)
              (Or.elim Mem-prop (mem-cons.0 m) (λ e. mem-cons.1 (Or.inl (here e)))
                (λ m'. mem-cons.1 (Or.inr (collect_stale_complete u p l old m'))))
        | inr fresh ↦
            rw (fresh, collect_stale)
              (Or.elim Mem-prop (mem-cons.0 m)
                (λ e. absurd (
                  stale_and_fresh
                    (subst (λ j. is_stale (get_last_active r j) now threshold ≡ true) (here e) old)
                    fresh))
                (λ m'. collect_stale_complete u p l old m'))
      ]

pub mem-get_stale :
    {r : Registry} (visit : Visit (Str × NodeInfo)) (now threshold : ℕ) (u : Str)
    → IsValid r
    → IsVisit visit
    → Mem u (get_stale r visit now threshold) ↔ IsExpired r now threshold u
unfolding get_stale
mem-get_stale {r} visit now threshold u v once =
    let l : List (Str × NodeInfo) = visit r.online_peers.entries in
    (
      collect_stale_sound r now threshold u l (λ k p m. visited_sound v visit once k p m),
      λ x. elim (Option-cases (get r u)) [
        | inl off ↦ absurd (ground (arith, x.0))
        | inr (p, on) ↦
            collect_stale_complete r now threshold u p l x.1 (visited_complete v visit once u p on)
      ],
    )

-- The peer is stored, under its own identity.
abbrev pub IsStoredAs : Registry → NodeInfo → Option NodeId → Type 0
IsStoredAs r p none = ⊥
IsStoredAs r p (some id) = get r id.uuid ≡ some p

abbrev pub IsStored : Registry → NodeInfo → Type 0
IsStored r p = IsStoredAs r p p.id

IsStoredAs-prop : (r : Registry) (p : NodeInfo) (o : Option NodeId) → IsProp (IsStoredAs r p o)
IsStoredAs-prop r p none = ⊥_prop
IsStoredAs-prop r p (some id) = NodeInfo-set _ _

mem-values :
    (p : NodeInfo) (l : List (Str × NodeInfo)) → Mem p (values l) → ∥ ((k : Str) × Mem (k, p) l) ∥₁
unfolding values
mem-values p [] m = absurd (not-mem-nil m)
mem-values p ((k, q) ∷ l) m =
    Or.elim ∥∥₁_prop (mem-cons.0 m)
      (λ e. ∣ (k, mem-cons.1 (Or.inl (ap (λ (t : NodeInfo). (k, t)) e))) ∣₁)
      (λ m'. ∥∥₁_map (mem-values p l m') (λ x. (x.0, mem-cons.1 (Or.inr x.1))))

values-mem : (k : Str) (p : NodeInfo) (l : List (Str × NodeInfo)) → Mem (k, p) l → Mem p (values l)
unfolding values
values-mem k p [] m = absurd (not-mem-nil m)
values-mem k p ((j, q) ∷ l) m =
    Or.elim Mem-prop (mem-cons.0 m) (λ e. mem-cons.1 (Or.inl (ap (λ t. t.1) e)))
      (λ m'. mem-cons.1 (Or.inr (values-mem k p l m')))

entry-IsStored :
    {r : Registry} (k : Str) {p : NodeInfo} → IsValid r → get r k ≡ some p → IsStored r p
entry-IsStored {r} k {p} v at =
    let e : IsEntry r.self_uuid k p = v.entry k p at in
    subst (IsStoredAs r p) (sym e.has_id) (subst (λ u. get r u ≡ some p) (sym e.same_uuid) at)

-- `List` on a valid registry, whatever the visiting order: it lists exactly the peers that are
-- stored, each under its own identity.
pub mem-list :
    {r : Registry} (visit : Visit (Str × NodeInfo)) (p : NodeInfo)
    → IsValid r
    → IsVisit visit
    → Mem p (list r visit) ↔ IsStored r p
unfolding list
mem-list {r} visit p v once = (
  λ m.
      ∥∥₁_elim (mem-values p _ m) (IsStoredAs-prop r p p.id)
        (λ x. entry-IsStored x.0 v (visited_sound v visit once x.0 p x.1)),
  stored p.id,
)
  where
    stored : (o : Option NodeId) → IsStoredAs r p o → Mem p (values (visit r.online_peers.entries))
    stored none h = absurd h
    stored (some id) h = values-mem id.uuid p _ (visited_complete v visit once id.uuid p h)
