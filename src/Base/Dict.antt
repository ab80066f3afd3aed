-- ===== src/Base/Dict.antt =====
-- Go's maps, as association lists. The order in which `range` visits the entries is not specified
-- by the language: a function that ranges over a map takes the visiting order as an argument.
use mathlib.Core.Path.{◌≡◌, refl, sym, ap}
use mathlib.Core.Logic.{◌↔◌, ◌≢◌, inl, inr}
use mathlib.Core.Logic.Or
use mathlib.Core.Option.{Option, none, some}
use mathlib.Core.List.{List, [], ◌∷◌, Mem, Perm, mem-cons, not-mem-nil}
use native.Mathlib.Omega.{arith}
use p2ptest.Base.Tests.{if◌then◌else◌, Key, ◌==◌, same_refl, Bool-cases}

module _ {ℓ κ} {K : Type ℓ} {V : Type κ} ⦃key : Key K⦄ where
  unfoldable pub lookup : List (K × V) → K → Option V
  lookup [] k = none
  lookup ((j, v) ∷ m) k = if j == k then some v else lookup m k

  without : K → List (K × V) → List (K × V)
  without k [] = []
  without k ((j, v) ∷ m) = let rest = without k m in if j == k then rest else (j, v) ∷ rest

  -- No key occurs twice.
  abbrev pub IsUnique : List (K × V) → Type κ
  IsUnique [] = Unit
  IsUnique ((k, v) ∷ m) = (lookup m k ≡ none) × IsUnique m

  lookup-without :
      (k j : K) (m : List (K × V)) → lookup (without k m) j ≡ (if k == j then none else lookup m j)
  unfolding lookup without
  lookup-without k j [] = ground arith
  lookup-without k j ((i, v) ∷ m) =
      ground (arith, lookup-without k j m, key.same_iff i k, key.same_iff i j, key.same_iff k j)

  without-IsUnique : (k : K) (m : List (K × V)) → IsUnique m → IsUnique (without k m)
  unfolding without
  without-IsUnique k [] u = tt
  without-IsUnique k ((j, v) ∷ m) u = ground (arith, without-IsUnique k m u.1, lookup-without k j m)

pub record Dict {ℓ κ} (K : Type ℓ) (V : Type κ) : Type (ℓ ⊔ κ) where
  pub entries : List (K × V)

unfoldable pub empty {ℓ κ} : {K : Type ℓ} {V : Type κ} → Dict K V
empty = record { entries = [] }

module _ {ℓ κ} {K : Type ℓ} {V : Type κ} ⦃key : Key K⦄ where
  -- `v, ok := m[k]`
  unfoldable pub get : Dict K V → K → Option V
  get d k = lookup d.entries k

  -- `delete(m, k)`
  unfoldable pub remove : Dict K V → K → Dict K V
  unfolding without
  remove d k = record { entries = without k d.entries }

  -- `m[k] = v`
  unfoldable pub put : Dict K V → K → V → Dict K V
  unfolding without
  put d k v = record { entries = (k, v) ∷ without k d.entries }

  abbrev pub IsMap : Dict K V → Type κ
  IsMap d = IsUnique d.entries

  pub get-remove :
      (d : Dict K V) (k j : K) → get (remove d k) j ≡ (if k == j then none else get d j)
  unfolding get remove
  get-remove d k j = lookup-without k j d.entries

  pub get-put :
      (d : Dict K V) (k j : K) (v : V) → get (put d k v) j ≡ (if k == j then some v else get d j)
  unfolding get put lookup
  get-put d k j v = simp lookup-without (ground arith)

  pub get-put_self : (d : Dict K V) (k : K) (v : V) → get (put d k v) k ≡ some v
  get-put_self d k v = simp (get-put, same_refl)

  pub get-put_ne : (d : Dict K V) (k j : K) (v : V) → k ≢ j → get (put d k v) j ≡ get d j
  get-put_ne d k j v h = ground (arith, get-put d k j v, key.same_iff k j)

  pub get-remove_self : (d : Dict K V) (k : K) → get (remove d k) k ≡ none
  get-remove_self d k = simp (get-remove, same_refl)

  pub get-remove_ne : (d : Dict K V) (k j : K) → k ≢ j → get (remove d k) j ≡ get d j
  get-remove_ne d k j h = ground (arith, get-remove d k j, key.same_iff k j)

  pub put-IsMap : (d : Dict K V) (k : K) (v : V) → IsMap d → IsMap (put d k v)
  unfolding put
  put-IsMap d k v u = (simp lookup-without (rw (same_refl k) refl), without-IsUnique k d.entries u)

  pub remove-IsMap : (d : Dict K V) (k : K) → IsMap d → IsMap (remove d k)
  unfolding remove
  remove-IsMap d k u = without-IsUnique k d.entries u

  mem-lookup :
      IsSet (Option V)
      → (m : List (K × V)) (k : K) (v : V) → IsUnique m
      → Mem (k, v) m
      → lookup m k ≡ some v
  unfolding lookup
  mem-lookup s [] k v u h = absurd (not-mem-nil h)
  mem-lookup s ((j, w) ∷ m) k v u h =
      Or.elim (s _ _) (mem-cons.0 h)
        (λ p. rw ((key.same_iff j k).1 (sym (ap (λ t. t.0) p))) (ap some (sym (ap (λ t. t.1) p))))
        (λ q.
          let found = mem-lookup s m k v u.1 q in
          elim (Bool-cases (j == k)) [
            | inl same ↦ ground (arith, key.same_iff j k)
            | inr other ↦ rw other found
          ])

  lookup-mem : (m : List (K × V)) (k : K) (v : V) → lookup m k ≡ some v → Mem (k, v) m
  unfolding lookup
  lookup-mem [] k v h = cc
  lookup-mem ((j, w) ∷ m) k v h = elim (Bool-cases (j == k)) [
    | inl same ↦ mem-cons.1 (Or.inl (ground (arith, key.same_iff j k)))
    | inr other ↦ mem-cons.1 (Or.inr (lookup-mem m k v (rw other at h)))
  ]

  -- The entries are exactly the bindings.
  pub mem-entries :
      IsSet (Option V)
      → (d : Dict K V) (k : K) (v : V) → IsMap d
      → Mem (k, v) d.entries ↔ (get d k ≡ some v)
  unfolding get
  mem-entries s d k v u = (mem-lookup s d.entries k v u, lookup-mem d.entries k v)

pub get-empty {ℓ κ} :
    {K : Type ℓ} {V : Type κ} ⦃key : Key K⦄ (k : K) → get (empty {K = K} {V = V}) k ≡ none
unfolding get empty lookup
get-empty k = refl

pub ruleset dict_laws = (get-empty, get-put, get-remove)

-- The order in which one `range` statement visits the entries of a map.
abbrev pub Visit {ℓ} : Type ℓ → Type ℓ
Visit A = List A → List A

-- `range` visits every entry once.
abbrev pub IsVisit {ℓ} : {A : Type ℓ} → Visit A → Type ℓ
IsVisit {A} visit = (l : List A) → Perm (visit l) l
