-- ===== src/Notifier/Window.antt =====
-- Lists of the values of a function on an interval, and indices that go round a buffer.
use native.Mathlib.Nat.{mod-eq_of_lt, mod-eq-sub-mod, mod-add-mod}
use native.Mathlib.Decide.{dec_lt}
use p2ptest.Base.{
  ℕ, zero, suc, ◌+◌, ◌-◌, ◌%◌, ◌≤◌, ◌<◌, ◌≡◌, ◌≢◌, refl, ap, ◌∙◌, arith, ◌⊎◌, inl, inr, List, [],
  ◌∷◌, ◌++◌, drop, length,
}

module _ {ℓ} {A : Type ℓ} where
  abbrev pub tabulate : (ℕ → A) → ℕ → ℕ → List A
  tabulate f i zero = []
  tabulate f i (suc k) = f i ∷ tabulate f (i + 1) k

  pub tabulate_ext :
      (f g : ℕ → A) (i k : ℕ)
      → ((j : ℕ) → i ≤ j → j < i + k → f j ≡ g j)
      → tabulate f i k ≡ tabulate g i k
  tabulate_ext f g i zero h = refl
  tabulate_ext f g i (suc k) h = cc (
    h i (omega arith) (omega arith),
    tabulate_ext f g (i + 1) k (λ j a b. h j (omega arith) (omega arith)),
  )

  pub tabulate_snoc :
      (f : ℕ → A) (i k : ℕ) → tabulate f i (suc k) ≡ tabulate f i k ++ f (i + k) ∷ []
  tabulate_snoc f i zero = ap (λ j. f j ∷ []) (omega arith)
  tabulate_snoc f i (suc k) =
      ap (λ t. f i ∷ t)
        (tabulate_snoc f (i + 1) k ∙ ap (λ j. tabulate f (i + 1) k ++ f j ∷ []) (omega arith))

  pub tabulate_shift : (f : ℕ → A) (i k : ℕ) → tabulate (λ j. f (j + 1)) i k ≡ tabulate f (i + 1) k
  tabulate_shift f i zero = refl
  tabulate_shift f i (suc k) = ap (λ t. f (i + 1) ∷ t) (tabulate_shift f (i + 1) k)

  pub drop-tabulate :
      (f : ℕ → A) (k : ℕ) (ys : List A)
      → 0 < k
      → drop 1 (tabulate f 0 k ++ ys) ≡ tabulate f (0 + 1) (k - 1) ++ ys
  drop-tabulate f zero ys h = absurd (omega arith)
  drop-tabulate f (suc k) ys h = ap (λ j. tabulate f (0 + 1) j ++ ys) (omega arith)

  pub length-tabulate : (f : ℕ → A) (i k : ℕ) → length (tabulate f i k) ≡ k
  length-tabulate f i zero = refl
  length-tabulate f i (suc k) = ap suc (length-tabulate f (i + 1) k)

-- An index that goes round at most once.
wrap :
    (size a : ℕ)
    → a < size + size
    → ((a % size ≡ a) × (a < size)) ⊎ ((a % size + size ≡ a) × (size ≤ a))
wrap size a h = elim (dec_lt a size) [
  | yes p ↦ inl (mod-eq_of_lt p, p)
  | no p ↦ inr (
    omega (
      arith,
      mod-eq-sub-mod {n = a} {m = size} (omega arith),
      mod-eq_of_lt {n = a - size} {m = size} (omega arith),
    ),
    omega arith,
  )
]

-- Fewer than `size` steps round the buffer do not come back.
pub mod-ne :
    (size head i k : ℕ) → head < size → i < k → k < size → (head + i) % size ≢ (head + k) % size
mod-ne size head i k h a b e =
    omega (arith, wrap size (head + i) (omega arith), wrap size (head + k) (omega arith))

-- Starting one cell later.
pub mod-step :
    (size head j : ℕ)
    → head < size
    → suc j < size
    → ((head + 1) % size + j) % size ≡ (head + (j + 1)) % size
mod-step size head j h b = rw mod-add-mod (ap (λ (t : ℕ). t % size) (omega arith))

pub mod_full : (size head : ℕ) → head < size → (head + size) % size ≡ head
mod_full size head h = omega (arith, wrap size (head + size) (omega arith))

pub mod_last : (size head : ℕ) → head < size → ((head + 1) % size + (size - 1)) % size ≡ head
mod_last size head h =
    rw mod-add-mod (ap (λ (t : ℕ). t % size) (omega arith) ∙ mod_full size head h)

pub mod_first : (size head : ℕ) → head < size → (head + 0) % size ≡ head
mod_first size head h = omega (arith, wrap size (head + 0) (omega arith))
