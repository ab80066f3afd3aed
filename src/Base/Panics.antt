-- ===== src/Base/Panics.antt =====
-- A Go call that may panic (a nil dereference, a failed type assertion).
use mathlib.Core.Option.{Option, none, some}
use mathlib.Core.Path.{◌≡◌, sym, subst}

pub data Outcome {ℓ} (A : Type ℓ) : Type ℓ where
  done : A → Outcome A
  panic : Outcome A

infixl 5 ◌>>=◌
abbrev pub ◌>>=◌ {ℓ κ} : {A : Type ℓ} {B : Type κ} → Outcome A → (A → Outcome B) → Outcome B
done a >>= f = f a
panic >>= f = panic

-- Dereferencing a pointer that may be nil.
abbrev pub deref {ℓ} : {A : Type ℓ} → Option A → Outcome A
deref none = panic
deref (some a) = done a

-- The call returns, and its result satisfies `P`.
abbrev pub Returns {ℓ} : {A : Type ℓ} → (A → Type 0) → Outcome A → Type 0
Returns P (done a) = P a
Returns P panic = ⊥

-- A later step of a call that returns.
pub Returns-bind {ℓ κ} :
    {A : Type ℓ} {B : Type κ} (P : A → Type 0) (Q : B → Type 0) (m : Outcome A) (f : A → Outcome B)
    → Returns P m
    → ((a : A) → P a → Returns Q (f a))
    → Returns Q (m >>= f)
Returns-bind P Q (done a) f h k = k a h
Returns-bind P Q panic f h k = elim h [ ]

pub Returns-weaken {ℓ} :
    {A : Type ℓ} (P Q : A → Type 0) (m : Outcome A)
    → Returns P m
    → ((a : A) → P a → Q a)
    → Returns Q m
Returns-weaken P Q (done a) h k = k a h
Returns-weaken P Q panic h k = elim h [ ]

pub Returns-both {ℓ} :
    {A : Type ℓ} (P Q : A → Type 0) (m : Outcome A)
    → Returns P m
    → Returns Q m
    → Returns (λ a. P a × Q a) m
Returns-both P Q (done a) h k = (h, k)
Returns-both P Q panic h k = elim h [ ]

-- A dereference of a pointer that is known.
pub Returns-deref {ℓ κ} :
    {A : Type ℓ} {B : Type κ} (P : B → Type 0) {o : Option A} {a : A} (f : A → Outcome B)
    → o ≡ some a
    → Returns P (f a)
    → Returns P (deref o >>= f)
Returns-deref P f e h = subst (λ o'. Returns P (deref o' >>= f)) (sym e) h
