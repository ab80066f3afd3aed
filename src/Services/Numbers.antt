-- ===== src/Services/Numbers.antt =====
-- Go's signed numbers: the durations of internal/console/console.go and internal/web/handlers.go,
-- in nanoseconds, which are negative where a peer's clock is ahead.
use p2ptest.Base.{ℕ, zero, suc, ◌-◌, ◌/◌, ltb, if◌then◌else◌, Bool, true, Str, ◌∷◌}
use p2ptest.Addr.{decimal}

-- `negsuc n` is `-(n + 1)`.
pub data ℤ : Type 0 where
  pos : ℕ → ℤ
  negsuc : ℕ → ℤ

abbrev pub negated : ℕ → ℤ
negated zero = pos zero
negated (suc n) = negsuc n

-- Go's division, which rounds towards zero.
abbrev pub quotient : ℤ → ℕ → ℤ
quotient (pos n) k = pos (n / k)
quotient (negsuc n) k = negated (suc n / k)

-- `d < k`, for `k` that is not negative.
abbrev pub is_below : ℤ → ℕ → Bool
is_below (pos n) k = ltb n k
is_below (negsuc n) k = true

-- `d.Microseconds()`, `d.Milliseconds()`
abbrev pub microseconds : ℤ → ℤ
microseconds d = quotient d 1000

abbrev pub milliseconds : ℤ → ℤ
milliseconds d = quotient d 1000000

-- `%d`
abbrev pub shown : ℤ → Str
shown (pos n) = decimal n
shown (negsuc n) = b'-' ∷ decimal (suc n)

-- `a - b`
abbrev pub difference : ℕ → ℕ → ℤ
difference a b = if ltb a b then negated (b - a) else pos (a - b)
