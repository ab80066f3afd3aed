-- ===== src/Addr/Digits.antt =====
-- What internal/discovery/domain/registry.go and internal/node/node.go print with `%d`, read again
-- by `strconv.Atoi`.
use p2ptest.Base.{
  ℕ, zero, suc, ◌+◌, ◌/◌, ◌%◌, ◌^◌, ◌<◌, Str, false, ltb, some, [], ◌∷◌, ◌≡◌, refl, ap, ◌∙◌, arith,
  Bool-cases, inl, inr, is_digit, digits_from, digits_from-append, atoi, natural, contains,
  contains-append, length, length-append,
}
use p2ptest.Addr.{decimal_from, decimal}

-- The fuel of `decimal_from` is enough: the digits are those of the number.
digits_from-decimal_from : (fuel n : ℕ) → n < fuel → digits_from 0 (decimal_from fuel n) ≡ some n
unfolding decimal_from
digits_from-decimal_from zero n h = absurd (omega arith)
digits_from-decimal_from (suc fuel) n h = elim (Bool-cases (ltb n 10)) [
  | inl small ↦ ground (arith, small)
  | inr large ↦ rw large (
      digits_from-append 0 (n / 10) (b'0' + n % 10) (decimal_from fuel (n / 10))
        (digits_from-decimal_from fuel (n / 10) (ground (arith, large))) (ground arith)
      ∙ ap some (ground arith))
]

-- A byte that is not a digit does not occur.
contains-decimal_from :
    (c fuel n : ℕ) → is_digit c ≡ false → contains c (decimal_from fuel n) ≡ false
unfolding decimal_from
contains-decimal_from c zero n h = refl
contains-decimal_from c (suc fuel) n h = ground (
  arith,
  contains-append c (decimal_from fuel (n / 10)) ((b'0' + n % 10) ∷ []),
  contains-decimal_from c fuel (n / 10) h,
)

pub contains-decimal : (c n : ℕ) → is_digit c ≡ false → contains c (decimal n) ≡ false
unfolding decimal
contains-decimal c n h = contains-decimal_from c (suc n) n h

length-decimal : (n : ℕ) → 0 < length (decimal n)
unfolding decimal decimal_from
length-decimal n = ground (arith, length-append (decimal_from n (n / 10)) ((b'0' + n % 10) ∷ []))

atoi-digits :
    (s : Str) (n : ℕ)
    → 0 < length s
    → contains b'-' s ≡ false
    → contains b'+' s ≡ false
    → digits_from 0 s ≡ some n
    → n < 2 ^ 63
    → atoi s ≡ natural n
atoi-digits [] n full minus plus h small = absurd (omega (arith, full))
atoi-digits (c ∷ s) n full minus plus h small = ground (arith, minus, plus, h, small)

-- The text of a number is read as that number, where it fits 63 bits.
pub atoi-decimal : (n : ℕ) → n < 2 ^ 63 → atoi (decimal n) ≡ natural n
unfolding decimal
atoi-decimal n h =
    atoi-digits (decimal n) n (length-decimal n) (contains-decimal b'-' n refl)
      (contains-decimal b'+' n refl) (digits_from-decimal_from (suc n) n (omega arith)) h
