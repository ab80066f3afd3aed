-- ===== src/Base/Search.antt =====
-- What the source uses of Go's `strings` and `strconv`: searches for a byte, `strings.Fields`,
-- `strings.Join`, `strconv.Atoi`.
use Prim.Native.Nat.{ℕ, suc, ◌+◌, ◌-◌, ◌*◌, ◌^◌}
use mathlib.Core.Path.{◌≡◌, refl}
use mathlib.Core.Bool.{Bool, true, false, ◌&&◌, ◌||◌}
use mathlib.Core.Option.{Option, none, some}
use mathlib.Core.List.{[], ◌∷◌, ◌++◌}
use native.Mathlib.Omega.{arith}
use p2ptest.Base.Tests.{ltb, nat_beq, nat_beq_iff, if◌then◌else◌}
use p2ptest.Base.Lists.{length, take, drop}
use p2ptest.Base.Text.{Str}

-- `strings.IndexByte(s, c)`, none for -1
abbrev pub index : ℕ → Str → Option ℕ
index c [] = none
index c (x ∷ s) =
    let later = index c s in
    if nat_beq x c then some 0 else (elim later [ none ↦ none | some i ↦ some (suc i) ])

-- `strings.LastIndexByte(s, c)`, none for -1
abbrev pub last_index : ℕ → Str → Option ℕ
last_index c [] = none
last_index c (x ∷ s) = elim (last_index c s) [
  | some i ↦ some (suc i)
  | none ↦ if nat_beq x c then some 0 else none
]

-- `strings.Contains(s, c)` for one byte
abbrev pub contains : ℕ → Str → Bool
contains c [] = false
contains c (x ∷ s) = nat_beq x c || contains c s

abbrev pub starts_with : ℕ → Str → Bool
starts_with c [] = false
starts_with c (x ∷ s) = nat_beq x c

-- What `strconv.Atoi` returns: a number of 63 bits and its sign, or its error.
pub data Parsed : Type 0 where
  syntax_error : Parsed
  range_error : (below : Bool) → Parsed
  negative : ℕ → Parsed
  natural : ℕ → Parsed

abbrev pub is_digit : ℕ → Bool
is_digit c = ltb 47 c && ltb c 58

abbrev pub digits_from : ℕ → Str → Option ℕ
digits_from acc [] = some acc
digits_from acc (c ∷ s) =
    let later = digits_from (acc * 10 + (c - 48)) s in if is_digit c then later else none

-- A magnitude with its sign, as a number of 64 bits.
abbrev pub signed : Bool → ℕ → Parsed
signed false v = if ltb v (2 ^ 63) then natural v else range_error false
signed true v =
    if nat_beq v 0 then natural 0 else if ltb (2 ^ 63) v then range_error true else negative v

abbrev pub unsigned : Bool → Str → Parsed
unsigned below [] = syntax_error
unsigned below (c ∷ s) = elim (digits_from 0 (c ∷ s)) [
  | none ↦ syntax_error
  | some v ↦ signed below v
]

-- `strconv.Atoi`
abbrev pub atoi : Str → Parsed
atoi [] = syntax_error
atoi (c ∷ s) =
    if nat_beq c b'-'
    then unsigned true s
    else if nat_beq c b'+'
    then unsigned false s
    else unsigned false (c ∷ s)

pub contains-append : (c : ℕ) (s t : Str) → contains c (s ++ t) ≡ (contains c s || contains c t)
contains-append c [] t = refl
contains-append c (x ∷ s) t = ground (arith, contains-append c s t)

pub last_index-none : (c : ℕ) (s : Str) → contains c s ≡ false → last_index c s ≡ none
last_index-none c [] h = refl
last_index-none c (x ∷ s) h = ground (arith, last_index-none c s)

-- The last place of a byte, before a text without it.
pub last_index-append :
    (c : ℕ) (s t : Str) → contains c t ≡ false → last_index c (s ++ c ∷ t) ≡ some (length s)
last_index-append c [] t h = ground (arith, last_index-none c t h, nat_beq_iff c c)
last_index-append c (x ∷ s) t h = ground (arith, last_index-append c s t h)

pub take-append : (s t : Str) → take (length s) (s ++ t) ≡ s
take-append [] t = refl
take-append (x ∷ s) t = ground (arith, take-append s t)

pub drop-append_suc : (s t : Str) (c : ℕ) → drop (suc (length s)) (s ++ c ∷ t) ≡ t
drop-append_suc [] t c = refl
drop-append_suc (x ∷ s) t c = drop-append_suc s t c

pub digits_from-append :
    (acc v c : ℕ) (s : Str)
    → digits_from acc s ≡ some v
    → is_digit c ≡ true
    → digits_from acc (s ++ c ∷ []) ≡ some (v * 10 + (c - 48))
digits_from-append acc v c [] h d = ground (arith, h, d)
digits_from-append acc v c (x ∷ s) h d =
    ground (arith, h, digits_from-append (acc * 10 + (x - 48)) v c s, d)
