-- ===== src/Base/Text.antt =====
-- Go's strings and byte slices are lists of bytes. A literal of the source is its UTF-8 encoding.
use Prim.Native.Nat.{ℕ, ◌+◌, ◌/◌, ◌%◌}
use Prim.Native.Char.{code}
use Prim.Native.String.{String}
use mathlib.Core.Path.{◌≡◌, refl}
use mathlib.Core.Logic.{◌↔◌}
use mathlib.Core.Bool.{Bool, true, false, ◌&&◌}
use mathlib.Core.List.{List, [], ◌∷◌}
use native.Mathlib.Omega.{arith}
use p2ptest.Base.Tests.{ltb, nat_beq, nat_beq_iff, if◌then◌else◌, Key}

abbrev pub Str : Type 0
Str = List ℕ

-- The UTF-8 bytes of the code point `c`, before `rest`.
utf8 : ℕ → Str → Str
utf8 c rest =
    if ltb c 0x80
    then c ∷ rest
    else if ltb c 0x800
    then (0xc0 + c / 0x40) ∷ (0x80 + c % 0x40) ∷ rest
    else if ltb c 0x10000
    then (0xe0 + c / 0x1000) ∷ (0x80 + (c / 0x40) % 0x40) ∷ (0x80 + c % 0x40) ∷ rest
    else (0xf0 + c / 0x40000)
      ∷ (0x80 + (c / 0x1000) % 0x40)
      ∷ (0x80 + (c / 0x40) % 0x40)
      ∷ (0x80 + c % 0x40)
      ∷ rest

-- A string literal.
unfoldable pub lit : String → Str
unfolding utf8
lit String.[] = []
lit (String.◌∷◌ c s) = utf8 (code c) (lit s)

unfoldable pub str_beq : Str → Str → Bool
str_beq [] [] = true
str_beq [] (y ∷ ys) = false
str_beq (x ∷ xs) [] = false
str_beq (x ∷ xs) (y ∷ ys) = nat_beq x y && str_beq xs ys

pub str_beq_iff : (s t : Str) → (str_beq s t ≡ true) ↔ (s ≡ t)
unfolding str_beq
str_beq_iff [] [] = ground arith
str_beq_iff [] (y ∷ ys) = ground arith
str_beq_iff (x ∷ xs) [] = ground arith
str_beq_iff (x ∷ xs) (y ∷ ys) = ground (arith, str_beq_iff xs ys, nat_beq_iff x y)

instance abbrev pub str_eq : Key Str
str_eq = record { same = str_beq; same_iff = str_beq_iff }

-- `s == ""`, `len(s) == 0`
abbrev pub is_empty : Str → Bool
is_empty [] = true
is_empty (c ∷ s) = false

lit_bytes : lit "a节" ≡ 97 ∷ 0xe8 ∷ 0x8a ∷ 0x82 ∷ []
unfolding lit
lit_bytes = refl
