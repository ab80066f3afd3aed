-- ===== src/Base/Fields.antt =====
-- `strings.Fields` and `strings.Join` of the standard library, on the bytes of a string.
use Prim.Native.Nat.{ℕ, zero, suc, ◌-◌}
use mathlib.Core.Bool.{Bool, false, ◌&&◌, ◌||◌}
use mathlib.Core.Path.{◌≡◌, refl}
use mathlib.Core.Logic.{inl, inr}
use mathlib.Core.List.{List, [], ◌∷◌, ◌++◌}
use p2ptest.Base.Tests.{ltb, nat_beq, if◌then◌else◌, Bool-cases}
use p2ptest.Base.Text.{Str, is_empty}

-- The white space of one byte: tab, the line breaks, blank.
abbrev pub is_space1 : ℕ → Bool
is_space1 c = (ltb 8 c && ltb c 14) || nat_beq c 32

-- U+0085 and U+00A0
abbrev pub is_space2 : ℕ → ℕ → Bool
is_space2 c d = nat_beq c 0xc2 && (nat_beq d 0x85 || nat_beq d 0xa0)

-- U+1680, U+2000 to U+200A, U+2028, U+2029, U+202F, U+205F and U+3000
abbrev pub is_space3 : ℕ → ℕ → ℕ → Bool
is_space3 c d e =
    (nat_beq c 0xe1 && nat_beq d 0x9a && nat_beq e 0x80)
    || (nat_beq c 0xe2
        && nat_beq d 0x80
        && ((ltb 0x7f e && ltb e 0x8b) || nat_beq e 0xa8 || nat_beq e 0xa9 || nat_beq e 0xaf))
    || (nat_beq c 0xe2 && nat_beq d 0x81 && nat_beq e 0x9f)
    || (nat_beq c 0xe3 && nat_beq d 0x80 && nat_beq e 0x80)

-- The bytes of the space that a text begins with, 0 where it begins with none.
abbrev pub space_width : Str → ℕ
space_width [] = 0
space_width (c ∷ []) = if is_space1 c then 1 else 0
space_width (c ∷ d ∷ []) = if is_space1 c then 1 else if is_space2 c d then 2 else 0
space_width (c ∷ d ∷ e ∷ s) =
    if is_space1 c then 1 else if is_space2 c d then 2 else if is_space3 c d e then 3 else 0

abbrev pub add_word : Str × List Str → List Str
add_word ([], ws) = ws
add_word (c ∷ w, ws) = (c ∷ w) ∷ ws

-- What stands before the first space, and the words after it, once `skip` bytes are passed over.
abbrev pub first_word : ℕ → Str → Str × List Str
first_word skip [] = ([], [])
first_word (suc k) (c ∷ s) = first_word k s
first_word zero (c ∷ s) =
    let width = space_width (c ∷ s) in
    let later = first_word (width - 1) s in
    if nat_beq width 0 then (c ∷ later.0, later.1) else ([], add_word later)

-- `strings.Fields`
unfoldable pub fields : Str → List Str
fields s = add_word (first_word 0 s)

-- `strings.Join(words, " ")`
unfoldable pub join_words : List Str → Str
join_words [] = []
join_words (w ∷ []) = w
join_words (w ∷ v ∷ ws) = w ++ 32 ∷ join_words (v ∷ ws)

-- No word is empty.
abbrev pub AreWords : List Str → Type 0
AreWords [] = Unit
AreWords (w ∷ ws) = (is_empty w ≡ false) × AreWords ws

add_word-AreWords : (p : Str × List Str) → AreWords p.1 → AreWords (add_word p)
add_word-AreWords ([], ws) h = h
add_word-AreWords (c ∷ w, ws) h = (refl, h)

first_word-AreWords : (skip : ℕ) (s : Str) → AreWords (first_word skip s).1
first_word-AreWords skip [] = tt
first_word-AreWords (suc k) (c ∷ s) = first_word-AreWords k s
first_word-AreWords zero (c ∷ s) =
    let width = space_width (c ∷ s) in
    elim (Bool-cases (nat_beq width 0)) [
      | inl word ↦ rw word (first_word-AreWords (width - 1) s)
      | inr space ↦
          rw space
            (add_word-AreWords (first_word (width - 1) s) (first_word-AreWords (width - 1) s))
    ]

-- No word of `strings.Fields` is empty.
pub fields-AreWords : (s : Str) → AreWords (fields s)
unfolding fields
fields-AreWords s = add_word-AreWords (first_word 0 s) (first_word-AreWords 0 s)
