-- ===== src/Input/Tests.antt =====
-- The theorem about input lines at a concrete line, and runs of the functions.
use p2ptest.Base.{List, [], ◌∷◌, Str, lit, ◌≡◌, refl, arith}
use p2ptest.Input.{split_input, join_parts}
use p2ptest.Input.Words.{AreWords, split_input-join_parts}

abbrev words : List Str
words = (97 ∷ []) ∷ (98 ∷ 99 ∷ []) ∷ []

words-AreWords : AreWords words
words-AreWords =
    (refl, ((λ h. omega arith), tt), (refl, ((λ h. omega arith), ((λ h. omega arith), tt)), tt))

split_input-join_parts_example : split_input (join_parts words) ≡ words
split_input-join_parts_example = split_input-join_parts words words-AreWords

-- Spaces that are repeated, and those at the ends, are dropped.
split_spaces : split_input (lit "  send  bob hi ") ≡ lit "send" ∷ lit "bob" ∷ lit "hi" ∷ []
unfolding split_input lit
split_spaces = refl
