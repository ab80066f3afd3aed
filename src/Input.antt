-- ===== src/Input.antt =====
-- internal/helper/input.go: the splitting of an input line at its spaces. A string is here the
-- list of the code points that `range` yields of it.
pub mod Words
mod Tests
use p2ptest.Base.{
  ℕ, suc, ◌+◌, ltb, ◌==◌, nat_eq, Bool, true, false, not, ◌&&◌, if◌then◌else◌, List, [], ◌∷◌, ◌++◌,
  Str, is_empty,
}

-- The variables of the loop of `SplitInput`.
pub record Split : Type 0 where
  pub parts : List Str
  pub current : Str

-- One round of the loop.
unfoldable pub split_step : Split → ℕ → Split
split_step s c =
    if c == b' ' && not (is_empty s.current)
    then record { parts = s.parts ++ s.current ∷ []; current = [] }
    else if not (c == b' ')
    then record s { current = s.current ++ c ∷ [] }
    else s

unfoldable pub split_run : Split → Str → Split
unfolding split_step
split_run s [] = s
split_run s (c ∷ rest) = split_run (split_step s c) rest

-- The end of `SplitInput`.
unfoldable pub split_end : Split → List Str
split_end s = if is_empty s.current then s.parts else s.parts ++ s.current ∷ []

-- `SplitInput`
unfoldable pub split_input : Str → List Str
unfolding split_run split_end
split_input input = split_end (split_run (record { parts = []; current = [] }) input)

-- The loop of `JoinParts`, at the index `i`.
unfoldable pub join_from : ℕ → Str → List Str → Str
join_from i res [] = res
join_from i res (p ∷ rest) =
    join_from (suc i) (if ltb 0 i then (res ++ b' ' ∷ []) ++ p else res ++ p) rest

-- `JoinParts`
unfoldable pub join_parts : List Str → Str
unfolding join_from
join_parts parts = join_from 0 [] parts
