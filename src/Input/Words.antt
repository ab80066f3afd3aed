-- ===== src/Input/Words.antt =====
-- `SplitInput` undoes `JoinParts` of internal/helper/input.go.
use mathlib.Core.List.{append_assoc, append-nil}
use p2ptest.Base.{
  ℕ, suc, ltb, nat_eq, nat_beq_iff, true, false, if◌then◌else◌, List, [], ◌∷◌, ◌++◌, Str, is_empty,
  ◌≡◌, ◌≢◌, refl, sym, ap, ◌∙◌, arith,
}
use p2ptest.Input.{split_step, split_run, split_end, split_input, join_from, join_parts}

-- A word has no space.
abbrev pub IsSpaceless : Str → Type 0
IsSpaceless [] = Unit
IsSpaceless (c ∷ w) = (c ≢ b' ') × IsSpaceless w

-- Words that are not empty.
abbrev pub AreWords : List Str → Type 0
AreWords [] = Unit
AreWords (w ∷ ws) = (is_empty w ≡ false) × IsSpaceless w × AreWords ws

-- What `JoinParts` puts after the first part.
abbrev following : List Str → Str
following [] = []
following (p ∷ ps) = b' ' ∷ p ++ following ps

positive : (i : ℕ) → ltb 0 (suc i) ≡ true
positive i = ground arith

join_from-following :
    (i : ℕ) (res : Str) (ps : List Str) → join_from (suc i) res ps ≡ res ++ following ps
unfolding join_from
join_from-following i res [] = sym (append-nil _)
join_from-following i res (p ∷ ps) =
    ap (λ b. join_from (suc (suc i)) (if b then (res ++ b' ' ∷ []) ++ p else res ++ p) ps)
      (positive i)
    ∙ join_from-following (suc i) ((res ++ b' ' ∷ []) ++ p) ps
    ∙ append_assoc (res ++ b' ' ∷ []) p (following ps)
    ∙ append_assoc res (b' ' ∷ []) (p ++ following ps)

step_on :
    (parts : List Str) (current : Str) (c : ℕ)
    → c ≢ b' '
    → split_step (record { parts = parts; current = current }) c
      ≡ record { parts = parts; current = current ++ c ∷ [] }
unfolding split_step
step_on parts current c other = ground (arith, nat_beq_iff c b' ')

step_off :
    (parts : List Str) (current : Str)
    → is_empty current ≡ false
    → split_step (record { parts = parts; current = current }) b' '
      ≡ record { parts = parts ++ current ∷ []; current = [] }
unfolding split_step
step_off parts current filled = rw filled refl

-- A word is appended to what is read of the current one.
split_run-word :
    (parts : List Str) (current w rest : Str)
    → IsSpaceless w
    → split_run (record { parts = parts; current = current }) (w ++ rest)
      ≡ split_run (record { parts = parts; current = current ++ w }) rest
unfolding split_run
split_run-word parts current [] rest spaceless = rw (append-nil current) refl
split_run-word parts current (c ∷ w) rest spaceless =
    ap (λ s. split_run s (w ++ rest)) (step_on parts current c spaceless.0)
    ∙ split_run-word parts (current ++ c ∷ []) w rest spaceless.1
    ∙ ap (λ word. split_run (record { parts = parts; current = word }) rest)
        (append_assoc current (c ∷ []) w)

-- From inside a word on.
split_following :
    (parts : List Str) (current : Str) (ws : List Str)
    → is_empty current ≡ false
    → AreWords ws
    → split_end (split_run (record { parts = parts; current = current }) (following ws))
      ≡ parts ++ current ∷ ws
unfolding split_run split_end
split_following parts current [] filled words = rw filled refl
split_following parts current (w ∷ ws) filled words =
    ap (λ s. split_end (split_run s (w ++ following ws))) (step_off parts current filled)
    ∙ ap split_end (split_run-word (parts ++ current ∷ []) [] w (following ws) words.1)
    ∙ split_following (parts ++ current ∷ []) w ws words.0 words.2
    ∙ append_assoc parts (current ∷ []) (w ∷ ws)

-- Joined words are split into the same words.
pub split_input-join_parts :
    (words : List Str) → AreWords words → split_input (join_parts words) ≡ words
unfolding split_input join_parts
split_input-join_parts [] good = refl
split_input-join_parts (w ∷ ws) good =
    ap (λ line. split_end (split_run (record { parts = []; current = [] }) line))
      (join_from-following 0 w ws)
    ∙ ap split_end (split_run-word [] [] w (following ws) good.1)
    ∙ split_following [] w ws good.0 good.2
