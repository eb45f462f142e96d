-- ===== src/Utils/Split.antt =====
-- src/utils/text.ts: `splitFinalMessage`, which cuts an answer to the length that a channel takes.
-- The loop takes fuel; Utils.Split.Laws has how much is enough.
use invarail.Prelude.{
  ℕ, zero, suc, ◌*◌, Bool, true, false, List, [], ◌∷◌, Option, none, some, Text, nat_eq, leb, ltb,
  length, take, drop, trim_start, or_else, or_option, if◌then◌else◌,
}
pub mod Laws

abbrev pub next_index : Option ℕ → Option ℕ → Option ℕ
next_index none here = here
next_index (some k) here = some (suc k)

-- `s.lastIndexOf(c, from)` for a single character
unfoldable pub last_index_of : ℕ → ℕ → Text → Option ℕ
last_index_of c from [] = none
last_index_of c zero (d ∷ s) = if nat_eq d c then some 0 else none
last_index_of c (suc from) (d ∷ s) =
    let later = last_index_of c from s in next_index later (if nat_eq d c then some 0 else none)

abbrev pub line_end : ℕ
line_end = 10

abbrev pub blank : ℕ
blank = 32

-- `splitAt !== -1 && splitAt >= limit / 2`
abbrev pub is_late : ℕ → Option ℕ → Bool
is_late limit none = false
is_late limit (some k) = leb limit (2 * k)

-- Behind a line, or else a word, that is not in the first half.
unfoldable pub split_at : ℕ → Text → ℕ
unfolding last_index_of
split_at limit s =
    if is_late limit (last_index_of line_end limit s)
    then or_else (last_index_of line_end limit s) limit
    else if is_late limit (last_index_of blank limit s)
    then or_else (last_index_of blank limit s) limit
    else limit

abbrev pub add_chunk : Text → Option (List Text) → Option (List Text)
add_chunk c none = none
add_chunk c (some cs) = some (c ∷ cs)

-- The `while` loop; `none` if the fuel runs out.
unfoldable pub split_from : ℕ → ℕ → Text → Option (List Text)
unfolding split_at
split_from zero limit s = none
split_from (suc fuel) limit [] = some []
split_from (suc fuel) limit (c ∷ s) =
    let text = c ∷ s in
    let k = split_at limit text in
    let more = add_chunk (take k text) (split_from fuel limit (trim_start (drop k text))) in
    if leb (length text) limit then some (text ∷ []) else more

unfoldable pub split_final_message : ℕ → ℕ → Text → Option (List Text)
unfolding split_from
split_final_message fuel limit s =
    let chunks = split_from fuel limit s in if leb (length s) limit then some (s ∷ []) else chunks
