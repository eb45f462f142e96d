-- ===== src/Utils/Split/Laws.antt =====
-- What `splitFinalMessage` keeps of a text, and how long its chunks are.
use invarail.Prelude.{
  ℕ, zero, suc, ◌≤◌, ◌<◌, ◌≡◌, refl, sym, ap, ◌∙◌, Bool, true, false, not, List, [], ◌∷◌, ◌++◌,
  Option, none, some, Text, nat_eq, leb, length, take, drop, keep, is_space, trim_start, or_else,
  All, length-drop, if_holds, arith, if◌then◌else◌,
}
use mathlib.Core.List.{append-nil}
use invarail.Utils.Split.{
  next_index, last_index_of, line_end, blank, is_late, add_chunk, split_at, split_from,
  split_final_message,
}

-- What is not white space.
abbrev pub solid : Text → Text
solid s = keep (λ c. not (is_space c)) s

abbrev pub joined : List Text → Text
joined [] = []
joined (c ∷ cs) = c ++ joined cs

abbrev AtMost : ℕ → Option ℕ → Type 0
AtMost n none = Unit
AtMost n (some k) = k ≤ n

next_index-AtMost :
    (n : ℕ) (o here : Option ℕ)
    → AtMost n o
    → AtMost (suc n) here
    → AtMost (suc n) (next_index o here)
next_index-AtMost n none here h k = k
next_index-AtMost n (some j) here h k = omega arith

here-AtMost : (n : ℕ) (b : Bool) → AtMost n (if b then some 0 else none)
here-AtMost n true = omega arith
here-AtMost n false = tt

last_index_of-AtMost : (c n : ℕ) (s : Text) → AtMost n (last_index_of c n s)
unfolding last_index_of
last_index_of-AtMost c n [] = tt
last_index_of-AtMost c zero (d ∷ s) = here-AtMost zero (nat_eq d c)
last_index_of-AtMost c (suc n) (d ∷ s) =
    next_index-AtMost n _ _ (last_index_of-AtMost c n s) (here-AtMost (suc n) (nat_eq d c))

-- A place to split: behind the start, and not behind the limit.
abbrev Splits : ℕ → ℕ → Type 0
Splits limit k = (1 ≤ k) × (k ≤ limit)

late-Splits :
    (limit : ℕ) (o : Option ℕ)
    → 1 ≤ limit
    → AtMost limit o
    → is_late limit o ≡ true
    → Splits limit (or_else o limit)
late-Splits limit none h m e = (h, omega arith)
late-Splits limit (some k) h m e = (ground arith, m)

split_at-Splits : (limit : ℕ) (s : Text) → 1 ≤ limit → Splits limit (split_at limit s)
unfolding split_at
split_at-Splits limit s h =
    if_holds (Splits limit) (is_late limit (last_index_of line_end limit s)) _ _
      (late-Splits limit _ h (last_index_of-AtMost line_end limit s))
      λ _.
        if_holds (Splits limit) (is_late limit (last_index_of blank limit s)) _ _
          (late-Splits limit _ h (last_index_of-AtMost blank limit s)) λ _. (h, omega arith)

length-take_le : (n : ℕ) (s : Text) → length (take n s) ≤ n
length-take_le zero s = omega arith
length-take_le (suc n) [] = omega arith
length-take_le (suc n) (c ∷ s) = omega (arith, length-take_le n s)

length-trim_start_le : (s : Text) → length (trim_start s) ≤ length s
unfolding trim_start
length-trim_start_le [] = omega arith
length-trim_start_le (c ∷ s) = ground (arith, length-trim_start_le s)

solid-append : (s t : Text) → solid (s ++ t) ≡ solid s ++ solid t
solid-append [] t = refl
solid-append (c ∷ s) t = grind (arith, solid-append s t)

solid-trim_start : (s : Text) → solid (trim_start s) ≡ solid s
unfolding trim_start
solid-trim_start [] = refl
solid-trim_start (c ∷ s) = grind (arith, solid-trim_start s)

take-drop : (n : ℕ) (s : Text) → take n s ++ drop n s ≡ s
take-drop zero s = refl
take-drop (suc n) [] = refl
take-drop (suc n) (c ∷ s) = ap (λ t. c ∷ t) (take-drop n s)

-- Chunks within the limit, and all of the text but white space.
abbrev pub Whole : ℕ → Text → Option (List Text) → Type 0
Whole limit s o =
    (chunks : List Text) × (o ≡ some chunks)
    × All (λ c. length c ≤ limit) chunks
    × (solid (joined chunks) ≡ solid s)

one_chunk : (limit : ℕ) (s : Text) → leb (length s) limit ≡ true → Whole limit s (some (s ∷ []))
one_chunk limit s e = (s ∷ [], refl, (ground arith, tt), ap solid (append-nil s))

solid-cut :
    (k : ℕ) (s t : Text) → solid t ≡ solid (trim_start (drop k s)) → solid (take k s ++ t) ≡ solid s
solid-cut k s t e =
    solid-append (take k s) t
    ∙ ap (λ u. solid (take k s) ++ u) (e ∙ solid-trim_start (drop k s))
    ∙ sym (solid-append (take k s) (drop k s))
    ∙ ap solid (take-drop k s)

add_chunk-Whole :
    (limit k : ℕ) (s : Text) (o : Option (List Text))
    → k ≤ limit
    → Whole limit (trim_start (drop k s)) o
    → Whole limit s (add_chunk (take k s) o)
add_chunk-Whole limit k s o h (chunks, e, short, same) = (
  take k s ∷ chunks,
  ap (add_chunk (take k s)) e,
  (omega (arith, length-take_le k s), short),
  solid-cut k s (joined chunks) same,
)

split_from-Whole :
    (fuel limit : ℕ) (s : Text)
    → 1 ≤ limit
    → length s < fuel
    → Whole limit s (split_from fuel limit s)
unfolding split_from
split_from-Whole zero limit s h enough = absurd (omega arith)
split_from-Whole (suc fuel) limit [] h enough = ([], refl, tt, refl)
split_from-Whole (suc fuel) limit (c ∷ s) h enough =
    let whole = c ∷ s in
    let k = split_at limit whole in
    let (ahead, within) = split_at-Splits limit whole h in
    if_holds (Whole limit whole) (leb (length whole) limit) _ _ (one_chunk limit whole) λ _.
      add_chunk-Whole limit k whole _ within (
        split_from-Whole fuel limit (trim_start (drop k whole)) h
          (omega (arith, length-trim_start_le (drop k whole), length-drop k whole)))

-- A limit of at least one, and more fuel than the text is long: the split ends, no chunk is longer
-- than the limit, and the chunks in order are the text but for white space.
pub split_final_message-Whole :
    (fuel limit : ℕ) (s : Text)
    → 1 ≤ limit
    → length s < fuel
    → Whole limit s (split_final_message fuel limit s)
unfolding split_final_message
split_final_message-Whole fuel limit s h enough =
    if_holds (Whole limit s) (leb (length s) limit) _ _ (one_chunk limit s)
      λ _. split_from-Whole fuel limit s h enough
