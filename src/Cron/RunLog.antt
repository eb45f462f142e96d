-- ===== src/Cron/RunLog.antt =====
-- src/cron/run-log.ts: capped logs of runs and of what reached no one, one JSON line an entry.
use invarail.Prelude.{
  ℕ, suc, zero, ◌-◌, ◌≡◌, ◌≤◌, refl, true, List, [], ◌∷◌, ◌++◌, Option, none, some, Text, truthy,
  keep, drop, take_last, length, length-append, length-take_last, ltb, arith, Bool-cases, inl, inr,
  if◌then◌else◌,
}

abbrev pub max_records : ℕ
max_records = 200

-- A file as its lines, `none` where it cannot be read.
abbrev lines_of : Option (List Text) → List Text
lines_of none = []
lines_of (some ls) = keep truthy ls

-- `appendCapped` of one JSON line to a file that can be written.
unfoldable pub append_capped : Text → Option (List Text) → List Text
append_capped line file =
    let lines = lines_of file ++ line ∷ [] in
    if ltb max_records (length lines) then take_last max_records lines else lines

-- Each line as its entry; one line that is no JSON makes the reading fail.
abbrev parse_all {ℓ} : {A : Type ℓ} → (Text → Option A) → List Text → Option (List A)
parse_all parse [] = some []
parse_all parse (l ∷ ls) = elim (parse l) [
  | none ↦ none
  | some x ↦ elim (parse_all parse ls) [ none ↦ none | some xs ↦ some (x ∷ xs) ]
]

abbrev or_empty {ℓ} : {A : Type ℓ} → Option (List A) → List A
or_empty none = []
or_empty (some xs) = xs

-- `slice(-0)` is the whole array.
abbrev pub slice_last {ℓ} : {A : Type ℓ} → ℕ → List A → List A
slice_last zero xs = xs
slice_last (suc n) xs = take_last (suc n) xs

-- `readCapped`: a failure reads as an empty log. `parse` is JavaScript's `JSON.parse`.
unfoldable pub read_capped {ℓ} : {A : Type ℓ} → (Text → Option A) → ℕ → Option (List Text) → List A
read_capped parse limit file = or_empty (parse_all parse (slice_last limit (lines_of file)))

keep-append_line :
    (xs : List Text) (l : Text)
    → truthy l ≡ true
    → keep truthy (xs ++ l ∷ []) ≡ keep truthy xs ++ l ∷ []
keep-append_line [] l h = rw h refl
keep-append_line (x ∷ xs) l h = ground (arith, keep-append_line xs l h)

drop-append_one {ℓ} :
    {A : Type ℓ} (n : ℕ) (xs : List A) (x : A)
    → n ≤ length xs
    → drop n (xs ++ x ∷ []) ≡ drop n xs ++ x ∷ []
drop-append_one zero xs x h = refl
drop-append_one (suc n) [] x h = ground arith
drop-append_one (suc n) (y ∷ xs) x h = drop-append_one n xs x (omega (arith, h))

take_last-append_one {ℓ} :
    {A : Type ℓ} (n : ℕ) (xs : List A) (x : A)
    → take_last (suc n) (xs ++ x ∷ []) ≡ drop (length (xs ++ x ∷ []) - suc n) xs ++ x ∷ []
take_last-append_one n xs x =
    drop-append_one (length (xs ++ x ∷ []) - suc n) xs x (omega (arith, length-append xs (x ∷ [])))

drop-all {ℓ} : {A : Type ℓ} (n : ℕ) (xs : List A) → length xs ≤ n → drop n xs ≡ []
drop-all zero [] h = refl
drop-all zero (x ∷ xs) h = ground arith
drop-all (suc n) [] h = refl
drop-all (suc n) (x ∷ xs) h = drop-all n xs (omega (arith, h))

-- An append leaves at most 200 lines, of which the entry that was appended is the last one.
append_capped_last :
    (line : Text) (file : Option (List Text))
    → (length (append_capped line file) ≤ max_records)
      × ((before : List Text) × (append_capped line file ≡ before ++ line ∷ []))
unfolding append_capped
append_capped_last line file =
    let lines = lines_of file ++ line ∷ [] in
    elim (Bool-cases (ltb max_records (length lines))) [
      | inl over ↦ rw over (
        omega (arith, length-take_last max_records lines),
        (
          drop (length lines - max_records) (lines_of file),
          take_last-append_one 199 (lines_of file) line,
        ),
      )
      | inr fits ↦ rw fits (ground (arith, fits), (lines_of file, refl))
    ]

-- A reading of one entry gives the entry that was appended last, where its line is not empty and
-- parses to the entry.
pub read_capped-append_capped {ℓ} :
    {A : Type ℓ} (parse : Text → Option A) (x : A) (line : Text) (file : Option (List Text))
    → truthy line ≡ true
    → parse line ≡ some x
    → read_capped parse 1 (some (append_capped line file)) ≡ x ∷ []
unfolding read_capped
read_capped-append_capped parse x line file h e =
    let (bound, (before, last)) = append_capped_last line file in
    let before_lines = keep truthy before in
    rw (last, keep-append_line before line h, take_last-append_one 0 (keep truthy before) line)
      (rw
        (
          drop-all (length (before_lines ++ line ∷ []) - 1) before_lines
              (omega (arith, length-append before_lines (line ∷ []))),
          e,
        )
        refl)
