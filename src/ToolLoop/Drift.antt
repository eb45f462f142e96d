-- ===== src/ToolLoop/Drift.antt =====
-- src/tool-loop/engine.ts, `DriftTracker`: signs that a run repeats itself instead of getting on.
use invarail.Prelude.{
  ℕ, ◌⊎◌, ◌+◌, ◌*◌, ◌<◌, ◌≤◌, suc, ◌≡◌, refl, sym, Bool, true, false, ◌&&◌, not, List, [], ◌∷◌,
  ◌++◌, Option, none, some, Text, ◌==◌, eq_iff, eq_refl, length, drop, any, ltb, leb, is_some,
  arith, Bool-cases, inl, inr, if◌then◌else◌,
}

-- A call: its tool, and its signature, `tool + ':' + JSON.stringify(params)`.
pub record ToolCall : Type 0 where
  pub tool : Text
  pub sig : Text

-- A response as the tracker reads it: its length, how often its hedging phrases match, whether it
-- restates the question, and the call that it makes.
pub record Response : Type 0 where
  pub size : ℕ
  pub hedges : ℕ
  pub restates : Bool
  pub call : Option ToolCall

pub record Tracker : Type 0 where
  pub response_lengths : List ℕ
  pub last_sigs : List Text
  pub hedging_count : ℕ
  pub streak : ℕ
  pub last_tool : Text

pub data Drift : Type 0 where
  steady growing repeating hedging streak : Drift

abbrev pub streak_limit : ℕ
streak_limit = 5

-- `push`, then `shift` where more than three are kept.
abbrev pub push_capped {ℓ} : {A : Type ℓ} → A → List A → List A
push_capped x xs =
    let all_of = xs ++ x ∷ [] in if ltb 3 (length all_of) then drop 1 all_of else all_of

-- The last two are there and equal.
unfoldable pub ends_twice : List Text → Bool
ends_twice [] = false
ends_twice (x ∷ []) = false
ends_twice (x ∷ y ∷ []) = x == y
ends_twice (x ∷ y ∷ z ∷ xs) = ends_twice (y ∷ z ∷ xs)

-- `c > a * 1.5 && c > b * 1.5`
abbrev grows : List ℕ → Bool
grows (a ∷ b ∷ c ∷ xs) = ltb (3 * a) (2 * c) && ltb (3 * b) (2 * c)
grows _ = false

-- The rest of the check, where the call is no sign.
unfoldable pub check_text : Response → Tracker → Drift × Tracker
check_text r s =
    let hedging_total = s.hedging_count + r.hedges + (if r.restates then 1 else 0) in
    let counted : Tracker = record s { hedging_count = hedging_total } in
    if leb 4 hedging_total
    then (hedging, counted)
    else if grows s.response_lengths && not (is_some r.call)
    then (growing, counted)
    else (steady, counted)

unfoldable pub check_call : Response → ToolCall → Tracker → Drift × Tracker
unfolding ends_twice check_text
check_call r c s =
    let sigs = push_capped c.sig s.last_sigs in
    let run = if c.tool == s.last_tool then suc s.streak else 1 in
    if ends_twice sigs
    then (repeating, record s { last_sigs = sigs })
    else if leb streak_limit run
    then (streak, record s { last_sigs = sigs; streak = 0; last_tool = c.tool })
    else check_text r (record s { last_sigs = sigs; streak = run; last_tool = c.tool })

unfoldable pub check_drift : Response → Tracker → Drift × Tracker
unfolding check_call check_text
check_drift r s =
    let seen : Tracker = record s { response_lengths = push_capped r.size s.response_lengths } in
    elim r.call [ none ↦ check_text r seen | some c ↦ check_call r c seen ]

-- The verdicts on a run of responses, in turn.
unfoldable pub check_run : List Response → Tracker → List Drift
unfolding check_drift
check_run [] s = []
check_run (r ∷ rs) s = let (verdict, next) = check_drift r s in verdict ∷ check_run rs next

abbrev pub is_stuck : Drift → Bool
is_stuck steady = false
is_stuck growing = false
is_stuck hedging = false
is_stuck repeating = true
is_stuck streak = true

abbrev pub CallsTool : Text → Response → Type 0
CallsTool t r = (c : ToolCall) × (r.call ≡ some c) × (c.tool ≡ t)

abbrev pub AllCall : Text → List Response → Type 0
AllCall t [] = Unit
AllCall t (r ∷ rs) = CallsTool t r × AllCall t rs

check_text_keeps :
    (r : Response) (s : Tracker)
    → ((check_text r s).1.streak ≡ s.streak) × ((check_text r s).1.last_tool ≡ s.last_tool)
unfolding check_text
check_text_keeps r s = ground arith

-- A call is a sign, or it makes the streak of its tool longer, below the limit.
check_call_counts :
    (r : Response) (c : ToolCall) (s : Tracker)
    → (is_stuck (check_call r c s).0 ≡ true)
      ⊎ (((check_call r c s).1.last_tool ≡ c.tool)
          × ((check_call r c s).1.streak ≡ (if c.tool == s.last_tool then suc s.streak else 1))
          × ((check_call r c s).1.streak < streak_limit))
unfolding check_call
check_call_counts r c s =
    let sigs = push_capped c.sig s.last_sigs in
    let run = if c.tool == s.last_tool then suc s.streak else 1 in
    let kept =
      check_text_keeps r (record s { last_sigs = sigs; streak = run; last_tool = c.tool }) in
    elim (Bool-cases (ends_twice sigs)) [
      | inl twice ↦ inl (rw twice refl)
      | inr fresh ↦ elim (Bool-cases (leb streak_limit run)) [
        | inl long ↦ inl (rw (fresh, long) refl)
        | inr short ↦ inr (rw (fresh, short) (kept.1, kept.0, ground (arith, short, kept.0)))
      ]
    ]

-- A call of the tool of the last call is a sign, or it makes the streak longer, below the limit.
check_drift_counts :
    (t : Text) (r : Response) (s : Tracker)
    → CallsTool t r
    → (is_stuck (check_drift r s).0 ≡ true)
      ⊎ (((check_drift r s).1.last_tool ≡ t)
          × ((check_drift r s).1.streak ≡ (if t == s.last_tool then suc s.streak else 1))
          × ((check_drift r s).1.streak < streak_limit))
unfolding check_drift check_call
check_drift_counts t r s (c, calls, same) =
    let seen : Tracker = record s { response_lengths = push_capped r.size s.response_lengths } in
    rw (calls, check_drift, sym same) (check_call_counts r c seen)

check_run_counts :
    (t : Text) (rs : List Response) (s : Tracker)
    → AllCall t rs
    → s.last_tool ≡ t
    → s.streak < streak_limit
    → (any is_stuck (check_run rs s) ≡ true) ⊎ (s.streak + length rs < streak_limit)
unfolding check_run
check_run_counts t [] s all_call same small = inr (omega (arith, small))
check_run_counts t (r ∷ rs) s (calls, all_call) same small = elim (check_drift_counts t r s calls) [
  | inl sign ↦ inl (rw sign refl)
  | inr (tool, longer, below) ↦
      elim (check_run_counts t rs (check_drift r s).1 all_call tool below) [
        | inl later ↦ inl (ground (arith, later))
        | inr short ↦ inr (ground (arith, short, longer, same, eq_refl t, eq_iff t s.last_tool))
      ]
]

-- Whatever came before, five calls of one tool in a row are seen: the tracker says `repeating` or
-- `streak` at one of them.
pub check_run-is_stuck :
    (t : Text) (rs : List Response) (s : Tracker)
    → AllCall t rs
    → streak_limit ≤ length rs
    → any is_stuck (check_run rs s) ≡ true
unfolding check_run
check_run-is_stuck t [] s all_call long = ground (arith, long)
check_run-is_stuck t (r ∷ rs) s (calls, all_call) long = elim (check_drift_counts t r s calls) [
  | inl sign ↦ rw sign refl
  | inr (tool, longer, below) ↦
      elim (check_run_counts t rs (check_drift r s).1 all_call tool below) [
        | inl later ↦ ground (arith, later)
        | inr short ↦ ground (arith, short, longer, long)
      ]
]
