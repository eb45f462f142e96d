-- ===== src/Pipeline/Executor/Weight.antt =====
-- The weight of a pipeline, and what each single stage and the loop add to the stages that have run.
use invarail.Prelude.{
  Attempt, ok, err, and_then, ℕ, zero, suc, ◌+◌, ◌*◌, ◌≤◌, ◌≡◌, refl, Bool, true, false, ◌||◌, List,
  [], ◌∷◌, Option, none, some, Text, nat_eq, length, length-append, arith, if◌then◌else◌,
}
use Prim.Native.Nat.{max}
use invarail.Json.{Params}
use invarail.Pipeline.{
  Value, PipelineContext, Outside, ExtractStage, LlmStage, LlmBranchStage, PipelineStage, stage,
  StageKind, branch_stage, llm_branch_stage, loop_stage, Stages, done, then_stage, Branches,
  no_branch, branch_for,
}
use invarail.Pipeline.Calls.{
  Machine, Ended, run_extract, run_tool, run_llm, ask_word, run_parallel, stop_before,
}
use invarail.Pipeline.Executor.{note_progress, time_stage, wrap_error, set_index, run_loop}

-- The most stages that can run: each counts once, a loop's body as often as the loop may turn, and of
-- the branches the heaviest.
unfoldable mutual
  pub weight : PipelineStage → ℕ
  weight (stage base kind) = suc (weight_inner kind)

  pub weight_inner : StageKind → ℕ
  weight_inner (branch_stage decide branches) = weight_branches branches
  weight_inner (llm_branch_stage s branches) = weight_branches branches
  weight_inner (loop_stage max_iterations stages continue_if) =
      max_iterations * weight_stages stages
  weight_inner _ = 0

  pub weight_branches : Branches → ℕ
  weight_branches no_branch = 0
  weight_branches (branch_for k stages rest) = max (weight_stages stages) (weight_branches rest)

  pub weight_stages : Stages → ℕ
  weight_stages done = 0
  weight_stages (then_stage s rest) = weight s + weight_stages rest

-- how many stages have run
abbrev pub ran : Machine → ℕ
ran m = length m.timings

-- At most `n` stages more than `k` have run.
abbrev pub Within : {A : Type 0} → ℕ → Attempt A × Machine → Type 0
Within n (r, m) = ran m ≤ n

pub if-Within :
    (n : ℕ) (b : Bool) (x y : Ended) → Within n x → Within n y → Within n (if b then x else y)
if-Within n true x y h k = h
if-Within n false x y h k = k

pub weaken : {A : Type 0} (a b : ℕ) (e : Attempt A × Machine) → a ≤ b → Within a e → Within b e
weaken a b (r, m) h k = omega arith

pub and_then-Within :
    {A B : Type 0} (n total : ℕ) (e : Attempt A × Machine) (f : A → Machine → Attempt B × Machine)
    → n ≤ total
    → Within n e
    → ((a : A) (m : Machine) → ran m ≤ n → Within total (f a m))
    → Within total (and_then e f)
and_then-Within n total (err e, m) f h k next = omega arith
and_then-Within n total (ok a, m) f h k next = next a m k

pub wrap_error-Within :
    (name : Text) (n : ℕ) (e : Ended) → Within n e → Within n (wrap_error name e)
wrap_error-Within name n (err e, m) h = h
wrap_error-Within name n (ok v, m) h = h

pub time_stage-Within :
    (name kind : Text) (n : ℕ) (e : Ended) → Within n e → Within (suc n) (time_stage name kind e)
time_stage-Within name kind n (r, m) h = omega (arith, length-append m.timings ((name, kind) ∷ []))

pub note_progress-ran : (label : Option Text) (m : Machine) → ran (note_progress label m) ≡ ran m
note_progress-ran none m = refl
note_progress-ran (some []) m = refl
note_progress-ran (some (c ∷ l)) m = refl

module _ (env : Outside) where
  pub run_extract-ran :
      (name : Text) (s : ExtractStage) (m : Machine) → Within (ran m) (run_extract env name s m)
  unfolding run_extract
  run_extract-ran name s m = ground arith

  pub run_tool-ran :
      (tool : Text) (f : PipelineContext → Params) (m : Machine)
      → Within (ran m) (run_tool env tool f m)
  unfolding run_tool
  run_tool-ran tool f m = ground arith

  pub run_llm-ran : (s : LlmStage) (m : Machine) → Within (ran m) (run_llm env s m)
  unfolding run_llm
  run_llm-ran s m = ground arith

  pub ask_word-ran : (s : LlmBranchStage) (m : Machine) → Within (ran m) (ask_word env s m)
  unfolding ask_word
  ask_word-ran s m = ground arith

  pub run_parallel-ran :
      (tool : Text) (f : PipelineContext → List Params) (m : Machine)
      → Within (ran m + 0) (run_parallel env tool f m)
  unfolding run_parallel
  run_parallel-ran tool f m = omega arith

pub stop_before-ran : (name : Text) (m : Machine) (n : ℕ) → ran m ≤ n → ran (stop_before name m) ≤ n
unfolding stop_before
stop_before-ran name m n h = h

pub run_loop-Within :
    (body : Machine → Ended) (w : ℕ) (continue_if : PipelineContext → ℕ → Bool)
    → ((m : Machine) → Within (ran m + w) (body m))
    → (left i : ℕ) (last : Value) (m : Machine)
    → Within (ran m + left * w) (run_loop body continue_if left i last m)
unfolding run_loop
run_loop-Within body w continue_if keep zero i last m = omega arith
run_loop-Within body w continue_if keep (suc left) i last m =
    if-Within (ran m + suc left * w) m.ctx.abort _ _ (omega arith) (
      if-Within (ran m + suc left * w) (nat_eq i 0 || continue_if (set_index (some i) m).ctx i)
        (and_then (body (set_index (some i) m)) (run_loop body continue_if left (suc i)))
        (ok last, set_index none m)
        (and_then-Within (ran m + w) (ran m + suc left * w) (body (set_index (some i) m))
          (run_loop body continue_if left (suc i)) (grind arith) (keep (set_index (some i) m))
          λ v m' h.
            weaken (ran m' + left * w) (ran m + suc left * w)
              (run_loop body continue_if left (suc i) v m') (grind arith)
              (run_loop-Within body w continue_if keep left (suc i) v m'))
        (omega arith))
