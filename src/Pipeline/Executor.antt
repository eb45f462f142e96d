-- ===== src/Pipeline/Executor.antt =====
-- src/pipeline/executor.ts: the machine that runs the stages of a pipeline.
pub mod Stopping
pub mod Weight
pub mod Bounds
pub mod Sequence
use invarail.Prelude.{
  Attempt, ok, err, and_then, and_then_keeps, and_then_assoc, and_then_cong, ℕ, zero, suc, ◌+◌,
  Bool, true, false, ◌&&◌, ◌||◌, List, [], ◌∷◌, ◌++◌, map, Option, none, some, Text, text, lookup,
  assign, ◌==◌, includes, leb, lower, trim, keep, or_else, or_option, length, nat_eq, if◌then◌else◌,
}
use invarail.Json.{Json, str, arr, obj, Items, nil, cons, Members, end, member, Params}
use invarail.Ollama.ModelCaps.{ThinkCap, toggle, levels, full, cannot, unprobed}
use invarail.Pipeline.{
  Value, Step, Think, flag, effort, Message, PipelineContext, ChatRequest, ExtractRequest,
  WordRequest, Outside, BaseStage, ExtractStage, LlmStage, LlmBranchStage, PipelineStage, stage,
  StageKind, extract_stage, tool_stage, llm_stage, code_stage, branch_stage, llm_branch_stage,
  loop_stage, parallel_tool_stage, Stages, done, then_stage, Branches, no_branch, branch_for,
}
use invarail.Pipeline.Calls.{
  run_code, Machine, Ended, tick, with_ctx, stage_error, stop_message, stop_before, assign_all,
  push_step, run_extract, run_tool, think_param, chat_request, run_llm, word_request, clean_word,
  ask_word, branch_key, Settled, call_all, run_parallel,
}

abbrev pub kind_name : StageKind → Text
kind_name (extract_stage _) = text "extract"
kind_name (tool_stage _ _) = text "tool"
kind_name (llm_stage _) = text "llm"
kind_name (code_stage _) = text "code"
kind_name (branch_stage _ _) = text "branch"
kind_name (llm_branch_stage _ _) = text "llm_branch"
kind_name (loop_stage _ _ _) = text "loop"
kind_name (parallel_tool_stage _ _) = text "parallel_tool"

abbrev runs_when : Option (PipelineContext → Bool) → PipelineContext → Bool
runs_when none c = true
runs_when (some f) c = f c

abbrev note_progress : Option Text → Machine → Machine
note_progress none m = m
note_progress (some []) m = m
note_progress (some (c ∷ label)) m = record m { notes = m.notes ++ (c ∷ label) ∷ [] }

-- The `finally` of `executeStage`. The observer `onStageComplete` is told of each entry as it is
-- made, and what it throws is swallowed: what it learns is `timings`.
abbrev pub time_stage : Text → Text → Ended → Ended
time_stage name kind (r, m) = (r, record m { timings = m.timings ++ (name, kind) ∷ [] })

-- The `catch` of `executeStages`.
abbrev pub wrap_error : Text → Ended → Ended
wrap_error name (err e, m) = (err (stage_error name e), m)
wrap_error name (ok v, m) = (ok v, m)

-- `ctx.stageResults[stage.name] = result`
abbrev pub store_result : Text → Value → Machine → Machine
store_result name v m =
    with_ctx m (record m.ctx { stage_results = assign name v m.ctx.stage_results })

abbrev pub set_index : Option ℕ → Machine → Machine
set_index i m = with_ctx m (record m.ctx { loop_index = i })

-- The loop around a body, from an iteration with so many rounds left.
unfoldable pub run_loop :
    (Machine → Ended) → (PipelineContext → ℕ → Bool) → ℕ → ℕ → Value → Machine → Ended
run_loop body continue_if zero i last m = (ok last, set_index none m)
run_loop body continue_if (suc left) i last m =
    let indexed = set_index (some i) m in
    let again = and_then (body indexed) (run_loop body continue_if left (suc i)) in
    if m.ctx.abort
    then (ok last, set_index none m)
    else if nat_eq i 0 || continue_if indexed.ctx i
    then again
    else (ok last, set_index none m)

unfoldable mutual
  unfolding run_loop stage_error stop_before run_extract run_tool run_llm run_parallel ask_word
      branch_key

  pub execute_stage : Outside → PipelineStage → Machine → Ended
  execute_stage env (stage base kind) m =
      let run =
        time_stage base.name (kind_name kind)
          (execute_stage_inner env base.name kind (note_progress base.progress_label m)) in
      if runs_when base.when m.ctx then run else (ok none, m)

  pub execute_stage_inner : Outside → Text → StageKind → Machine → Ended
  execute_stage_inner env name (extract_stage s) m = run_extract env name s m
  execute_stage_inner env name (tool_stage tool resolve) m = run_tool env tool resolve m
  execute_stage_inner env name (llm_stage s) m = run_llm env s m
  execute_stage_inner env name (code_stage execute) m = run_code execute m
  execute_stage_inner env name (branch_stage decide branches) m =
      execute_branch env (decide m.ctx) branches m
  execute_stage_inner env name (llm_branch_stage s branches) m =
      and_then (ask_word env s m) (λ raw m'. execute_branch env (branch_key s raw) branches m')
  execute_stage_inner env name (loop_stage max_iterations stages continue_if) m =
      run_loop (execute_stages env stages none) continue_if max_iterations 0 none m
  execute_stage_inner env name (parallel_tool_stage tool resolve) m =
      run_parallel env tool resolve m

  pub execute_branch : Outside → Text → Branches → Machine → Ended
  execute_branch env key no_branch m = (ok none, m)
  execute_branch env key (branch_for k stages rest) m =
      let taken = execute_stages env stages none m in
      let other = execute_branch env key rest m in if k == key then taken else other

  pub execute_stages : Outside → Stages → Value → Machine → Ended
  execute_stages env done last m = (ok last, m)
  execute_stages env (then_stage (stage base kind) rest) last m =
      let go =
        and_then (wrap_error base.name (execute_stage env (stage base kind) (tick m)))
          (λ v m'. execute_stages env rest v (store_result base.name v m')) in
      if m.ctx.abort
      then (ok last, m)
      else if env.is_cancelled m.moment
      then (ok last, stop_before base.name m)
      else go

pub record PipelineDefinition : Type 0 where
  pub name : Text
  pub stages : Stages

pub record PipelineResult : Type 0 where
  pub answer : Text
  pub iterations : ℕ
  pub hit_max_iterations : Bool
  pub steps : List Step

unfoldable pub start_machine : PipelineContext → Machine
start_machine c = record { ctx = c; moment = 0; timings = []; notes = []; stops = [] }

abbrev result_of : PipelineContext → PipelineResult
result_of c = record {
  answer = or_else c.answer [];
  iterations = length c.steps + 1;
  hit_max_iterations = false;
  steps = c.steps;
}

-- `runPipeline`, with the machine that it ends in.
unfoldable pub run_pipeline :
    Outside → PipelineDefinition → PipelineContext → Attempt PipelineResult × Machine
unfolding execute_stages start_machine
run_pipeline env definition c =
    and_then (execute_stages env definition.stages none (start_machine c))
      (λ v m. (ok (result_of m.ctx), m))
