-- ===== src/Pipeline/Executor/Bounds.antt =====
-- How much a pipeline can run.
use invarail.Prelude.{ok, and_then, suc, ◌+◌, ◌≤◌, none, Text, length, ◌==◌, arith, if◌then◌else◌}
use Prim.Native.Nat.{max}
use invarail.Pipeline.{
  Value, PipelineContext, Outside, PipelineStage, stage, StageKind, extract_stage, tool_stage,
  llm_stage, code_stage, branch_stage, llm_branch_stage, loop_stage, parallel_tool_stage, Stages,
  done, then_stage, Branches, no_branch, branch_for,
}
use invarail.Pipeline.Calls.{
  Machine, tick, run_extract, run_tool, run_llm, ask_word, branch_key, stop_before,
}
use invarail.Pipeline.Executor.{
  kind_name, note_progress, time_stage, wrap_error, store_result, execute_stage,
  execute_stage_inner, execute_branch, execute_stages, PipelineDefinition, run_pipeline,
  start_machine, runs_when,
}
use invarail.Pipeline.Executor.Weight.{
  weight, weight_inner, weight_branches, weight_stages, ran, Within, if-Within, weaken,
  and_then-Within, wrap_error-Within, time_stage-Within, note_progress-ran, stop_before-ran,
  run_loop-Within, run_extract-ran, run_tool-ran, run_llm-ran, ask_word-ran, run_parallel-ran,
}

mutual
  unfolding execute_stage execute_stage_inner execute_branch execute_stages weight weight_inner
      weight_branches weight_stages

  execute_stage-Within :
      (env : Outside) (s : PipelineStage) (m : Machine)
      → Within (ran m + weight s) (execute_stage env s m)
  execute_stage-Within env (stage base kind) m =
      if-Within (ran m + suc (weight_inner kind)) (runs_when base.when m.ctx)
        (time_stage base.name (kind_name kind)
          (execute_stage_inner env base.name kind (note_progress base.progress_label m)))
        (ok none, m)
        (weaken (suc (ran (note_progress base.progress_label m) + weight_inner kind))
          (ran m + suc (weight_inner kind))
          (time_stage base.name (kind_name kind)
            (execute_stage_inner env base.name kind (note_progress base.progress_label m)))
          (omega (arith, note_progress-ran base.progress_label m))
          (time_stage-Within base.name (kind_name kind)
            (ran (note_progress base.progress_label m) + weight_inner kind)
            (execute_stage_inner env base.name kind (note_progress base.progress_label m))
            (execute_stage_inner-Within env base.name kind (note_progress base.progress_label m))))
        (omega arith)

  execute_stage_inner-Within :
      (env : Outside) (name : Text) (kind : StageKind) (m : Machine)
      → Within (ran m + weight_inner kind) (execute_stage_inner env name kind m)
  execute_stage_inner-Within env name (extract_stage s) m =
      weaken (ran m) (ran m + 0) (run_extract env name s m) (omega arith)
        (run_extract-ran env name s m)
  execute_stage_inner-Within env name (tool_stage tool resolve) m =
      weaken (ran m) (ran m + 0) (run_tool env tool resolve m) (omega arith)
        (run_tool-ran env tool resolve m)
  execute_stage_inner-Within env name (llm_stage s) m =
      weaken (ran m) (ran m + 0) (run_llm env s m) (omega arith) (run_llm-ran env s m)
  execute_stage_inner-Within env name (code_stage execute) m = omega arith
  execute_stage_inner-Within env name (branch_stage decide branches) m =
      execute_branch-Within env (decide m.ctx) branches m
  execute_stage_inner-Within env name (llm_branch_stage s branches) m =
      and_then-Within (ran m) (ran m + weight_branches branches) (ask_word env s m)
        (λ raw m'. execute_branch env (branch_key s raw) branches m') (omega arith)
        (ask_word-ran env s m)
        λ raw m' h.
          weaken (ran m' + weight_branches branches) (ran m + weight_branches branches)
            (execute_branch env (branch_key s raw) branches m') (omega arith)
            (execute_branch-Within env (branch_key s raw) branches m')
  execute_stage_inner-Within env name (loop_stage max_iterations stages continue_if) m =
      run_loop-Within (execute_stages env stages none) (weight_stages stages) continue_if
        (execute_stages-Within env stages none) max_iterations 0 none m
  execute_stage_inner-Within env name (parallel_tool_stage tool resolve) m =
      run_parallel-ran env tool resolve m

  execute_branch-Within :
      (env : Outside) (key : Text) (branches : Branches) (m : Machine)
      → Within (ran m + weight_branches branches) (execute_branch env key branches m)
  execute_branch-Within env key no_branch m = omega arith
  execute_branch-Within env key (branch_for k stages rest) m =
      let most = ran m + max (weight_stages stages) (weight_branches rest) in
      if-Within most (k == key) (execute_stages env stages none m) (execute_branch env key rest m)
        (weaken (ran m + weight_stages stages) most (execute_stages env stages none m) (omega arith)
          (execute_stages-Within env stages none m))
        (weaken (ran m + weight_branches rest) most (execute_branch env key rest m) (omega arith)
          (execute_branch-Within env key rest m))

  execute_stages-Within :
      (env : Outside) (stages : Stages) (last : Value) (m : Machine)
      → Within (ran m + weight_stages stages) (execute_stages env stages last m)
  execute_stages-Within env done last m = omega arith
  execute_stages-Within env (then_stage (stage base kind) rest) last m =
      let s = stage base kind in
      let most = ran m + (weight s + weight_stages rest) in
      let go =
        and_then (wrap_error base.name (execute_stage env s (tick m)))
          (λ v m'. execute_stages env rest v (store_result base.name v m')) in
      if-Within most m.ctx.abort (ok last, m)
        (if env.is_cancelled m.moment then (ok last, stop_before base.name m) else go) (omega arith)
        (if-Within most (env.is_cancelled m.moment) (ok last, stop_before base.name m) go
          (stop_before-ran base.name m most (omega arith))
          (and_then-Within (ran m + weight s) most
            (wrap_error base.name (execute_stage env s (tick m)))
            (λ v m'. execute_stages env rest v (store_result base.name v m')) (omega arith)
            (wrap_error-Within base.name (ran m + weight s) (execute_stage env s (tick m))
              (execute_stage-Within env (stage base kind) (tick m)))
            λ v m' h.
              weaken (ran m' + weight_stages rest) most
                (execute_stages env rest v (store_result base.name v m')) (omega arith)
                (execute_stages-Within env rest v (store_result base.name v m'))))

-- Whatever its tools, models and code do, a pipeline runs at most as many stages as its weight: each
-- stage counts once, a loop's body as often as the loop may turn, of the branches the heaviest.
pub run_pipeline-weight :
    (env : Outside) (definition : PipelineDefinition) (c : PipelineContext)
    → length (run_pipeline env definition c).1.timings ≤ weight_stages definition.stages
unfolding run_pipeline start_machine
run_pipeline-weight env definition c =
    let total = weight_stages definition.stages in
    let m = start_machine c in
    and_then-Within total total (execute_stages env definition.stages none m) _ (omega arith)
      (weaken (0 + total) total (execute_stages env definition.stages none m) (omega arith)
        (execute_stages-Within env definition.stages none m))
      λ v m' h. h
