-- ===== src/Pipeline/Executor/Stopping.antt =====
-- What a stop that the user asks for leaves of a pipeline.
use invarail.Prelude.{
  Attempt, ok, err, and_then, and_then_keeps, ℕ, zero, suc, ◌≡◌, refl, ◌∙◌, ◌⊎◌, inl, inr, Bool,
  true, false, ◌||◌, List, [], ◌∷◌, Option, none, some, Text, nat_eq, ◌==◌, arith, if◌then◌else◌,
}
use invarail.Json.{Params}
use invarail.Pipeline.{
  Value, PipelineContext, Outside, ExtractStage, LlmStage, LlmBranchStage, PipelineStage, stage,
  StageKind, extract_stage, tool_stage, llm_stage, code_stage, branch_stage, llm_branch_stage,
  loop_stage, parallel_tool_stage, Stages, done, then_stage, Branches, no_branch, branch_for,
}
use invarail.Pipeline.Calls.{
  Machine, Ended, tick, stop_message, stop_before, run_extract, run_tool, run_llm, ask_word,
  branch_key, run_parallel,
}
use invarail.Pipeline.Executor.{
  kind_name, note_progress, time_stage, wrap_error, store_result, set_index, run_loop,
  execute_stage, execute_stage_inner, execute_branch, execute_stages, PipelineDefinition,
  run_pipeline, start_machine, runs_when,
}

-- The run was stopped before a stage: one poll said so, nothing outside was called after it, and the
-- answer tells of the stop.
abbrev pub StoppedAt : Outside → Machine → Text → ℕ → Type 0
StoppedAt env m name k =
    (m.stops ≡ (name, k) ∷ [])
    × (env.is_cancelled k ≡ true)
    × (m.moment ≡ suc k)
    × (m.ctx.abort ≡ true)
    × (m.ctx.answer ≡ some (stop_message name))

abbrev pub Halted : Outside → Machine → Type 0
Halted env m = (m.stops ≡ []) ⊎ ((name : Text) × (k : ℕ) × StoppedAt env m name k)

module _ (env : Outside) where
  run_extract-stops :
      (name : Text) (s : ExtractStage) (m : Machine) → (run_extract env name s m).1.stops ≡ m.stops
  unfolding run_extract
  run_extract-stops name s m = ground arith

  run_tool-stops :
      (tool : Text) (f : PipelineContext → Params) (m : Machine)
      → (run_tool env tool f m).1.stops ≡ m.stops
  unfolding run_tool
  run_tool-stops tool f m = ground arith

  run_llm-stops : (s : LlmStage) (m : Machine) → (run_llm env s m).1.stops ≡ m.stops
  unfolding run_llm
  run_llm-stops s m = ground arith

  run_parallel-stops :
      (tool : Text) (f : PipelineContext → List Params) (m : Machine)
      → (run_parallel env tool f m).1.stops ≡ m.stops
  unfolding run_parallel
  run_parallel-stops tool f m = refl

  ask_word-stops : (s : LlmBranchStage) (m : Machine) → (ask_word env s m).1.stops ≡ m.stops
  unfolding ask_word
  ask_word-stops s m = ground arith

  wrap_error-Halted : (name : Text) (e : Ended) → Halted env e.1 → Halted env (wrap_error name e).1
  wrap_error-Halted name (err e, m) h = h
  wrap_error-Halted name (ok v, m) h = h

  note_progress-stops :
      (label : Option Text) (m : Machine) → (note_progress label m).stops ≡ m.stops
  note_progress-stops none m = refl
  note_progress-stops (some []) m = refl
  note_progress-stops (some (c ∷ l)) m = refl

  if-Halted :
      (b : Bool) (x y : Ended)
      → (b ≡ true → Halted env x.1)
      → (b ≡ false → Halted env y.1)
      → Halted env (if b then x else y).1
  if-Halted true x y h k = h refl
  if-Halted false x y h k = k refl

  after_word :
      (k : Text → Machine → Ended) (e : Attempt Text × Machine)
      → e.1.stops ≡ []
      → ((raw : Text) (m : Machine) → m.stops ≡ [] → Halted env (k raw m).1)
      → Halted env (and_then e k).1
  after_word k (err e, m) h next = inl h
  after_word k (ok raw, m) h next = next raw m h

  -- A machine that is not aborted was not stopped.
  running : (m : Machine) → Halted env m → m.ctx.abort ≡ false → m.stops ≡ []
  running m (inl e) h = e
  running m (inr (name, k, s)) h = absurd (ground arith)

  run_loop-Halted :
      (body : Machine → Ended) (continue_if : PipelineContext → ℕ → Bool)
      → ((m : Machine) → Halted env m → Halted env (body m).1)
      → (left i : ℕ) (last : Value) (m : Machine) → Halted env m
      → Halted env (run_loop body continue_if left i last m).1
  unfolding run_loop
  run_loop-Halted body continue_if keep zero i last m h = h
  run_loop-Halted body continue_if keep (suc left) i last m h =
      if-Halted m.ctx.abort _ _ (λ _. h)
        λ _.
          if-Halted (nat_eq i 0 || continue_if (set_index (some i) m).ctx i) _ _
            (λ _.
              and_then_keeps (Halted env) (body (set_index (some i) m))
                (run_loop body continue_if left (suc i)) (keep (set_index (some i) m) h)
                (run_loop-Halted body continue_if keep left (suc i)))
            λ _. h

  time_stage-Halted :
      (name kind : Text) (e : Ended) → Halted env e.1 → Halted env (time_stage name kind e).1
  time_stage-Halted name kind (r, m) h = h

  stop_before-Halted :
      (name : Text) (m : Machine)
      → m.stops ≡ []
      → env.is_cancelled m.moment ≡ true
      → Halted env (stop_before name m)
  unfolding stop_before
  stop_before-Halted name m fresh yes_now =
      inr (name, m.moment, (ground arith, yes_now, refl, refl, refl))

-- Whatever a running machine executes, it is stopped at most once, and then for good.
mutual
  unfolding execute_stage execute_stage_inner execute_branch execute_stages

  execute_stage-Halted :
      (env : Outside) (s : PipelineStage) (m : Machine)
      → m.stops ≡ []
      → Halted env (execute_stage env s m).1
  execute_stage-Halted env (stage base kind) m h =
      if-Halted env (runs_when base.when m.ctx) _ _
        (λ _.
          time_stage-Halted env base.name (kind_name kind)
            (execute_stage_inner env base.name kind (note_progress base.progress_label m))
            (execute_stage_inner-Halted env base.name kind (note_progress base.progress_label m)
              (note_progress-stops env base.progress_label m ∙ h)))
        λ _. inl h

  execute_stage_inner-Halted :
      (env : Outside) (name : Text) (kind : StageKind) (m : Machine)
      → m.stops ≡ []
      → Halted env (execute_stage_inner env name kind m).1
  execute_stage_inner-Halted env name (extract_stage s) m h =
      inl (run_extract-stops env name s m ∙ h)
  execute_stage_inner-Halted env name (tool_stage tool resolve) m h =
      inl (run_tool-stops env tool resolve m ∙ h)
  execute_stage_inner-Halted env name (llm_stage s) m h = inl (run_llm-stops env s m ∙ h)
  execute_stage_inner-Halted env name (code_stage execute) m h = inl h
  execute_stage_inner-Halted env name (branch_stage decide branches) m h =
      execute_branch-Halted env (decide m.ctx) branches m h
  execute_stage_inner-Halted env name (llm_branch_stage s branches) m h =
      after_word env (λ raw m'. execute_branch env (branch_key s raw) branches m')
        (ask_word env s m) (ask_word-stops env s m ∙ h)
        (λ raw. execute_branch-Halted env (branch_key s raw) branches)
  execute_stage_inner-Halted env name (loop_stage max_iterations stages continue_if) m h =
      run_loop-Halted env (execute_stages env stages none) continue_if
        (execute_stages-Halted env stages none) max_iterations 0 none m (inl h)
  execute_stage_inner-Halted env name (parallel_tool_stage tool resolve) m h =
      inl (run_parallel-stops env tool resolve m ∙ h)

  execute_branch-Halted :
      (env : Outside) (key : Text) (branches : Branches) (m : Machine)
      → m.stops ≡ []
      → Halted env (execute_branch env key branches m).1
  execute_branch-Halted env key no_branch m h = inl h
  execute_branch-Halted env key (branch_for k stages rest) m h =
      if-Halted env (k == key) _ _ (λ _. execute_stages-Halted env stages none m (inl h))
        λ _. execute_branch-Halted env key rest m h

  execute_stages-Halted :
      (env : Outside) (stages : Stages) (last : Value) (m : Machine)
      → Halted env m
      → Halted env (execute_stages env stages last m).1
  execute_stages-Halted env done last m h = h
  execute_stages-Halted env (then_stage (stage base kind) rest) last m h =
      if-Halted env m.ctx.abort _ _ (λ _. h)
        λ on.
          if-Halted env (env.is_cancelled m.moment) _ _
            (λ now. stop_before-Halted env base.name m (running env m h on) now)
            λ _.
              and_then_keeps (Halted env)
                (wrap_error base.name (execute_stage env (stage base kind) (tick m)))
                (λ v m'. execute_stages env rest v (store_result base.name v m'))
                (wrap_error-Halted env base.name (execute_stage env (stage base kind) (tick m))
                  (execute_stage-Halted env (stage base kind) (tick m) (running env m h on)))
                λ v m' k. execute_stages-Halted env rest v (store_result base.name v m') k

-- However a pipeline is built and whatever its models, tools and code do: it is stopped at most once.
-- If it is stopped then a poll said so, no tool, model or code outside was called after that poll, and
-- its answer is the message that names the stage before which it stopped. The observer of finished
-- stages is not counted.
pub run_pipeline-Halted :
    (env : Outside) (definition : PipelineDefinition) (c : PipelineContext)
    → Halted env (run_pipeline env definition c).1
unfolding run_pipeline start_machine
run_pipeline-Halted env definition c =
    and_then_keeps (Halted env) (execute_stages env definition.stages none (start_machine c)) _
      (execute_stages-Halted env definition.stages none (start_machine c) (inl refl)) λ v m h. h
