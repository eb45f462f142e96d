-- ===== src/Examples/Piping.antt =====
-- A pipeline of a tool, a loop and a parallel stage, stopped in the loop.
use invarail.Prelude.{
  ◌≤◌, ◌≡◌, refl, length, true, false, [], ◌∷◌, none, some, text, nat_eq, ok, err,
}
use invarail.Ollama.ModelCaps.{toggle}
use invarail.Pipeline.{
  PipelineContext, Outside, stage, tool_stage, loop_stage, Stages, done, then_stage,
}
use invarail.Pipeline.Executor.{PipelineDefinition, run_pipeline}
use invarail.Pipeline.Executor.Weight.{weight_stages}
use invarail.Pipeline.Executor.Bounds.{run_pipeline-weight}
use invarail.Pipeline.Executor.Stopping.{Halted, run_pipeline-Halted}

abbrev outside : Outside
outside = record {
  executor = λ k tool params. ok (text "seen");
  chat = λ k request. ok (text "written");
  generate = λ k request. err (text "no format");
  extract = λ k request. ok [];
  is_cancelled = λ k. nat_eq k 3;
  completes = λ k steps. steps;
  streams = false;
  caps_for = λ model. toggle;
}

abbrev search_stages : Stages
search_stages =
    then_stage
      (stage (record { name = text "search"; when = none; progress_label = none })
        (tool_stage (text "web_search") (λ c. c.params)))
      done

abbrev loop_stages : Stages
loop_stages =
    then_stage
      (stage (record { name = text "again"; when = none; progress_label = some (text "Again") })
        (loop_stage 2 search_stages (λ c i. true)))
      done

abbrev definition : PipelineDefinition
definition = record { name = text "twice"; stages = loop_stages }

abbrev context : PipelineContext
context = record {
  user_message = text "find it";
  params = [];
  stage_results = [];
  steps = [];
  history = [];
  model = text "glm";
  router_model = none;
  think = none;
  context_size = none;
  loop_index = none;
  abort = false;
  answer = none;
}

run_pipeline-Halted_example : Halted outside (run_pipeline outside definition context).1
run_pipeline-Halted_example = run_pipeline-Halted outside definition context

run_pipeline-weight_example :
    length (run_pipeline outside definition context).1.timings ≤ weight_stages loop_stages
run_pipeline-weight_example = run_pipeline-weight outside definition context

-- The second round of the loop is where the stop is seen.
stopped_in_loop : (run_pipeline outside definition context).1.stops ≡ (text "search", 3) ∷ []
unfolding run_pipeline
stopped_in_loop = refl
