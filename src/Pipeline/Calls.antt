-- ===== src/Pipeline/Calls.antt =====
-- src/pipeline/executor.ts: the stages that call outside, one function for each `case` of
-- `executeStageInner` that has no stages of its own. What the executor prints, the progress notes
-- that it emits and the timings that it collects are lists of the machine, so that a stage's own code
-- cannot touch them; durations are left out.
use invarail.Prelude.{
  Attempt, ok, err, ℕ, suc, ◌+◌, Bool, true, false, ◌&&◌, ◌||◌, List, [], ◌∷◌, ◌++◌, Option, none,
  some, Text, text, assign, includes, leb, lower, trim, keep, or_else, or_option, length, nat_eq,
  if◌then◌else◌,
}
use invarail.Json.{str, arr, obj, Items, nil, cons, Members, end, member, Params}
use invarail.Ollama.ModelCaps.{ThinkCap, toggle, levels, full}
use invarail.Pipeline.{
  Value, Step, Think, flag, effort, PipelineContext, ChatRequest, WordRequest, Outside,
  ExtractStage, LlmStage, LlmBranchStage,
}

pub record Machine : Type 0 where
  pub ctx : PipelineContext
  -- how many calls outside there were
  pub moment : ℕ
  -- `ctx.stageTimings`: name and type
  pub timings : List (Text × Text)
  -- what `onProgress` was given
  pub notes : List Text
  -- the log lines "Cancelled by user before stage", with the moment of the poll
  pub stops : List (Text × ℕ)

abbrev pub Ended : Type 0
Ended = Attempt Value × Machine

-- One call outside was made.
abbrev pub tick : Machine → Machine
tick m = record m { moment = suc m.moment }

abbrev pub with_ctx : Machine → PipelineContext → Machine
with_ctx m c = record m { ctx = c }

-- `pipelineStageError(stage, cause)` of src/errors.ts, its message.
unfoldable pub stage_error : Text → Text → Text
stage_error name msg = text "Pipeline stage \"" ++ (name ++ (text "\" failed: " ++ msg))

unfoldable pub stop_message : Text → Text
stop_message name =
    text "Stopped by request before \""
    ++ (name
        ++ text
            "\" — the pipeline did not finish, so there is no result to trust. Partial work was discarded.")

-- The branch of `executeStages` that is taken where the poll says that the user stopped the run.
unfoldable pub stop_before : Text → Machine → Machine
unfolding stop_message
stop_before name m = record m {
  ctx = record m.ctx { abort = true; answer = some (stop_message name) };
  moment = suc m.moment;
  stops = m.stops ++ (name, m.moment) ∷ [];
}

abbrev members_of : Params → Members
members_of [] = end
members_of ((k, v) ∷ ps) = member k v (members_of ps)

-- `Object.assign(target, source)`
unfoldable pub assign_all : Params → Params → Params
assign_all [] target = target
assign_all ((k, v) ∷ ps) target = assign_all ps (assign k v target)

abbrev pub push_step : Step → PipelineContext → PipelineContext
push_step s c = record c { steps = c.steps ++ s ∷ [] }

-- `stage.context ? stage.context(ctx) : undefined`
abbrev extra_of : Option (PipelineContext → Text) → PipelineContext → Option Text
extra_of none c = none
extra_of (some f) c = some (f c)

abbrev merge_params : Params → Machine → Ended
merge_params ps m = (
  ok (some (obj (members_of ps))),
  with_ctx m (record m.ctx { params = assign_all ps m.ctx.params }),
)

-- The extraction's outcome, with the fallback in the `catch`.
abbrev settle_extract : Option (PipelineContext → Params) → Machine → Attempt Params → Ended
settle_extract fallback m (ok ps) = merge_params ps m
settle_extract none m (err e) = (err e, m)
settle_extract (some f) m (err e) = merge_params (f m.ctx) m

unfoldable pub run_extract : Outside → Text → ExtractStage → Machine → Ended
unfolding assign_all
run_extract env name s m = settle_extract s.fallback (tick m) (
    env.extract m.moment (record {
      model = or_else m.ctx.router_model m.ctx.model;
      stage = name;
      message = m.ctx.user_message;
      extra_context = extra_of s.context m.ctx;
    }))

abbrev settle_tool : Text → Params → Machine → Attempt Text → Ended
settle_tool tool ps m (err e) = (err e, m)
settle_tool tool ps m (ok o) = (
  ok (some (str o)),
  with_ctx m (push_step (record { tool = tool; params = ps; observation = o }) m.ctx),
)

unfoldable pub run_tool : Outside → Text → (PipelineContext → Params) → Machine → Ended
run_tool env tool resolve m =
    settle_tool tool (resolve m.ctx) (tick m) (env.executor m.moment tool (resolve m.ctx))

abbrev takes_flags : ThinkCap → Bool
takes_flags toggle = true
takes_flags full = true
takes_flags _ = false

abbrev takes_efforts : ThinkCap → Bool
takes_efforts levels = true
takes_efforts full = true
takes_efforts _ = false

-- `thinkParam`: a control is sent only to a model that honours it.
unfoldable pub think_param : Option Think → ThinkCap → Option Think
think_param none cap = none
think_param (some (flag b)) cap = if takes_flags cap then some (flag b) else none
think_param (some (effort e)) cap = if takes_efforts cap then some (effort e) else none

-- `ctx.contextSize` counts if it is not 0.
abbrev nonzero : Option ℕ → Option ℕ
nonzero (some (suc n)) = some (suc n)
nonzero _ = none

unfoldable pub chat_request : Outside → LlmStage → PipelineContext → ChatRequest
unfolding think_param
chat_request env s c =
    let (system, user) = s.build_prompt c in
    let model = or_else s.model c.model in
    record {
      model = model;
      messages =
          record { role = text "system"; content = system }
          ∷ (c.history ++ record { role = text "user"; content = user } ∷ []);
      num_predict = or_else s.max_tokens 2048;
      num_ctx = nonzero c.context_size;
      think = think_param (or_option s.think c.think) (env.caps_for model);
      streamed = s.stream && env.streams;
    }

abbrev settle_llm : Machine → Attempt Text → Ended
settle_llm m (err e) = (err e, m)
settle_llm m (ok content) =
    (ok (some (str content)), with_ctx m (record m.ctx { answer = some content }))

unfoldable pub run_llm : Outside → LlmStage → Machine → Ended
unfolding chat_request
run_llm env s m = settle_llm (tick m) (env.chat m.moment (chat_request env s m.ctx))

abbrev pub run_code : (ℕ → PipelineContext → Attempt Value × PipelineContext) → Machine → Ended
run_code execute m = let (v, c) = execute m.moment m.ctx in (v, with_ctx (tick m) c)

abbrev join_comma : List Text → Text
join_comma [] = []
join_comma (o ∷ []) = o
join_comma (o ∷ p ∷ os) = o ++ (text ", " ++ join_comma (p ∷ os))

unfoldable pub word_request : LlmBranchStage → PipelineContext → Bool → WordRequest
word_request s c constrained = record {
  model = or_else s.model (or_else c.router_model c.model);
  prompt =
      s.prompt
      ++ (text "\n\nValid options: "
          ++ (join_comma s.options
              ++ (text "\n\nUser message: \""
                  ++ (c.user_message ++ text "\"\n\nReply with ONE word only."))));
  constrained = constrained;
}

-- `.trim().toLowerCase().replace(/[^a-z_]/g, '')`
unfoldable pub clean_word : Text → Text
clean_word w = keep (λ c. (leb b'a' c && leb c b'z') || nat_eq c b'_') (lower (trim w))

-- The reply: constrained first, plain where that throws.
unfoldable pub ask_word : Outside → LlmBranchStage → Machine → Attempt Text × Machine
unfolding word_request
ask_word env s m = elim (env.generate m.moment (word_request s m.ctx true)) [
  | ok w ↦ (ok w, tick m)
  | err e ↦ (env.generate (suc m.moment) (word_request s m.ctx false), tick (tick m))
]

unfoldable pub branch_key : LlmBranchStage → Text → Text
unfolding clean_word
branch_key s raw = if includes (clean_word raw) s.options then clean_word raw else s.fallback

-- The concurrent calls of a parallel stage, made in the order of the list: the observations of those
-- that were fulfilled, and the steps of the two kinds.
pub record Settled : Type 0 where
  pub results : List Text
  pub fulfilled : List Step
  pub rejected : List Step

abbrev settle_one : Text → Params → Attempt Text → Settled → Settled
settle_one tool ps (ok o) s = record s {
  results = o ∷ s.results;
  fulfilled = record { tool = tool; params = ps; observation = o } ∷ s.fulfilled;
}
settle_one tool ps (err e) s = record s {
  rejected = record { tool = tool; params = []; observation = text "Error: " ++ e } ∷ s.rejected;
}

unfoldable pub call_all : Outside → Text → ℕ → List Params → Settled
call_all env tool k [] = record { results = []; fulfilled = []; rejected = [] }
call_all env tool k (ps ∷ rest) =
    settle_one tool ps (env.executor k tool ps) (call_all env tool (suc k) rest)

abbrev items_of : List Text → Items
items_of [] = nil
items_of (o ∷ os) = cons (str o) (items_of os)

-- The steps of the fulfilled calls are pushed as they complete, in the order of `completes`; those
-- of the rejected ones after all have settled.
unfoldable pub run_parallel : Outside → Text → (PipelineContext → List Params) → Machine → Ended
unfolding call_all
run_parallel env tool resolve m =
    let list = resolve m.ctx in
    let s = call_all env tool m.moment list in
    (
      ok (some (arr (items_of s.results))),
      record m {
        ctx = record m.ctx {
          steps = m.ctx.steps ++ (env.completes m.moment s.fulfilled ++ s.rejected);
        };
        moment = m.moment + length list;
      },
    )
