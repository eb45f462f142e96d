-- ===== src/Examples/Looping.antt =====
-- A tool loop whose model repeats one call for ever.
use invarail.Prelude.{
  ◌+◌, ◌*◌, ◌≤◌, ◌==◌, ◌≡◌, Text, refl, true, false, [], ◌∷◌, none, text, ok, err, length, arith,
}
use invarail.ToolLoop.Calls.{Call, Reply, Loop, Env, run_calls}
use invarail.ToolLoop.Engine.{Config, unused}
use invarail.ToolLoop.Run.{run_tool_loop}
use invarail.ToolLoop.Termination.{Ends, run_tool_loop-Ends}
use invarail.ToolLoop.Repeats.{replicate, run_calls_repeated}

abbrev look : Call
look = record { name = text "look"; params = [] }

abbrev stubborn : Reply
stubborn = record {
  content = text "I look.";
  tool_calls = look ∷ [];
  prompt_tokens = 10;
  completion_tokens = 2;
}

abbrev env : Env
env = record {
  chat = λ k messages. ok stubborn;
  synthesize = λ k messages. ok (text "Nothing there.");
  executor = λ k call. err (text "dark");
  is_cancelled = λ k. false;
  poll_steering = λ k. [];
  on_final_answer = none;
  trim_messages = λ messages. messages;
  is_overflow = λ e. false;
  parse_calls = λ tools content. none;
  narrated_head = λ content. content;
  validate_params = λ call. (call.params, []);
  stringify = λ params. text "{}";
  hint_prefix = λ call. [];
  enrich = λ observation tool. observation;
  take_files = λ observation. (observation, []);
  result_limit = λ tool. none;
  spill = λ observation i. [];
  digits = λ n. text "n";
  hedges_in = λ content. 0;
  restates = λ content. false;
  strip_scaffolding = λ content. content;
  claims_action = λ content. false;
  claims_data = λ content. false;
  mentions = λ content verb. false;
  announces_intent = λ content. false;
}

abbrev config : Config
config = record {
  max_iterations = 3;
  tool_names = text "look" ∷ [];
  skip_drift_detection = false;
  premature_answer_repair = true;
  has_history = false;
  user_message = text "What is in the dark?";
}

abbrev start : Loop
start = record {
  messages = [];
  steps = [];
  repairs = unused;
  overflow_repaired = false;
  last_rejected = [];
  tracker = record {
    response_lengths = [];
    last_sigs = [];
    hedging_count = 0;
    streak = 0;
    last_tool = [];
  };
  last_narrated = [];
  notes = [];
  file_tokens = [];
  last_action_hash = [];
  action_repeats = 0;
  executed = [];
  prompt_tokens = 0;
  completion_tokens = 0;
  moment = 0;
}

run_tool_loop-Ends_example :
    Ends (run_tool_loop env config (config.max_iterations + 5 + 3 * 4 + 1) 0 start)
run_tool_loop-Ends_example =
    run_tool_loop-Ends env config 4 start
      (omega arith, λ k answer steps feedback n hook is_hook e. absurd (ground arith)) refl

run_calls_repeated_example :
    3 * length (run_calls env 0 (text "I look.") (replicate 6 look) start).executed
    ≤ 3 * length start.executed + 2 * 6 + 2
run_calls_repeated_example = run_calls_repeated env 0 (text "I look.") look 6 start refl

-- Six repetitions run four times.
four_of_six : length (run_calls env 0 (text "I look.") (replicate 6 look) start).executed ≡ 4
unfolding run_calls ◌==◌
four_of_six = refl

abbrev said : Text
said = text "It is a lamp."
