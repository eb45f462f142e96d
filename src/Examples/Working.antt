-- ===== src/Examples/Working.antt =====
-- The merge gate, contracts and the drift tracker at concrete inputs.
use invarail.Prelude.{
  is_empty, ◌≡◌, ◌↔◌, refl, true, false, List, [], ◌∷◌, none, some, Text, text, any, all,
  starts_with, arith,
}
use invarail.Coding.MergeGate.{GateOptions, is_forbidden, run_checks, run_merge_gate, touched_files}
use invarail.Coding.MergeGate.Laws.{judges, run_merge_gate-pass_iff}
use invarail.Contracts.{file_exists, CompletionContract, RawCondition, Surroundings}
use invarail.ToolLoop.Drift.{Response, Tracker, is_stuck, CallsTool, check_run, check_run-is_stuck}

abbrev manifest : List Text
manifest = text "package.json" ∷ []

abbrev options : GateOptions
options = record {
  base_sha = text "b";
  head_sha = text "h";
  diff_lines = text "src/tasks/store.ts" ∷ [] ∷ [];
  protected_paths_extra = [];
  repo_root = some (text "/repo");
  check_runner = λ _. record { name = text "c"; pass = true; output = [] };
}

run_merge_gate-pass_iff_example : ((run_merge_gate options).pass ≡ true) ↔ (
    (is_empty (touched_files options) ≡ false)
    × (any is_forbidden (touched_files options) ≡ false)
    × (all (λ j. (options.check_runner j).pass) (judges options (touched_files options)) ≡ true)
    × ((run_checks options (touched_files options)).1 ≡ judges options (touched_files options)))
run_merge_gate-pass_iff_example = run_merge_gate-pass_iff options

abbrev contract : CompletionContract
contract = record { checkable = true; postconditions = file_exists (text "a.txt") ∷ [] }

abbrev empty_workspace : Surroundings
empty_workspace = record {
  exists_file = λ _. false;
  read_file = λ _. none;
  task_titles = none;
  fact_texts = none;
  answer = text "done";
  matches = starts_with;
}

abbrev stated : RawCondition
stated = record { kind = text "file_exists"; path = some (text " a.txt"); pattern = none }

abbrev slice : Text → Response
slice sig = record {
  size = 10;
  hedges = 0;
  restates = false;
  call = some (record { tool = text "exec"; sig = sig });
}

here : (sig : Text) → CallsTool (text "exec") (slice sig)
here sig = (record { tool = text "exec"; sig = sig }, refl, refl)

abbrev slices : List Response
slices =
    slice (text "0")
    ∷ slice (text "1")
    ∷ slice (text "2")
    ∷ slice (text "3")
    ∷ slice (text "4")
    ∷ []

abbrev fresh_tracker : Tracker
fresh_tracker = record {
  response_lengths = [];
  last_sigs = [];
  hedging_count = 0;
  streak = 0;
  last_tool = [];
}

check_run-is_stuck_example : any is_stuck (check_run slices fresh_tracker) ≡ true
check_run-is_stuck_example =
    check_run-is_stuck (text "exec") slices fresh_tracker
      (
        here (text "0"),
        (here (text "1"), (here (text "2"), (here (text "3"), (here (text "4"), tt)))),
      )
      (omega arith)
