-- ===== src/Examples/Merging.antt =====
-- A change of the program by itself, proposed and merged.
use invarail.Prelude.{
  ℕ, suc, ◌≡◌, refl, true, false, [], ◌∷◌, none, some, text, ◌==◌, ok, lookup, trim, starts_with,
}
use invarail.Json.{str, Params}
use invarail.Coding.MergeGate.{GateVerdict, tier2}
use invarail.Coding.Arm.{ActiveWorktree, Env, Arm, git_in}
use invarail.Coding.Service.{propose, retry, judge_and_propose_merge, param_text}
use invarail.Coding.Service.Laws.{Minted, propose-retry-Minted}
use invarail.Coding.Service.Unannounced.{Unannounced, judge_and_propose_merge-Unannounced}
use invarail.Coding.Deploy.{execute_merge}
use invarail.Coding.Deploy.Approval.{Ends}
use invarail.Coding.Deploy.Laws.{Merged, Failed, execute_merge_lem}
use invarail.Coding.Deploy.Merges.{MergesApproved, execute_merge-MergesApproved}

abbrev verdict : GateVerdict
verdict = record {
  pass = true;
  tier = tier2;
  touched_files = text "src/a.ts" ∷ [];
  protected_touched = [];
  gate_config_tampered = false;
  deps_reinstalled = false;
  checks = [];
  base_sha = text "b0";
  head_sha = text "h1";
}

-- A repository whose HEAD is h1 wherever one looks; its state counts the commands.
abbrev env : Env ℕ
env = record {
  spawn = λ c n. (record { succeeded = true; stdout = text "h1"; stderr = [] }, suc n);
  exists_at = λ path n. false;
  real_path = λ path n. path;
  list_dir = λ path n. none;
  remove_dir = λ path n. (ok tt, n);
  state_error = λ n. none;
  marker_error = λ n. none;
  link_dir = λ target path n. n;
  run_session =
      λ spec cwd n. (ok (record { succeeded = true; session_id = none; session_file = none }), n);
  run_gate = λ path base n. (ok verdict, n);
  save_experience = λ a sha v. ok none;
  supersede = λ id m. ok none;
  stores_experience = true;
  string_of = λ j. [];
  repo_root = text "/repo";
  self_mod_enabled = true;
  pi_enabled = true;
  now = 5;
  action_id = text "3fa2c1b9";
  ledger_lands = true;
}

abbrev active : ActiveWorktree
active = record {
  slug = text "fix";
  branch = text "self-mod/fix";
  worktree_path = text "/repo/data/self-mod/worktrees/fix";
  base_sha = text "b0";
  created_at = 1;
  spec = none;
  session_id = none;
  session_file = none;
}

abbrev waiting : Arm ℕ
waiting = record {
  repo = 0;
  active = some active;
  marker = none;
  failed_marker = none;
  verdicts = (text "fix", verdict) ∷ [];
  ledger = none;
  busy = false;
  commands = [];
  audits = [];
  restarts = 0;
}

abbrev idle : Arm ℕ
idle = record waiting { active = none; verdicts = [] }

abbrev params : Params
params =
    (text "slug", str (text "fix"))
    ∷ (text "branch", str (text "self-mod/fix"))
    ∷ (text "headSha", str (text "h1"))
    ∷ []

execute_merge-MergesApproved_example :
    MergesApproved env waiting
      (param_text env (text "slug") params)
      (param_text env (text "headSha") params)
      (execute_merge env params waiting).1
execute_merge-MergesApproved_example = execute_merge-MergesApproved env params waiting

execute_merge_lem_example :
    Ends
      (Merged env waiting (param_text env (text "slug") params))
      (Failed env waiting (param_text env (text "slug") params))
      (execute_merge env params waiting)
execute_merge_lem_example = execute_merge_lem env params waiting

merged_once : (execute_merge env params waiting).0 ≡ ok (text "h1")
unfolding execute_merge lookup ◌==◌ trim starts_with
merged_once = refl

propose-retry-Minted_example :
    Minted env
      (text "alice")
      (text "web")
      none
      (propose env (text "fix") (text "Fix it") (text "alice") (text "web") idle).1
    × Minted env (text "alice") (text "web") none (retry env (text "alice") (text "web") idle).1
propose-retry-Minted_example =
    propose-retry-Minted env (text "fix") (text "Fix it") (text "alice") (text "web") idle

-- The same repository, where git fails.
abbrev broken : Env ℕ
broken = record env {
  spawn = λ c n. (record { succeeded = false; stdout = []; stderr = text "bad" }, suc n);
}

judge_and_propose_merge-Unannounced_example :
    Unannounced broken active verdict
      (text "Self-modification: git diff failed: bad")
      (text "alice")
      (text "web")
      (judge_and_propose_merge broken active verdict (text "alice") (text "web") waiting)
unfolding git_in trim
judge_and_propose_merge-Unannounced_example =
    judge_and_propose_merge-Unannounced broken active verdict (text "alice") (text "web")
      (text "Self-modification: git diff failed: bad") waiting (λ s. refl) tt refl refl
