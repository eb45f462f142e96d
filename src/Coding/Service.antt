-- ===== src/Coding/Service.antt =====
-- src/coding/self-mod-service.ts: `SelfModService`, from a wish of the owner to a merge into main.
-- A session and a gate run take their time within one step. The wording of replies is kept as data.
pub mod Held
pub mod Laws
pub mod Unannounced
use invarail.Prelude.{
  ℕ, suc, ◌*◌, Bool, true, false, ◌&&◌, ◌||◌, not, List, [], ◌∷◌, ◌++◌, Option, none, some, Text,
  text, ◌==◌, lookup, assign, Attempt, ok, err, trim, truthy, given, take, is_empty, or_else,
  find_first, if◌then◌else◌,
}
use invarail.Json.{Json, null, str, Params}
use invarail.Security.Ledger.{Preview, PendingAction, record_action, File}
use invarail.Coding.MergeGate.{GateVerdict, GateCheck}
use invarail.Coding.Arm.{
  ActiveWorktree, DeployMarker, Command, Session, Env, Arm, M, ◌>>=◌, ◌>>◌, pure, throw, modify,
  catching, refuse_if, self_mod_error, log_audit, run_command, git_in, git,
}
use invarail.Coding.SelfMod.{
  ActivePatch, rev_parse_head, create, update_active, remove, checkpoint_if_dirty, best_effort,
  sweep, patched,
}

pub data ProposeReply : Type 0 where
  disabled pi_disabled session_running nothing_to_retry : ProposeReply
  session_failed gate_failed ledger_failed : ProposeReply
  rebase_conflict failed : Text → ProposeReply
  ready : GateVerdict → Text → ProposeReply

pub record ProposeResult : Type 0 where
  pub succeeded : Bool
  pub slug : Option Text
  pub pending_id : Option Text
  pub reply : ProposeReply

abbrev pub refusal : ProposeReply → ProposeResult
refusal r = record { succeeded = false; slug = none; pending_id = none; reply = r }

abbrev pub refusal_for : Text → ProposeReply → ProposeResult
refusal_for slug r = record { succeeded = false; slug = some slug; pending_id = none; reply = r }

abbrev pub merge_ttl_ms : ℕ
merge_ttl_ms = 12 * 60 * 60 * 1000

abbrev pub self_merge : Text
self_merge = text "self_merge"

-- What the ledger is given for a merge.
abbrev pub merge_preview : ActiveWorktree → GateVerdict → Text → Text → Preview
merge_preview a gate principal channel = record {
  tool = self_merge;
  params =
      (text "slug", str a.slug)
      ∷ (text "branch", str a.branch)
      ∷ (text "baseSha", str a.base_sha)
      ∷ (text "headSha", str gate.head_sha)
      ∷ [];
  sender = principal;
  channel = channel;
  agent_id = text "main";
  session_key = text "selfmod:" ++ a.slug;
  category = some (text "code");
}

-- `gate.checks.find(c => !c.pass)?.name ?? 'no-changes'`
abbrev failing_name : Option GateCheck → Text
failing_name none = text "no-changes"
failing_name (some c) = c.name

abbrev failing_check : GateVerdict → Text
failing_check gate = failing_name (find_first (λ (c : GateCheck). not c.pass) gate.checks)

abbrev pub verdict_passes : Option GateVerdict → Bool
verdict_passes none = false
verdict_passes (some v) = v.pass

abbrev pub merge_args : Text → Text → List Text
merge_args slug branch =
    text "merge" ∷ text "--no-ff" ∷ text "-m" ∷ (text "self-mod: " ++ slug) ∷ branch ∷ []

-- What is kept of a session.
abbrev pub provenance : Session → ActivePatch
provenance session = record {
  session = some (session.session_id, session.session_file);
  base_sha = none;
}

abbrev pub moved_base : Text → ActivePatch
moved_base sha = record { session = none; base_sha = some sha }

module _ {Repo : Type 0} (env : Env Repo) where
  unfoldable pub persist_verdict : Text → GateVerdict → M Repo (Unit {0})
  persist_verdict slug gate = modify (λ s. record s { verdicts = assign slug gate s.verdicts })

  -- `String(params[name] ?? '')`
  abbrev text_of : Option Json → Text
  text_of none = []
  text_of (some null) = []
  text_of (some (str t)) = t
  text_of (some j) = env.string_of j

  abbrev pub param_text : Text → Params → Text
  param_text name params = text_of (lookup name params)

  abbrev pub record_merge : Preview → M Repo (Option PendingAction)
  record_merge p s =
      let (action, ledger) =
        record_action env.action_id env.now env.now merge_ttl_ms env.ledger_lands p s.ledger in
      (ok action, record s { ledger = ledger })

  abbrev pub diff_args : ActiveWorktree → List Text
  diff_args a = text "diff" ∷ text "--stat" ∷ (a.base_sha ++ text "...HEAD") ∷ []

  abbrev pub offer_merge :
      ActiveWorktree → GateVerdict → Option PendingAction → M Repo ProposeResult
  offer_merge a gate none = pure (refusal_for a.slug ledger_failed)
  offer_merge a gate (some action) = do
    stat ← git_in env a.worktree_path (diff_args a)
    pure (record {
      succeeded = true;
      slug = some a.slug;
      pending_id = some action.id;
      reply = ready gate stat;
    })

  abbrev pub report_failed_gate : ActiveWorktree → GateVerdict → M Repo ProposeResult
  report_failed_gate a gate = do
    log_audit (text "self_mod_gate_failed") (a.slug ++ (text ": " ++ failing_check gate))
    pure (refusal_for a.slug gate_failed)

  abbrev pub propose_merge : ActiveWorktree → GateVerdict → Text → Text → M Repo ProposeResult
  propose_merge a gate principal channel = do
    action ← record_merge (merge_preview a gate principal channel)
    log_audit (text "self_mod_proposed") a.slug
    offer_merge a gate action

  -- `judgeAndProposeMerge`
  unfoldable pub judge_and_propose_merge :
      ActiveWorktree → GateVerdict → Text → Text → M Repo ProposeResult
  unfolding persist_verdict record_action git_in
  judge_and_propose_merge a gate principal channel = do
    persist_verdict a.slug gate
    if gate.pass then propose_merge a gate principal channel else report_failed_gate a gate

  abbrev pub add_leftovers : List Text
  add_leftovers = text "add" ∷ text "-A" ∷ text "--" ∷ text ":(exclude)node_modules" ∷ []

  abbrev pub commit_args : Text → List Text
  commit_args slug =
      text "commit"
      ∷ text "-q"
      ∷ text "-m"
      ∷ (text "self-mod: " ++ (slug ++ text " (auto-commit of uncommitted session output)"))
      ∷ []

  abbrev pub status_args : List Text
  status_args = text "status" ∷ text "--porcelain" ∷ []

  -- `try { this.git(…) } catch { }`
  abbrev pub try_git : Text → List Text → M Repo (Unit {0})
  try_git path args = catching (git_in env path args >>= λ _. pure tt) (λ _. pure tt)

  abbrev pub commit_leftovers : Text → Text → M Repo (Unit {0})
  commit_leftovers path slug = do _ ← git_in env path add_leftovers; try_git path (commit_args slug)

  unfoldable pub auto_commit_leftovers : Text → Text → M Repo (Unit {0})
  unfolding git_in
  auto_commit_leftovers path slug = do
    status ← git_in env path status_args
    if truthy (trim status) then commit_leftovers path slug else pure tt

  abbrev pub run_session : Text → Text → M Repo Session
  run_session spec cwd s =
      let (r, repo) = env.run_session spec cwd s.repo in (r, record s { repo = repo })

  abbrev pub run_gate : Text → Text → M Repo GateVerdict
  run_gate path base s =
      let (r, repo) = env.run_gate path base s.repo in (r, record s { repo = repo })

  abbrev pub give_up : Text → GateVerdict → M Repo ProposeResult
  give_up slug gate = do persist_verdict slug gate; remove env; pure (refusal session_failed)

  abbrev pub propose_body : Text → Text → Text → Text → M Repo ProposeResult
  propose_body slug spec principal channel = do
    active ← create env slug (some spec)
    session ← run_session spec active.worktree_path
    update_active env (provenance session)
    auto_commit_leftovers active.worktree_path slug
    gate ← run_gate active.worktree_path active.base_sha
    if not session.succeeded && is_empty gate.touched_files
        then give_up slug gate
        else judge_and_propose_merge active gate principal channel

  abbrev pub set_busy : Bool → Arm Repo → Arm Repo
  set_busy b s = record s { busy = b }

  abbrev pub lower_flag : Attempt ProposeResult × Arm Repo → Attempt ProposeResult × Arm Repo
  lower_flag (r, s) = (r, set_busy false s)

  -- `try { … } catch { … } finally { this.busy = false }`
  abbrev pub while_busy : M Repo ProposeResult → M Repo ProposeResult
  while_busy m s =
      lower_flag (catching m (λ e. pure (refusal (failed (take 400 e)))) (set_busy true s))

  -- `propose`, given the slug of the wish.
  unfoldable pub propose : Text → Text → Text → Text → M Repo ProposeResult
  unfolding create update_active auto_commit_leftovers judge_and_propose_merge persist_verdict
      remove
  propose slug spec principal channel s =
      let go = while_busy (propose_body slug spec principal channel) in
      let idle = if s.busy then pure (refusal session_running) else go in
      let allowed = if env.pi_enabled then idle else pure (refusal pi_disabled) in
      (if env.self_mod_enabled then allowed else pure (refusal disabled)) s

  abbrev pub abort_rebase_args : List Text
  abort_rebase_args = text "rebase" ∷ text "--abort" ∷ []

  abbrev pub parse_main : List Text
  parse_main = text "rev-parse" ∷ text "main" ∷ []

  abbrev pub abort_rebase : ActiveWorktree → Text → M Repo ProposeResult
  abort_rebase a e = do
    try_git a.worktree_path abort_rebase_args
    pure (refusal_for a.slug (rebase_conflict (take 300 e)))

  abbrev pub regate : ActiveWorktree → Text → Text → Text → M Repo ProposeResult
  regate a main_sha principal channel = do
    update_active env (moved_base main_sha)
    log_audit (text "self_mod_retry") a.slug
    gate ← run_gate a.worktree_path main_sha
    judge_and_propose_merge (record a { base_sha = main_sha }) gate principal channel

  abbrev pub settle_rebase :
      ActiveWorktree → Text → Text → Text → Attempt Text → M Repo ProposeResult
  settle_rebase a main_sha principal channel (ok _) = regate a main_sha principal channel
  settle_rebase a main_sha principal channel (err e) = abort_rebase a e

  abbrev pub rebase_args : Text → List Text
  rebase_args main_sha = text "rebase" ∷ main_sha ∷ []

  -- The outcome of the rebase, for its `catch`.
  abbrev pub rebase_onto : ActiveWorktree → Text → M Repo (Attempt Text)
  rebase_onto a main_sha s =
      let (r, s') = git_in env a.worktree_path (rebase_args main_sha) s in (ok r, s')

  abbrev pub retry_body : ActiveWorktree → Text → Text → M Repo ProposeResult
  retry_body a principal channel = do
    main_sha ← git env parse_main
    rebased ← rebase_onto a main_sha
    settle_rebase a main_sha principal channel rebased

  abbrev pub retry_active : Text → Text → Option ActiveWorktree → M Repo ProposeResult
  retry_active principal channel none = pure (refusal nothing_to_retry)
  retry_active principal channel (some a) = while_busy (retry_body a principal channel)

  unfoldable pub retry : Text → Text → M Repo ProposeResult
  unfolding git git_in update_active judge_and_propose_merge
  retry principal channel s =
      let go = retry_active principal channel s.active in
      let idle = if s.busy then pure (refusal session_running) else go in
      (if env.self_mod_enabled then idle else pure (refusal disabled)) s
