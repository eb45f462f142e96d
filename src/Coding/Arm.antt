-- ===== src/Coding/Arm.antt =====
-- src/coding/self-mod.ts, self-mod-service.ts: the state of the coding arm, and what it calls outside.
-- Git, the file system, the session of the coding model and the merge gate are other programs or long
-- runs of one: functions of the repository's state, which is a type that nothing is known of. The
-- arm's own files are what they hold; a write of the state and of the deploy marker, and the removal of
-- a directory, can throw, the other writes are assumed to land, and a file that cannot be read or
-- parsed is `none`. The times and ids that an operation reads are fixed for the operation.
use invarail.Prelude.{
  ℕ, Bool, List, [], ◌∷◌, ◌++◌, Option, none, some, Text, text, Attempt, ok, err, and_then, trim,
  take, truthy, if◌then◌else◌,
}
use invarail.Json.{Json}
use invarail.Security.Ledger.{PendingAction, File}
use invarail.Coding.MergeGate.{GateVerdict}

pub record ActiveWorktree : Type 0 where
  pub slug : Text
  pub branch : Text
  pub worktree_path : Text
  pub base_sha : Text
  pub created_at : ℕ
  pub spec : Option Text
  pub session_id : Option Text
  pub session_file : Option Text

pub record DeployMarker : Type 0 where
  pub prev_sha : Text
  pub merge_sha : Text
  pub slug : Text
  pub ts : ℕ
  pub experience_id : Option Text

-- One call of `spawnSync`, and its result.
pub record Command : Type 0 where
  pub program : Text
  pub args : List Text
  pub cwd : Text

pub record Spawned : Type 0 where
  pub succeeded : Bool
  pub stdout : Text
  pub stderr : Text

-- What `adapter.runSession` answers.
pub record Session : Type 0 where
  pub succeeded : Bool
  pub session_id : Option Text
  pub session_file : Option Text

-- `logAutonomousAction`: the action, and its detail.
pub record Audit : Type 0 where
  pub action : Text
  pub detail : Text

pub record Env (Repo : Type 0) : Type 0 where
  pub spawn : Command → Repo → Spawned × Repo
  pub exists_at : Text → Repo → Bool
  pub real_path : Text → Repo → Text
  pub list_dir : Text → Repo → Option (List Text)
  -- `rmSync`, which can throw
  pub remove_dir : Text → Repo → Attempt (Unit {0}) × Repo
  -- the error of a write of the state file, and of the deploy marker or its deletion, if one throws
  pub state_error : Repo → Option Text
  pub marker_error : Repo → Option Text
  pub link_dir : Text → Text → Repo → Repo
  pub run_session : Text → Text → Repo → Attempt Session × Repo
  pub run_gate : Text → Text → Repo → Attempt GateVerdict × Repo
  pub save_experience : ActiveWorktree → Text → GateVerdict → Attempt (Option Text)
  pub supersede : Text → DeployMarker → Attempt (Option Text)
  pub stores_experience : Bool
  pub string_of : Json → Text
  pub repo_root : Text
  pub self_mod_enabled : Bool
  pub pi_enabled : Bool
  pub now : ℕ
  pub action_id : Text
  pub ledger_lands : Bool

-- The files of the arm, the flag of the service, and what was done outside.
pub record Arm (Repo : Type 0) : Type 0 where
  pub repo : Repo
  pub active : Option ActiveWorktree
  pub marker : Option DeployMarker
  pub failed_marker : Option DeployMarker
  pub verdicts : List (Text × GateVerdict)
  pub ledger : File PendingAction
  pub busy : Bool
  pub commands : List Command
  pub audits : List Audit
  pub restarts : ℕ

abbrev pub M : Type 0 → Type 0 → Type 0
M Repo A = Arm Repo → Attempt A × Arm Repo

infixl 5 ◌>>=◌ ◌>>◌
abbrev pub ◌>>=◌ : {Repo A B : Type 0} → M Repo A → (A → M Repo B) → M Repo B
◌>>=◌ m k s = and_then (m s) k

abbrev pub ◌>>◌ : {Repo B : Type 0} → M Repo (Unit {0}) → M Repo B → M Repo B
m >> k = m >>= λ _. k

abbrev pub pure : {Repo A : Type 0} → A → M Repo A
pure a s = (ok a, s)

abbrev pub throw : {Repo A : Type 0} → Text → M Repo A
throw e s = (err e, s)

-- `selfModError(details)`
abbrev pub self_mod_error : {Repo A : Type 0} → Text → M Repo A
self_mod_error details = throw (text "Self-modification: " ++ details)

abbrev pub modify : {Repo : Type 0} → (Arm Repo → Arm Repo) → M Repo (Unit {0})
modify f s = (ok tt, f s)

-- A write of a file: it throws, and the file is as it was, or it lands.
abbrev pub unless_error : {Repo : Type 0} → Option Text → (Arm Repo → Arm Repo) → M Repo (Unit {0})
unless_error none f s = (ok tt, f s)
unless_error (some e) f s = (err e, s)

-- `try { return await m } catch (err) { return handler(err) }`
abbrev pub catching : {Repo A : Type 0} → M Repo A → (Text → M Repo A) → M Repo A
catching m handler s = elim (m s).0 [ ok a ↦ (ok a, (m s).1) | err e ↦ handler e (m s).1 ]

-- `if (test) throw …`
abbrev pub refuse_if : {Repo : Type 0} → Bool → Text → M Repo (Unit {0})
refuse_if b details = if b then self_mod_error details else pure tt

abbrev pub log_audit : {Repo : Type 0} → Text → Text → M Repo (Unit {0})
log_audit action detail =
    modify (λ s. record s { audits = s.audits ++ record { action = action; detail = detail } ∷ [] })

abbrev or_stdout : Spawned → Text
or_stdout r = if truthy r.stderr then r.stderr else r.stdout

abbrev git_failed : List Text → Spawned → Text
git_failed [] r = text "Self-modification: git undefined failed: " ++ take 300 (trim (or_stdout r))
git_failed (a ∷ args) r =
    text "Self-modification: git " ++ (a ++ (text " failed: " ++ take 300 (trim (or_stdout r))))

abbrev spawned : List Text → Spawned → Attempt Text
spawned args r = if r.succeeded then ok (trim r.stdout) else err (git_failed args r)

module _ {Repo : Type 0} (env : Env Repo) where
  -- `spawnSync`
  unfoldable pub run_command : Command → M Repo Spawned
  run_command c s =
      let (r, repo) = env.spawn c s.repo in
      (ok r, record s { repo = repo; commands = s.commands ++ c ∷ [] })

  -- `writeState`
  abbrev pub write_state : Option ActiveWorktree → M Repo (Unit {0})
  write_state active s = unless_error (env.state_error s.repo) (λ s. record s { active = active }) s

  -- `rmSync(path, …)`
  abbrev pub remove_tree : Text → M Repo (Unit {0})
  remove_tree path s = let (r, repo) = env.remove_dir path s.repo in (r, record s { repo = repo })

  -- `this.git(args, cwd)`
  unfoldable pub git_in : Text → List Text → M Repo Text
  git_in cwd args s =
      let c : Command = record { program = text "git"; args = args; cwd = cwd } in
      let (r, repo) = env.spawn c s.repo in
      (spawned args r, record s { repo = repo; commands = s.commands ++ c ∷ [] })

  unfoldable pub git : List Text → M Repo Text
  unfolding git_in
  git args = git_in env.repo_root args
