-- ===== src/Coding/Deploy.antt =====
-- src/coding/self-mod-service.ts: `executeMerge`, which a confirmed action runs, `abandon`, and what a
-- boot makes of the last deploy. The guards of a merge are a function of their own.
pub mod Commands
pub mod Approval
pub mod Laws
pub mod Merges
use invarail.Prelude.{
  ℕ, suc, Bool, true, false, ◌&&◌, not, List, [], ◌∷◌, ◌++◌, Option, none, some, Text, text, ◌==◌,
  lookup, Attempt, ok, err, given, take, or_else, if◌then◌else◌,
}
use invarail.Json.{Params}
use invarail.Coding.MergeGate.{GateVerdict}
use invarail.Coding.Arm.{
  ActiveWorktree, DeployMarker, Command, Env, Arm, M, ◌>>=◌, ◌>>◌, pure, modify, unless_error,
  catching, throw, refuse_if, self_mod_error, log_audit, run_command, git_in, git,
}
use invarail.Coding.SelfMod.{rev_parse_head, remove, checkpoint_if_dirty, best_effort, sweep}
use invarail.Coding.Service.{param_text, verdict_passes, merge_args}

pub data AbandonReply : Type 0 where
  nothing_active session_running : AbandonReply
  abandoned : Text → AbandonReply

module _ {Repo : Type 0} (env : Env Repo) where
  abbrev pub no_worktree : Text → Text
  no_worktree slug = text "no active worktree for \"" ++ (slug ++ text "\" — was it abandoned?")

  abbrev pub no_verdict : Text → Text
  no_verdict slug = text "no passing gate verdict on record for \"" ++ (slug ++ text "\"")

  abbrev pub changed_after_gate : Text → Text → Text → Text
  changed_after_gate branch current head =
      text "branch "
      ++ (branch
          ++ (text " changed after the gate ran ("
              ++ (take 8 current ++ (text " != " ++ (take 8 head ++ text ") — re-run !improve")))))

  abbrev pub need_verdict :
      Text → ActiveWorktree → Option GateVerdict → M Repo (ActiveWorktree × GateVerdict)
  need_verdict slug a none = self_mod_error (no_verdict slug)
  need_verdict slug a (some v) = if v.pass then pure (a, v) else self_mod_error (no_verdict slug)

  -- The branch must be what the gate judged.
  abbrev pub need_head :
      Text → Text → Text → ActiveWorktree → Text → M Repo (ActiveWorktree × GateVerdict)
  need_head slug branch head_sha a current s =
      if current == head_sha
      then need_verdict slug a (lookup slug s.verdicts) s
      else self_mod_error (changed_after_gate branch current head_sha) s

  abbrev pub need_active :
      Text → Text → Text → Option ActiveWorktree → M Repo (ActiveWorktree × GateVerdict)
  need_active slug branch head_sha none = self_mod_error (no_worktree slug)
  need_active slug branch head_sha (some a) =
      if a.slug == slug
      then git_in env a.worktree_path rev_parse_head >>= need_head slug branch head_sha a
      else self_mod_error (no_worktree slug)

  -- Up to `checkpointIfDirty`: the worktree and the verdict, if the merge may go on.
  unfoldable pub approve_merge : Text → Text → Text → M Repo (ActiveWorktree × GateVerdict)
  unfolding git_in
  approve_merge slug branch head_sha s = need_active slug branch head_sha s.active s

  abbrev pub abort_args : List Text
  abort_args = text "merge" ∷ text "--abort" ∷ []

  abbrev pub merge_conflict : Text → M Repo (Unit {0})
  merge_conflict branch =
      self_mod_error
        (text "merge of " ++ (branch ++ text " failed (conflict with main?) — worktree kept"))

  abbrev pub abort_merge : Text → M Repo (Unit {0})
  abort_merge branch = best_effort env abort_args >> merge_conflict branch

  abbrev pub merge_once : Text → Text → M Repo (Unit {0})
  merge_once slug branch = git env (merge_args slug branch) >>= λ _. pure tt

  abbrev pub merge_branch : Text → Text → M Repo (Unit {0})
  merge_branch slug branch = catching (merge_once slug branch) (λ _. abort_merge branch)

  -- The write of the experience, whose failure does not stop the deploy.
  abbrev experience_of : Attempt (Option Text) → Option Text
  experience_of (ok id) = id
  experience_of (err _) = none

  abbrev pub recorded : ActiveWorktree → Text → GateVerdict → Option Text
  recorded a sha v =
      if env.stores_experience then experience_of (env.save_experience a sha v) else none

  abbrev audit_detail : Option Text → Text → Text
  audit_detail none sha = sha
  audit_detail (some id) sha = sha ++ (text "|exp:" ++ id)

  abbrev pub marker_for : Text → Text → Text → Option Text → DeployMarker
  marker_for slug prev_sha merge_sha experience = record {
    prev_sha = prev_sha;
    merge_sha = merge_sha;
    slug = slug;
    ts = env.now;
    experience_id = experience;
  }

  abbrev pub write_marker : DeployMarker → M Repo (Unit {0})
  write_marker m s = unless_error (env.marker_error s.repo) (λ s. record s { marker = some m }) s

  -- What follows a merge that went through.
  abbrev pub finish_merge : Text → ActiveWorktree → GateVerdict → Text → Text → M Repo Text
  finish_merge slug active verdict prev_sha merge_sha = do
    let experience = given (recorded active merge_sha verdict)
    write_marker (marker_for slug prev_sha merge_sha experience)
    remove env
    log_audit (text "self_mod_merged") (audit_detail experience merge_sha)
    modify (λ s. record s { restarts = suc s.restarts })
    pure merge_sha

  unfoldable pub perform_merge : Text → Text → ActiveWorktree × GateVerdict → M Repo Text
  unfolding checkpoint_if_dirty git remove
  perform_merge slug branch (active, verdict) = do
    _ ← checkpoint_if_dirty env
    prev_sha ← git env rev_parse_head
    merge_branch slug branch
    merge_sha ← git env rev_parse_head
    finish_merge slug active verdict prev_sha merge_sha

  -- The result is the commit that the reply names.
  unfoldable pub execute_merge : Params → M Repo Text
  unfolding approve_merge perform_merge
  execute_merge params =
      let slug = param_text env (text "slug") params in
      let branch = param_text env (text "branch") params in
      let head_sha = param_text env (text "headSha") params in
      approve_merge slug branch head_sha >>= perform_merge slug branch

  unfoldable pub abandon : M Repo AbandonReply
  unfolding remove
  abandon s = elim s.active [
    | none ↦ (ok nothing_active, s)
    | some a ↦
        if s.busy
        then (ok session_running, s)
        else (do remove env; log_audit (text "self_mod_abandon") a.slug; pure (abandoned a.slug)) s
  ]

  unfoldable pub is_ancestor : Text → M Repo Bool
  unfolding run_command
  is_ancestor sha = do
    r ← run_command env (record {
      program = text "git";
      args = text "merge-base" ∷ text "--is-ancestor" ∷ sha ∷ text "HEAD" ∷ [];
      cwd = env.repo_root;
    })
    pure r.succeeded

  -- The evidence of a rollback: its marker, and whether it is the file that the supervisor kept.
  unfoldable pub rollback_evidence : M Repo (Option (DeployMarker × Bool))
  unfolding is_ancestor
  rollback_evidence s = elim s.failed_marker [
    | some m ↦ (ok (some (m, true)), s)
    | none ↦ elim s.marker [
      | none ↦ (ok none, s)
      | some m ↦
          (do kept ← is_ancestor m.merge_sha; pure (if kept then none else some (m, false))) s
    ]
  ]

  abbrev supersede : DeployMarker → Text → M Repo (Unit {0})
  supersede m id = (λ s. (env.supersede id m, s)) >>= λ _. pure tt

  abbrev pub supersede_if : DeployMarker → Option Text → M Repo (Unit {0})
  supersede_if m none = pure tt
  supersede_if m (some id) = if env.stores_experience then supersede m id else pure tt

  abbrev pub consume_evidence : DeployMarker → Bool → M Repo (Unit {0})
  consume_evidence m from_file = do
    log_audit (text "self_mod_rolled_back") m.slug
    supersede_if m (given m.experience_id)
    modify (λ s. if from_file then record s { failed_marker = none } else s)

  abbrev pub settle_evidence : Option (DeployMarker × Bool) → M Repo (Unit {0})
  settle_evidence none = pure tt
  settle_evidence (some (m, from_file)) = consume_evidence m from_file

  unfoldable pub detect_rollback : M Repo (Unit {0})
  unfolding rollback_evidence
  detect_rollback = rollback_evidence >>= settle_evidence

  -- Detection first, since the sweep deletes markers; neither's failure stops the boot.
  unfoldable pub boot_sweep : M Repo (Unit {0})
  unfolding detect_rollback sweep
  boot_sweep = do
    catching detect_rollback (λ _. pure tt)
    catching (sweep env >>= λ _. pure tt) (λ _. pure tt)
