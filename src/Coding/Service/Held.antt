-- ===== src/Coding/Service/Held.antt =====
-- The steps of a proposal that leave the ledger of pending actions alone.
use invarail.Prelude.{
  ◌≡◌, refl, false, List, [], ◌∷◌, Option, none, some, Text, text, ◌==◌, assign, and_then_keeps,
  truthy, trim, Option-cases, inl, inr, arith,
}
use invarail.Security.Ledger.{PendingAction, File}
use invarail.Coding.MergeGate.{GateVerdict}
use invarail.Coding.Arm.{
  ActiveWorktree, Env, Arm, ◌>>=◌, pure, write_state, remove_tree, run_command, git_in, git,
}
use invarail.Coding.SelfMod.{
  create, create_if, make_worktree, worktree_path, add_worktree, checkpoint_if_dirty,
  copy_node_modules, link_training, update_active, remove, remove_active, remove_worktree,
  best_effort, prune_args, rev_parse_head,
}
use invarail.Coding.Service.{
  persist_verdict, auto_commit_leftovers, status_args, add_leftovers, commit_args, try_git,
  commit_leftovers, run_session, run_gate, give_up,
}
use invarail.Coding.Deploy.Commands.{
  Keeps, bind-Keeps, catching-Keeps, unless_error-Keeps, if-Keeps, merges_args,
  checkpoint_if_dirty-Keeps, best_effort-Keeps,
}

module _ {Repo : Type 0} (env : Env Repo) (ledger : File PendingAction) where
  abbrev pub Held : Arm Repo → Type 0
  Held s = s.ledger ≡ ledger

  pub git_in-Held : (cwd : Text) (args : List Text) → Keeps Held (git_in env cwd args)
  unfolding git_in
  git_in-Held cwd args s p = p

  pub try_git-Held : (cwd : Text) (args : List Text) → Keeps Held (try_git env cwd args)
  try_git-Held cwd args =
      catching-Keeps Held (git_in env cwd args >>= λ _. pure tt) (λ _. pure tt)
        (bind-Keeps Held (git_in env cwd args) (λ _. pure tt) (git_in-Held cwd args) (λ _ s p. p))
        λ _ s p. p

  pub update_active-Held : (patch : _) → Keeps Held (update_active env patch)
  unfolding update_active
  update_active-Held patch s p = elim (Option-cases s.active) [
    | inl idle ↦ rw (idle, update_active) p
    | inr (a, busy) ↦
        rw (busy, update_active) (unless_error-Keeps Held (env.state_error s.repo) _ s p p)
  ]

  tame :
      (cwd : Text) (args : List Text) → merges_args args ≡ false → Keeps Held (git_in env cwd args)
  tame cwd args h = git_in-Held cwd args

  copy_node_modules-Held : (path : Text) → Keeps Held (copy_node_modules env path)
  unfolding copy_node_modules run_command
  copy_node_modules-Held path s p = ground arith

  link_training-Held : (path : Text) → Keeps Held (link_training env path)
  unfolding link_training
  link_training-Held path s p = ground arith

  make_worktree-Held : (slug : Text) (spec : Option Text) → Keeps Held (make_worktree env slug spec)
  unfolding git
  make_worktree-Held slug spec =
      bind-Keeps Held (checkpoint_if_dirty env) _ (checkpoint_if_dirty-Keeps env Held tame) λ _.
        bind-Keeps Held (git env rev_parse_head) _ (git_in-Held env.repo_root rev_parse_head)
          λ base.
            bind-Keeps Held (git env (add_worktree env slug)) _
              (git_in-Held env.repo_root (add_worktree env slug))
              λ _.
                bind-Keeps Held (copy_node_modules env (worktree_path env slug)) _
                  (copy_node_modules-Held (worktree_path env slug))
                  λ _.
                    bind-Keeps Held (link_training env (worktree_path env slug)) _
                      (link_training-Held (worktree_path env slug))
                      λ _.
                        bind-Keeps Held (write_state env _) _
                          (λ s p. unless_error-Keeps Held (env.state_error s.repo) _ s p p)
                          λ _ s p. p

  create_if-Held :
      (o : Option ActiveWorktree) (slug : Text) (spec : Option Text)
      → Keeps Held (create_if env o slug spec)
  create_if-Held none slug spec = make_worktree-Held slug spec
  create_if-Held (some a) slug spec = λ s p. p

  pub create-Held : (slug : Text) (spec : Option Text) → Keeps Held (create env slug spec)
  unfolding create
  create-Held slug spec s p = create_if-Held s.active slug spec s p

  remove_active-Held : (o : Option ActiveWorktree) → Keeps Held (remove_active env o)
  unfolding git ◌==◌
  remove_active-Held none = λ s p. p
  remove_active-Held (some a) =
      let drop = text "worktree" ∷ text "remove" ∷ text "--force" ∷ a.worktree_path ∷ [] in
      bind-Keeps Held (remove_worktree env a.worktree_path) _
        (catching-Keeps Held (git env drop >>= λ _. pure tt) (λ _. remove_tree env a.worktree_path)
          (bind-Keeps Held (git env drop) (λ _. pure tt) (git_in-Held env.repo_root drop)
            (λ _ s p. p))
          (λ _ s p. p))
        λ _.
          bind-Keeps Held (best_effort env (text "branch" ∷ text "-D" ∷ a.branch ∷ [])) _
            (best_effort-Keeps env Held tame _ refl)
            λ _.
              bind-Keeps Held (best_effort env (prune_args env)) _
                (best_effort-Keeps env Held tame _ refl)
                λ _ s p. unless_error-Keeps Held (env.state_error s.repo) _ s p p

  pub auto_commit_leftovers-Held :
      (path slug : Text) → Keeps Held (auto_commit_leftovers env path slug)
  unfolding auto_commit_leftovers
  auto_commit_leftovers-Held path slug =
      bind-Keeps Held (git_in env path (status_args env)) _ (git_in-Held path (status_args env))
        λ status.
          if-Keeps Held (truthy (trim status)) (commit_leftovers env path slug) (pure tt)
            (bind-Keeps Held (git_in env path (add_leftovers env)) _
              (git_in-Held path (add_leftovers env)) λ _. try_git-Held path (commit_args env slug))
            λ s p. p

  pub run_session-Held : (spec cwd : Text) → Keeps Held (run_session env spec cwd)
  run_session-Held spec cwd s p = p

  pub run_gate-Held : (path base : Text) → Keeps Held (run_gate env path base)
  run_gate-Held path base s p = p

  pub give_up-Held : (slug : Text) (gate : GateVerdict) → Keeps Held (give_up env slug gate)
  unfolding persist_verdict remove
  give_up-Held slug gate s p =
      and_then_keeps Held (remove env (record s { verdicts = assign slug gate s.verdicts })) _
        (remove_active-Held s.active (record s { verdicts = assign slug gate s.verdicts }) p)
        λ _ s p. p
