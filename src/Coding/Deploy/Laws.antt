-- ===== src/Coding/Deploy/Laws.antt =====
-- What a merge of the program's own change leaves.
use invarail.Prelude.{
  inl, inr, ◌⊎◌, suc, ◌≡◌, refl, ap, ◌∙◌, List, [], ◌∷◌, Option, none, some, Text, text, given,
  ◌==◌, Attempt, ok, err,
}
use invarail.Json.{Params}
use invarail.Coding.MergeGate.{GateVerdict}
use invarail.Coding.Arm.{
  ActiveWorktree, DeployMarker, Env, Arm, M, git_in, git, pure, unless_error, remove_tree, ◌>>=◌,
}
use invarail.Coding.SelfMod.{
  rev_parse_head, checkpoint_if_dirty, remove, remove_active, remove_worktree, best_effort,
  prune_args,
}
use invarail.Coding.Service.{param_text, merge_args}
use invarail.Coding.Deploy.{
  approve_merge, perform_merge, execute_merge, merge_conflict, abort_args, abort_merge, merge_once,
  merge_branch, finish_merge, recorded, marker_for, write_marker,
}
use invarail.Coding.Deploy.Commands.{
  Quiet, Keeps, Tame, Quiet-Tame, checkpoint_if_dirty-Keeps, best_effort-Keeps, bind-Keeps,
  catching-Keeps,
}
use invarail.Coding.Deploy.Approval.{Ends, Ends-and_then, Untouched, Passed, approve_merge-Ends}

-- A step whose errors are caught fails where the handler does.
caught-Ends :
    {Repo A : Type 0} (P R : Arm Repo → Type 0) (e : Attempt A × Arm Repo)
    (handler : Text → M Repo A)
    → P e.1
    → ((x : Text) (s : Arm Repo) → P s → Ends (λ _. P) R (handler x s))
    → Ends
        (λ _. P)
        R
        (elim e.0 as (λ _. Attempt A × Arm Repo) [ ok a ↦ (ok a, e.1) | err x ↦ handler x e.1 ])
caught-Ends P R (ok a, s) handler p h = p
caught-Ends P R (err x, s) handler p h = h x s p

keeps-Ends :
    {Repo A : Type 0} (P : Arm Repo → Type 0) (e : Attempt A × Arm Repo) → P e.1 → Ends (λ _. P) P e
keeps-Ends P (ok a, s) p = p
keeps-Ends P (err x, s) p = p

-- A write that throws changes nothing.
unless_error-Ends :
    {Repo : Type 0} (Q R : Arm Repo → Type 0) (o : Option Text) (f : Arm Repo → Arm Repo)
    (s : Arm Repo)
    → R s
    → Q (f s)
    → Ends (λ _. Q) R (unless_error o f s)
unless_error-Ends Q R none f s r q = q
unless_error-Ends Q R (some e) f s r q = r

module _ {Repo : Type 0} (env : Env Repo) (s0 : Arm Repo) where
  -- The marker and the number of restarts are as they were, and no worktree is active.
  abbrev Removed : Arm Repo → Type 0
  Removed s = (s.active ≡ none) × (s.marker ≡ s0.marker) × (s.restarts ≡ s0.restarts)

  git_in-Quiet : (cwd : Text) (args : List Text) → Keeps (Quiet s0) (git_in env cwd args)
  unfolding git_in
  git_in-Quiet cwd args s p = p

  remove_worktree-Ends :
      (path : Text) (s : Arm Repo)
      → Quiet s0 s
      → Ends (λ _. Quiet s0) (Quiet s0) (remove_worktree env path s)
  unfolding git
  remove_worktree-Ends path s p =
      let args = text "worktree" ∷ text "remove" ∷ text "--force" ∷ path ∷ [] in
      caught-Ends (Quiet s0) (Quiet s0) ((git env args >>= λ _. pure tt) s)
        (λ _. remove_tree env path)
        (bind-Keeps (Quiet s0) (git env args) (λ _. pure tt) (git_in-Quiet env.repo_root args)
          (λ _ s p. p) s p)
        λ _ s p. keeps-Ends (Quiet s0) (remove_tree env path s) p

  tried-Ends :
      (args : List Text) (s : Arm Repo)
      → Quiet s0 s
      → Ends (λ _. Quiet s0) (Quiet s0) (best_effort env args s)
  unfolding git
  tried-Ends args s p = keeps-Ends (Quiet s0) (best_effort env args s) (
      catching-Keeps (Quiet s0) (git env args >>= λ _. pure tt) (λ _. pure tt)
        (bind-Keeps (Quiet s0) (git env args) (λ _. pure tt) (git_in-Quiet env.repo_root args)
          (λ _ s p. p))
        (λ _ s p. p) s p)

  remove_active-Ends :
      (o : Option ActiveWorktree) (s : Arm Repo)
      → s.active ≡ o
      → Quiet s0 s
      → Ends (λ _. Removed) (Quiet s0) (remove_active env o s)
  remove_active-Ends none s e p = (e, p.1, p.5)
  remove_active-Ends (some a) s e p =
      Ends-and_then (λ _. Quiet s0) _ (Quiet s0) (remove_worktree env a.worktree_path s) _
        (remove_worktree-Ends a.worktree_path s p)
        λ _ s1 p1.
          Ends-and_then (λ _. Quiet s0) _ (Quiet s0)
            (best_effort env (text "branch" ∷ text "-D" ∷ a.branch ∷ []) s1) _ (tried-Ends _ s1 p1)
            λ _ s2 p2.
              Ends-and_then (λ _. Quiet s0) _ (Quiet s0) (best_effort env (prune_args env) s2) _
                (tried-Ends (prune_args env) s2 p2)
                λ _ s3 p3.
                  unless_error-Ends Removed (Quiet s0) (env.state_error s3.repo)
                    (λ s. record s { active = none }) s3 p3 (refl, p3.1, p3.5)

  remove-Ends : (s : Arm Repo) → Quiet s0 s → Ends (λ _. Removed) (Quiet s0) (remove env s)
  unfolding remove
  remove-Ends s p = remove_active-Ends s.active s refl p

pub abort_merge-Keeps :
    {Repo : Type 0} (env : Env Repo) (P : Arm Repo → Type 0)
    → Tame env P
    → (branch : Text) → Keeps P (abort_merge env branch)
unfolding ◌==◌
abort_merge-Keeps env P tame branch =
    bind-Keeps P (best_effort env (abort_args env)) (λ _. merge_conflict env branch)
      (best_effort-Keeps env P tame (abort_args env) refl) λ _ s p. p

module _ {Repo : Type 0} (env : Env Repo) (s0 : Arm Repo) where
  -- A merge that went through: no worktree is active, the marker tells of the commit, and one more
  -- restart was asked for.
  abbrev pub Merged : Text → Text → Arm Repo → Type 0
  Merged slug sha s =
      (s.active ≡ none)
      × ((m : DeployMarker) × (s.marker ≡ some m) × (m.merge_sha ≡ sha) × (m.slug ≡ slug))
      × (s.restarts ≡ suc s0.restarts)

  -- What a failure leaves: all files of the arm but the marker are as they were, and the marker is as
  -- it was or tells of a merge of the change.
  abbrev pub Failed : Text → Arm Repo → Type 0
  Failed slug s =
      (s.active ≡ s0.active)
      × ((s.marker ≡ s0.marker) ⊎ ((m : DeployMarker) × (s.marker ≡ some m) × (m.slug ≡ slug)))
      × (s.failed_marker ≡ s0.failed_marker)
      × (s.verdicts ≡ s0.verdicts)
      × (s.ledger ≡ s0.ledger)
      × (s.restarts ≡ s0.restarts)

  Quiet-Failed : (slug : Text) (s : Arm Repo) → Quiet s0 s → Failed slug s
  Quiet-Failed slug s (a, m, f, v, l, r) = (a, inl m, f, v, l, r)

  weaken :
      {A : Type 0} (Q : A → Arm Repo → Type 0) (R R' : Arm Repo → Type 0) (e : Attempt A × Arm Repo)
      → ((s : Arm Repo) → R s → R' s)
      → Ends Q R e
      → Ends Q R' e
  weaken Q R R' (ok a, s) h p = p
  weaken Q R R' (err x, s) h p = h s p

  finish_merge-Ends :
      (slug prev_sha merge_sha : Text) (a : ActiveWorktree) (v : GateVerdict) (s : Arm Repo)
      → Quiet s0 s
      → Ends (Merged slug) (Failed slug) (finish_merge env slug a v prev_sha merge_sha s)
  finish_merge-Ends slug prev_sha merge_sha a v s p =
      let m = marker_for env slug prev_sha merge_sha (given (recorded env a merge_sha v)) in
      let marked = record s { marker = some m } in
      Ends-and_then (λ _. Quiet marked) (Merged slug) (Failed slug) (write_marker env m s) _
        (unless_error-Ends (Quiet marked) (Failed slug) (env.marker_error s.repo)
          (λ s. record s { marker = some m }) s (Quiet-Failed slug s p)
          (refl, refl, refl, refl, refl, refl))
        λ _ s1 p1.
          Ends-and_then (λ _. Removed env marked) (Merged slug) (Failed slug) (remove env s1) _
            (weaken (λ _. Removed env marked) (Quiet marked) (Failed slug) (remove env s1)
              (λ s2 q. (q.0 ∙ p.0, inr (m, q.1, refl), q.2 ∙ p.2, q.3 ∙ p.3, q.4 ∙ p.4, q.5 ∙ p.5))
              (remove-Ends env marked s1 p1))
            λ _ s2 q. (q.0, (m, q.1, refl, refl), ap suc (q.2 ∙ p.5))

  merge_branch-Quiet : (slug branch : Text) → Keeps (Quiet s0) (merge_branch env slug branch)
  unfolding git git_in
  merge_branch-Quiet slug branch =
      catching-Keeps (Quiet s0) (merge_once env slug branch) (λ _. abort_merge env branch)
        (bind-Keeps (Quiet s0) (git env (merge_args slug branch)) (λ _. pure tt) (λ s p. p)
          (λ _ s p. p))
        λ _. abort_merge-Keeps env (Quiet s0) (Quiet-Tame env s0) branch

  Quiet-Ends :
      {A : Type 0} (slug : Text) (e : Attempt A × Arm Repo)
      → Quiet s0 e.1
      → Ends (λ _. Quiet s0) (Failed slug) e
  Quiet-Ends slug (ok a, s) p = p
  Quiet-Ends slug (err x, s) p = Quiet-Failed slug s p

  perform_merge-Ends :
      (slug branch : Text) (a : ActiveWorktree) (v : GateVerdict) (s : Arm Repo)
      → Quiet s0 s
      → Ends (Merged slug) (Failed slug) (perform_merge env slug branch (a, v) s)
  unfolding perform_merge git ◌==◌
  perform_merge-Ends slug branch a v s p =
      Ends-and_then (λ _. Quiet s0) (Merged slug) (Failed slug) (checkpoint_if_dirty env s) _
        (Quiet-Ends slug (checkpoint_if_dirty env s)
          (checkpoint_if_dirty-Keeps env (Quiet s0) (Quiet-Tame env s0) s p))
        λ _ s1 p1.
          Ends-and_then (λ _. Quiet s0) (Merged slug) (Failed slug) (git env rev_parse_head s1) _
            (Quiet-Ends slug (git env rev_parse_head s1)
              (Quiet-Tame env s0 env.repo_root rev_parse_head refl s1 p1))
            λ prev s2 p2.
              Ends-and_then (λ _. Quiet s0) (Merged slug) (Failed slug)
                (merge_branch env slug branch s2) _
                (Quiet-Ends slug (merge_branch env slug branch s2)
                  (merge_branch-Quiet slug branch s2 p2))
                λ _ s3 p3.
                  Ends-and_then (λ _. Quiet s0) (Merged slug) (Failed slug)
                    (git env rev_parse_head s3) _
                    (Quiet-Ends slug (git env rev_parse_head s3)
                      (Quiet-Tame env s0 env.repo_root rev_parse_head refl s3 p3))
                    λ sha s4 p4. finish_merge-Ends slug prev sha a v s4 p4

  keeps_error :
      (slug branch head_sha : Text) (e : Attempt (ActiveWorktree × GateVerdict) × Arm Repo)
      → Ends (Passed env s0 slug branch head_sha) (Untouched env s0 slug branch head_sha) e
      → Ends (λ _. Quiet s0) (Failed slug) e
  keeps_error slug branch head_sha (ok r, s) h = h.1.1
  keeps_error slug branch head_sha (err x, s) h = Quiet-Failed slug s h.1

-- A confirmed merge that answers with a commit leaves no active worktree, a marker of that commit and
-- that change, and one more restart asked for. One that fails, at whatever step, a write of the state
-- or of the marker and a removal of the worktree included, leaves the worktree active, asks for no
-- restart, and changes no verdict, pending action or marker of a rollback; the marker of the deploy is
-- as it was or tells of a merge of this change.
pub execute_merge_lem :
    {Repo : Type 0} (env : Env Repo) (params : Params) (s : Arm Repo)
    → Ends
        (Merged env s (param_text env (text "slug") params))
        (Failed env s (param_text env (text "slug") params))
        (execute_merge env params s)
unfolding execute_merge
execute_merge_lem env params s =
    let slug = param_text env (text "slug") params in
    let branch = param_text env (text "branch") params in
    let head_sha = param_text env (text "headSha") params in
    let e = approve_merge env slug branch head_sha s in
    Ends-and_then (λ _. Quiet s) (Merged env s slug) (Failed env s slug) e
      (perform_merge env slug branch)
      (keeps_error env s slug branch head_sha e (approve_merge-Ends env s slug branch head_sha))
      λ r s' p. perform_merge-Ends env s slug branch r.0 r.1 s' p
