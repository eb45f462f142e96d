-- ===== src/Coding/Deploy/Merges.antt =====
-- Which merges a confirmed action runs.
use invarail.Prelude.{
  ℕ, suc, ◌≤◌, refl, ◌⊎◌, inl, inr, [], ◌∷◌, Option, none, some, Text, text, ◌==◌, Attempt, ok, err,
  and_then, and_then_keeps, given, arith,
}
use invarail.Json.{Params}
use invarail.Coding.MergeGate.{GateVerdict}
use invarail.Coding.Arm.{ActiveWorktree, Env, Arm, M, git, pure, remove_tree, ◌>>=◌}
use invarail.Coding.SelfMod.{
  rev_parse_head, checkpoint_if_dirty, remove, remove_active, remove_worktree, best_effort,
  prune_args,
}
use invarail.Coding.Service.{param_text, merge_args}
use invarail.Coding.Deploy.{
  approve_merge, perform_merge, execute_merge, abort_merge, merge_once, merge_branch, finish_merge,
  recorded, marker_for, write_marker,
}
use invarail.Coding.Deploy.Commands.{
  merges, AtMost, Keeps, AtMost-Tame, git_in-AtMost-suc, checkpoint_if_dirty-Keeps,
  best_effort-Keeps, bind-Keeps, catching-Keeps, unless_error-Keeps, caught,
}
use invarail.Coding.Deploy.Approval.{Approved, Ends, Passed, Untouched, approve_merge-Ends}
use invarail.Coding.Deploy.Laws.{abort_merge-Keeps}

module _ {Repo : Type 0} (env : Env Repo) (n : ℕ) where
  remove_active-AtMost : (o : Option ActiveWorktree) → Keeps (AtMost n) (remove_active env o)
  unfolding git ◌==◌
  remove_active-AtMost none = λ s p. p
  remove_active-AtMost (some a) =
      let P = AtMost {Repo = Repo} n in
      let drop = text "worktree" ∷ text "remove" ∷ text "--force" ∷ a.worktree_path ∷ [] in
      bind-Keeps P (remove_worktree env a.worktree_path) _
        (catching-Keeps P (git env drop >>= λ _. pure tt) (λ _. remove_tree env a.worktree_path)
          (bind-Keeps P (git env drop) (λ _. pure tt) (AtMost-Tame env n env.repo_root drop refl)
            (λ _ s p. p))
          (λ _ s p. p))
        λ _.
          bind-Keeps P (best_effort env (text "branch" ∷ text "-D" ∷ a.branch ∷ [])) _
            (best_effort-Keeps env P (AtMost-Tame env n) _ refl)
            λ _.
              bind-Keeps P (best_effort env (prune_args env)) _
                (best_effort-Keeps env P (AtMost-Tame env n) _ refl)
                λ _ s p. unless_error-Keeps P (env.state_error s.repo) _ s p p

  finish_merge-AtMost :
      (slug prev sha : Text) (a : ActiveWorktree) (v : GateVerdict)
      → Keeps (AtMost n) (finish_merge env slug a v prev sha)
  unfolding remove
  finish_merge-AtMost slug prev sha a v s p =
      let m = marker_for env slug prev sha (given (recorded env a sha v)) in
      and_then_keeps (AtMost n) (write_marker env m s) _
        (unless_error-Keeps (AtMost n) (env.marker_error s.repo) (λ s. record s { marker = some m })
          s p p)
        λ _ s1 p1.
          and_then_keeps (AtMost n) (remove env s1) _ (remove_active-AtMost s1.active s1 p1)
            λ _ s2 q. q

merge_branch-AtMost :
    {Repo : Type 0} (env : Env Repo) (n : ℕ) (slug branch : Text) (s : Arm Repo)
    → AtMost n s
    → AtMost (suc n) (merge_branch env slug branch s).1
unfolding git
merge_branch-AtMost env n slug branch s p =
    let P = AtMost (suc n) in
    caught P (merge_once env slug branch s) (λ _. abort_merge env branch)
      (and_then_keeps P (git env (merge_args slug branch) s) (λ _. pure tt)
        (git_in-AtMost-suc env n env.repo_root (merge_args slug branch) s p) (λ _ s p. p))
      λ _. abort_merge-Keeps env P (AtMost-Tame env (suc n)) branch

-- No merge in the first half, one at most in the second.
then_AtMost :
    {Repo A B : Type 0} (n : ℕ) (e : Attempt A × Arm Repo) (k : A → M Repo B)
    → AtMost n e.1
    → ((a : A) (s : Arm Repo) → AtMost n s → AtMost (suc n) (k a s).1)
    → AtMost (suc n) (and_then e k).1
then_AtMost n (ok a, s) k p next = next a s p
then_AtMost n (err x, s) k p next = omega arith

perform_merge-AtMost :
    {Repo : Type 0} (env : Env Repo) (n : ℕ) (slug branch : Text) (a : ActiveWorktree)
    (v : GateVerdict) (s : Arm Repo)
    → AtMost n s
    → AtMost (suc n) (perform_merge env slug branch (a, v) s).1
unfolding perform_merge git ◌==◌
perform_merge-AtMost env n slug branch a v s p =
    then_AtMost n (checkpoint_if_dirty env s) _
      (checkpoint_if_dirty-Keeps env (AtMost n) (AtMost-Tame env n) s p)
      λ _ s1 p1.
        then_AtMost n (git env rev_parse_head s1) _
          (AtMost-Tame env n env.repo_root rev_parse_head refl s1 p1)
          λ prev s2 p2.
            and_then_keeps (AtMost (suc n)) (merge_branch env slug branch s2) _
              (merge_branch-AtMost env n slug branch s2 p2)
              λ _ s3 p3.
                and_then_keeps (AtMost (suc n)) (git env rev_parse_head s3) _
                  (AtMost-Tame env (suc n) env.repo_root rev_parse_head refl s3 p3)
                  λ sha. finish_merge-AtMost env (suc n) slug prev sha a v

abbrev pub MergesApproved : {Repo : Type 0} → Env Repo → Arm Repo → Text → Text → Arm Repo → Type 0
MergesApproved env s slug head_sha s' =
    (merges s' ≤ merges s)
    ⊎ ((a : ActiveWorktree) × (v : GateVerdict) × Approved env s slug head_sha a v
        × (merges s' ≤ suc (merges s)))

by_approval :
    {Repo : Type 0} (env : Env Repo) (s : Arm Repo) (slug branch head_sha : Text)
    (e : Attempt (ActiveWorktree × GateVerdict) × Arm Repo)
    → Ends (Passed env s slug branch head_sha) (Untouched env s slug branch head_sha) e
    → MergesApproved env s slug head_sha (and_then e (perform_merge env slug branch)).1
by_approval env s slug branch head_sha (ok (a, v), s') h =
    inr (a, v, h.0, perform_merge-AtMost env (merges s) slug branch a v s' h.1.0)
by_approval env s slug branch head_sha (err x, s') h = inl h.0

-- A confirmed action merges nothing, unless the active worktree is that of its change, HEAD of that
-- worktree is at this moment the commit that was proposed, and the verdict on record for the change
-- passes; then it runs one merge at most.
pub execute_merge-MergesApproved :
    {Repo : Type 0} (env : Env Repo) (params : Params) (s : Arm Repo)
    → MergesApproved env s
        (param_text env (text "slug") params)
        (param_text env (text "headSha") params)
        (execute_merge env params s).1
unfolding execute_merge
execute_merge-MergesApproved env params s =
    let slug = param_text env (text "slug") params in
    let branch = param_text env (text "branch") params in
    let head_sha = param_text env (text "headSha") params in
    by_approval env s slug branch head_sha (approve_merge env slug branch head_sha s)
      (approve_merge-Ends env s slug branch head_sha)
