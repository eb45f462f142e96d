-- ===== src/Coding/Service/Laws.antt =====
-- What a proposal puts into the ledger of pending actions.
use invarail.Prelude.{
  ◌≡◌, refl, ◌⊎◌, inl, inr, Bool, true, false, not, ◌&&◌, [], ◌∷◌, Option, none, some, Text, text,
  lookup, assign, map_laws, ap, ◌++◌, Attempt, ok, err, and_then, and_then_keeps, take, is_empty,
  if◌then◌else◌,
}
use invarail.Security.Ledger.{PendingAction, File, record_action}
use invarail.Coding.MergeGate.{GateVerdict}
use invarail.Coding.Arm.{ActiveWorktree, Env, Arm, M, pure, git_in, git}
use invarail.Coding.SelfMod.{create, update_active}
use invarail.Coding.Service.{
  ProposeResult, refusal, disabled, pi_disabled, session_running, failed, provenance, moved_base,
  set_busy, retry_active, abort_rebase_args, rebase_args, parse_main, merge_ttl_ms, merge_preview,
  persist_verdict, offer_merge, diff_args, report_failed_gate, propose_merge,
  judge_and_propose_merge, auto_commit_leftovers, try_git, run_session, run_gate, propose_body,
  while_busy, propose, rebase_onto, settle_rebase, retry_body, retry,
}
use invarail.Coding.Deploy.Commands.{Keeps, caught}
use invarail.Coding.Service.Held.{
  create-Held, update_active-Held, auto_commit_leftovers-Held, run_session-Held, run_gate-Held,
  give_up-Held, try_git-Held, git_in-Held,
}

-- What is in the ledger after a proposal: what was there, or that and a merge which was judged. The
-- verdict on it passes and is on record for the change, and the entry names the commit that was
-- judged.
abbrev pub Minted :
    {Repo : Type 0} → Env Repo → Text → Text → File PendingAction → Arm Repo → Type 0
Minted env principal channel ledger s =
    (s.ledger ≡ ledger)
    ⊎ ((a : ActiveWorktree) × (gate : GateVerdict) × (gate.pass ≡ true)
        × (lookup a.slug s.verdicts ≡ some gate)
        × (s.ledger
            ≡ (record_action env.action_id env.now env.now merge_ttl_ms env.ledger_lands
                (merge_preview a gate principal channel) ledger).1))

module _ {Repo : Type 0} (env : Env Repo) (principal channel : Text)
    (ledger : File PendingAction) where
  abbrev Judged : Arm Repo → Type 0
  Judged = Minted env principal channel ledger

  -- A first half that leaves the ledger alone, and what the rest mints.
  then_Minted :
      {A B : Type 0} (e : Attempt A × Arm Repo) (k : A → M Repo B)
      → e.1.ledger ≡ ledger
      → ((a : A) (s : Arm Repo) → s.ledger ≡ ledger → Judged (k a s).1)
      → Judged (and_then e k).1
  then_Minted (ok a, s) k p next = next a s p
  then_Minted (err x, s) k p next = inl p

  if_Minted :
      {A : Type 0} (b : Bool) (x y : M Repo A) (s : Arm Repo)
      → (b ≡ true → Judged (x s).1)
      → (b ≡ false → Judged (y s).1)
      → Judged ((if b then x else y) s).1
  if_Minted true x y s h k = h refl
  if_Minted false x y s h k = k refl

  offer_merge-Judged :
      (a : ActiveWorktree) (gate : GateVerdict) (o : Option PendingAction)
      → Keeps Judged (offer_merge env a gate o)
  unfolding git_in
  offer_merge-Judged a gate none s h = h
  offer_merge-Judged a gate (some action) s h =
      and_then_keeps Judged (git_in env a.worktree_path (diff_args env a) s) _ h λ _ s h. h

  propose_merge-Minted :
      (a : ActiveWorktree) (gate : GateVerdict) (s : Arm Repo)
      → s.ledger ≡ ledger
      → gate.pass ≡ true
      → lookup a.slug s.verdicts ≡ some gate
      → Judged (propose_merge env a gate principal channel s).1
  propose_merge-Minted a gate s p pass on_record =
      let recorded =
        record_action env.action_id env.now env.now merge_ttl_ms env.ledger_lands
          (merge_preview a gate principal channel) s.ledger in
      let s1 = record s {
        ledger = recorded.1;
        audits = s.audits ++ record { action = text "self_mod_proposed"; detail = a.slug } ∷ [];
      } in
      offer_merge-Judged a gate recorded.0 s1 (
        inr (
          a,
          gate,
          pass,
          on_record,
          ap
              (λ (l : File PendingAction).
                (record_action env.action_id env.now env.now merge_ttl_ms env.ledger_lands
                  (merge_preview a gate principal channel) l).1)
              p,
        ))

  judge_and_propose_merge-Minted :
      (a : ActiveWorktree) (gate : GateVerdict) (s : Arm Repo)
      → s.ledger ≡ ledger
      → Judged (judge_and_propose_merge env a gate principal channel s).1
  unfolding judge_and_propose_merge persist_verdict
  judge_and_propose_merge-Minted a gate s p =
      let s1 = record s { verdicts = assign a.slug gate s.verdicts } in
      if_Minted gate.pass (propose_merge env a gate principal channel)
        (report_failed_gate env a gate) s1
        (λ pass. propose_merge-Minted a gate s1 p pass (simp map_laws)) λ _. inl p

  propose_body-Minted :
      (slug spec : Text) (s : Arm Repo)
      → s.ledger ≡ ledger
      → Judged (propose_body env slug spec principal channel s).1
  propose_body-Minted slug spec s p =
      then_Minted (create env slug (some spec) s) _ (create-Held env ledger slug (some spec) s p)
        λ a s1 p1.
          then_Minted (run_session env spec a.worktree_path s1) _
            (run_session-Held env ledger spec a.worktree_path s1 p1)
            λ session s2 p2.
              then_Minted (update_active env (provenance session) s2) _
                (update_active-Held env ledger (provenance session) s2 p2)
                λ _ s3 p3.
                  then_Minted (auto_commit_leftovers env a.worktree_path slug s3) _
                    (auto_commit_leftovers-Held env ledger a.worktree_path slug s3 p3)
                    λ _ s4 p4.
                      then_Minted (run_gate env a.worktree_path a.base_sha s4) _
                        (run_gate-Held env ledger a.worktree_path a.base_sha s4 p4)
                        λ gate s5 p5.
                          if_Minted (not session.succeeded && is_empty gate.touched_files) _ _ s5
                            (λ _. inl (give_up-Held env ledger slug gate s5 p5))
                            λ _. judge_and_propose_merge-Minted a gate s5 p5

  while_busy-Minted :
      (m : M Repo ProposeResult) (s : Arm Repo)
      → Judged (m (set_busy env true s)).1
      → Judged (while_busy env m s).1
  while_busy-Minted m s h =
      caught Judged (m (set_busy env true s)) (λ e. pure (refusal (failed (take 400 e)))) h
        λ _ s h. h

  propose-Minted :
      (slug spec : Text) (s : Arm Repo)
      → s.ledger ≡ ledger
      → Judged (propose env slug spec principal channel s).1
  unfolding propose
  propose-Minted slug spec s p =
      if_Minted env.self_mod_enabled _ (pure (refusal disabled)) s
        (λ _.
          if_Minted env.pi_enabled _ (pure (refusal pi_disabled)) s
            (λ _.
              if_Minted s.busy (pure (refusal session_running)) _ s (λ _. inl p)
                λ _.
                  while_busy-Minted (propose_body env slug spec principal channel) s
                    (propose_body-Minted slug spec (set_busy env true s) p))
            λ _. inl p)
        λ _. inl p

  settle_rebase-Minted :
      (a : ActiveWorktree) (main_sha : Text) (r : Attempt Text) (s : Arm Repo)
      → s.ledger ≡ ledger
      → Judged (settle_rebase env a main_sha principal channel r s).1
  unfolding update_active
  settle_rebase-Minted a main_sha (ok _) s p =
      then_Minted (update_active env (moved_base main_sha) s) _
        (update_active-Held env ledger (moved_base main_sha) s p)
        λ _ s1 p1.
          then_Minted
            (run_gate env a.worktree_path main_sha (record s1 {
              audits = s1.audits ++ record { action = text "self_mod_retry"; detail = a.slug } ∷ [];
            }))
            _ p1
            λ gate s2 p2.
              judge_and_propose_merge-Minted (record a { base_sha = main_sha }) gate s2 p2
  settle_rebase-Minted a main_sha (err e) s p =
      then_Minted (try_git env a.worktree_path (abort_rebase_args env) s) _
        (try_git-Held env ledger a.worktree_path (abort_rebase_args env) s p) λ _ s1 p1. inl p1

  retry_body-Minted :
      (a : ActiveWorktree) (s : Arm Repo)
      → s.ledger ≡ ledger
      → Judged (retry_body env a principal channel s).1
  unfolding git
  retry_body-Minted a s p =
      then_Minted (git env (parse_main env) s) _
        (git_in-Held env ledger env.repo_root (parse_main env) s p)
        λ main_sha s1 p1.
          then_Minted (rebase_onto env a main_sha s1)
            (settle_rebase env a main_sha principal channel)
            (git_in-Held env ledger a.worktree_path (rebase_args env main_sha) s1 p1)
            λ r s2 p2. settle_rebase-Minted a main_sha r s2 p2

  retry_active-Minted :
      (o : Option ActiveWorktree) (s : Arm Repo)
      → s.ledger ≡ ledger
      → Judged (retry_active env principal channel o s).1
  retry_active-Minted none s p = inl p
  retry_active-Minted (some a) s p =
      while_busy-Minted (retry_body env a principal channel) s
        (retry_body-Minted a (set_busy env true s) p)

  retry-Minted : (s : Arm Repo) → s.ledger ≡ ledger → Judged (retry env principal channel s).1
  unfolding retry
  retry-Minted s p =
      if_Minted env.self_mod_enabled _ (pure (refusal disabled)) s
        (λ _.
          if_Minted s.busy (pure (refusal session_running)) _ s (λ _. inl p)
            λ _. retry_active-Minted s.active s p)
        λ _. inl p

-- Whatever the session, git and the gate do, a proposal and a retry leave the ledger of pending
-- actions as it was, or record one merge: of a change whose gate verdict passes and is then on record,
-- with the commit that this gate judged, for the principal and the channel that asked.
pub propose-retry-Minted :
    {Repo : Type 0} (env : Env Repo) (slug spec principal channel : Text) (s : Arm Repo)
    → Minted env principal channel s.ledger (propose env slug spec principal channel s).1
      × Minted env principal channel s.ledger (retry env principal channel s).1
propose-retry-Minted env slug spec principal channel s = (
  propose-Minted env principal channel s.ledger slug spec s refl,
  retry-Minted env principal channel s.ledger s refl,
)
