-- ===== src/Coding/Service/Unannounced.antt =====
-- A proposal that fails after its merge is in the ledger.
use invarail.Prelude.{
  ◌≡◌, refl, Bool, true, false, [], ◌∷◌, Option, none, some, Text, text, assign, ap, ◌∙◌, ◌++◌,
  Attempt, ok, err, and_then, and_then_keeps, or_else, arith, if◌then◌else◌,
}
use invarail.Security.Ledger.{PendingAction, File, record_action, find_by_id}
use invarail.Security.Ledger.Laws.{IsNew, find_by_id-record_action}
use invarail.Coding.MergeGate.{GateVerdict}
use invarail.Coding.Arm.{ActiveWorktree, Env, Arm, M, git_in}
use invarail.Coding.Service.{
  ProposeResult, merge_ttl_ms, merge_preview, persist_verdict, offer_merge, diff_args,
  report_failed_gate, propose_merge, judge_and_propose_merge,
}
use invarail.Coding.Service.Held.{Held, git_in-Held}

-- The run ended in the error, and the merge can be found.
abbrev pub Unannounced :
    {Repo : Type 0}
    → Env Repo
    → ActiveWorktree
    → GateVerdict
    → Text
    → Text
    → Text
    → Attempt ProposeResult × Arm Repo
    → Type 0
Unannounced env a gate e principal channel r =
    (r.0 ≡ err e)
    × ((action : PendingAction) × (find_by_id env.action_id principal env.now r.1.ledger
          ≡ some action)
        × (action.preview ≡ merge_preview a gate principal channel))

and_then_err :
    {S A B : Type 0} (e : Text) (x : Attempt A × S) (k : A → S → Attempt B × S)
    → x.0 ≡ err e
    → (and_then x k).0 ≡ err e
and_then_err e (ok a, s) k h = ground arith
and_then_err e (err y, s) k h = ground arith

module _ {Repo : Type 0} (env : Env Repo) (a : ActiveWorktree) (gate : GateVerdict) (e : Text)
    (fails : (s : Arm Repo) → (git_in env a.worktree_path (diff_args env a) s).0 ≡ err e) where
  offer_merge_fails :
      (o : Option PendingAction) (action : PendingAction) (s : Arm Repo)
      → o ≡ some action
      → ((offer_merge env a gate o s).0 ≡ err e)
        × ((offer_merge env a gate o s).1.ledger ≡ s.ledger)
  offer_merge_fails none action s h = ground arith
  offer_merge_fails (some x) action s h = (
    and_then_err e (git_in env a.worktree_path (diff_args env a) s) _ (fails s),
    and_then_keeps (Held env s.ledger) (git_in env a.worktree_path (diff_args env a) s) _
        (git_in-Held env s.ledger a.worktree_path (diff_args env a) s refl) λ _ s p. p,
  )

  when_passed :
      (principal channel : Text) (b : Bool) (x y : M Repo ProposeResult) (s : Arm Repo)
      → b ≡ true
      → Unannounced env a gate e principal channel (x s)
      → Unannounced env a gate e principal channel ((if b then x else y) s)
  when_passed principal channel true x y s h u = u
  when_passed principal channel false x y s h u = absurd (ground arith)

  propose_merge-Unannounced :
      (principal channel : Text) (s : Arm Repo)
      → IsNew env.action_id (or_else s.ledger [])
      → env.ledger_lands ≡ true
      → Unannounced env a gate e principal channel (propose_merge env a gate principal channel s)
  propose_merge-Unannounced principal channel s new lands =
      let recorded = λ (b : Bool).
        record_action env.action_id env.now env.now merge_ttl_ms b
          (merge_preview a gate principal channel) s.ledger in
      let (action, stored, found, same) =
        find_by_id-record_action env.action_id env.now env.now merge_ttl_ms env.now
          (merge_preview a gate principal channel) s.ledger new (omega arith) in
      let s1 = record s {
        ledger = (recorded env.ledger_lands).1;
        audits = s.audits ++ record { action = text "self_mod_proposed"; detail = a.slug } ∷ [];
      } in
      let (failed_so, kept) =
        offer_merge_fails (recorded env.ledger_lands).0 action s1
          (ap (λ b. (recorded b).0) lands ∙ stored) in
      (
        failed_so,
        (
          action,
          ap (λ (l : File PendingAction). find_by_id env.action_id principal env.now l)
                (kept ∙ ap (λ b. (recorded b).1) lands)
              ∙ found,
          same,
        ),
      )

-- Where the gate passes, the ledger is written under an id that is new, and then `git diff --stat`
-- fails: a proposal ends in that error, so that no id is shown, but the merge is in the ledger, where
-- the principal finds it as any other.
pub judge_and_propose_merge-Unannounced :
    {Repo : Type 0} (env : Env Repo) (a : ActiveWorktree) (gate : GateVerdict)
    (principal channel e : Text) (s : Arm Repo)
    → ((s' : Arm Repo) → (git_in env a.worktree_path (diff_args env a) s').0 ≡ err e)
    → IsNew env.action_id (or_else s.ledger [])
    → gate.pass ≡ true
    → env.ledger_lands ≡ true
    → Unannounced env a gate e principal channel
        (judge_and_propose_merge env a gate principal channel s)
unfolding judge_and_propose_merge persist_verdict
judge_and_propose_merge-Unannounced env a gate principal channel e s fails new pass lands =
    let s1 = record s { verdicts = assign a.slug gate s.verdicts } in
    when_passed env a gate e fails principal channel gate.pass
      (propose_merge env a gate principal channel) (report_failed_gate env a gate) s1 pass
      (propose_merge-Unannounced env a gate e fails principal channel s1 new lands)
