-- ===== src/Coding/Deploy/Approval.antt =====
-- When a merge of the program's own change is approved.
use invarail.Prelude.{
  ◌≡◌, refl, sym, ap, ◌∙◌, Bool, true, false, Option, none, some, Text, ◌==◌, eq_sound, lookup,
  Attempt, ok, err, and_then, arith, if◌then◌else◌,
}
use invarail.Coding.MergeGate.{GateVerdict}
use invarail.Coding.Arm.{ActiveWorktree, Env, Arm, M, git_in}
use invarail.Coding.SelfMod.{rev_parse_head}
use invarail.Coding.Deploy.{approve_merge, need_head, need_active, need_verdict}
use invarail.Coding.Deploy.Commands.{merges, AtMost, Quiet, AtMost-Tame, Quiet-Tame}

-- What stands when a merge is approved: the worktree is the one of the change, its HEAD is the commit
-- that was proposed, and the verdict on record passes.
abbrev pub Approved :
    {Repo : Type 0} → Env Repo → Arm Repo → Text → Text → ActiveWorktree → GateVerdict → Type 0
Approved env s slug head_sha a v =
    (s.active ≡ some a)
    × (a.slug ≡ slug)
    × ((git_in env a.worktree_path rev_parse_head s).0 ≡ ok head_sha)
    × (lookup slug s.verdicts ≡ some v)
    × (v.pass ≡ true)

-- What holds of an outcome: of the value and the state, or of the state after an error.
abbrev pub Ends : {S A : Type 0} → (A → S → Type 0) → (S → Type 0) → Attempt A × S → Type 0
Ends Q R (ok a, s) = Q a s
Ends Q R (err e, s) = R s

pub Ends-and_then :
    {S A B : Type 0} (Q : A → S → Type 0) (Q' : B → S → Type 0) (R : S → Type 0) (e : Attempt A × S)
    (k : A → S → Attempt B × S)
    → Ends Q R e
    → ((a : A) (s : S) → Q a s → Ends Q' R (k a s))
    → Ends Q' R (and_then e k)
Ends-and_then Q Q' R (ok a, s) k h next = next a s h
Ends-and_then Q Q' R (err x, s) k h next = h

pub if-Ends :
    {Repo A : Type 0} (Q : A → Arm Repo → Type 0) (R : Arm Repo → Type 0) (b : Bool)
    (x y : M Repo A) (s : Arm Repo)
    → (b ≡ true → Ends Q R (x s))
    → (b ≡ false → Ends Q R (y s))
    → Ends Q R ((if b then x else y) s)
if-Ends Q R true x y s h k = h refl
if-Ends Q R false x y s h k = k refl

pub if-value :
    {S A : Type 0} (Q : A → S → Type 0) (R : S → Type 0) (b : Bool) (x y : Attempt A × S)
    → (b ≡ true → Ends Q R x)
    → (b ≡ false → Ends Q R y)
    → Ends Q R (if b then x else y)
if-value Q R true x y h k = h refl
if-value Q R false x y h k = k refl

module _ {Repo : Type 0} (env : Env Repo) (s0 : Arm Repo) (slug branch head_sha : Text) where
  -- Nothing was merged and only the repository can differ.
  abbrev pub Untouched : Arm Repo → Type 0
  Untouched s = AtMost (merges s0) s × Quiet s0 s

  untouched : Untouched s0
  untouched = (omega arith, (refl, refl, refl, refl, refl, refl))

  abbrev pub Passed : ActiveWorktree × GateVerdict → Arm Repo → Type 0
  Passed (a, v) s = Approved env s0 slug head_sha a v × Untouched s

  need_verdict-Ends :
      (a : ActiveWorktree) (o : Option GateVerdict) (s : Arm Repo)
      → s0.active ≡ some a
      → a.slug ≡ slug
      → (git_in env a.worktree_path rev_parse_head s0).0 ≡ ok head_sha
      → lookup slug s0.verdicts ≡ o
      → Untouched s
      → Ends Passed Untouched (need_verdict env slug a o s)
  need_verdict-Ends a none s i e g l u = u
  need_verdict-Ends a (some v) s i e g l u =
      if-Ends Passed Untouched v.pass _ _ s (λ p. ((i, e, g, l, p), u)) λ _. u

  need_head-Ends :
      (a : ActiveWorktree) (current : Text) (s : Arm Repo)
      → s0.active ≡ some a
      → a.slug ≡ slug
      → (git_in env a.worktree_path rev_parse_head s0).0 ≡ ok current
      → Untouched s
      → Ends Passed Untouched (need_head env slug branch head_sha a current s)
  need_head-Ends a current s i e g u =
      if-value Passed Untouched (current == head_sha) _ _
        (λ same.
          need_verdict-Ends a (lookup slug s.verdicts) s i e
            (g ∙ ap ok (eq_sound current head_sha same)) (ap (lookup slug) (sym u.1.3)) u)
        λ _. u

  asked-Ends :
      (a : ActiveWorktree) (e : Attempt Text × Arm Repo)
      → s0.active ≡ some a
      → a.slug ≡ slug
      → (git_in env a.worktree_path rev_parse_head s0).0 ≡ e.0
      → Untouched e.1
      → Ends Passed Untouched (and_then e (need_head env slug branch head_sha a))
  asked-Ends a (err x, s) i e g u = u
  asked-Ends a (ok current, s) i e g u = need_head-Ends a current s i e g u

  need_active-Ends :
      (o : Option ActiveWorktree)
      → s0.active ≡ o
      → Ends Passed Untouched (need_active env slug branch head_sha o s0)
  unfolding ◌==◌
  need_active-Ends none i = untouched
  need_active-Ends (some a) i =
      if-Ends Passed Untouched (a.slug == slug) _ _ s0
        (λ same.
          asked-Ends a (git_in env a.worktree_path rev_parse_head s0) i (eq_sound a.slug slug same)
            refl
            (
              AtMost-Tame env (merges s0) a.worktree_path rev_parse_head refl s0 (omega arith),
              Quiet-Tame env s0 a.worktree_path rev_parse_head refl s0 untouched.1,
            ))
        λ _. untouched

  pub approve_merge-Ends : Ends Passed Untouched (approve_merge env slug branch head_sha s0)
  unfolding approve_merge
  approve_merge-Ends = need_active-Ends s0.active refl
