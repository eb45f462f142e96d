-- ===== src/Coding/Deploy/Commands.antt =====
-- What the commands of the arm leave alone, and which of them merge.
use invarail.Prelude.{
  ℕ, suc, ◌≡◌, refl, Bool, true, false, ◌&&◌, List, [], ◌∷◌, Text, text, Option, none, some, ◌==◌,
  Attempt, ok, err, and_then_keeps, count, count-append, arith, ◌≤◌, if◌then◌else◌,
}
use invarail.Coding.Arm.{Command, Env, Arm, M, ◌>>=◌, pure, unless_error, catching, git_in, git}
use invarail.Coding.SelfMod.{rev_parse_head, checkpoint_if_dirty, has_tracked_changes, best_effort}

-- Only the repository and the list of commands differ.
abbrev pub Quiet : {Repo : Type 0} → Arm Repo → Arm Repo → Type 0
Quiet s s' =
    (s'.active ≡ s.active)
    × (s'.marker ≡ s.marker)
    × (s'.failed_marker ≡ s.failed_marker)
    × (s'.verdicts ≡ s.verdicts)
    × (s'.ledger ≡ s.ledger)
    × (s'.restarts ≡ s.restarts)

-- The command that merges a branch, by its arguments.
abbrev pub merges_args : List Text → Bool
merges_args (a ∷ b ∷ args) = a == text "merge" && b == text "--no-ff"
merges_args _ = false

abbrev pub is_merge : Command → Bool
is_merge c = merges_args c.args

-- how many merges were run
abbrev pub merges : {Repo : Type 0} → Arm Repo → ℕ
merges s = count is_merge s.commands

abbrev pub AtMost : {Repo : Type 0} → ℕ → Arm Repo → Type 0
AtMost n s = merges s ≤ n

-- What an operation keeps of the states that it starts from.
abbrev pub Keeps : {Repo A : Type 0} → (Arm Repo → Type 0) → M Repo A → Type 0
Keeps P m = (s : Arm _) → P s → P (m s).1

module _ {Repo : Type 0} (P : Arm Repo → Type 0) where
  pub bind-Keeps :
      {A B : Type 0} (m : M Repo A) (k : A → M Repo B)
      → Keeps P m
      → ((a : A) → Keeps P (k a))
      → Keeps P (m >>= k)
  bind-Keeps m k h next s p = and_then_keeps P (m s) k (h s p) next

  pub caught :
      {A : Type 0} (e : Attempt A × Arm Repo) (handler : Text → M Repo A)
      → P e.1
      → ((x : Text) → Keeps P (handler x))
      → P (elim e.0 as (λ _. Attempt A × Arm Repo) [ ok a ↦ (ok a, e.1) | err x ↦ handler x e.1 ]).1
  caught (ok a, s) handler p h = p
  caught (err x, s) handler p h = h x s p

  pub catching-Keeps :
      {A : Type 0} (m : M Repo A) (handler : Text → M Repo A)
      → Keeps P m
      → ((x : Text) → Keeps P (handler x))
      → Keeps P (catching m handler)
  catching-Keeps m handler h k s p = caught (m s) handler (h s p) k

  pub unless_error-Keeps :
      (o : Option Text) (f : Arm Repo → Arm Repo) (s : Arm Repo)
      → P s
      → P (f s)
      → P (unless_error o f s).1
  unless_error-Keeps none f s p q = q
  unless_error-Keeps (some e) f s p q = p

  pub if-Keeps :
      {A : Type 0} (b : Bool) (x y : M Repo A)
      → Keeps P x
      → Keeps P y
      → Keeps P (if b then x else y)
  if-Keeps true x y h k = h
  if-Keeps false x y h k = k

-- A property that every git command keeps which merges nothing.
abbrev pub Tame : {Repo : Type 0} → Env Repo → (Arm Repo → Type 0) → Type 0
Tame env P =
    (cwd : Text) (args : List Text) → merges_args args ≡ false → Keeps P (git_in env cwd args)

pub Quiet-Tame : {Repo : Type 0} (env : Env Repo) (s0 : Arm Repo) → Tame env (Quiet s0)
unfolding git_in
Quiet-Tame env s0 cwd args h s p = p

pub AtMost-Tame : {Repo : Type 0} (env : Env Repo) (n : ℕ) → Tame env (AtMost n)
unfolding git_in
AtMost-Tame env n cwd args h s p =
    let c : Command = record { program = text "git"; args = args; cwd = cwd } in
    ground (arith, count-append is_merge s.commands (c ∷ []))

-- Any command adds one merge at most.
pub git_in-AtMost-suc :
    {Repo : Type 0} (env : Env Repo) (n : ℕ) (cwd : Text) (args : List Text) (s : Arm Repo)
    → AtMost n s
    → AtMost (suc n) (git_in env cwd args s).1
unfolding git_in
git_in-AtMost-suc env n cwd args s p =
    let c : Command = record { program = text "git"; args = args; cwd = cwd } in
    ground (arith, count-append is_merge s.commands (c ∷ []))

module _ {Repo : Type 0} (env : Env Repo) (P : Arm Repo → Type 0) (tame : Tame env P) where
  pub checkpoint_if_dirty-Keeps : Keeps P (checkpoint_if_dirty env)
  unfolding checkpoint_if_dirty git ◌==◌
  checkpoint_if_dirty-Keeps =
      bind-Keeps P (has_tracked_changes env) _
        (bind-Keeps P (git env _) _ (tame env.repo_root _ refl) (λ out s p. p))
        λ dirty.
          if-Keeps P dirty _ _
            (bind-Keeps P (git env _) _ (tame env.repo_root _ refl) λ _.
              bind-Keeps P (git env _) _ (tame env.repo_root _ refl)
                λ _. bind-Keeps P (git env rev_parse_head) _ (tame env.repo_root _ refl) λ _ s p. p)
            λ s p. p

  pub best_effort-Keeps :
      (args : List Text) → merges_args args ≡ false → Keeps P (best_effort env args)
  unfolding git
  best_effort-Keeps args h =
      catching-Keeps P (git env args >>= λ _. pure tt) (λ _. pure tt)
        (bind-Keeps P (git env args) (λ _. pure tt) (tame env.repo_root args h) (λ _ s p. p))
        λ _ s p. p
