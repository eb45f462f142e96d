-- ===== src/Coding/SelfMod.antt =====
-- src/coding/self-mod.ts: `SelfModWorktrees`, the one worktree in which the program changes itself.
use invarail.Prelude.{
  ℕ, ◌+◌, ◌*◌, Bool, ◌&&◌, ◌||◌, not, List, [], ◌∷◌, ◌++◌, Option, none, some, Text, text, ◌==◌,
  Attempt, err, ltb, nat_eq, ok, trim, truthy, starts_with, any, take, given, if◌then◌else◌,
}
use invarail.Coding.Arm.{
  ActiveWorktree, DeployMarker, Spawned, Env, M, ◌>>=◌, ◌>>◌, pure, write_state, remove_tree,
  unless_error, Arm, catching, refuse_if, self_mod_error, run_command, git,
}

-- `join(a, b)`
abbrev pub join_path : Text → Text → Text
join_path a b = a ++ (text "/" ++ b)

abbrev pub rev_parse_head : List Text
rev_parse_head = text "rev-parse" ∷ text "HEAD" ∷ []

abbrev add_to_first : ℕ → List Text → List Text
add_to_first c [] = (c ∷ []) ∷ []
add_to_first c (l ∷ ls) = (c ∷ l) ∷ ls

-- `s.split('\n')`
unfoldable pub split_lines : Text → List Text
split_lines [] = [] ∷ []
split_lines (c ∷ s) =
    let rest = split_lines s in if nat_eq c 10 then [] ∷ rest else add_to_first c rest

abbrev is_tracked_change : Text → Bool
is_tracked_change l = truthy (trim l) && not (starts_with (text "??") l)

abbrev pub branch_of : Text → Text
branch_of slug = text "self-mod/" ++ slug

abbrev pub stale_marker_ms : ℕ
stale_marker_ms = 15 * 60000

-- The fields of a `Partial<…>` that are given.
pub record ActivePatch : Type 0 where
  pub session : Option (Option Text × Option Text)
  pub base_sha : Option Text

abbrev patch_session : Option (Option Text × Option Text) → ActiveWorktree → ActiveWorktree
patch_session none a = a
patch_session (some (id, file)) a = record a { session_id = id; session_file = file }

abbrev patch_base : Option Text → ActiveWorktree → ActiveWorktree
patch_base none a = a
patch_base (some sha) a = record a { base_sha = sha }

abbrev pub patched : ActivePatch → ActiveWorktree → ActiveWorktree
patched p a = patch_base p.base_sha (patch_session p.session a)

module _ {Repo : Type 0} (env : Env Repo) where
  unfoldable pub worktrees_dir : Text
  worktrees_dir = join_path env.repo_root (text "data/self-mod/worktrees")

  unfoldable pub has_tracked_changes : M Repo Bool
  unfolding split_lines git
  has_tracked_changes = do
    out ← git env (text "status" ∷ text "--porcelain" ∷ [])
    pure (any is_tracked_change (split_lines out))

  abbrev pub commit_tracked : M Repo (Option Text)
  commit_tracked = do
    _ ← git env (text "add" ∷ text "-u" ∷ [])
    _ ← git env (text "commit" ∷ text "-q" ∷ text "-m" ∷ text "wip: pre-selfmod checkpoint" ∷ [])
    sha ← git env rev_parse_head
    pure (some sha)

  unfoldable pub checkpoint_if_dirty : M Repo (Option Text)
  unfolding has_tracked_changes
  checkpoint_if_dirty = do dirty ← has_tracked_changes; if dirty then commit_tracked else pure none

  abbrev pub copy : Text → Text → Text → M Repo Spawned
  copy flags from to =
      run_command env
        (record { program = text "cp"; args = flags ∷ from ∷ to ∷ []; cwd = env.repo_root })

  abbrev pub plain_copy : Text → Text → M Repo (Unit {0})
  plain_copy from to = do
    plain ← copy (text "-R") from to
    refuse_if (not plain.succeeded) (text "node_modules copy failed: " ++ take 200 plain.stderr)

  -- node_modules is cloned, or copied where the file system cannot clone.
  unfoldable pub copy_node_modules : Text → M Repo (Unit {0})
  unfolding run_command
  copy_node_modules worktree_path s =
      let main = join_path env.repo_root (text "node_modules") in
      let own = join_path worktree_path (text "node_modules") in
      let clone : M Repo (Unit {0}) = (do
        c ← copy (text "-Rc") (env.real_path main s.repo) own
        if c.succeeded then pure tt else plain_copy (env.real_path main s.repo) own) in
      if env.exists_at main s.repo && not (env.exists_at own s.repo) then clone s else (ok tt, s)

  unfoldable pub link_training : Text → M Repo (Unit {0})
  link_training worktree_path s =
      let main = join_path env.repo_root (text "data/training") in
      let own = join_path worktree_path (text "data/training") in
      if env.exists_at main s.repo && not (env.exists_at own s.repo)
      then (ok tt, record s { repo = env.link_dir main own s.repo })
      else (ok tt, s)

  abbrev pub worktree_path : Text → Text
  worktree_path slug = join_path worktrees_dir slug

  abbrev pub add_worktree : Text → List Text
  add_worktree slug =
      text "worktree"
      ∷ text "add"
      ∷ text "-b"
      ∷ branch_of slug
      ∷ worktree_path slug
      ∷ text "HEAD"
      ∷ []

  abbrev pub make_worktree : Text → Option Text → M Repo ActiveWorktree
  make_worktree slug spec = do
    _ ← checkpoint_if_dirty
    base_sha ← git env rev_parse_head
    _ ← git env (add_worktree slug)
    copy_node_modules (worktree_path slug)
    link_training (worktree_path slug)
    let active : ActiveWorktree = record {
      slug = slug;
      branch = branch_of slug;
      worktree_path = worktree_path slug;
      base_sha = base_sha;
      created_at = env.now;
      spec = given spec;
      session_id = none;
      session_file = none;
    }
    write_state env (some active)
    pure active

  abbrev pub create_if : Option ActiveWorktree → Text → Option Text → M Repo ActiveWorktree
  create_if none slug spec = make_worktree slug spec
  create_if (some a) slug spec = self_mod_error (
      text "a self-mod worktree is already active (\""
      ++ (a.slug ++ text "\") — one change at a time; use abandon first"))

  unfoldable pub create : Text → Option Text → M Repo ActiveWorktree
  unfolding worktrees_dir checkpoint_if_dirty copy_node_modules link_training git
  create slug spec s = create_if s.active slug spec s

  unfoldable pub update_active : ActivePatch → M Repo (Unit {0})
  update_active patch s = elim s.active [
    | none ↦ (ok tt, s)
    | some a ↦ write_state env (some (patched patch a)) s
  ]

  -- A command whose failure is ignored.
  abbrev pub best_effort : List Text → M Repo (Unit {0})
  best_effort args = catching (git env args >>= λ _. pure tt) (λ _. pure tt)

  -- `git worktree remove --force`, or the directory alone where git refuses.
  abbrev pub remove_worktree : Text → M Repo (Unit {0})
  remove_worktree path =
      catching
        (git env (text "worktree" ∷ text "remove" ∷ text "--force" ∷ path ∷ []) >>= λ _. pure tt)
        (λ _. remove_tree env path)

  abbrev pub prune_args : List Text
  prune_args = text "worktree" ∷ text "prune" ∷ []

  abbrev pub remove_active : Option ActiveWorktree → M Repo (Unit {0})
  remove_active none = pure tt
  remove_active (some a) = do
    remove_worktree a.worktree_path
    best_effort (text "branch" ∷ text "-D" ∷ a.branch ∷ [])
    best_effort prune_args
    write_state env none

  unfoldable pub remove : M Repo (Unit {0})
  unfolding git
  remove s = remove_active s.active s

  -- The `try` around the whole loop: where a directory cannot be removed, what was swept is kept and the
  -- rest is left.
  abbrev pub or_stop :
      Attempt (Unit {0}) × Arm Repo → M Repo (List Text) → Attempt (List Text) × Arm Repo
  or_stop (ok _, s) go_on = go_on s
  or_stop (err e, s) go_on = (ok [], s)

  unfoldable pub sweep_each : Option Text → List Text → M Repo (List Text)
  unfolding git worktrees_dir
  sweep_each keep_slug [] = pure []
  sweep_each keep_slug (d ∷ ds) =
      let swept : M Repo (List Text) = (do
        best_effort (text "branch" ∷ text "-D" ∷ branch_of d ∷ [])
        rest ← sweep_each keep_slug ds
        pure ((text "worktree:" ++ d) ∷ rest)) in
      let go : M Repo (List Text) =
        λ s. or_stop (remove_worktree (join_path worktrees_dir d) s) swept in
      let skip = sweep_each keep_slug ds in
      elim keep_slug [ none ↦ go | some slug ↦ if d == slug then skip else go ]

  abbrev slug_of : Option ActiveWorktree → Option Text
  slug_of none = none
  slug_of (some a) = some a.slug

  abbrev names_of : Option (List Text) → List Text
  names_of none = []
  names_of (some ds) = ds

  abbrev drop_marker : DeployMarker → M Repo (List Text)
  drop_marker m = do
    λ s. unless_error (env.marker_error s.repo) (λ s. record s { marker = none }) s
    pure ((text "marker:" ++ m.slug) ∷ [])

  -- A marker that is not of the present HEAD, or that is too old, is deleted.
  unfoldable pub sweep_marker : M Repo (List Text)
  unfolding git
  sweep_marker s = elim s.marker [
    | none ↦ (ok [], s)
    | some m ↦
        (do
          head ← git env rev_parse_head
          let stale = not (m.merge_sha == head) || not (ltb env.now (m.ts + stale_marker_ms))
          if stale then drop_marker m else pure [])
          s
  ]

  unfoldable pub sweep : M Repo (List Text)
  unfolding sweep_each sweep_marker worktrees_dir git
  sweep s =
      (do
        swept ← sweep_each (slug_of s.active) (names_of (env.list_dir worktrees_dir s.repo))
        best_effort prune_args
        marker ← sweep_marker
        pure (swept ++ marker))
        s
