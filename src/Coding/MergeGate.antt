-- ===== src/Coding/MergeGate.antt =====
-- src/coding/merge-gate.ts: the tier of a change, and the checks that it must pass.
pub mod Laws
use invarail.Prelude.{
  is_empty, ℕ, Bool, true, false, ◌&&◌, ◌||◌, not, List, [], ◌∷◌, ◌++◌, Option, none, some, Text,
  text, ◌==◌, includes, starts_with, ends_with, keep, any, all, take, truthy, given, map, trim,
  if◌then◌else◌,
}

pub record GateCheck : Type 0 where
  pub name : Text
  pub pass : Bool
  pub output : Text

pub data GateTier : Type 0 where
  tier0 tier1 tier2 tier3 : GateTier

-- `GateVerdict` without its durations.
pub record GateVerdict : Type 0 where
  pub pass : Bool
  pub tier : GateTier
  pub touched_files : List Text
  pub protected_touched : List Text
  pub gate_config_tampered : Bool
  pub deps_reinstalled : Bool
  pub checks : List GateCheck
  pub base_sha : Text
  pub head_sha : Text

unfoldable pub protected_paths : List Text
protected_paths =
    text "src/security/"
    ∷ text "src/dispatch.ts"
    ∷ text "src/config/loader.ts"
    ∷ text "src/config/schema.ts"
    ∷ text "src/coding/self-mod.ts"
    ∷ text "src/coding/merge-gate.ts"
    ∷ text "src/coding/improvement-proposals.ts"
    ∷ text "src/tools/self-merge.ts"
    ∷ text "src/tools/self-improve.ts"
    ∷ text "scripts/supervisor.sh"
    ∷ text ".github/"
    ∷ text "package.json"
    ∷ text "package-lock.json"
    ∷ text "vitest.config.ts"
    ∷ text "tsconfig.json"
    ∷ text ".env"
    ∷ []

unfoldable pub gate_config_paths : List Text
gate_config_paths =
    text "package.json"
    ∷ text "package-lock.json"
    ∷ text "vitest.config.ts"
    ∷ text "tsconfig.json"
    ∷ text ".github/"
    ∷ []

abbrev slash : Text
slash = text "/"

abbrev dot_env : Text
dot_env = text ".env"

unfoldable pub matches : Text → Text → Bool
matches file pattern =
    if ends_with slash pattern
    then starts_with pattern file
    else file == pattern
      || starts_with (pattern ++ slash) file
      || (pattern == dot_env && starts_with dot_env file)

-- `patterns.some(p => matches(file, p))`
unfoldable pub matches_any : List Text → Text → Bool
matches_any patterns file = any (matches file) patterns

abbrev is_code : Text → Bool
is_code f =
    starts_with (text "src/") f || starts_with (text "test/") f || starts_with (text "scripts/") f

abbrev is_doc : Text → Bool
is_doc f = ends_with (text ".md") f || starts_with (text "docs/") f

pub record Classified : Type 0 where
  pub tier : GateTier
  pub protected_touched : List Text
  pub gate_config_tampered : Bool

-- The tier of a change that touches no protected path.
unfoldable pub open_tier : List Text → GateTier
open_tier files = if any is_code files then tier2 else if all is_doc files then tier0 else tier1

abbrev pub tier_of : List Text → List Text → GateTier
tier_of [] files = open_tier files
tier_of (f ∷ fs) files = tier3

unfoldable pub classify_tier : List Text → List Text → Classified
unfolding open_tier
classify_tier files extra =
    let touched = keep (matches_any (protected_paths ++ extra)) files in
    record {
      tier = tier_of touched files;
      protected_touched = touched;
      gate_config_tampered = any (matches_any gate_config_paths) files;
    }

-- What a check runs, in the worktree: its name, and the tool that judges.
pub data Judge : Type 0 where
  npm_ci : Judge
  worktree_tsc worktree_vitest : Judge
  trusted_tsc trusted_vitest : Text → Judge

-- The worktree: what git says of it, and the runner of a check, code that is not modelled.
pub record GateOptions : Type 0 where
  pub base_sha : Text
  pub head_sha : Text
  pub diff_lines : List Text
  pub protected_paths_extra : List Text
  pub repo_root : Option Text
  pub check_runner : Judge → GateCheck

abbrev node_modules : Text
node_modules = text "node_modules"

unfoldable pub is_forbidden : Text → Bool
is_forbidden f =
    f == node_modules || starts_with (text "node_modules/") f || starts_with (text "data/") f

unfoldable pub deps_touched : List Text → Bool
deps_touched files = any (λ f. f == text "package.json" || f == text "package-lock.json") files

-- `opts.repoRoot && !depsReinstalled ? … : null`
unfoldable pub trusted_root : Option Text → Bool → Option Text
trusted_root root true = none
trusted_root root false = given root

abbrev pub tsc_of : Option Text → Judge
tsc_of none = worktree_tsc
tsc_of (some root) = trusted_tsc root

abbrev pub vitest_of : Option Text → Judge
vitest_of none = worktree_vitest
vitest_of (some root) = trusted_vitest root

abbrev pub passed : List GateCheck → Bool
passed checks = all (λ c. c.pass) checks

-- `if (checks.every(c => c.pass)) checks.push(await run(…))`; also what was run.
unfoldable pub run_next :
    (Judge → GateCheck) → Judge → List GateCheck × List Judge → List GateCheck × List Judge
run_next run judge (checks, ran) =
    if passed checks then (checks ++ run judge ∷ [], ran ++ judge ∷ []) else (checks, ran)

-- The checks of a change without forbidden files, with what was run for them.
unfoldable pub run_checks : GateOptions → List Text → List GateCheck × List Judge
unfolding run_next deps_touched trusted_root
run_checks opts files =
    let reinstalled = deps_touched files in
    let trusted = trusted_root opts.repo_root reinstalled in
    let first = if reinstalled then run_next opts.check_runner npm_ci ([], []) else ([], []) in
    run_next opts.check_runner (vitest_of trusted)
      (run_next opts.check_runner (tsc_of trusted) first)

-- `${forbidden.slice(0, 10).join(', ')}`
unfoldable pub join_comma : List Text → Text
join_comma [] = []
join_comma (f ∷ []) = f
join_comma (f ∷ g ∷ fs) = f ++ (text ", " ++ join_comma (g ∷ fs))

unfoldable pub foreign_check : List Text → GateCheck
unfolding join_comma
foreign_check forbidden = record {
  name = text "foreign-files";
  pass = false;
  output = text "branch touches arena/runtime paths: " ++ join_comma (take 10 forbidden);
}

-- The lines of `git diff --name-only`, trimmed; empty lines are none.
unfoldable pub touched_files : GateOptions → List Text
touched_files opts = keep truthy (map trim opts.diff_lines)

unfoldable pub run_merge_gate : GateOptions → GateVerdict
unfolding touched_files run_checks foreign_check is_forbidden
run_merge_gate opts =
    let files = touched_files opts in
    let c = classify_tier files opts.protected_paths_extra in
    let forbidden = keep is_forbidden files in
    let checks = (run_checks opts files).0 in
    let verdict : GateVerdict = record {
      pass = not (is_empty checks) && passed checks && not (is_empty files);
      tier = c.tier;
      touched_files = files;
      protected_touched = c.protected_touched;
      gate_config_tampered = c.gate_config_tampered;
      deps_reinstalled = deps_touched files;
      checks = checks;
      base_sha = opts.base_sha;
      head_sha = opts.head_sha;
    } in
    if is_empty forbidden then verdict else record verdict {
      pass = false;
      deps_reinstalled = false;
      checks = foreign_check forbidden ∷ [];
    }
