-- ===== src/Coding/MergeGate/Laws.antt =====
-- What the merge gate guarantees of a change that it passes, and of the tier that it gives.
use invarail.Prelude.{
  is_empty, is_empty-keep, ◌≡◌, ◌↔◌, refl, Bool, true, false, ◌&&◌, ◌||◌, List, [], ◌∷◌, ◌++◌, Text,
  keep, any, all, arith, if◌then◌else◌,
}
use invarail.Coding.MergeGate.{
  GateCheck, tier3, GateOptions, Judge, npm_ci, protected_paths, gate_config_paths, matches_any,
  open_tier, tier_of, classify_tier, is_forbidden, deps_touched, trusted_root, tsc_of, vitest_of,
  passed, run_next, run_checks, touched_files, run_merge_gate,
}

any-append : (p : Text → Bool) (xs ys : List Text) → any p (xs ++ ys) ≡ (any p xs || any p ys)
any-append p [] ys = refl
any-append p (x ∷ xs) ys = ground (arith, any-append p xs ys)

-- Every path that the gate depends on is protected.
gate_config_protected :
    (extra : List Text) (file : Text)
    → matches_any gate_config_paths file ≡ true
    → matches_any (protected_paths ++ extra) file ≡ true
unfolding matches_any protected_paths gate_config_paths
gate_config_protected extra file h = ground arith

any-implies :
    (p q : Text → Bool) (xs : List Text)
    → ((x : Text) → p x ≡ true → q x ≡ true)
    → any p xs ≡ true
    → any q xs ≡ true
any-implies p q [] h e = e
any-implies p q (x ∷ xs) h e = ground (arith, h x, any-implies p q xs h)

tier_of-tier3 :
    (touched files : List Text) → (tier_of touched files ≡ tier3) ↔ (is_empty touched ≡ false)
unfolding open_tier
tier_of-tier3 [] files = ground arith
tier_of-tier3 (t ∷ touched) files = ground arith

-- The tier is 3 exactly if the change touches a protected path, built in or configured.
pub classify_tier_protected :
    (files extra : List Text)
    → ((classify_tier files extra).tier ≡ tier3)
      ↔ (any (matches_any (protected_paths ++ extra)) files ≡ true)
unfolding classify_tier
classify_tier_protected files extra =
    let p = matches_any (protected_paths ++ extra) in
    ground (arith, tier_of-tier3 (keep p files) files, is_empty-keep p files)

-- A change that touches what the gate itself depends on has tier 3, whatever the configuration
-- adds.
pub classify_tier_tampered :
    (files extra : List Text)
    → (classify_tier files extra).gate_config_tampered ≡ true
    → (classify_tier files extra).tier ≡ tier3
unfolding classify_tier
classify_tier_tampered files extra tampered = (classify_tier_protected files extra).1 (
    any-implies (matches_any gate_config_paths) (matches_any (protected_paths ++ extra)) files
      (gate_config_protected extra) tampered)

-- The judges of a change: with new dependencies those of the worktree, after an isolated install.
abbrev pub judges : GateOptions → List Text → List Judge
judges opts files =
    let reinstalled = deps_touched files in
    let trusted = trusted_root opts.repo_root reinstalled in
    (if reinstalled then npm_ci ∷ [] else []) ++ tsc_of trusted ∷ vitest_of trusted ∷ []

passed-append :
    (xs : List GateCheck) (c : GateCheck) → passed (xs ++ c ∷ []) ≡ (passed xs && c.pass)
passed-append [] c = ground arith
passed-append (x ∷ xs) c = ground (arith, passed-append xs c)

-- A change passes exactly if it touches something, nothing of it is a foreign file, and each of its
-- judges passes it; all of them have then run, in order.
pub run_merge_gate-pass_iff :
    (opts : GateOptions)
    → ((run_merge_gate opts).pass ≡ true) ↔ (
        (is_empty (touched_files opts) ≡ false)
        × (any is_forbidden (touched_files opts) ≡ false)
        × (all (λ j. (opts.check_runner j).pass) (judges opts (touched_files opts)) ≡ true)
        × ((run_checks opts (touched_files opts)).1 ≡ judges opts (touched_files opts)))
unfolding run_merge_gate run_checks run_next
run_merge_gate-pass_iff opts =
    let files = touched_files opts in ground (arith, is_empty-keep is_forbidden files)
