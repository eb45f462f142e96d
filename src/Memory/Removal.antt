-- ===== src/Memory/Removal.antt =====
-- src/memory/fact-store.ts: what takes facts out of the index, and what keeps them out. Every write to
-- a file lands.
use invarail.Prelude.{
  ℕ, ◌+◌, ◌*◌, Bool, true, false, ◌&&◌, not, List, [], ◌∷◌, ◌++◌, map, Option, none, some, Text,
  text, ◌==◌, ltb, keep, any, is_empty, includes, contains, lower, take, if◌then◌else◌,
}
use invarail.Memory.Similarity.{Removal, matches_removal}
use invarail.Memory.Facts.{FactEntry, Bucket, Store, put, Env, all_entries, drop_lines}
use invarail.Memory.View.{rebuild_facts}

abbrev pub user_denied : Text
user_denied = text "user_denied"

abbrev pub removal_window_ms : ℕ
removal_window_ms = 30 * 24 * 60 * 60 * 1000

-- `removeWhere`, and whether it rebuilds.
unfoldable pub remove_where : Env → ℕ → (FactEntry → Bool) → Bool → Bucket → List FactEntry × Bucket
unfolding drop_lines
remove_where env now p rebuild b =
    let removed = keep p (all_entries b.index) in
    let left = record b { index = drop_lines p b.index; cache = none } in
    if is_empty removed
    then (removed, b)
    else if rebuild
    then (removed, rebuild_facts env now left)
    else (removed, left)

-- `removeFactTexts`
unfoldable pub remove_fact : Env → ℕ → Text → Bucket → List FactEntry × Bucket
unfolding contains
remove_fact env now query b =
    remove_where env now (λ e. contains (lower query) (lower e.text)) true b

unfoldable pub remove_by_ids : Env → ℕ → List Text → Bool → Bucket → Bucket
unfolding includes
remove_by_ids env now ids rebuild b =
    if is_empty ids then b else (remove_where env now (λ e. includes e.id ids) rebuild b).1

abbrev removal_expiry : ℕ → Text → Option ℕ
removal_expiry now reason = if reason == user_denied then none else some (now + removal_window_ms)

-- A forget of the owner is for good; any other removal lasts thirty days.
unfoldable pub record_removal : ℕ → Text → Text → List Text → Bucket → Bucket
record_removal now t reason facts b = record b {
  removed =
      b.removed
      ++ some (record {
        text = t;
        reason = reason;
        facts = take 20 facts;
        expires_at = removal_expiry now reason;
      })
        ∷ [];
}

abbrev pub holds_still : ℕ → Removal → Bool
holds_still now r = elim r.expires_at [ none ↦ true | some at ↦ ltb now at ]

abbrev pub known : List (Option Removal) → List Removal
known [] = []
known (none ∷ rs) = known rs
known (some r ∷ rs) = r ∷ known rs

-- What has expired is dropped from the file, and what is no JSON then.
unfoldable pub load_recently_removed : ℕ → Bucket → List Removal × Bucket
load_recently_removed now b =
    let kept = keep (holds_still now) (known b.removed) in
    (kept, record b { removed = map some kept })

abbrev pub refresh : ℕ → Option Text → Store → List Removal × Store
refresh now who s = let (kept, b) = load_recently_removed now (s who) in (kept, put who b s)

abbrev pub all_removals : ℕ → Option Text → Store → List Removal × Store
all_removals now none s = refresh now none s
all_removals now (some who) s =
    let (own, s1) = refresh now (some who) s in
    let (shared, s2) = refresh now none s1 in (own ++ shared, s2)

-- Would this text undo a removal of the sender, or a shared one?
unfoldable pub is_suppressed : Env → ℕ → Text → Option Text → Store → Bool × Store
unfolding load_recently_removed
is_suppressed env now t who s =
    let (removals, s') = all_removals now who s in
    (any (matches_removal env.fact_words t) removals, s')

abbrev pub lifted : Env → Text → Option Removal → Bool
lifted env t none = false
lifted env t (some r) = r.reason == user_denied && matches_removal env.fact_words t r

abbrev pub clear_in : Env → Text → Option Text → Store → Store
clear_in env t who s =
    put who (record (s who) { removed = keep (λ r. not (lifted env t r)) (s who).removed }) s

-- The owner stated a fact again: the forgets that it matches are lifted.
unfoldable pub clear_removals_matching : Env → Text → Option Text → Store → Store
clear_removals_matching env t none s = clear_in env t none s
clear_removals_matching env t (some who) s = clear_in env t none (clear_in env t (some who) s)
