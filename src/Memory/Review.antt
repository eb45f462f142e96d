-- ===== src/Memory/Review.antt =====
-- src/memory/fact-store.ts: what a heartbeat does with the facts: snapshots and what changed since,
-- facts about days that are over, confirmations, and duplicates. The date in a text is found by
-- regular expressions, a parameter.
pub mod Laws
use invarail.Prelude.{
  ℕ, ◌+◌, Bool, true, false, ◌&&◌, ◌||◌, not, List, [], ◌∷◌, ◌++◌, map, Option, none, some, Text,
  ◌==◌, ltb, leb, nat_eq, length, keep, any, is_empty, includes, contains, take, trim, zero, suc,
  sort_by, if◌then◌else◌,
}
use invarail.Memory.Similarity.{Provenance, provenance_rank, same_fact}
use invarail.Memory.Facts.{
  Category, stable, FactEntry, Line, fact, malformed, IndexFile, Snapshot, Bucket, Env, all_entries,
  drop_lines, load_index_entries, normalize_text,
}
use invarail.Memory.View.{same_category, rebuild_facts, load_facts_json}
use invarail.Memory.Removal.{remove_fact, remove_by_ids}
use invarail.Memory.Write.{max_of, max_importance, overlaps}

abbrev pub hashes : List FactEntry → List Text
hashes es = map (λ (e : FactEntry). e.hash) es

unfoldable pub save_snapshot : ℕ → Bucket → Bucket
unfolding load_facts_json
save_snapshot now b =
    let (entries, b') = load_facts_json now b in
    record b' { snapshot = some (record { taken_at = now; fact_hashes = hashes entries }) }

pub record Diff : Type 0 where
  pub new_facts : List FactEntry
  pub unchanged_facts : List FactEntry
  pub removed_hashes : List Text

abbrev pub diff_from : Option Snapshot → List FactEntry → Diff
diff_from none current = record { new_facts = current; unchanged_facts = []; removed_hashes = [] }
diff_from (some s) current = record {
  new_facts = keep (λ e. not (includes e.hash s.fact_hashes)) current;
  unchanged_facts = keep (λ e. includes e.hash s.fact_hashes) current;
  removed_hashes = keep (λ h. not (includes h (hashes current))) s.fact_hashes;
}

unfoldable pub diff_facts : ℕ → Bucket → Diff × Bucket
unfolding load_facts_json includes
diff_facts now b = let (current, b') = load_facts_json now b in (diff_from b.snapshot current, b')

-- A fact that is not stable and names a day before this midnight.
abbrev pub is_over : (Text → Option ℕ) → ℕ → FactEntry → Bool
is_over date_of midnight e =
    not (same_category e.category stable)
    && elim (date_of e.text) [ none ↦ false | some day ↦ ltb day midnight ]

abbrev pub forget_each : Env → ℕ → List FactEntry → Bucket → Bucket
forget_each env now [] b = b
forget_each env now (e ∷ es) b = forget_each env now es (remove_fact env now (take 40 e.text) b).1

unfoldable pub expire_stale_date_facts :
    Env → (Text → Option ℕ) → ℕ → ℕ → Bucket → List FactEntry × Bucket
unfolding load_facts_json remove_fact
expire_stale_date_facts env date_of now midnight b =
    let (entries, b') = load_facts_json now b in
    let gone = keep (is_over date_of midnight) entries in (gone, forget_each env now gone b')

abbrev change_lines : (FactEntry → FactEntry) → List Line → List Line
change_lines f [] = []
change_lines f (fact e ∷ ls) = fact (f e) ∷ change_lines f ls
change_lines f (malformed t ∷ ls) = malformed t ∷ change_lines f ls

abbrev pub change_entries : (FactEntry → FactEntry) → List IndexFile → List IndexFile
change_entries f [] = []
change_entries f (x ∷ xs) = record x { lines = change_lines f x.lines } ∷ change_entries f xs

abbrev pub min_of : ℕ → ℕ → ℕ
min_of a b = if ltb a b then a else b

-- The owner confirmed a fact.
abbrev pub boosted : ℕ → Text → FactEntry → FactEntry
boosted now id e =
    if e.id == id
    then record e { confidence = min_of 100 (e.confidence + 15); last_reviewed_at = some now }
    else e

unfoldable pub boost_confidence : Env → ℕ → Text → Bucket → Bucket
unfolding rebuild_facts
boost_confidence env now id b =
    if is_empty b.index
    then b
    else rebuild_facts env now
        (record b { index = change_entries (boosted now id) b.index; cache = none })

abbrev pub numbered : ℕ → List FactEntry → List (ℕ × FactEntry)
numbered i [] = []
numbered i (e ∷ es) = (i, e) ∷ numbered (suc i) es

abbrev pub has_number : ℕ → List ℕ → Bool
has_number i is = any (nat_eq i) is

-- Is the first of two texts, one of which holds the other, the one to keep?
abbrev pub wins : FactEntry → FactEntry → Bool
wins a b =
    let m = length (normalize_text a.text) in
    let n = length (normalize_text b.text) in
    ltb n m || (nat_eq m n && leb b.confidence a.confidence)

-- The inner loop of `consolidateFacts`, over the entries behind the `i`th.
unfoldable pub compare_from : ℕ → FactEntry → List (ℕ × FactEntry) → List ℕ → List ℕ
unfolding contains normalize_text
compare_from i a [] removed = removed
compare_from i a ((j, b) ∷ rest) removed =
    let skip = compare_from i a rest removed in
    let drop_b = compare_from i a rest (j ∷ removed) in
    if has_number j removed || not (overlaps a.text b.text)
    then skip
    else if wins a b
    then drop_b
    else i ∷ removed

unfoldable pub duplicates : List (ℕ × FactEntry) → List ℕ → List ℕ
unfolding compare_from
duplicates [] removed = removed
duplicates ((i, a) ∷ rest) removed =
    let next = if has_number i removed then removed else compare_from i a rest removed in
    duplicates rest next

abbrev ids_at : List ℕ → List (ℕ × FactEntry) → List Text
ids_at is [] = []
ids_at is ((i, e) ∷ es) = let rest = ids_at is es in if has_number i is then e.id ∷ rest else rest

unfoldable pub consolidate_facts : Env → ℕ → Bucket → ℕ × Bucket
unfolding duplicates load_facts_json remove_by_ids
consolidate_facts env now b =
    let (entries, b') = load_facts_json now b in
    let removed = duplicates (numbered 0 entries) [] in
    if ltb (length entries) 2 || is_empty removed
    then (0, b')
    else (length removed, remove_by_ids env now (ids_at removed (numbered 0 entries)) true b')

pub record Cluster : Type 0 where
  pub kept : FactEntry
  pub dropped : List FactEntry

-- The strongest provenance first, then the newest.
abbrev pub better : FactEntry → FactEntry → Bool
better a b =
    ltb (provenance_rank b.provenance) (provenance_rank a.provenance)
    || (nat_eq (provenance_rank a.provenance) (provenance_rank b.provenance)
        && ltb b.created_at a.created_at)

abbrev cluster_of : List FactEntry → List Cluster → List Cluster
cluster_of [] cs = cs
cluster_of (e ∷ []) cs = cs
cluster_of (e ∷ d ∷ ds) cs = record { kept = e; dropped = d ∷ ds } ∷ cs

abbrev pub members :
    (Text → List Text) → FactEntry → List ℕ → List (ℕ × FactEntry) → List (ℕ × FactEntry)
members fact_words e used rest =
    keep (λ (x : ℕ × FactEntry). not (has_number x.0 used) && same_fact fact_words e.text x.1.text)
      rest

abbrev firsts : List (ℕ × FactEntry) → List ℕ
firsts xs = map (λ (x : ℕ × FactEntry). x.0) xs

abbrev pub seconds : List (ℕ × FactEntry) → List FactEntry
seconds xs = map (λ (x : ℕ × FactEntry). x.1) xs

-- Every member of a cluster says what its first entry, the seed, says.
unfoldable pub clusters_from : (Text → List Text) → List (ℕ × FactEntry) → List ℕ → List Cluster
unfolding sort_by same_fact
clusters_from fact_words [] used = []
clusters_from fact_words ((i, e) ∷ rest) used =
    let group = members fact_words e used rest in
    let here =
      cluster_of (sort_by better (e ∷ seconds group))
        (clusters_from fact_words rest (firsts group ++ used)) in
    let skip = clusters_from fact_words rest used in if has_number i used then skip else here

abbrev dropped_ids : List Cluster → List Text
dropped_ids [] = []
dropped_ids (c ∷ cs) = map (λ (e : FactEntry). e.id) c.dropped ++ dropped_ids cs

abbrev raised : List Cluster → FactEntry → FactEntry
raised [] e = e
raised (c ∷ cs) e =
    if c.kept.id == e.id
    then record e { importance = max_of c.kept.importance (max_importance c.dropped) }
    else raised cs e

unfoldable pub compact_duplicates : Env → ℕ → Bool → Bucket → List Cluster × Bucket
unfolding clusters_from load_index_entries includes drop_lines rebuild_facts
compact_duplicates env now dry_run b =
    let clusters = clusters_from env.fact_words (numbered 0 (load_index_entries now b)) [] in
    let kept = drop_lines (λ e. includes e.id (dropped_ids clusters)) b.index in
    let changed = record b { index = change_entries (raised clusters) kept; cache = none } in
    if dry_run || is_empty clusters
    then (clusters, b)
    else (clusters, rebuild_facts env now changed)
