-- ===== src/Memory/Write.antt =====
-- src/memory/fact-store.ts: `writeFact`, the gate that every fact passes, and `writeFactsBatch`.
pub mod Changes
pub mod Keeps
pub mod Remembers
pub mod Forgotten
pub mod Gaps
use invarail.Prelude.{
  ℕ, ◌+◌, Bool, true, false, ◌&&◌, ◌||◌, not, List, [], ◌∷◌, ◌++◌, map, Option, none, some, Text,
  text, ltb, keep, any, is_empty, contains, or_else, or_option, zero, suc, take_last, Attempt, ok,
  err, if◌then◌else◌,
}
use invarail.Memory.Similarity.{Provenance, stated, provenance_rank, same_fact}
use invarail.Memory.Facts.{
  Category, FactEntry, FactInput, fact, Bucket, Store, put, Env, normalize_text, load_index_entries,
  hash_exists, append_to_index,
}
use invarail.Memory.View.{category_ttl_days}
use invarail.Memory.Removal.{remove_by_ids, is_suppressed, clear_removals_matching}

-- What the clock and the random numbers give a write, and the caller's overrides.
pub record Stamp : Type 0 where
  pub now : ℕ
  pub today : Text
  pub id : Text
  pub raw_file : Text
  pub source_override : Option Text
  pub created_at_override : Option ℕ
  pub migrating : Bool

abbrev pub is_stated : Provenance → Bool
is_stated stated = true
is_stated _ = false

abbrev pub max_of : ℕ → ℕ → ℕ
max_of a b = if ltb a b then b else a

abbrev pub max_importance : List FactEntry → ℕ
max_importance [] = 0
max_importance (e ∷ es) = max_of e.importance (max_importance es)

-- `IMPORTANCE_TTL_DAYS`
abbrev pub importance_ttl_days : ℕ → Option ℕ
importance_ttl_days (suc zero) = some 7
importance_ttl_days (suc (suc zero)) = some 30
importance_ttl_days (suc (suc (suc zero))) = some 90
importance_ttl_days _ = none

-- `IMPORTANCE_TTL_DAYS[importance] ?? CATEGORY_TTL_DAYS[category]`
abbrev pub ttl_days : ℕ → Category → Option ℕ
ttl_days importance category =
    or_option (importance_ttl_days importance) (category_ttl_days category)

-- One text holds the other.
abbrev pub overlaps : Text → Text → Bool
overlaps t u =
    contains (normalize_text t) (normalize_text u) || contains (normalize_text u) (normalize_text t)

abbrev pub ids : List FactEntry → List Text
ids es = map (λ (e : FactEntry). e.id) es

abbrev pub outranks : Provenance → FactEntry → Bool
outranks p e = ltb (provenance_rank p) (provenance_rank e.provenance)

module _ (env : Env) where
  abbrev pub hash_text : Text → Text
  hash_text t = env.digest (normalize_text t)

  abbrev pub expiry_of : ℕ → FactInput → Option ℕ
  expiry_of created input = elim input.expires_at [
    | some at ↦ some at
    | none ↦ elim (ttl_days input.importance input.category) [
      | none ↦ none
      | some days ↦ some (env.add_days created days)
    ]
  ]

  unfoldable pub new_entry : Stamp → FactInput → Option Text → ℕ → FactEntry
  unfolding normalize_text
  new_entry stamp input who inherited =
      let created = or_else stamp.created_at_override stamp.now in
      record {
        id = stamp.id;
        text = input.text;
        category = input.category;
        confidence = input.confidence;
        source = or_else (or_option stamp.source_override input.source) stamp.raw_file;
        provenance = input.provenance;
        created_at = created;
        expires_at = expiry_of created input;
        hash = hash_text input.text;
        sender_id = who;
        tags = input.tags;
        entities = input.entities;
        last_reviewed_at = none;
        importance = max_of input.importance inherited;
      }

  -- The write itself.
  unfoldable pub store_fact : Stamp → FactInput → Option Text → ℕ → Store → Option FactEntry × Store
  unfolding new_entry append_to_index
  store_fact stamp input who inherited s =
      let e = new_entry stamp input who inherited in
      let b = s who in
      (
        some e,
        put who (record b { index = append_to_index stamp.today (fact e) b.index; cache = none }) s,
      )

  abbrev pub paraphrased : Text → List FactEntry → Attempt Bool
  paraphrased t [] = ok false
  paraphrased t (e ∷ es) = elim env.is_paraphrase [
    | none ↦ ok false
    | some f ↦ f t (map (λ (e : FactEntry). e.text) (take_last 10 (e ∷ es)))
  ]

  abbrev pub unless_close :
      Attempt Bool → Option FactEntry × Store → Store → Option FactEntry × Store
  unless_close (ok true) written s = (none, s)
  unless_close (ok false) written s = written
  unless_close (err e) written s = written

  -- The newer wording takes the place of the older ones.
  unfoldable pub replace_facts :
      Stamp → FactInput → Option Text → List FactEntry → Store → Option FactEntry × Store
  unfolding store_fact
  replace_facts stamp input who matches s =
      if any (outranks input.provenance) matches
      then (none, s)
      else store_fact stamp input who (max_importance matches)
          (put who (remove_by_ids env stamp.now (ids matches) false (s who)) s)

  -- The gate behind the removals.
  unfoldable pub admit : Stamp → FactInput → Option Text → Store → Option FactEntry × Store
  unfolding replace_facts contains
  admit stamp input who s =
      let existing = load_index_entries stamp.now (s who) in
      let matches = keep (λ e. same_fact env.fact_words input.text e.text) existing in
      if any (λ e. overlaps input.text e.text) existing
      then (none, s)
      else if not (is_empty matches)
      then replace_facts stamp input who matches s
      else unless_close (paraphrased input.text existing) (store_fact stamp input who 0 s) s

  abbrev pub unless_suppressed :
      Stamp → FactInput → Option Text → Bool × Store → Option FactEntry × Store
  unless_suppressed stamp input who (true, s) = (none, s)
  unless_suppressed stamp input who (false, s) = admit stamp input who s

  unfoldable pub write_fact : Stamp → FactInput → Option Text → Store → Option FactEntry × Store
  unfolding admit hash_exists
  write_fact stamp input who s =
      if hash_exists (hash_text input.text) (s who).index
      then (none, s)
      else if stamp.migrating
      then store_fact stamp input who 0 s
      else if is_stated input.provenance
      then admit stamp input who (clear_removals_matching env input.text who s)
      else unless_suppressed stamp input who (is_suppressed env stamp.now input.text who s)

  abbrev pub collect : Option FactEntry → List FactEntry → List FactEntry
  collect none es = es
  collect (some e) es = e ∷ es

  unfoldable pub write_facts_batch :
      List (Stamp × FactInput) → Option Text → Store → List FactEntry × Store
  unfolding write_fact
  write_facts_batch [] who s = ([], s)
  write_facts_batch ((stamp, input) ∷ rest) who s =
      let (written, s1) = write_fact stamp input who s in
      let (entries, s2) = write_facts_batch rest who s1 in (collect written entries, s2)
