-- ===== src/Memory/Write/Remembers.antt =====
-- What the gate of `writeFact` does behind its check of the removals, and the removals.
use invarail.Prelude.{
  ℕ, ◌≡◌, refl, ◌∙◌, Bool, true, false, not, List, Option, none, Text, keep, any, is_empty,
  if_holds, arith, Attempt, ok, err, if◌then◌else◌,
}
use invarail.Memory.Similarity.{same_fact}
use invarail.Memory.Facts.{FactEntry, FactInput, Bucket, Store, put, Env, load_index_entries}
use invarail.Memory.Removal.{remove_where, remove_by_ids}
use invarail.Memory.Write.{
  Stamp, store_fact, unless_close, replace_facts, admit, paraphrased, overlaps, max_importance, ids,
  outranks,
}
use invarail.Memory.Write.Changes.{put_field}

module _ (env : Env) (stamp : Stamp) (input : FactInput) (who k : Option Text) where
  -- The removals that a bucket has.
  abbrev pub Same : Store → Option FactEntry × Store → Type 0
  Same s r = (r.1 k).removed ≡ (s k).removed

  put_removed :
      (b : Bucket) (s : Store)
      → b.removed ≡ (s who).removed
      → (put who b s k).removed ≡ (s k).removed
  put_removed b s h = put_field (λ (b : Bucket). b.removed) who k b s h

  store_fact-Same :
      (inherited : ℕ) (s : Store) → Same s (store_fact env stamp input who inherited s)
  unfolding store_fact
  store_fact-Same inherited s = put_removed _ s refl

  remove_by_ids-removed :
      (names : List Text) (b : Bucket)
      → (remove_by_ids env stamp.now names false b).removed ≡ b.removed
  unfolding remove_by_ids remove_where
  remove_by_ids-removed names b = ground arith

  replace_facts-Same :
      (ms : List FactEntry) (s : Store) → Same s (replace_facts env stamp input who ms s)
  unfolding replace_facts
  replace_facts-Same ms s =
      let left = remove_by_ids env stamp.now (ids ms) false (s who) in
      if_holds (Same s) (any (outranks input.provenance) ms) (none, s)
        (store_fact env stamp input who (max_importance ms) (put who left s)) (λ _. refl)
        λ _.
          store_fact-Same (max_importance ms) (put who left s)
          ∙ put_removed left s (remove_by_ids-removed (ids ms) (s who))

  unless_close-Same :
      (a : Attempt Bool) (written : Option FactEntry × Store) (s : Store)
      → Same s written
      → Same s (unless_close env a written s)
  unless_close-Same (ok true) written s h = refl
  unless_close-Same (ok false) written s h = h
  unless_close-Same (err e) written s h = h

  pub admit-Same : (s : Store) → Same s (admit env stamp input who s)
  unfolding admit
  admit-Same s =
      let existing = load_index_entries stamp.now (s who) in
      let matches = keep (λ (e : FactEntry). same_fact env.fact_words input.text e.text) existing in
      let written = store_fact env stamp input who 0 s in
      let close = unless_close env (paraphrased env input.text existing) written s in
      let replaced = replace_facts env stamp input who matches s in
      if_holds (Same s) (any (λ e. overlaps input.text e.text) existing) (none, s)
        (if not (is_empty matches) then replaced else close) (λ _. refl)
        λ _.
          if_holds (Same s) (not (is_empty matches)) replaced close
            (λ _. replace_facts-Same matches s)
            λ _.
              unless_close-Same (paraphrased env input.text existing) written s
                (store_fact-Same 0 s)
