-- ===== src/Memory/Review/Laws.antt =====
-- What snapshots say of facts that did not change, and what the expiry of past days takes along.
use invarail.Prelude.{
  ℕ, ◌≡◌, refl, sym, ap, ◌∙◌, Bool, true, false, not, List, [], ◌∷◌, Option, none, some, Text,
  eq_refl, keep, is_empty, includes, contains, lower, take, In, In-keep, keep-In, if_holds, inl,
  inr, arith,
}
use mathlib.Core.Path.{subst}
use invarail.Memory.Facts.{FactEntry, Bucket, Env, all_entries, drop_lines}
use invarail.Memory.Facts.Index.{all_entries-drop_lines}
use invarail.Memory.View.{rebuild_facts, load_facts_json}
use invarail.Memory.Removal.{remove_where, remove_fact}
use invarail.Memory.Review.{
  hashes, save_snapshot, diff_facts, is_over, forget_each, expire_stale_date_facts,
}

rebuild_facts-index : (env : Env) (now : ℕ) (b : Bucket) → (rebuild_facts env now b).index ≡ b.index
unfolding rebuild_facts
rebuild_facts-index env now b =
    if_holds (λ (c : Bucket). c.index ≡ b.index) (is_empty b.index) b _ (λ _. refl) λ _. refl

keep_rest :
    (p : FactEntry → Bool) (es : List FactEntry)
    → is_empty (keep p es) ≡ true
    → keep (λ e. not (p e)) es ≡ es
keep_rest p [] h = refl
keep_rest p (e ∷ es) h = ground (arith, keep_rest p es)

module _ (env : Env) (now : ℕ) where
  -- A removal takes exactly what passes its test.
  remove_where-entries :
      (p : FactEntry → Bool) (rebuild : Bool) (b : Bucket)
      → all_entries (remove_where env now p rebuild b).1.index
        ≡ keep (λ e. not (p e)) (all_entries b.index)
  unfolding remove_where
  remove_where-entries p rebuild b =
      let left = record b { index = drop_lines p b.index; cache = none } in
      let removed = keep p (all_entries b.index) in
      let Left = λ (r : List FactEntry × Bucket).
        all_entries r.1.index ≡ keep (λ e. not (p e)) (all_entries b.index) in
      if_holds Left (is_empty removed) (removed, b) _
        (λ none'. sym (keep_rest p (all_entries b.index) none'))
        λ _.
          if_holds Left rebuild (removed, rebuild_facts env now left) (removed, left)
            (λ _.
              ap all_entries (rebuild_facts-index env now left) ∙ all_entries-drop_lines p b.index)
            λ _. all_entries-drop_lines p b.index

  remove_fact-In :
      (q : Text) (b : Bucket) (x : FactEntry)
      → In x (all_entries (remove_fact env now q b).1.index)
      → In x (all_entries b.index) × (contains (lower q) (lower x.text) ≡ false)
  unfolding remove_fact
  remove_fact-In q b x i =
      let p : FactEntry → Bool = λ e. contains (lower q) (lower e.text) in
      let (there, free) =
        keep-In (λ e. not (p e)) x (all_entries b.index)
          (subst (λ es. In x es) (remove_where-entries p true b) i) in
      (there, ground (arith, free))

  -- What is left was there, and no text that was forgotten is in it.
  forget_each-In :
      (es : List FactEntry) (b : Bucket) (x : FactEntry)
      → In x (all_entries (forget_each env now es b).index)
      → In x (all_entries b.index)
        × ((e : FactEntry) → In e es → contains (lower (take 40 e.text)) (lower x.text) ≡ false)
  forget_each-In [] b x i = (i, λ e j. absurd j)
  forget_each-In (d ∷ ds) b x i =
      let (there, free) = forget_each-In ds (remove_fact env now (take 40 d.text) b).1 x i in
      let (before, apart) = remove_fact-In (take 40 d.text) b x there in
      (
        before,
        λ e j. elim j [
          | inl here ↦
              ap (λ (y : FactEntry). contains (lower (take 40 y.text)) (lower x.text)) here ∙ apart
          | inr later ↦ free e later
        ],
      )

  -- The expiry of facts about past days takes every fact along, a stable one too, whose text holds the
  -- first forty characters of one of them.
  pub expire_stale_date_facts_collateral :
      (date_of : Text → Option ℕ) (midnight : ℕ) (b : Bucket) (e x : FactEntry)
      → In e (load_facts_json now b).0
      → is_over date_of midnight e ≡ true
      → contains (lower (take 40 e.text)) (lower x.text) ≡ true
      → ¬ In x (all_entries (expire_stale_date_facts env date_of now midnight b).1.index)
  unfolding expire_stale_date_facts
  expire_stale_date_facts_collateral date_of midnight b e x i over held j =
      let gone = keep (is_over date_of midnight) (load_facts_json now b).0 in
      let (there, free) = forget_each-In gone (load_facts_json now b).1 x j in
      absurd
        (cc (held, free e (In-keep (is_over date_of midnight) e (load_facts_json now b).0 i over)))

includes-hashes :
    (e : FactEntry) (es : List FactEntry) → In e es → includes e.hash (hashes es) ≡ true
unfolding includes
includes-hashes e [] i = elim i [ ]
includes-hashes e (x ∷ xs) (inl here) =
    ground (arith, ap (λ (y : FactEntry). y.hash) here, eq_refl e.hash)
includes-hashes e (x ∷ xs) (inr there) = ground (arith, includes-hashes e xs there)

none_new :
    (es l : List FactEntry)
    → ((x : FactEntry) → In x l → In x es)
    → keep (λ (e : FactEntry). not (includes e.hash (hashes es))) l ≡ []
none_new es [] h = refl
none_new es (x ∷ xs) h =
    ground (arith, includes-hashes x es (h x (inl refl)), none_new es xs (λ y i. h y (inr i)))

none_removed :
    (es l : List FactEntry)
    → ((x : FactEntry) → In x l → In x es)
    → keep (λ h. not (includes h (hashes es))) (hashes l) ≡ []
none_removed es [] h = refl
none_removed es (x ∷ xs) h =
    ground (arith, includes-hashes x es (h x (inl refl)), none_removed es xs (λ y i. h y (inr i)))

-- Right behind a write, which empties the cache.
abbrev pub uncached : Bucket → Bucket
uncached b = record b { cache = none }

same_facts :
    (now later : ℕ) (b : Bucket) (o : Option (List FactEntry))
    → b.facts ≡ o
    → ((es : List FactEntry) × ((load_facts_json now (uncached b)).0 ≡ es)
        × ((load_facts_json later (save_snapshot now (uncached b))).0 ≡ es))
unfolding save_snapshot load_facts_json
same_facts now later b none e = ([], rw e refl, rw e refl)
same_facts now later b (some es) e = (es, rw e refl, rw e (ground arith))

-- A diff against a snapshot that was taken of the same facts, before or after the cache has gone
-- stale, finds nothing new and nothing removed.
pub diff_facts-save_snapshot :
    (now later : ℕ) (b : Bucket)
    → ((diff_facts later (save_snapshot now (uncached b))).0.new_facts ≡ [])
      × ((diff_facts later (save_snapshot now (uncached b))).0.removed_hashes ≡ [])
unfolding diff_facts save_snapshot
diff_facts-save_snapshot now later b =
    let (es, first, second) = same_facts now later b b.facts refl in
    let same = second ∙ sym first in
    let before = (load_facts_json now (uncached b)).0 in
    let after = (load_facts_json later (save_snapshot now (uncached b))).0 in
    (
      none_new before after (λ x i. subst (λ es. In x es) same i),
      none_removed after before (λ x i. subst (λ es. In x es) (sym same) i),
    )
