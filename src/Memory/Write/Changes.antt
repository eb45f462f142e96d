-- ===== src/Memory/Write/Changes.antt =====
-- What a write can do to an index: nothing, or one new entry, in place of entries that it may replace.
use invarail.Prelude.{
  ℕ, ◌≡◌, refl, sym, ap, ◌∙◌, Bool, true, false, not, List, [], ◌∷◌, map, Option, none, some, Text,
  ◌==◌, eq_refl, eq_sound, keep, any, includes, is_empty, In, keep-In, if_holds, inl, inr, arith,
  Attempt, ok, err, Bool-cases, if◌then◌else◌,
}
use mathlib.Core.Path.{subst}
use invarail.Memory.Similarity.{same_fact}
use invarail.Memory.Facts.{
  FactEntry, FactInput, Line, fact, malformed, passes, IndexFile, Bucket, Store, put, same_sender,
  Env, all_entries, load_index_entries, hash_exists, append_to_index, drop_lines,
}
use invarail.Memory.Removal.{
  remove_where, remove_by_ids, is_suppressed, load_recently_removed, clear_removals_matching,
  clear_in, refresh,
}
use invarail.Memory.Write.{
  Stamp, is_stated, hash_text, new_entry, store_fact, paraphrased, unless_close, ids, outranks,
  replace_facts, admit, unless_suppressed, write_fact, max_importance, overlaps,
}

-- An entry that a write may take out: it has the id of an entry that the new one may replace.
abbrev pub Replaceable : FactInput → List FactEntry → FactEntry → Type 0
Replaceable input old x =
    (m : FactEntry) × In m old × (m.id ≡ x.id) × (outranks input.provenance m ≡ false)

-- Nothing else is dropped.
abbrev pub Dropped : FactInput → List IndexFile → List IndexFile → Type 0
Dropped input old new =
    (p : FactEntry → Bool) × ((x : FactEntry) → p x ≡ true → Replaceable input (all_entries old) x)
    × (new ≡ drop_lines p old)

-- A write that returns nothing leaves the index; one that returns an entry has put it there, in place
-- of entries that it may replace.
abbrev pub Change :
    Env → Stamp → FactInput → Option Text → List IndexFile → Option FactEntry × Store → Type 0
Change env stamp input who old (none, s) = (s who).index ≡ old
Change env stamp input who old (some e, s) =
    (kept : List IndexFile) × Dropped input old kept
    × ((s who).index ≡ append_to_index stamp.today (fact e) kept)
    × ((inherited : ℕ) × (e ≡ new_entry env stamp input who inherited))

same_sender_refl : (who : Option Text) → same_sender who who ≡ true
same_sender_refl none = refl
same_sender_refl (some a) = eq_refl a

same_sender_eq : (a b : Option Text) → same_sender a b ≡ true → a ≡ b
same_sender_eq none none h = refl
same_sender_eq none (some b) h = absurd (ground arith)
same_sender_eq (some a) none h = absurd (ground arith)
same_sender_eq (some a) (some b) h = ap some (eq_sound a b h)

pub put_self : (who : Option Text) (b : Bucket) (s : Store) → put who b s who ≡ b
put_self who b s = rw (same_sender_refl who)

-- A bucket that is written keeps what every new bucket of its sender has.
pub put_field :
    {A : Type 0} (f : Bucket → A) (k who : Option Text) (b : Bucket) (s : Store)
    → f b ≡ f (s k)
    → f (put k b s who) ≡ f (s who)
put_field f k who b s h =
    if_holds (λ c. f c ≡ f (s who)) (same_sender who k) b (s who)
      (λ e. h ∙ ap (λ j. f (s j)) (sym (same_sender_eq who k e))) λ _. refl

keep_all : {A : Type 0} (p : A → Bool) (xs : List A) → ((x : A) → p x ≡ true) → keep p xs ≡ xs
keep_all p [] h = refl
keep_all p (x ∷ xs) h = grind (arith, h x, keep_all p xs h)

passes_none : (l : Line) → not (passes (λ x. false) l) ≡ true
passes_none (fact e) = refl
passes_none (malformed t) = refl

drop_lines_none : (fs : List IndexFile) → drop_lines (λ x. false) fs ≡ fs
unfolding drop_lines
drop_lines_none [] = refl
drop_lines_none (f ∷ fs) =
    let same : keep (λ l. not (passes (λ x. false) l)) f.lines ≡ f.lines =
      keep_all _ f.lines passes_none in
    λ i. record f { lines = same i } ∷ drop_lines_none fs i

Dropped-nothing : (input : FactInput) (old : List IndexFile) → Dropped input old old
Dropped-nothing input old =
    ((λ x. false), (λ x h. absurd (ground arith)), sym (drop_lines_none old))

includes-ids :
    (t : Text) (ms : List FactEntry)
    → includes t (map (λ (e : FactEntry). e.id) ms) ≡ true
    → (m : FactEntry) × In m ms × (m.id ≡ t)
unfolding includes
includes-ids t [] h = absurd (ground arith)
includes-ids t (m ∷ ms) h = elim (Bool-cases (m.id == t)) [
  | inl e ↦ (m, inl refl, eq_sound m.id t e)
  | inr e ↦ let (x, i, k) = includes-ids t ms (ground arith) in (x, inr i, k)
]

any-In :
    (p : FactEntry → Bool) (m : FactEntry) (ms : List FactEntry)
    → any p ms ≡ false
    → In m ms
    → p m ≡ false
any-In p m [] h i = elim i [ ]
any-In p m (x ∷ xs) h (inl e) = ground arith
any-In p m (x ∷ xs) h (inr i) = ground (arith, any-In p m xs)

-- The files of removals are other files.
pub cleared-index :
    (env : Env) (t : Text) (k who : Option Text) (s : Store)
    → (clear_removals_matching env t k s who).index ≡ (s who).index
unfolding clear_removals_matching
cleared-index env t none who s = put_field (λ (b : Bucket). b.index) none who _ s refl
cleared-index env t (some k) who s =
    put_field (λ (b : Bucket). b.index) none who _ (clear_in env t (some k) s) refl
    ∙ put_field (λ (b : Bucket). b.index) (some k) who _ s refl

pub suppressed-index :
    (env : Env) (now : ℕ) (t : Text) (k who : Option Text) (s : Store)
    → ((is_suppressed env now t k s).1 who).index ≡ (s who).index
unfolding is_suppressed load_recently_removed
suppressed-index env now t none who s = put_field (λ (b : Bucket). b.index) none who _ s refl
suppressed-index env now t (some k) who s =
    put_field (λ (b : Bucket). b.index) none who _ (refresh now (some k) s).1 refl
    ∙ put_field (λ (b : Bucket). b.index) (some k) who _ s refl

module _ (env : Env) (stamp : Stamp) (input : FactInput) (who : Option Text) where
  store_fact-Change :
      (inherited : ℕ) (old : List IndexFile) (s : Store)
      → Dropped input old (s who).index
      → Change env stamp input who old (store_fact env stamp input who inherited s)
  unfolding store_fact
  store_fact-Change inherited old s d =
      ((s who).index, d, ap (λ (b : Bucket). b.index) (put_self who _ s), (inherited, refl))

  -- The matches are among the entries of the index, and none outranks the new one.
  remove_by_ids-Dropped :
      (ms : List FactEntry) (b : Bucket)
      → ((m : FactEntry) → In m ms → In m (all_entries b.index))
      → any (outranks input.provenance) ms ≡ false
      → Dropped input b.index (remove_by_ids env stamp.now (ids ms) false b).index
  unfolding remove_by_ids remove_where
  remove_by_ids-Dropped ms b among beaten =
      if_holds (λ (c : Bucket). Dropped input b.index c.index) (is_empty (ids ms)) _ _
        (λ _. Dropped-nothing input b.index)
        λ _.
          if_holds (λ (r : List FactEntry × Bucket). Dropped input b.index r.1.index)
            (is_empty (keep (λ (e : FactEntry). includes e.id (ids ms)) (all_entries b.index))) _ _
            (λ _. Dropped-nothing input b.index)
            λ _. (
              (λ (e : FactEntry). includes e.id (ids ms)),
              (λ x h.
                  let (m, i, e) = includes-ids x.id ms h in
                  (m, among m i, e, any-In _ m ms beaten i)),
              refl,
            )

  replace_facts-Change :
      (ms : List FactEntry) (s : Store)
      → ((m : FactEntry) → In m ms → In m (all_entries (s who).index))
      → Change env stamp input who (s who).index (replace_facts env stamp input who ms s)
  unfolding replace_facts
  replace_facts-Change ms s among =
      if_holds (Change env stamp input who (s who).index) (any (outranks input.provenance) ms) _ _
        (λ _. refl)
        λ e.
          let left = remove_by_ids env stamp.now (ids ms) false (s who) in
          store_fact-Change (max_importance ms) (s who).index (put who left s) (
            subst (λ (b : Bucket). Dropped input (s who).index b.index) (sym (put_self who left s))
              (remove_by_ids-Dropped ms (s who) among e))

  unless_close-Change :
      (a : Attempt Bool) (old : List IndexFile) (written : Option FactEntry × Store) (s : Store)
      → Change env stamp input who old written
      → (s who).index ≡ old
      → Change env stamp input who old (unless_close env a written s)
  unless_close-Change (ok true) old written s h k = k
  unless_close-Change (ok false) old written s h k = h
  unless_close-Change (err e) old written s h k = h

  admit-Change :
      (s : Store) → Change env stamp input who (s who).index (admit env stamp input who s)
  unfolding admit load_index_entries
  admit-Change s =
      let old = (s who).index in
      let existing = load_index_entries stamp.now (s who) in
      let matches = keep (λ (e : FactEntry). same_fact env.fact_words input.text e.text) existing in
      let written = store_fact env stamp input who 0 s in
      let close = unless_close env (paraphrased env input.text existing) written s in
      let replaced = replace_facts env stamp input who matches s in
      let Changed = Change env stamp input who old in
      if_holds Changed (any (λ e. overlaps input.text e.text) existing) (none, s)
        (if not (is_empty matches) then replaced else close) (λ _. refl)
        λ _.
          if_holds Changed (not (is_empty matches)) replaced close
            (λ _.
              replace_facts-Change matches s
                λ m i. (keep-In _ m (all_entries old) (keep-In _ m existing i).0).0)
            λ _.
              unless_close-Change (paraphrased env input.text existing) old written s
                (store_fact-Change 0 old s (Dropped-nothing input old)) refl

  unless_suppressed-Change :
      (r : Bool × Store) (old : List IndexFile)
      → (r.1 who).index ≡ old
      → Change env stamp input who old (unless_suppressed env stamp input who r)
  unless_suppressed-Change (true, s) old e = e
  unless_suppressed-Change (false, s) old e =
      subst (λ i. Change env stamp input who i (admit env stamp input who s)) e (admit-Change s)

  pub write_fact-Change :
      (s : Store) → Change env stamp input who (s who).index (write_fact env stamp input who s)
  unfolding write_fact
  write_fact-Change s =
      let old = (s who).index in
      let Changed = Change env stamp input who old in
      let lifted = clear_removals_matching env input.text who s in
      let checked = is_suppressed env stamp.now input.text who s in
      let again = unless_suppressed env stamp input who checked in
      if_holds Changed (hash_exists (hash_text env input.text) old) (none, s) _ (λ _. refl)
        λ _.
          if_holds Changed stamp.migrating (store_fact env stamp input who 0 s) _
            (λ _. store_fact-Change 0 old s (Dropped-nothing input old))
            λ _.
              if_holds Changed (is_stated input.provenance) (admit env stamp input who lifted) again
                (λ _.
                  subst (λ i. Change env stamp input who i (admit env stamp input who lifted))
                    (cleared-index env input.text who who s) (admit-Change lifted))
                λ _.
                  unless_suppressed-Change checked old
                    (suppressed-index env stamp.now input.text who who s)
