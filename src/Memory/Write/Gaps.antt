-- ===== src/Memory/Write/Gaps.antt =====
-- Facts that the gate of `writeFact` keeps out, or lets expire, against what its comments say.
use invarail.Prelude.{
  ℕ, zero, suc, ◌≤◌, ◌≡◌, refl, sym, ap, Bool, true, false, List, [], ◌∷◌, Option, none, some, Text,
  contains, keep, any, In, if_holds, inl, inr, arith,
}
use mathlib.Core.Path.{subst}
use invarail.Memory.Facts.{
  FactEntry, FactInput, Store, Env, normalize_text, is_live, all_entries, load_index_entries,
  hash_exists,
}
use invarail.Memory.View.{category_ttl_days}
use invarail.Memory.Removal.{is_suppressed, clear_removals_matching}
use invarail.Memory.Write.{
  Stamp, is_stated, hash_text, store_fact, overlaps, admit, unless_suppressed, importance_ttl_days,
  new_entry, write_fact,
}
use invarail.Memory.Write.Changes.{cleared-index, suppressed-index}

contains_nothing : (s : Text) → contains [] s ≡ true
unfolding contains
contains_nothing [] = refl
contains_nothing (c ∷ s) = refl

any-In :
    (p : FactEntry → Bool) (x : FactEntry) (xs : List FactEntry)
    → In x xs
    → p x ≡ true
    → any p xs ≡ true
any-In p x [] i h = elim i [ ]
any-In p x (y ∷ ys) (inl e) h = ground arith
any-In p x (y ∷ ys) (inr i) h = ground (arith, any-In p x ys i h)

no_days : (n : ℕ) → 4 ≤ n → importance_ttl_days n ≡ none
no_days zero h = absurd (omega arith)
no_days (suc zero) h = absurd (omega arith)
no_days (suc (suc zero)) h = absurd (omega arith)
no_days (suc (suc (suc zero))) h = absurd (omega arith)
no_days (suc (suc (suc (suc n)))) h = refl

module _ (env : Env) (stamp : Stamp) (input : FactInput) (who : Option Text) where
  admit_nothing :
      (s : Store) (e : FactEntry)
      → In e (load_index_entries stamp.now (s who))
      → normalize_text e.text ≡ []
      → (admit env stamp input who s).0 ≡ none
  unfolding admit
  admit_nothing s e i blank =
      let held : overlaps input.text e.text ≡ true = ground (
        arith,
        ap (λ t. contains t (normalize_text input.text)) blank,
        contains_nothing (normalize_text input.text),
      ) in
      rw (any-In (λ x. overlaps input.text x.text) e (load_index_entries stamp.now (s who)) i held)
        refl

  same_entries :
      (s s' : Store) (e : FactEntry)
      → (s' who).index ≡ (s who).index
      → In e (load_index_entries stamp.now (s who))
      → In e (load_index_entries stamp.now (s' who))
  unfolding load_index_entries
  same_entries s s' e same i =
      subst (λ fs. In e (keep (is_live stamp.now) (all_entries fs))) (sym same) i

  unless_suppressed_nothing :
      (r : Bool × Store) (e : FactEntry)
      → In e (load_index_entries stamp.now (r.1 who))
      → normalize_text e.text ≡ []
      → (unless_suppressed env stamp input who r).0 ≡ none
  unless_suppressed_nothing (true, s) e i blank = refl
  unless_suppressed_nothing (false, s) e i blank = admit_nothing s e i blank

  -- One live entry whose text has no Latin letter, digit or underscore keeps every fact of its sender
  -- out of the index from then on, the owner's own too, unless it is a legacy fact.
  pub write_fact_shut_out :
      (s : Store) (e : FactEntry)
      → stamp.migrating ≡ false
      → In e (load_index_entries stamp.now (s who))
      → normalize_text e.text ≡ []
      → (write_fact env stamp input who s).0 ≡ none
  unfolding write_fact
  write_fact_shut_out s e fresh i blank =
      let None = λ (r : Option FactEntry × Store). r.0 ≡ none in
      let lifted = clear_removals_matching env input.text who s in
      let checked = is_suppressed env stamp.now input.text who s in
      if_holds None (hash_exists (hash_text env input.text) (s who).index) (none, s) _ (λ _. refl)
        λ _.
          if_holds None stamp.migrating (store_fact env stamp input who 0 s) _ (λ e. absurd (cc))
            λ _.
              if_holds None (is_stated input.provenance) (admit env stamp input who lifted) _
                (λ _.
                  admit_nothing lifted e
                    (same_entries s lifted e (cleared-index env input.text who who s) i) blank)
                λ _.
                  unless_suppressed_nothing checked e
                    (same_entries s checked.1 e
                      (suppressed-index env stamp.now input.text who who s) i)
                    blank

  -- A fact of one of the two importances that never expire, which is neither stable nor given a time,
  -- expires as its category does.
  pub new_entry_expires :
      (inherited : ℕ)
      → 4 ≤ input.importance
      → input.expires_at ≡ none
      → (days : ℕ) → category_ttl_days input.category ≡ some days
      → stamp.created_at_override ≡ none
      → (new_entry env stamp input who inherited).expires_at ≡ some (env.add_days stamp.now days)
  unfolding new_entry
  new_entry_expires inherited important open' days ttl created =
      ground (arith, no_days input.importance important)
