-- ===== src/Memory/Write/Keeps.antt =====
-- What a write keeps of the index: the uniqueness of digests and ids, and every entry that outranks it.
use invarail.Prelude.{
  ◌+◌, ◌≤◌, ◌≡◌, refl, sym, ap, ◌∙◌, Bool, true, false, not, List, Option, none, some, Text, ◌==◌,
  eq_refl, eq_sound, keep, count, count-keep_le, only_one, In, In-keep, if_holds, inl, inr, arith,
  Bool-cases,
}
use mathlib.Core.Path.{subst}
use invarail.Memory.Facts.{
  FactEntry, FactInput, fact, IndexFile, Store, Env, all_entries, hash_exists, append_to_index,
  drop_lines,
}
use invarail.Memory.Facts.Index.{
  one_if, all_entries-drop_lines, append_to_index-Inserted, count-Inserted, In-Inserted,
  hash_exists-count,
}
use invarail.Memory.View.{has_hash}
use invarail.Memory.Write.{Stamp, hash_text, new_entry, outranks, write_fact}
use invarail.Memory.Write.Changes.{Dropped, Change, write_fact-Change}

abbrev pub has_id : Text → FactEntry → Bool
has_id t e = e.id == t

abbrev pub UniqueHashes : List IndexFile → Type 0
UniqueHashes fs = (h : Text) → count (has_hash h) (all_entries fs) ≤ 1

abbrev pub UniqueIds : List IndexFile → Type 0
UniqueIds fs = (t : Text) → count (has_id t) (all_entries fs) ≤ 1

-- The new index counts at most the old one and the new entry.
count-write :
    (q : FactEntry → Bool) (input : FactInput) (e : FactEntry) (today : Text)
    (old kept new : List IndexFile)
    → Dropped input old kept
    → new ≡ append_to_index today (fact e) kept
    → count q (all_entries new) ≤ count q (all_entries old) + one_if (q e)
count-write q input e today old kept new (p, spares, d) n = rw n (
    rw d (
      omega (
        arith,
        count-Inserted q e (all_entries (drop_lines p old)) _
            (append_to_index-Inserted today e (drop_lines p old)),
        ap (λ es. count q es) (all_entries-drop_lines p old),
        count-keep_le q (λ x. not (p x)) (all_entries old),
      )))

module _ (env : Env) (stamp : Stamp) (input : FactInput) (who : Option Text) where
  unique_after :
      (old : List IndexFile) (r : Option FactEntry × Store)
      → hash_exists (hash_text env input.text) old ≡ false
      → UniqueHashes old
      → Change env stamp input who old r
      → UniqueHashes (r.1 who).index
  unfolding new_entry
  unique_after old (none, s) absent u c h = rw c (u h)
  unique_after old (some e, s) absent u (kept, d, n, (inherited, made)) h =
      let counted = count-write (has_hash h) input e stamp.today old kept (s who).index d n in
      elim (Bool-cases (has_hash h e)) [
        | inl same ↦
            let is_new : h ≡ hash_text env input.text =
              sym (eq_sound e.hash h same) ∙ ap (λ (x : FactEntry). x.hash) made in
            let none_yet : count (has_hash h) (all_entries old) ≡ 0 =
              hash_exists-count h old (ap (λ t. hash_exists t old) is_new ∙ absent) in
            omega (arith, counted, none_yet, ap one_if same)
        | inr other ↦ omega (arith, counted, u h, ap one_if other)
      ]

  write_fact-refused :
      (s : Store)
      → hash_exists (hash_text env input.text) (s who).index ≡ true
      → write_fact env stamp input who s ≡ (none, s)
  unfolding write_fact
  write_fact-refused s h =
      if_holds (λ (r : Option FactEntry × Store). r ≡ (none, s))
        (hash_exists (hash_text env input.text) (s who).index) (none, s) _ (λ _. refl)
        λ e. absurd (cc)

  -- A write leaves no digest twice in an index that has none twice.
  pub write_fact-UniqueHashes :
      (s : Store)
      → UniqueHashes (s who).index
      → UniqueHashes ((write_fact env stamp input who s).1 who).index
  write_fact-UniqueHashes s u =
      elim (Bool-cases (hash_exists (hash_text env input.text) (s who).index)) [
        | inl there ↦ rw (write_fact-refused s there) u
        | inr absent ↦
            unique_after (s who).index (write_fact env stamp input who s) absent u
              (write_fact-Change env stamp input who s)
      ]

  kept_after :
      (old : List IndexFile) (r : Option FactEntry × Store) (x : FactEntry)
      → UniqueIds old
      → In x (all_entries old)
      → outranks input.provenance x ≡ true
      → Change env stamp input who old r
      → In x (all_entries (r.1 who).index)
  kept_after old (none, s) x u i h c = subst (λ fs. In x (all_entries fs)) (sym c) i
  kept_after old (some e, s) x u i h (kept, (p, spares, d), n, made) =
      let stays = elim (Bool-cases (p x)) as (λ b. In x (keep (λ y. not (p y)) (all_entries old))) [
        | inl taken ↦
            let (m, j, same, beaten) = spares x taken in
            let e : x ≡ m =
              only_one (has_id x.id) x m (all_entries old) (u x.id) i j (eq_refl x.id)
                (rw same (eq_refl x.id)) in
            absurd (cc (ap (outranks input.provenance) e))
        | inr safe ↦ In-keep (λ y. not (p y)) x (all_entries old) i (rw safe)
      ] in
      subst (λ fs. In x (all_entries fs)) (sym n)
        (In-Inserted x e (all_entries kept) _ (append_to_index-Inserted stamp.today e kept) (
          subst (λ fs. In x (all_entries fs)) (sym d)
            (subst (λ es. In x es) (sym (all_entries-drop_lines p old)) stays)))

  -- A write takes out no entry whose provenance outranks that of the new one, where no two entries of
  -- the index share an id.
  pub write_fact-In :
      (s : Store) (x : FactEntry)
      → UniqueIds (s who).index
      → In x (all_entries (s who).index)
      → outranks input.provenance x ≡ true
      → In x (all_entries ((write_fact env stamp input who s).1 who).index)
  write_fact-In s x u i h =
      kept_after (s who).index (write_fact env stamp input who s) x u i h
        (write_fact-Change env stamp input who s)
