-- ===== src/Memory/Facts/Index.antt =====
-- What an index holds after a line is added or lines are dropped, and how often.
use invarail.Prelude.{
  ℕ, ◌+◌, ◌≡◌, refl, sym, ap, ◌∙◌, Bool, true, false, not, List, [], ◌∷◌, ◌++◌, Text, ◌==◌, keep,
  count, if_holds, any, includes, In, In-append_left, In-append_right, In-append_cases,
  count-append, inl, inr, arith,
}
use mathlib.Core.List.{append_assoc}
use mathlib.Core.Path.{subst}
use invarail.Memory.Facts.{
  FactEntry, Line, fact, malformed, IndexFile, entries_of, all_entries, strings_of, mentions,
  hash_exists, append_to_index, name_before, passes, drop_lines,
}

abbrev pub one_if : Bool → ℕ
one_if true = 1
one_if false = 0

keep-append :
    {A : Type 0} (p : A → Bool) (xs ys : List A) → keep p (xs ++ ys) ≡ keep p xs ++ keep p ys
keep-append p [] ys = refl
keep-append p (x ∷ xs) ys = grind (arith, keep-append p xs ys)

entries_of-keep :
    (p : FactEntry → Bool) (ls : List Line)
    → entries_of (keep (λ l. not (passes p l)) ls) ≡ keep (λ e. not (p e)) (entries_of ls)
entries_of-keep p [] = refl
entries_of-keep p (fact e ∷ ls) = grind (arith, entries_of-keep p ls)
entries_of-keep p (malformed t ∷ ls) = entries_of-keep p ls

pub all_entries-drop_lines :
    (p : FactEntry → Bool) (fs : List IndexFile)
    → all_entries (drop_lines p fs) ≡ keep (λ e. not (p e)) (all_entries fs)
unfolding drop_lines
all_entries-drop_lines p [] = refl
all_entries-drop_lines p (f ∷ fs) = rw (entries_of-keep p f.lines) (
    rw (all_entries-drop_lines p fs)
      (sym (keep-append (λ e. not (p e)) (entries_of f.lines) (all_entries fs))))

entries_of-append :
    (ls : List Line) (e : FactEntry) → entries_of (ls ++ fact e ∷ []) ≡ entries_of ls ++ e ∷ []
entries_of-append [] e = refl
entries_of-append (fact x ∷ ls) e = ap (λ es. x ∷ es) (entries_of-append ls e)
entries_of-append (malformed t ∷ ls) e = entries_of-append ls e

-- The entries with a new one put somewhere among them.
abbrev pub Inserted : FactEntry → List FactEntry → List FactEntry → Type 0
Inserted e old new =
    (before : List FactEntry) × (after : List FactEntry) × (old ≡ before ++ after)
    × (new ≡ before ++ e ∷ after)

Inserted-behind :
    (es : List FactEntry) (e : FactEntry) (old new : List FactEntry)
    → Inserted e old new
    → Inserted e (es ++ old) (es ++ new)
Inserted-behind es e old new (before, after, p, q) = (
  es ++ before,
  after,
  ap (λ xs. es ++ xs) p ∙ sym (append_assoc es before after),
  ap (λ xs. es ++ xs) q ∙ sym (append_assoc es before (e ∷ after)),
)

pub append_to_index-Inserted :
    (date : Text) (e : FactEntry) (fs : List IndexFile)
    → Inserted e (all_entries fs) (all_entries (append_to_index date (fact e) fs))
unfolding append_to_index
append_to_index-Inserted date e [] = ([], [], refl, refl)
append_to_index-Inserted date e (f ∷ fs) =
    let Placed = λ (fs' : List IndexFile). Inserted e (all_entries (f ∷ fs)) (all_entries fs') in
    if_holds Placed (f.date == date) _ _
      (λ _. (
        entries_of f.lines,
        all_entries fs,
        refl,
        ap (λ es. es ++ all_entries fs) (entries_of-append f.lines e)
            ∙ append_assoc (entries_of f.lines) (e ∷ []) (all_entries fs),
      ))
      λ _.
        if_holds Placed (name_before date f.date) _ _ (λ _. ([], _, refl, refl))
          λ _.
            Inserted-behind (entries_of f.lines) e (all_entries fs) _
              (append_to_index-Inserted date e fs)

pub count-Inserted :
    (q : FactEntry → Bool) (e : FactEntry) (old new : List FactEntry)
    → Inserted e old new
    → count q new ≡ count q old + one_if (q e)
count-Inserted q e old new (before, after, p, r) =
    rw p (rw r (ground (arith, count-append q before after, count-append q before (e ∷ after))))

pub In-Inserted :
    (x e : FactEntry) (old new : List FactEntry) → Inserted e old new → In x old → In x new
In-Inserted x e old new (before, after, p, q) h =
    subst (λ es. In x es) (sym q)
      (elim (In-append_cases x before after (subst (λ es. In x es) p h)) [
        | inl i ↦ In-append_left x before (e ∷ after) i
        | inr i ↦ In-append_right x before (e ∷ after) (inr i)
      ])

no_string : (h : Text) (e : FactEntry) → includes h (strings_of e) ≡ false → (e.hash == h) ≡ false
unfolding includes
no_string h e k = ground arith

no_line :
    (h : Text) (ls : List Line)
    → any (mentions h) ls ≡ false
    → count (λ (e : FactEntry). e.hash == h) (entries_of ls) ≡ 0
no_line h [] k = refl
no_line h (fact e ∷ ls) k = ground (arith, no_string h e, no_line h ls)
no_line h (malformed t ∷ ls) k = ground (arith, no_line h ls)

-- A digest that no line mentions is that of no entry.
pub hash_exists-count :
    (h : Text) (fs : List IndexFile)
    → hash_exists h fs ≡ false
    → count (λ (e : FactEntry). e.hash == h) (all_entries fs) ≡ 0
unfolding hash_exists
hash_exists-count h [] k = refl
hash_exists-count h (f ∷ fs) k = ground (
  arith,
  count-append (λ (e : FactEntry). e.hash == h) (entries_of f.lines) (all_entries fs),
  no_line h f.lines,
  hash_exists-count h fs,
)
