-- ===== src/Memory/Write/Forgotten.antt =====
-- What the owner forgot stays forgotten, whatever is extracted afterwards.
use invarail.Prelude.{
  ℕ, ◌≡◌, refl, sym, ap, ◌∙◌, Bool, true, false, ◌&&◌, ◌||◌, List, [], ◌∷◌, ◌++◌, map, Option, none,
  some, Text, ◌==◌, keep, any, take, All, if_holds, inl, inr, arith, Bool-cases,
}
use mathlib.Core.Option.{some-injective}
use invarail.Memory.Similarity.{Removal, matches_removal}
use invarail.Memory.Facts.{FactEntry, FactInput, Bucket, Store, put, Env, hash_exists}
use invarail.Memory.Removal.{
  user_denied, record_removal, holds_still, known, load_recently_removed, refresh, is_suppressed,
}
use invarail.Memory.Write.{
  Stamp, is_stated, hash_text, new_entry, store_fact, unless_suppressed, write_fact,
  write_facts_batch, collect,
}
use invarail.Memory.Write.Changes.{Change, put_self, put_field, write_fact-Change}
use invarail.Memory.Write.Remembers.{admit-Same}

abbrev is_permanent : Removal → Bool
is_permanent r = elim r.expires_at [ none ↦ true | some at ↦ false ]

-- A removal that never expires and matches the text.
abbrev bars : Env → Text → Removal → Bool
bars env t r = is_permanent r && matches_removal env.fact_words t r

abbrev barred_in : Env → Text → Bucket → Bool
barred_in env t b = any (bars env t) (known b.removed)

-- The sender's removals bar the text, or the shared ones.
abbrev pub forgotten : Env → Option Text → Store → Text → Bool
forgotten env who s t = barred_in env t (s who) || barred_in env t (s none)

-- Extracted, not stated by the owner, and no legacy fact.
abbrev pub IsExtracted : Stamp × FactInput → Type 0
IsExtracted (stamp, input) = (is_stated input.provenance ≡ false) × (stamp.migrating ≡ false)

known-map : (rs : List Removal) → known (map some rs) ≡ rs
known-map [] = refl
known-map (r ∷ rs) = ap (λ xs. r ∷ xs) (known-map rs)

permanent_holds : (now : ℕ) (r : Removal) → is_permanent r ≡ true → holds_still now r ≡ true
permanent_holds now r h = ground arith

any_kept :
    (env : Env) (now : ℕ) (t : Text) (rs : List Removal)
    → any (bars env t) (keep (holds_still now) rs) ≡ any (bars env t) rs
any_kept env now t [] = refl
any_kept env now t (r ∷ rs) = ground (arith, permanent_holds now r, any_kept env now t rs)

module _ (env : Env) (now : ℕ) where
  refreshed :
      (t : Text) (k who : Option Text) (s : Store)
      → barred_in env t ((refresh now k s).1 who) ≡ barred_in env t (s who)
  unfolding load_recently_removed
  refreshed t k who s = put_field (barred_in env t) k who _ s (
      ap (any (bars env t)) (known-map (keep (holds_still now) (known (s k).removed)))
      ∙ any_kept env now t (known (s k).removed))

  still_barred :
      (t u : Text) (k who : Option Text) (s : Store)
      → barred_in env t ((is_suppressed env now u k s).1 who) ≡ barred_in env t (s who)
  unfolding is_suppressed
  still_barred t u none who s = refreshed t none who s
  still_barred t u (some k) who s =
      refreshed t none who (refresh now (some k) s).1 ∙ refreshed t (some k) who s

any_matches :
    (env : Env) (t : Text) (rs : List Removal)
    → any (bars env t) rs ≡ true
    → any (matches_removal env.fact_words t) rs ≡ true
any_matches env t [] h = h
any_matches env t (r ∷ rs) h = ground (arith, any_matches env t rs)

any-append :
    {A : Type 0} (p : A → Bool) (xs ys : List A) → any p (xs ++ ys) ≡ (any p xs || any p ys)
any-append p [] ys = refl
any-append p (x ∷ xs) ys = ground (arith, any-append p xs ys)

or_true :
    (a b c d : Bool)
    → (a ≡ true → c ≡ true)
    → (b ≡ true → d ≡ true)
    → (a || b) ≡ true
    → (c || d) ≡ true
or_true true b true d h k e = refl
or_true true b false d h k e = absurd (cc (h refl))
or_true false b true d h k e = refl
or_true false b false d h k e = k e

module _ (env : Env) (now : ℕ) (t : Text) where
  still_matches :
      (rs : List Removal)
      → any (bars env t) rs ≡ true
      → any (matches_removal env.fact_words t) (keep (holds_still now) rs) ≡ true
  still_matches rs h = any_matches env t (keep (holds_still now) rs) (any_kept env now t rs ∙ h)

  -- A text that a permanent removal bars is suppressed.
  suppressed :
      (who : Option Text) (s : Store)
      → forgotten env who s t ≡ true
      → (is_suppressed env now t who s).0 ≡ true
  unfolding is_suppressed load_recently_removed
  suppressed none s h = still_matches (known (s none).removed) (ground arith)
  suppressed (some who) s h =
      let own = keep (holds_still now) (known (s (some who)).removed) in
      let s1 = (refresh now (some who) s).1 in
      let shared = keep (holds_still now) (known (s1 none).removed) in
      any-append (matches_removal env.fact_words t) own shared
      ∙ or_true (barred_in env t (s (some who))) (barred_in env t (s none)) _ _
          (still_matches (known (s (some who)).removed))
          (λ b. still_matches (known (s1 none).removed) (refreshed env now t (some who) none s ∙ b))
          h

module _ (env : Env) (stamp : Stamp) (input : FactInput) (who : Option Text)
    (extracted : IsExtracted (stamp, input)) where
  -- A forgotten text is refused.
  write_fact-forgotten :
      (s : Store)
      → forgotten env who s input.text ≡ true
      → (write_fact env stamp input who s).0 ≡ none
  unfolding write_fact
  write_fact-forgotten s h =
      let None = λ (r : Option FactEntry × Store). r.0 ≡ none in
      let checked = is_suppressed env stamp.now input.text who s in
      if_holds None (hash_exists (hash_text env input.text) (s who).index) (none, s) _ (λ _. refl)
        λ _.
          if_holds None stamp.migrating (store_fact env stamp input who 0 s) _
            (λ e. absurd (cc (extracted.1)))
            λ _.
              if_holds None (is_stated input.provenance) _ _ (λ e. absurd (cc (extracted.0)))
                λ _. rw (suppressed env stamp.now input.text who s h) refl

  unless_suppressed-removed :
      (k : Option Text) (r : Bool × Store)
      → ((unless_suppressed env stamp input who r).1 k).removed ≡ (r.1 k).removed
  unless_suppressed-removed k (true, s) = refl
  unless_suppressed-removed k (false, s) = admit-Same env stamp input who k s

  -- A write lifts nothing.
  write_fact-barred :
      (t : Text) (k : Option Text) (s : Store)
      → barred_in env t ((write_fact env stamp input who s).1 k) ≡ barred_in env t (s k)
  unfolding write_fact
  write_fact-barred t k s =
      let Kept =
        λ (r : Option FactEntry × Store). barred_in env t (r.1 k) ≡ barred_in env t (s k) in
      let checked = is_suppressed env stamp.now input.text who s in
      if_holds Kept (hash_exists (hash_text env input.text) (s who).index) (none, s) _ (λ _. refl)
        λ _.
          if_holds Kept stamp.migrating (store_fact env stamp input who 0 s) _
            (λ e. absurd (cc (extracted.1)))
            λ _.
              if_holds Kept (is_stated input.provenance) _ _ (λ e. absurd (cc (extracted.0)))
                λ _.
                  ap (λ rs. any (bars env t) (known rs)) (unless_suppressed-removed k checked)
                  ∙ still_barred env stamp.now t input.text who k s

  write_fact-remembers :
      (t : Text) (s : Store)
      → forgotten env who (write_fact env stamp input who s).1 t ≡ forgotten env who s t
  write_fact-remembers t s = rw (write_fact-barred t who s) (rw (write_fact-barred t none s) refl)

  -- What is returned was not forgotten.
  returned_text :
      (s s' : Store) (r : Option FactEntry × Store) (e : FactEntry)
      → (forgotten env who s input.text ≡ true → r.0 ≡ none)
      → Change env stamp input who (s who).index r
      → r.0 ≡ some e
      → forgotten env who s e.text ≡ false
  unfolding new_entry
  returned_text s s' (none, s1) e refused c h = absurd (cc)
  returned_text s s' (some x, s1) e refused (kept, d, n, (inherited, made)) h =
      let same : e.text ≡ input.text =
        ap (λ (y : FactEntry). y.text) (sym (some-injective x e h) ∙ made) in
      elim (Bool-cases (forgotten env who s input.text)) [
        | inl gone ↦ absurd (cc (refused gone))
        | inr free ↦ ap (forgotten env who s) same ∙ free
      ]

All-map :
    {A : Type 0} (P Q : A → Type 0) (xs : List A) → ((x : A) → P x → Q x) → All P xs → All Q xs
All-map P Q [] f h = tt
All-map P Q (x ∷ xs) f (p, h) = (f x p, All-map P Q xs f h)

collect-All :
    (env : Env) (P : FactEntry → Type 0) (o : Option FactEntry) (es : List FactEntry)
    → ((e : FactEntry) → o ≡ some e → P e)
    → All P es
    → All P (collect env o es)
collect-All env P none es f h = h
collect-All env P (some e) es f h = (f e refl, h)

batch-forgotten :
    (env : Env) (batch : List (Stamp × FactInput)) (who : Option Text) (s : Store)
    → All IsExtracted batch
    → All (λ e. forgotten env who s e.text ≡ false) (write_facts_batch env batch who s).0
unfolding write_facts_batch
batch-forgotten env [] who s h = tt
batch-forgotten env ((stamp, input) ∷ rest) who s (x, h) =
    let r = write_fact env stamp input who s in
    collect-All env (λ e. forgotten env who s e.text ≡ false) r.0 _
      (λ e k.
        returned_text env stamp input who x s s r e (write_fact-forgotten env stamp input who x s)
          (write_fact-Change env stamp input who s) k)
      (All-map (λ e. forgotten env who r.1 e.text ≡ false) (λ e. forgotten env who s e.text ≡ false)
        _ (λ e k. sym (write_fact-remembers env stamp input who x e.text s) ∙ k)
        (batch-forgotten env rest who r.1 h))

-- What a forget of the owner writes down.
abbrev pub forget_of : Text → List Text → Removal
forget_of query facts = record {
  text = query;
  reason = user_denied;
  facts = take 20 facts;
  expires_at = none;
}

known-append :
    (rs : List (Option Removal)) (r : Removal) → known (rs ++ some r ∷ []) ≡ known rs ++ r ∷ []
known-append [] r = refl
known-append (none ∷ rs) r = known-append rs r
known-append (some x ∷ rs) r = ap (λ xs. x ∷ xs) (known-append rs r)

recorded :
    (env : Env) (now : ℕ) (query t : Text) (facts : List Text) (b : Bucket)
    → barred_in env t (record_removal now query user_denied facts b)
      ≡ (barred_in env t b || matches_removal env.fact_words t (forget_of query facts))
unfolding record_removal ◌==◌
recorded env now query t facts b =
    let r = forget_of query facts in
    ap (any (bars env t)) (known-append b.removed r)
    ∙ ground (arith, any-append (bars env t) (known b.removed) (r ∷ []))

-- After the owner forgets a fact, no batch of extractions stores a text that the forget matches: not
-- one that holds the query, nor a rewording of what it removed, whenever the batch comes.
pub write_facts_batch-forget :
    (env : Env) (now : ℕ) (query : Text) (facts : List Text) (batch : List (Stamp × FactInput))
    (who : Option Text) (s : Store)
    → All IsExtracted batch
    → All
        (λ e. matches_removal env.fact_words e.text (forget_of query facts) ≡ false)
        (write_facts_batch env batch who
          (put who (record_removal now query user_denied facts (s who)) s)).0
write_facts_batch-forget env now query facts batch who s h =
    let told = put who (record_removal now query user_denied facts (s who)) s in
    All-map (λ e. forgotten env who told e.text ≡ false) _ _
      (λ e k. ground (
        arith,
        ap (barred_in env e.text)
            (put_self who (record_removal now query user_denied facts (s who)) s),
        recorded env now query e.text facts (s who),
      ))
      (batch-forgotten env batch who told h)
