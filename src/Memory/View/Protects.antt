-- ===== src/Memory/View/Protects.antt =====
-- The bound on the length of `facts.json` never drops what a protected fact says.
use invarail.Prelude.{
  ◌+◌, ◌≤◌, ◌≡◌, refl, sym, ap, ◌∙◌, Bool, true, false, not, List, [], ◌∷◌, ◌++◌, Text, eq_refl,
  keep, count, count-keep_le, any, sort_by, In, In-keep, keep-In, In-sort_by, sort_by-In,
  In-append_cases, if_holds, ◌⊎◌, inl, inr, arith, Bool-cases, count-sort_by, count_pos, only_one,
  if◌then◌else◌,
}
use mathlib.Core.Path.{subst}
use invarail.Memory.Similarity.{same_words}
use invarail.Memory.Facts.{FactEntry, Env}
use invarail.Memory.View.{
  is_protected, has_hash, splice_hash, newer, less_important, is_short, redundant, evictable, evict,
  enforce_char_bound,
}

-- No digest twice.
abbrev pub Unique : List FactEntry → Type 0
Unique es = (h : Text) → count (has_hash h) es ≤ 1

module _ (env : Env) where
  -- The fact stands in the view, or a protected one does that says the same.
  abbrev pub Stands : FactEntry → List FactEntry → Type 0
  Stands x view =
      (k : FactEntry) × In k view
      × (is_protected k ≡ true)
      × ((k ≡ x) ⊎ (same_words (env.fact_words x.text) (env.fact_words k.text) ≡ true))

  -- The entries that `redundant` passes over.
  firsts : List (List Text) → List FactEntry → List FactEntry
  firsts kept_words [] = []
  firsts kept_words (e ∷ es) =
      let w = env.fact_words e.text in
      let again = firsts kept_words es in
      let first = e ∷ firsts (kept_words ++ w ∷ []) es in
      if any (same_words w) kept_words then again else first

  count-firsts :
      (q : FactEntry → Bool) (kept_words : List (List Text)) (es : List FactEntry)
      → count q (firsts kept_words es) + count q (redundant env kept_words es) ≡ count q es
  unfolding firsts redundant
  count-firsts q kept_words [] = omega arith
  count-firsts q kept_words (e ∷ es) = ground (
    arith,
    count-firsts q kept_words es,
    count-firsts q (kept_words ++ env.fact_words e.text ∷ []) es,
  )

  -- The words of entries that were kept before, or are among the first.
  words_of : List FactEntry → List (List Text)
  words_of [] = []
  words_of (e ∷ es) = env.fact_words e.text ∷ words_of es

  words_of-append :
      (es : List FactEntry) (e : FactEntry)
      → words_of (es ++ e ∷ []) ≡ words_of es ++ env.fact_words e.text ∷ []
  unfolding words_of
  words_of-append [] e = refl
  words_of-append (x ∷ es) e = ap (λ ws. env.fact_words x.text ∷ ws) (words_of-append es e)

  any-words :
      (w : List Text) (es : List FactEntry)
      → any (same_words w) (words_of es) ≡ true
      → (k : FactEntry) × In k es × (same_words w (env.fact_words k.text) ≡ true)
  unfolding words_of
  any-words w [] h = absurd (ground arith)
  any-words w (e ∷ es) h = elim (Bool-cases (same_words w (env.fact_words e.text))) [
    | inl same ↦ (e, inl refl, same)
    | inr other ↦ let (k, i, s) = any-words w es (ground arith) in (k, inr i, s)
  ]

  SaidBy : FactEntry → List FactEntry → List FactEntry → Type 0
  SaidBy x before es =
      (k : FactEntry) × (In k before ⊎ In k es)
      × ((k ≡ x) ⊎ (same_words (env.fact_words x.text) (env.fact_words k.text) ≡ true))

  said_later :
      (before es : List FactEntry) (e x : FactEntry)
      → SaidBy x (before ++ e ∷ []) (firsts (words_of before ++ env.fact_words e.text ∷ []) es)
      → SaidBy x before (e ∷ firsts (words_of before ++ env.fact_words e.text ∷ []) es)
  unfolding SaidBy
  said_later before es e x (k, inr j, same) = (k, inr (inr j), same)
  said_later before es e x (k, inl j, same) = elim (In-append_cases k before (e ∷ []) j) [
    | inl earlier ↦ (k, inl earlier, same)
    | inr last ↦ elim last [ inl here ↦ (k, inr (inl here), same) | inr there ↦ absurd there ]
  ]

  -- Every entry is a first one, or a first one says the same.
  firsts_say :
      (before es : List FactEntry) (x : FactEntry)
      → In x es
      → SaidBy x before (firsts (words_of before) es)
  unfolding SaidBy firsts
  firsts_say before [] x i = elim i [ ]
  firsts_say before (e ∷ es) x i =
      let w = env.fact_words e.text in
      if_holds (SaidBy x before) (any (same_words w) (words_of before))
        (firsts (words_of before) es) (e ∷ firsts (words_of before ++ w ∷ []) es)
        (λ h. elim i [
          | inl here ↦
              let (k, j, same) = any-words w before h in
              (
                k,
                inl j,
                inr (
                    ap
                      (λ (y : FactEntry).
                        same_words (env.fact_words y.text) (env.fact_words k.text))
                      here
                    ∙ same),
              )
          | inr there ↦ firsts_say before es x there
        ])
        λ _. elim i [
          | inl here ↦ (e, inr (inl refl), inl (sym here))
          | inr there ↦ said_later before es e x (
              subst (λ ws. SaidBy x (before ++ e ∷ []) (firsts ws es)) (words_of-append before e)
                (firsts_say (before ++ e ∷ []) es x there))
        ]

  firsts-In :
      (x : FactEntry) (kept_words : List (List Text)) (es : List FactEntry)
      → In x (firsts kept_words es)
      → In x es
  unfolding firsts
  firsts-In x kept_words [] i = elim i [ ]
  firsts-In x kept_words (e ∷ es) i =
      ground (
        arith,
        firsts-In x kept_words es,
        firsts-In x (kept_words ++ env.fact_words e.text ∷ []) es,
      )

  splice_hash-In :
      (h : Text) (x : FactEntry) (es : List FactEntry)
      → has_hash h x ≡ false
      → In x es
      → In x (splice_hash h es)
  splice_hash-In h x [] k i = elim i [ ]
  splice_hash-In h x (e ∷ es) k (inl here) = ground arith
  splice_hash-In h x (e ∷ es) k (inr there) = ground (arith, splice_hash-In h x es k there)

  evict-In :
      (ds kept : List FactEntry) (x : FactEntry)
      → ((d : FactEntry) → In d ds → has_hash d.hash x ≡ false)
      → In x kept
      → In x (evict env ds kept)
  unfolding evict
  evict-In [] kept x apart i = i
  evict-In (d ∷ ds) kept x apart i =
      if_holds (λ view. In x view) (is_short env kept) kept (evict env ds (splice_hash d.hash kept))
        (λ _. i)
        λ _.
          evict-In ds (splice_hash d.hash kept) x (λ d' j. apart d' (inr j))
            (splice_hash-In d.hash x kept (apart d (inl refl)) i)

  -- What may be evicted has another digest than a first protected entry.
  apart_from_first :
      (es : List FactEntry) (k d : FactEntry)
      → Unique es
      → In k (firsts [] (sort_by newer (keep is_protected es)))
      → In d (evictable env es)
      → has_hash d.hash k ≡ false
  unfolding evictable
  apart_from_first es k d u j i =
      let guarded = keep is_protected es in
      let l = sort_by newer guarded in
      let (k_there, k_protected) =
        keep-In is_protected k es (sort_by-In newer k guarded (firsts-In k [] l j)) in
      elim (Bool-cases (has_hash d.hash k)) [
        | inr other ↦ other
        | inl same ↦ elim (In-append_cases d (redundant env [] l) _ i) [
          | inl twice ↦ absurd (
              omega (
                arith,
                count_pos (has_hash d.hash) k (firsts [] l) j same,
                count_pos (has_hash d.hash) d (redundant env [] l) twice (eq_refl d.hash),
                count-firsts (has_hash d.hash) [] l,
                count-sort_by newer (has_hash d.hash) guarded,
                count-keep_le (has_hash d.hash) is_protected es,
                u d.hash,
              ))
          | inr low ↦
              let (d_there, d_low) =
                keep-In (λ e. not (is_protected e)) d es (sort_by-In less_important d _ low) in
              let e : k ≡ d =
                only_one (has_hash d.hash) k d es (u d.hash) k_there d_there same
                  (eq_refl d.hash) in
              absurd (ground (arith, ap is_protected e))
        ]
      ]

  kept_first :
      (es : List FactEntry) (x : FactEntry)
      → Unique es
      → SaidBy x [] (firsts [] (sort_by newer (keep is_protected es)))
      → Stands x (evict env (evictable env es) es)
  unfolding SaidBy
  kept_first es x u (k, inl j, same) = absurd j
  kept_first es x u (k, inr j, same) =
      let guarded = keep is_protected es in
      let (there, p) =
        keep-In is_protected k es
          (sort_by-In newer k guarded (firsts-In k [] (sort_by newer guarded) j)) in
      (k, evict-In (evictable env es) es k (λ d i. apart_from_first es k d u j i) there, p, same)

  -- Of entries none of which share a digest, the bound keeps every protected one, or a protected one
  -- that says the same.
  pub enforce_char_bound-Stands :
      (es : List FactEntry) (x : FactEntry)
      → Unique es
      → In x es
      → is_protected x ≡ true
      → Stands x (enforce_char_bound env es)
  unfolding enforce_char_bound words_of
  enforce_char_bound-Stands es x u i p =
      let guarded = keep is_protected es in
      let l = sort_by newer guarded in
      if_holds (Stands x) (is_short env es) es (evict env (evictable env es) es)
        (λ _. (x, i, p, inl refl))
        λ _.
          kept_first es x u
            (firsts_say [] l x (In-sort_by newer x guarded (In-keep is_protected x es i p)))
