-- ===== src/Memory/View/Bound.antt =====
-- How far the bound on the length of `facts.json` goes, and what a rebuild puts there.
use invarail.Prelude.{
  ℕ, ◌-◌, ◌≤◌, ◌≡◌, refl, sym, ap, ◌∙◌, Bool, true, false, not, List, [], ◌∷◌, Option, none, some,
  Text, ◌==◌, eq_refl, eq_sound, keep, count, count_pos, includes, is_empty, sort_by, In, In-keep,
  keep-In, In-All, All, In-sort_by, In-append_right, if_holds, ◌⊎◌, inl, inr, arith, Bool-cases,
  if◌then◌else◌,
}
use invarail.Memory.Facts.{FactEntry, Bucket, Env, all_entries}
use invarail.Memory.View.{
  category_ttl_days, is_protected, has_hash, splice_hash, newer, less_important, is_short,
  redundant, evictable, evict, enforce_char_bound, backfill, gather, rebuild_facts,
}
use invarail.Memory.View.Protects.{Unique, Stands, enforce_char_bound-Stands}

count-splice_hash_le :
    (q : FactEntry → Bool) (h : Text) (es : List FactEntry)
    → count q (splice_hash h es) ≤ count q es
count-splice_hash_le q h [] = omega arith
count-splice_hash_le q h (e ∷ es) = ground (arith, count-splice_hash_le q h es)

-- One entry of the digest goes.
count-splice_hash :
    (h : Text) (es : List FactEntry)
    → count (has_hash h) (splice_hash h es) ≡ count (has_hash h) es - 1
count-splice_hash h [] = omega arith
count-splice_hash h (e ∷ es) = ground (arith, count-splice_hash h es)

splice_hash-sub :
    (h : Text) (x : FactEntry) (es : List FactEntry) → In x (splice_hash h es) → In x es
splice_hash-sub h x [] i = i
splice_hash-sub h x (e ∷ es) i = ground (arith, splice_hash-sub h x es)

module _ (env : Env) where
  count-evict_le :
      (q : FactEntry → Bool) (ds kept : List FactEntry) → count q (evict env ds kept) ≤ count q kept
  unfolding evict
  count-evict_le q [] kept = omega arith
  count-evict_le q (d ∷ ds) kept =
      if_holds (λ (view : List FactEntry). count q view ≤ count q kept) (is_short env kept) kept
        (evict env ds (splice_hash d.hash kept)) (λ _. omega arith)
        λ _.
          omega (
            arith,
            count-evict_le q ds (splice_hash d.hash kept),
            count-splice_hash_le q d.hash kept,
          )

  evict-sub : (ds kept : List FactEntry) (x : FactEntry) → In x (evict env ds kept) → In x kept
  unfolding evict
  evict-sub [] kept x i = i
  evict-sub (d ∷ ds) kept x i =
      if_holds (λ view. In x view → In x kept) (is_short env kept) kept
        (evict env ds (splice_hash d.hash kept)) (λ _ j. j)
        (λ _ j. splice_hash-sub d.hash x kept (evict-sub ds (splice_hash d.hash kept) x j)) i

  -- What is not protected and still there could be evicted.
  left_over :
      (es : List FactEntry) (y : FactEntry)
      → In y (evict env (evictable env es) es)
      → is_protected y ≡ false
      → In y (evictable env es)
  unfolding evictable
  left_over es y i low =
      let open_to = keep (λ e. not (is_protected e)) es in
      In-append_right y (redundant env [] (sort_by newer (keep is_protected es)))
        (sort_by less_important open_to)
        (In-sort_by less_important y open_to
          (In-keep (λ e. not (is_protected e)) y es (evict-sub _ es y i) (rw low)))

  -- None of the digest is left.
  Gone : List FactEntry → List FactEntry → Type 0
  Gone ds view = (d : FactEntry) → In d ds → count (has_hash d.hash) view ≡ 0

  dropped_as_well :
      (d : FactEntry) (ds left : List FactEntry)
      → count (has_hash d.hash) left ≡ 0
      → (is_short env (evict env ds left) ≡ true) ⊎ Gone ds (evict env ds left)
      → (is_short env (evict env ds left) ≡ true) ⊎ Gone (d ∷ ds) (evict env ds left)
  unfolding Gone
  dropped_as_well d ds left zero' (inl short) = inl short
  dropped_as_well d ds left zero' (inr gone) = inr λ d' i. elim i [
    | inl here ↦
        ap (λ (y : FactEntry). count (has_hash y.hash) (evict env ds left)) here
        ∙ omega (arith, count-evict_le (has_hash d.hash) ds left, zero')
    | inr there ↦ gone d' there
  ]

  evict-Gone :
      (ds kept : List FactEntry)
      → Unique kept
      → (is_short env (evict env ds kept) ≡ true) ⊎ Gone ds (evict env ds kept)
  unfolding evict Gone
  evict-Gone [] kept u = inr λ d i. absurd i
  evict-Gone (d ∷ ds) kept u =
      let left = splice_hash d.hash kept in
      if_holds (λ view. (is_short env view ≡ true) ⊎ Gone (d ∷ ds) view) (is_short env kept) kept
        (evict env ds left) (λ short. inl short)
        λ _. dropped_as_well d ds left (omega (arith, count-splice_hash d.hash kept, u d.hash)) (
          evict-Gone ds left λ h. omega (arith, u h, count-splice_hash_le (has_hash h) d.hash kept))

  pub enforce_char_bound-Unique :
      (es : List FactEntry) → Unique es → Unique (enforce_char_bound env es)
  unfolding enforce_char_bound
  enforce_char_bound-Unique es u =
      if_holds Unique (is_short env es) es (evict env (evictable env es) es) (λ _. u)
        λ _ h. omega (arith, count-evict_le (has_hash h) (evictable env es) es, u h)

  -- Within the bound, or nothing but protected entries is left.
  enforce_char_bound-Short :
      (es : List FactEntry)
      → Unique es
      → (is_short env (enforce_char_bound env es) ≡ true)
        ⊎ ((y : FactEntry) → In y (enforce_char_bound env es) → is_protected y ≡ true)
  unfolding enforce_char_bound evictable Gone
  enforce_char_bound-Short es u =
      let view = evict env (evictable env es) es in
      if_holds
        (λ (v : List FactEntry).
          (is_short env v ≡ true) ⊎ ((y : FactEntry) → In y v → is_protected y ≡ true))
        (is_short env es) es view (λ short. inl short)
        λ _. elim (evict-Gone (evictable env es) es u) [
          | inl short ↦ inl short
          | inr gone ↦ inr λ y i. elim (Bool-cases (is_protected y)) [
            | inl p ↦ p
            | inr low ↦ absurd (
                omega (
                  arith,
                  gone y (left_over es y i low),
                  count_pos (has_hash y.hash) y view i (eq_refl y.hash),
                ))
          ]
        ]

  backfill-hash : (e : FactEntry) (days : Option ℕ) → (backfill env e days).hash ≡ e.hash
  backfill-hash e none = refl
  backfill-hash e (some n) = refl

  seen_same : (t h : Text) (seen : List Text) → (t == h) ≡ true → includes h seen ≡ includes t seen
  seen_same t h seen e = ap (λ u. includes u seen) (sym (eq_sound t h e))

  gather-Unique :
      (now : ℕ) (h : Text) (seen : List Text) (es : List FactEntry)
      → count (has_hash h) (gather env now seen es) ≤ (if includes h seen then 0 else 1)
  unfolding gather includes
  gather-Unique now h seen [] = ground arith
  gather-Unique now h seen (e ∷ es) =
      let later = gather-Unique now h seen es in
      let rest = gather-Unique now h (e.hash ∷ seen) es in
      let same = backfill-hash e (category_ttl_days e.category) in
      ground (arith, later, rest, ap (λ t. t == h) same, seen_same e.hash h seen)

  -- What a rebuild makes of an index.
  abbrev pub Rebuilt : ℕ → Bucket → Type 0
  Rebuilt now b =
      (view : List FactEntry) × ((rebuild_facts env now b).facts ≡ some view)
      × Unique view
      × ((is_short env view ≡ true) ⊎ All (λ y. is_protected y ≡ true) view)
      × All (λ x. Stands env x view) (keep is_protected (gather env now [] (all_entries b.index)))

  -- A rebuild of an index that is not empty writes a view without a digest twice. The view is short
  -- enough, or nothing but protected entries is left in it; and every protected entry that the rebuild
  -- gathers is in it, or a protected one that says the same.
  pub rebuild_facts-Rebuilt : (now : ℕ) (b : Bucket) → is_empty b.index ≡ false → Rebuilt now b
  unfolding rebuild_facts includes
  rebuild_facts-Rebuilt now b there =
      let es = gather env now [] (all_entries b.index) in
      let unique : Unique es = λ h. gather-Unique now h [] (all_entries b.index) in
      let view = enforce_char_bound env es in
      (
        view,
        rw there refl,
        enforce_char_bound-Unique es unique,
        elim (enforce_char_bound-Short es unique) [
          | inl short ↦ inl short
          | inr full ↦ inr (In-All (λ (y : FactEntry). is_protected y ≡ true) view full)
        ],
        In-All (λ (x : FactEntry). Stands env x view) (keep is_protected es)
            λ x i.
              let (gathered, protect) = keep-In is_protected x es i in
              enforce_char_bound-Stands env es x unique gathered protect,
      )
