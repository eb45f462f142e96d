-- ===== src/Memory/Similarity.antt =====
-- src/memory/fact-similarity.ts. How a text is cut into words goes by Unicode classes, so it is the
-- parameter `fact_words`; it gives a set, a list without repetitions.
use invarail.Prelude.{
  ℕ, ◌+◌, ◌-◌, ◌*◌, Bool, ◌&&◌, ◌||◌, List, ◌∷◌, Option, Text, leb, length, count, any, includes,
  contains, lower, trim,
}

pub data Provenance : Type 0 where
  stated observed inferred : Provenance

abbrev pub provenance_rank : Provenance → ℕ
provenance_rank stated = 3
provenance_rank observed = 2
provenance_rank inferred = 1

abbrev pub same_fact_min_shared : ℕ
same_fact_min_shared = 5

unfoldable pub shared_words : List Text → List Text → ℕ
unfolding includes
shared_words a b = count (λ w. includes w b) a

-- `shared >= SAME_FACT_MIN_SHARED && shared / union >= 0.55`
unfoldable pub same_words : List Text → List Text → Bool
unfolding shared_words
same_words a b =
    let shared = shared_words a b in
    let union = length a + length b - shared in
    leb same_fact_min_shared shared && leb (55 * union) (100 * shared)

-- What the owner removed: what was typed, and the texts that it removed.
pub record Removal : Type 0 where
  pub text : Text
  pub reason : Text
  pub facts : List Text
  pub expires_at : Option ℕ

module _ (fact_words : Text → List Text) where
  unfoldable pub same_fact : Text → Text → Bool
  unfolding same_words
  same_fact a b = same_words (fact_words a) (fact_words b)

  unfoldable pub matches_removal : Text → Removal → Bool
  unfolding same_fact contains trim
  matches_removal t r =
      let q = lower (trim r.text) in
      (leb 3 (length q) && contains q (lower t)) || any (same_fact t) (r.text ∷ r.facts)
