-- ===== src/Memory/View.antt =====
-- src/memory/fact-store.ts: `rebuildFacts`, which makes `facts.json` out of the index, the bound on its
-- length as Markdown, and `loadFactsJson`, which reads it.
pub mod Protects
pub mod Bound
use invarail.Prelude.{
  ℕ, ◌+◌, Bool, true, false, ◌&&◌, ◌||◌, not, List, [], ◌∷◌, ◌++◌, Option, none, some, Text, text,
  ◌==◌, ltb, leb, nat_eq, length, keep, any, is_empty, includes, or_else, join_with, sort_by,
  if◌then◌else◌,
}
use invarail.Memory.Similarity.{Provenance, same_words}
use invarail.Memory.Facts.{
  Category, stable, context, decision, question, FactEntry, Bucket, Cached, Env, is_live,
  all_entries,
}

-- Days that a category lasts; `none` never expires.
abbrev pub category_ttl_days : Category → Option ℕ
category_ttl_days stable = none
category_ttl_days context = some 14
category_ttl_days decision = some 30
category_ttl_days question = some 7

abbrev pub same_category : Category → Category → Bool
same_category stable stable = true
same_category context context = true
same_category decision decision = true
same_category question question = true
same_category _ _ = false

abbrev category_label : Category → Text
category_label stable = text "Stable Facts"
category_label context = text "Active Context"
category_label decision = text "Decisions"
category_label question = text "Open Questions"

abbrev category_order : List Category
category_order = stable ∷ context ∷ decision ∷ question ∷ []

abbrev pub max_facts_chars : ℕ
max_facts_chars = 20000

abbrev pub protected_importance : ℕ
protected_importance = 4

abbrev pub cache_ttl_ms : ℕ
cache_ttl_ms = 30000

abbrev pub is_protected : FactEntry → Bool
is_protected e = leb protected_importance e.importance

abbrev pub has_hash : Text → FactEntry → Bool
has_hash h e = e.hash == h

-- `kept.splice(idx, 1)` at the first entry of a hash
abbrev pub splice_hash : Text → List FactEntry → List FactEntry
splice_hash h [] = []
splice_hash h (e ∷ es) = let later = e ∷ splice_hash h es in if has_hash h e then es else later

-- The order of `sort` calls.
abbrev pub newer : FactEntry → FactEntry → Bool
newer a b = ltb b.created_at a.created_at

abbrev pub less_important : FactEntry → FactEntry → Bool
less_important a b =
    ltb a.importance b.importance
    || (nat_eq a.importance b.importance && ltb a.confidence b.confidence)

module _ (env : Env) where
  abbrev bracketed : Text → Text → Text → List Text → Text
  bracketed before after sep [] = []
  bracketed before after sep (t ∷ ts) = before ++ (join_with sep (t ∷ ts) ++ after)

  abbrev expiry : Option ℕ → Text
  expiry none = []
  expiry (some at) = text " (expires: " ++ (env.show_time at ++ text ")")

  abbrev fact_line : FactEntry → Text
  fact_line e =
      text "- "
      ++ (e.text
          ++ (text " (src: "
              ++ (e.source
                  ++ (text ", conf: "
                      ++ (env.show_confidence e.confidence
                          ++ (text ")"
                              ++ (bracketed (text " [") (text "]") (text ", ") e.tags
                                  ++ (bracketed (text " {") (text "}") (text ", ") e.entities
                                      ++ expiry e.expires_at))))))))

  abbrev fact_lines : List FactEntry → List Text
  fact_lines [] = []
  fact_lines (e ∷ es) = fact_line e ∷ fact_lines es

  abbrev section : Category → List FactEntry → List Text
  section cat [] = []
  section cat (e ∷ es) = (text "## " ++ category_label cat) ∷ (fact_lines (e ∷ es) ++ [] ∷ [])

  abbrev sections : List Category → List FactEntry → List Text
  sections [] es = []
  sections (cat ∷ cats) es =
      section cat (keep (λ e. same_category e.category cat) es) ++ sections cats es

  unfoldable pub format_facts_md : List FactEntry → Text
  format_facts_md es = join_with (b'\n' ∷ []) (text "# Facts" ∷ [] ∷ sections category_order es)

  abbrev pub is_short : List FactEntry → Bool
  is_short es = leb (length (format_facts_md es)) max_facts_chars

  -- The protected entries, newest first, that say what a newer one says.
  unfoldable pub redundant : List (List Text) → List FactEntry → List FactEntry
  redundant kept_words [] = []
  redundant kept_words (e ∷ es) =
      let w = env.fact_words e.text in
      let again = e ∷ redundant kept_words es in
      let first = redundant (kept_words ++ w ∷ []) es in
      if any (same_words w) kept_words then again else first

  unfoldable pub evictable : List FactEntry → List FactEntry
  unfolding redundant sort_by
  evictable es =
      redundant [] (sort_by newer (keep is_protected es))
      ++ sort_by less_important (keep (λ e. not (is_protected e)) es)

  -- The `while` loop over the entries that may go.
  unfoldable pub evict : List FactEntry → List FactEntry → List FactEntry
  unfolding format_facts_md
  evict [] kept = kept
  evict (d ∷ ds) kept =
      let next = evict ds (splice_hash d.hash kept) in if is_short kept then kept else next

  unfoldable pub enforce_char_bound : List FactEntry → List FactEntry
  unfolding evict evictable
  enforce_char_bound es = if is_short es then es else evict (evictable es) es

  abbrev pub backfill : FactEntry → Option ℕ → FactEntry
  backfill e none = e
  backfill e (some days) = record e {
    expires_at = some (or_else e.expires_at (env.add_days e.created_at days));
  }

  -- The entries of the index, the first of each hash, that have not expired.
  unfoldable pub gather : ℕ → List Text → List FactEntry → List FactEntry
  unfolding includes
  gather now seen [] = []
  gather now seen (e ∷ es) =
      let later = gather now seen es in
      let rest = gather now (e.hash ∷ seen) es in
      let e' = backfill e (category_ttl_days e.category) in
      if includes e.hash seen then later else if is_live now e' then e' ∷ rest else rest

  unfoldable pub rebuild_facts : ℕ → Bucket → Bucket
  unfolding gather enforce_char_bound
  rebuild_facts now b = if is_empty b.index then b else record b {
    facts = some (enforce_char_bound (gather now [] (all_entries b.index)));
    cache = none;
  }

abbrev pub read_facts : ℕ → Option (List FactEntry) → Bucket → List FactEntry × Bucket
read_facts now none b = ([], b)
read_facts now (some es) b =
    (es, record b { cache = some (record { entries = es; loaded_at = now }) })

unfoldable pub load_facts_json : ℕ → Bucket → List FactEntry × Bucket
load_facts_json now b =
    let fresh = read_facts now b.facts b in
    elim b.cache [
      | none ↦ fresh
      | some c ↦ if ltb now (c.loaded_at + cache_ttl_ms) then (c.entries, b) else fresh
    ]
