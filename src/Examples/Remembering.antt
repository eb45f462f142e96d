-- ===== src/Examples/Remembering.antt =====
-- A small memory: a few facts, a forget, and what a later extraction may still store.
use invarail.Prelude.{
  ℕ, ◌+◌, ◌≡◌, refl, inl, true, false, List, [], ◌∷◌, none, some, Text, text, In, All, contains,
  lower, take, trim, arith,
}
use invarail.Memory.Similarity.{stated, inferred, matches_removal}
use invarail.Memory.Facts.{
  Category, stable, context, FactEntry, FactInput, fact, Bucket, Store, put, Env, normalize_text,
  all_entries, load_index_entries,
}
use invarail.Memory.View.{load_facts_json}
use invarail.Memory.View.Bound.{Rebuilt, rebuild_facts-Rebuilt}
use invarail.Memory.Removal.{user_denied, record_removal}
use invarail.Memory.Write.{Stamp, write_fact, write_facts_batch}
use invarail.Memory.Write.Forgotten.{forget_of, write_facts_batch-forget}
use invarail.Memory.Write.Keeps.{UniqueIds, UniqueHashes, write_fact-In, write_fact-UniqueHashes}
use invarail.Memory.Write.Gaps.{write_fact_shut_out}
use invarail.Memory.Review.{expire_stale_date_facts}
use invarail.Memory.Review.Laws.{expire_stale_date_facts_collateral}

abbrev env : Env
env = record {
  fact_words = λ t. t ∷ [];
  digest = λ t. t;
  add_days = λ at days. at + days;
  is_paraphrase = none;
  show_confidence = λ n. [];
  show_time = λ n. [];
}

abbrev entry : Text → Text → Category → ℕ → FactEntry
entry id t category importance = record {
  id = id;
  text = t;
  category = category;
  confidence = 90;
  source = text "chat";
  provenance = stated;
  created_at = 0;
  expires_at = none;
  hash = t;
  sender_id = none;
  tags = [];
  entities = [];
  last_reviewed_at = none;
  importance = importance;
}

abbrev input : Text → FactInput
input t = record {
  text = t;
  category = context;
  confidence = 80;
  source = none;
  provenance = inferred;
  expires_at = none;
  tags = [];
  entities = [];
  importance = 2;
}

abbrev stamp : Text → Stamp
stamp id = record {
  now = 7;
  today = text "2026-01-02";
  id = id;
  raw_file = text "raw";
  source_override = none;
  created_at_override = none;
  migrating = false;
}

abbrev bucket_of : FactEntry → Bucket
bucket_of e = record {
  index = (record { date = text "2026-01-01"; lines = fact e ∷ [] }) ∷ [];
  removed = [];
  facts = some (e ∷ []);
  snapshot = none;
  cache = none;
}

abbrev job : FactEntry
job = entry (text "f1") (text "Alice works at Acme") stable 5

abbrev with_job : Store
with_job who = bucket_of job

abbrev batch : List (Stamp × FactInput)
batch =
    (stamp (text "f2"), input (text "Alice drinks green tea"))
    ∷ (stamp (text "f3"), input (text "Bob plays chess"))
    ∷ []

write_facts_batch-forget_example :
    All
      (λ e. matches_removal env.fact_words e.text (forget_of (text "green tea") []) ≡ false)
      (write_facts_batch env batch none
        (put none (record_removal 5 (text "green tea") user_denied [] (with_job none)) with_job)).0
write_facts_batch-forget_example =
    write_facts_batch-forget env 5 (text "green tea") [] batch none with_job
      ((refl, refl), ((refl, refl), tt))

one_id : UniqueIds (with_job none).index
one_id t = ground arith

write_fact-In_example : In job (
    all_entries
      ((write_fact env (stamp (text "f4")) (input (text "Alice works at Acme now")) none with_job).1
        none).index)
write_fact-In_example =
    write_fact-In env (stamp (text "f4")) (input (text "Alice works at Acme now")) none with_job job
      one_id (inl refl) refl

one_hash : UniqueHashes (with_job none).index
one_hash h = ground arith

write_fact-UniqueHashes_example : UniqueHashes (
    ((write_fact env (stamp (text "f4")) (input (text "Alice works at Acme now")) none with_job).1
      none).index)
write_fact-UniqueHashes_example =
    write_fact-UniqueHashes env (stamp (text "f4")) (input (text "Alice works at Acme now")) none
      with_job one_hash

rebuild_facts-Rebuilt_example : Rebuilt env 7 (with_job none)
rebuild_facts-Rebuilt_example = rebuild_facts-Rebuilt env 7 (with_job none) refl

abbrev tea : FactEntry
tea = entry (text "f5") (text "любит чай") stable 3

abbrev with_tea : Store
with_tea who = bucket_of tea

tea_blank : normalize_text tea.text ≡ []
unfolding normalize_text trim
tea_blank = refl

tea_live : In tea (load_index_entries 7 (with_tea none))
unfolding load_index_entries
tea_live = inl refl

write_fact_shut_out_example :
    (write_fact env (stamp (text "f6")) (input (text "Bob plays chess")) none with_tea).0 ≡ none
write_fact_shut_out_example =
    write_fact_shut_out env (stamp (text "f6")) (input (text "Bob plays chess")) none with_tea tea
      refl tea_live tea_blank

abbrev visit : FactEntry
visit = entry (text "f7") (text "Dentist") context 2

abbrev dentist : FactEntry
dentist = entry (text "f8") (text "The dentist is Dr. Green") stable 4

abbrev two_facts : Bucket
two_facts = record {
  index = (record { date = text "2026-01-01"; lines = fact visit ∷ fact dentist ∷ [] }) ∷ [];
  removed = [];
  facts = some (visit ∷ dentist ∷ []);
  snapshot = none;
  cache = none;
}

visit_loaded : In visit (load_facts_json 7 two_facts).0
unfolding load_facts_json
visit_loaded = inl refl

visit_held : contains (lower (take 40 visit.text)) (lower dentist.text) ≡ true
unfolding contains
visit_held = refl

expire_stale_date_facts_collateral_example :
    ¬ In dentist (all_entries (expire_stale_date_facts env (λ t. some 3) 7 5 two_facts).1.index)
expire_stale_date_facts_collateral_example =
    expire_stale_date_facts_collateral env 7 (λ t. some 3) 5 two_facts visit dentist visit_loaded
      refl visit_held
