-- ===== src/Memory/Facts.antt =====
-- src/memory/fact-store.ts: entries, the index that holds them, removals, and who has which.
-- Times are milliseconds, a confidence is a count of hundredths, and a line of JSON is the entry that
-- it holds or a text that is none. Left out are the raw files and the mirrored documents, which the
-- store only writes, and the migration of legacy files.
pub mod Index
use invarail.Prelude.{
  ℕ, ◌+◌, Bool, true, false, ◌&&◌, ◌||◌, not, List, [], ◌∷◌, ◌++◌, Option, none, some, Text, text,
  ◌==◌, ltb, nat_eq, length, keep, any, is_empty, includes, contains, or_else, lower_unit, is_space,
  leb, trim, Attempt, map, if◌then◌else◌,
}
use invarail.Memory.Similarity.{Provenance, Removal}

pub data Category : Type 0 where
  stable context decision question : Category

pub record FactEntry : Type 0 where
  pub id : Text
  pub text : Text
  pub category : Category
  pub confidence : ℕ
  pub source : Text
  pub provenance : Provenance
  pub created_at : ℕ
  pub expires_at : Option ℕ
  pub hash : Text
  pub sender_id : Option Text
  pub tags : List Text
  pub entities : List Text
  pub last_reviewed_at : Option ℕ
  pub importance : ℕ

-- What is to be stored, with the defaults of the schema filled in.
pub record FactInput : Type 0 where
  pub text : Text
  pub category : Category
  pub confidence : ℕ
  pub source : Option Text
  pub provenance : Provenance
  pub expires_at : Option ℕ
  pub tags : List Text
  pub entities : List Text
  pub importance : ℕ

pub data Line : Type 0 where
  fact : FactEntry → Line
  malformed : Text → Line

-- `index/<date>.jsonl`
pub record IndexFile : Type 0 where
  pub date : Text
  pub lines : List Line

-- `facts.json` as it was loaded, and when.
pub record Cached : Type 0 where
  pub entries : List FactEntry
  pub loaded_at : ℕ

pub record Snapshot : Type 0 where
  pub taken_at : ℕ
  pub fact_hashes : List Text

-- The directory of one sender: the index in the order of its files, `removed.jsonl`, `facts.json`,
-- the snapshot, and what the store has cached. A line of `removed.jsonl` that is no JSON is `none`.
pub record Bucket : Type 0 where
  pub index : List IndexFile
  pub removed : List (Option Removal)
  pub facts : Option (List FactEntry)
  pub snapshot : Option Snapshot
  pub cache : Option Cached

-- The bucket of a sender, and the shared one.
abbrev pub Store : Type 0
Store = Option Text → Bucket

abbrev pub same_sender : Option Text → Option Text → Bool
same_sender none none = true
same_sender (some a) (some b) = a == b
same_sender _ _ = false

abbrev pub put : Option Text → Bucket → Store → Store
put k b s j = if same_sender j k then b else s j

pub record Env : Type 0 where
  pub fact_words : Text → List Text
  -- the first half of a SHA-256 sum, in hexadecimal digits
  pub digest : Text → Text
  -- `date.setDate(date.getDate() + days)`
  pub add_days : ℕ → ℕ → ℕ
  -- the embedding model, if there is one: is a text close to one of these?
  pub is_paraphrase : Option (Text → List Text → Attempt Bool)
  -- how numbers and times are printed in `facts.md`
  pub show_confidence : ℕ → Text
  pub show_time : ℕ → Text

-- `\w`
abbrev pub is_word : ℕ → Bool
is_word c =
    (leb b'a' c && leb c b'z')
    || (leb b'A' c && leb c b'Z')
    || (leb b'0' c && leb c b'9')
    || nat_eq c b'_'

-- `replace(/\s+/g, ' ')`; the flag says that the last character was a space.
abbrev pub collapse : Bool → Text → Text
collapse spaced [] = []
collapse spaced (c ∷ s) =
    let next = collapse (is_space c) s in
    let single = if spaced then next else b' ' ∷ next in if is_space c then single else c ∷ next

unfoldable pub normalize_text : Text → Text
unfolding trim
normalize_text t = trim (collapse false (keep (λ c. is_word c || is_space c) (map lower_unit t)))

abbrev pub entries_of : List Line → List FactEntry
entries_of [] = []
entries_of (fact e ∷ ls) = e ∷ entries_of ls
entries_of (malformed t ∷ ls) = entries_of ls

abbrev pub all_entries : List IndexFile → List FactEntry
all_entries [] = []
all_entries (f ∷ fs) = entries_of f.lines ++ all_entries fs

-- `!(entry.expiresAt && new Date(entry.expiresAt).getTime() < now)`
abbrev pub is_live : ℕ → FactEntry → Bool
is_live now e = elim e.expires_at [ none ↦ true | some at ↦ not (ltb at now) ]

unfoldable pub load_index_entries : ℕ → Bucket → List FactEntry
load_index_entries now b = keep (is_live now) (all_entries b.index)

abbrev option_list : Option Text → List Text
option_list none = []
option_list (some t) = t ∷ []

-- The strings of an entry's JSON that can be a digest.
abbrev pub strings_of : FactEntry → List Text
strings_of e =
    e.hash ∷ e.id ∷ e.text ∷ e.source ∷ (option_list e.sender_id ++ (e.tags ++ e.entities))

abbrev pub quoted : Text → Text
quoted t = b'"' ∷ (t ++ b'"' ∷ [])

abbrev pub mentions : Text → Line → Bool
mentions hash (fact e) = includes hash (strings_of e)
mentions hash (malformed t) = contains (quoted hash) t

-- `hashExistsInIndex`
unfoldable pub hash_exists : Text → List IndexFile → Bool
unfolding includes contains
hash_exists hash files = any (λ f. any (mentions hash) f.lines) files

-- The order of file names.
abbrev pub name_before : Text → Text → Bool
name_before [] [] = false
name_before [] (d ∷ t) = true
name_before (c ∷ s) [] = false
name_before (c ∷ s) (d ∷ t) = ltb c d || (nat_eq c d && name_before s t)

abbrev pub new_file : Text → Line → IndexFile
new_file date l = record { date = date; lines = l ∷ [] }

-- `appendToIndex`: at the end of the file of the day, which is made if it is not there.
unfoldable pub append_to_index : Text → Line → List IndexFile → List IndexFile
append_to_index date l [] = new_file date l ∷ []
append_to_index date l (f ∷ fs) =
    let later = f ∷ append_to_index date l fs in
    if f.date == date
    then record f { lines = f.lines ++ l ∷ [] } ∷ fs
    else if name_before date f.date
    then new_file date l ∷ f ∷ fs
    else later

-- The lines that a removal keeps, and the entries that it takes.
abbrev pub passes : (FactEntry → Bool) → Line → Bool
passes p (fact e) = p e
passes p (malformed t) = false

unfoldable pub drop_lines : (FactEntry → Bool) → List IndexFile → List IndexFile
drop_lines p [] = []
drop_lines p (f ∷ fs) = record f { lines = keep (λ l. not (passes p l)) f.lines } ∷ drop_lines p fs
