-- ===== src/Sessions/Store.antt =====
-- src/sessions/store.ts: what a session keeps, as files under a directory of its agent. The disk is
-- a map from a path below the base directory to what the file holds; `lands` says of a path whether
-- a write to it succeeds. Turns, summaries and states are stored as they are given.
pub mod Laws
use invarail.Prelude.{
  ℕ, ◌+◌, ◌<◌, Bool, true, false, ◌&&◌, ◌||◌, not, List, [], ◌∷◌, ◌++◌, map, Option, none, some,
  Text, text, ◌==◌, lookup, assign, leb, nat_eq, ltb, length, take_last, ends_with, if◌then◌else◌,
}
use invarail.Sessions.{SessionState}

pub record SessionMetadata : Type 0 where
  pub agent_id : Text
  pub session_key : Text
  pub created_at : ℕ
  pub last_active_at : ℕ
  pub turn_count : ℕ

-- A turn, as the store passes it through.
pub record ConversationTurn : Type 0 where
  pub from_user : Bool
  pub content : Text
  pub timestamp : ℕ

pub record CompactionSummary : Type 0 where
  pub summary_text : Text
  pub covers_up_to_index : ℕ
  pub generated_at : ℕ
  pub model : Text

-- `[a-zA-Z0-9_\-:.]`
abbrev is_kept : ℕ → Bool
is_kept c =
    (leb b'a' c && leb c b'z')
    || (leb b'A' c && leb c b'Z')
    || (leb b'0' c && leb c b'9')
    || nat_eq c b'_'
    || nat_eq c b'-'
    || nat_eq c b':'
    || nat_eq c b'.'

abbrev sanitize_unit : ℕ → ℕ
sanitize_unit c = if is_kept c then c else b'_'

-- `sanitizeKey`
unfoldable pub sanitize_key : Text → Text
sanitize_key key = map sanitize_unit key

-- The directory of an agent, as `join` normalises it: an empty name and a dot are the base itself.
abbrev pub directory : Text → Text
directory name = if name == [] || name == text "." then [] else name ++ text "/"

-- The directory and the name of a session's files, without their ending.
unfoldable pub stem : Text → Text → Text
unfolding sanitize_key ◌==◌
stem agent key = directory (sanitize_key agent) ++ sanitize_key key

unfoldable pub session_path : Text → Text → Text
session_path agent key = stem agent key ++ text ".json"

unfoldable pub meta_path : Text → Text → Text
meta_path agent key = stem agent key ++ text ".meta.json"

unfoldable pub summary_path : Text → Text → Text
summary_path agent key = stem agent key ++ text ".summary.json"

unfoldable pub state_path : Text → Text → Text
state_path agent key = stem agent key ++ text ".state.json"

-- What a file holds; `blank` is an empty file.
pub data Content : Type 0 where
  transcript : List ConversationTurn → Content
  metadata : SessionMetadata → Content
  summary : CompactionSummary → Content
  state : SessionState → Content
  blank : Content

abbrev pub Disk : Type 0
Disk = List (Text × Content)

abbrev pub write_file : (Text → Bool) → Text → Content → Disk → Disk
write_file lands path content disk = if lands path then assign path content disk else disk

-- The last `max` turns, if a maximum is given that is not 0 and there are more. What is no list has no
-- `length` that is more.
abbrev pub cap_turns : Option ℕ → List ConversationTurn → List ConversationTurn
cap_turns none turns = turns
cap_turns (some max) turns =
    if ltb 0 max && ltb max (length turns) then take_last max turns else turns

-- What `JSON.parse` makes of a file, whatever it holds; of an empty file it makes nothing and throws.
-- A file that is not there has no turns.
abbrev pub parsed : Option ℕ → Option Content → Option Content
parsed max none = some (transcript [])
parsed max (some (transcript turns)) = some (transcript (cap_turns max turns))
parsed max (some (metadata m)) = some (metadata m)
parsed max (some (summary s)) = some (summary s)
parsed max (some (state s)) = some (state s)
parsed max (some blank) = none

-- `loadTranscript`; `none` where it throws. It hands out whatever the file holds as if it were turns.
unfoldable pub load_transcript : Text → Text → Option ℕ → Disk → Option Content
load_transcript agent key max disk = parsed max (lookup (session_path agent key) disk)

abbrev metadata_of : Option Content → Option SessionMetadata
metadata_of none = none
metadata_of (some (transcript turns)) = none
metadata_of (some (metadata m)) = some m
metadata_of (some (summary s)) = none
metadata_of (some (state s)) = none
metadata_of (some blank) = none

unfoldable pub get_metadata : Text → Text → Disk → Option SessionMetadata
get_metadata agent key disk = metadata_of (lookup (meta_path agent key) disk)

abbrev pub created : Option SessionMetadata → ℕ → ℕ
created none now = now
created (some m) now = m.created_at

unfoldable pub update_metadata : (Text → Bool) → ℕ → Text → Text → ℕ → Disk → Disk
unfolding get_metadata
update_metadata lands now agent key turn_count disk =
    let meta : SessionMetadata = record {
      agent_id = agent;
      session_key = key;
      created_at = created (get_metadata agent key disk) now;
      last_active_at = now;
      turn_count = turn_count;
    } in
    write_file lands (meta_path agent key) (metadata meta) disk

abbrev pub write_turns :
    (Text → Bool) → ℕ → Text → Text → List ConversationTurn → Disk → Option Disk
write_turns lands now agent key turns disk =
    let path = session_path agent key in
    if lands path
    then some
        (update_metadata lands now agent key (length turns) (assign path (transcript turns) disk))
    else none

-- `existing.push(turn)`, which throws where what was read is no list.
abbrev pub push_turn :
    (Text → Bool) → ℕ → Text → Text → ConversationTurn → Disk → Option Content → Option Disk
push_turn lands now agent key turn disk none = none
push_turn lands now agent key turn disk (some (transcript existing)) =
    write_turns lands now agent key (existing ++ turn ∷ []) disk
push_turn lands now agent key turn disk (some (metadata m)) = none
push_turn lands now agent key turn disk (some (summary s)) = none
push_turn lands now agent key turn disk (some (state s)) = none
push_turn lands now agent key turn disk (some blank) = none

-- `appendTurn`; `none` where it throws, and the disk is then as it was.
unfoldable pub append_turn : (Text → Bool) → ℕ → Text → Text → ConversationTurn → Disk → Option Disk
unfolding load_transcript update_metadata
append_turn lands now agent key turn disk =
    push_turn lands now agent key turn disk (load_transcript agent key none disk)

-- `clearSession`: each write may fail by itself.
unfoldable pub clear_session : (Text → Bool) → ℕ → Text → Text → Disk → Disk
unfolding update_metadata
clear_session lands now agent key disk =
    let emptied = write_file lands (session_path agent key) (transcript []) disk in
    let unsummarized = write_file lands (summary_path agent key) blank emptied in
    let stateless = write_file lands (state_path agent key) blank unsummarized in
    update_metadata lands now agent key 0 stateless

abbrev summary_of : Option Content → Option CompactionSummary
summary_of none = none
summary_of (some (transcript turns)) = none
summary_of (some (metadata m)) = none
summary_of (some (summary s)) = some s
summary_of (some (state s)) = none
summary_of (some blank) = none

unfoldable pub load_summary : Text → Text → Disk → Option CompactionSummary
load_summary agent key disk = summary_of (lookup (summary_path agent key) disk)

abbrev state_of : Option Content → Option SessionState
state_of none = none
state_of (some (transcript turns)) = none
state_of (some (metadata m)) = none
state_of (some (summary s)) = none
state_of (some (state s)) = some s
state_of (some blank) = none

unfoldable pub load_state : Text → Text → Disk → Option SessionState
load_state agent key disk = state_of (lookup (state_path agent key) disk)

unfoldable pub save_state : (Text → Bool) → Text → Text → SessionState → Disk → Disk
save_state lands agent key s disk = write_file lands (state_path agent key) (state s) disk

unfoldable pub save_summary : (Text → Bool) → Text → Text → CompactionSummary → Disk → Disk
save_summary lands agent key s disk = write_file lands (summary_path agent key) (summary s) disk
