-- ===== src/Examples/Keeping.antt =====
-- Limits, sessions and tasks at concrete inputs.
use invarail.Prelude.{
  Bool, lookup, ◌≡◌, refl, suc, true, [], ◌∷◌, none, some, Text, text, ◌==◌, ltb, arith,
}
use invarail.Services.RateLimiter.{Log, is_limited, after, in_window, is_limited_counts}
use invarail.Sessions.{SessionState, StateDelta}
use invarail.Sessions.Store.{
  ConversationTurn, SessionMetadata, metadata, Disk, session_path, meta_path, stem, sanitize_key,
  load_transcript, append_turn,
}
use invarail.Sessions.Store.Laws.{load_transcript-append_turn}
use invarail.Tasks.{Task, TaskUpdate, todo, done, medium, user}

abbrev log : Log
log = (text "u", 70) ∷ (text "v", 60) ∷ (text "u", 5) ∷ []

is_limited_counts_example :
    (is_limited 60 1 80 (text "u") (after 60 1 log)).0
    ≡ ltb 1 (suc (in_window 60 80 (text "u") log))
is_limited_counts_example =
    is_limited_counts 60 1 80 (text "u") log (omega arith, (omega arith, (omega arith, tt)))

abbrev session : SessionState
session = record {
  current_topic = [];
  known_facts = text "likes tea" ∷ [];
  open_questions = [];
  turn_count = 5;
  last_semantic_update = 0;
}

abbrev delta : StateDelta
delta = record {
  current_topic = none;
  known_facts = some (text " likes tea" ∷ text "has a cat" ∷ []);
  open_questions = none;
}

abbrev task : Task
task = record {
  id = text "t";
  title = text "write";
  details = none;
  status = todo;
  priority = medium;
  created_by = user;
  assignee = none;
  due_date = none;
  tags = none;
  created_at = 0;
  updated_at = 0;
  completed_at = none;
}

abbrev finish_it : TaskUpdate
finish_it = record {
  title = none;
  details = none;
  status = some done;
  priority = none;
  assignee = none;
  due_date = none;
  tags = none;
}

abbrev turn : ConversationTurn
turn = record { from_user = true; content = text "hi"; timestamp = 1 }

abbrev writable : Text → Bool
writable _ = true

load_transcript-append_turn_example :
    (after : Disk) × (m : SessionMetadata) × (append_turn writable 5 (text "a") (text "s") turn []
      ≡ some after)
    × (m.session_key ≡ text "s")
    × (m.turn_count ≡ 1)
    × (load_transcript (text "a") (text "s.meta") none after ≡ some (metadata m))
unfolding load_transcript lookup ◌==◌ session_path meta_path stem sanitize_key
load_transcript-append_turn_example =
    load_transcript-append_turn writable 5 (text "a") (text "s") (text "a") (text "s.meta") turn []
      [] refl refl refl
