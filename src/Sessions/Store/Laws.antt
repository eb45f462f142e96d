-- ===== src/Sessions/Store/Laws.antt =====
-- What is read back from a session's files after its operations, and which other sessions they
-- touch.
use invarail.Prelude.{
  ℕ, ◌≡◌, refl, Bool, true, false, List, [], ◌∷◌, ◌++◌, none, some, Text, text, ◌==◌, eq_refl,
  lookup, assign, lookup-assign, length, arith, if◌then◌else◌,
}
use invarail.Sessions.Store.{
  created, SessionMetadata, ConversationTurn, stem, session_path, meta_path, summary_path,
  state_path, Content, transcript, metadata, blank, Disk, write_file, load_transcript, get_metadata,
  update_metadata, append_turn, clear_session, load_summary, load_state,
}

-- Endings that differ keep the files of one session apart.
append_left : (k a b : Text) → (k ++ a == k ++ b) ≡ (a == b)
unfolding ◌==◌
append_left [] a b = refl
append_left (c ∷ k) a b = ground (arith, append_left k a b)

-- A file that is written later does not hide one of these of the same session.
own_files :
    (agent key : Text)
    → ((meta_path agent key == session_path agent key) ≡ false)
      × ((state_path agent key == session_path agent key) ≡ false)
      × ((summary_path agent key == session_path agent key) ≡ false)
      × ((meta_path agent key == summary_path agent key) ≡ false)
      × ((state_path agent key == summary_path agent key) ≡ false)
      × ((meta_path agent key == state_path agent key) ≡ false)
unfolding ◌==◌ session_path meta_path summary_path state_path
own_files agent key = (
  append_left (stem agent key) (text ".meta.json") (text ".json"),
  append_left (stem agent key) (text ".state.json") (text ".json"),
  append_left (stem agent key) (text ".summary.json") (text ".json"),
  append_left (stem agent key) (text ".meta.json") (text ".summary.json"),
  append_left (stem agent key) (text ".state.json") (text ".summary.json"),
  append_left (stem agent key) (text ".meta.json") (text ".state.json"),
)

lookup-write_file :
    (lands : Text → Bool) (path j : Text) (content : Content) (disk : Disk)
    → lands path ≡ true
    → lookup j (write_file lands path content disk)
      ≡ (if path == j then some content else lookup j disk)
lookup-write_file lands path j content disk h = rw h (lookup-assign path j content disk)

-- A turn that is appended to a session, where both writes land: afterwards a session with the same
-- transcript file, that one included, has the turn behind what it had. One whose transcript file is the
-- metadata file of that session reads that metadata, with the new count of turns, in place of turns.
-- Every other reads what it read before.
pub load_transcript-append_turn :
    (lands : Text → Bool) (now : ℕ) (agent key other_agent other_key : Text)
    (turn : ConversationTurn) (disk : Disk) (existing : List ConversationTurn)
    → load_transcript agent key none disk ≡ some (transcript existing)
    → lands (session_path agent key) ≡ true
    → lands (meta_path agent key) ≡ true
    → (after : Disk) × (m : SessionMetadata) × (append_turn lands now agent key turn disk
        ≡ some after)
      × (m.session_key ≡ key)
      × (m.turn_count ≡ length (existing ++ turn ∷ []))
      × (load_transcript other_agent other_key none after ≡ (
          if meta_path agent key == session_path other_agent other_key
          then some (metadata m)
          else if session_path agent key == session_path other_agent other_key
          then some (transcript (existing ++ turn ∷ []))
          else load_transcript other_agent other_key none disk))
unfolding append_turn load_transcript update_metadata
load_transcript-append_turn lands now agent key other_agent other_key turn disk existing there
      lands_here meta_lands =
    let turns = existing ++ turn ∷ [] in
    let path = session_path agent key in
    let written = assign path (transcript turns) disk in
    let after = update_metadata lands now agent key (length turns) written in
    let meta : SessionMetadata = record {
      agent_id = agent;
      session_key = key;
      created_at = created (get_metadata agent key written) now;
      last_active_at = now;
      turn_count = length turns;
    } in
    (
      after,
      meta,
      rw (there, lands_here) refl,
      refl,
      refl,
      rw meta_lands (
          ground (
            arith,
            lookup-assign (meta_path agent key) (session_path other_agent other_key) (metadata meta)
                written,
            lookup-assign path (session_path other_agent other_key) (transcript turns) disk,
          )),
    )

-- A session that is cleared, where the writes land, has an empty transcript, no summary and no
-- state, and its metadata counts no turn, whatever it had.
pub clear_session_empties :
    (lands : Text → Bool) (now : ℕ) (agent key : Text) (disk : Disk)
    → ((path : Text) → lands path ≡ true)
    → (load_transcript agent key none (clear_session lands now agent key disk)
        ≡ some (transcript []))
      × (load_summary agent key (clear_session lands now agent key disk) ≡ none)
      × (load_state agent key (clear_session lands now agent key disk) ≡ none)
      × ((m : SessionMetadata) × (get_metadata agent key (clear_session lands now agent key disk)
            ≡ some m)
          × (m.turn_count ≡ 0))
unfolding clear_session update_metadata load_transcript load_summary load_state get_metadata
clear_session_empties lands now agent key disk all_land =
    let session = session_path agent key in
    let summary_file = summary_path agent key in
    let state_file = state_path agent key in
    let meta_file = meta_path agent key in
    let emptied = write_file lands session (transcript []) disk in
    let unsummarized = write_file lands summary_file blank emptied in
    let stateless = write_file lands state_file blank unsummarized in
    let meta : SessionMetadata = record {
      agent_id = agent;
      session_key = key;
      created_at = created (get_metadata agent key stateless) now;
      last_active_at = now;
      turn_count = 0;
    } in
    let (a, b, c, d, e, f) = own_files agent key in
    let last = λ (j : Text).
      lookup-write_file lands meta_file j (metadata meta) stateless (all_land meta_file) in
    let third =
      λ (j : Text). lookup-write_file lands state_file j blank unsummarized (all_land state_file) in
    let second =
      λ (j : Text). lookup-write_file lands summary_file j blank emptied (all_land summary_file) in
    let first = lookup-write_file lands session session (transcript []) disk (all_land session) in
    (
      rw (last session, a, third session, b, second session, c, first, eq_refl session) refl,
      rw (last summary_file, d, third summary_file, e, second summary_file, eq_refl summary_file)
          refl,
      rw (last state_file, f, third state_file, eq_refl state_file) refl,
      (meta, rw (last meta_file, eq_refl meta_file) refl, refl),
    )
