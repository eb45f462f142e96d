-- ===== src/Services/Debounce.antt =====
-- src/services/message-debouncer.ts and src/services/media-debouncer.ts: what a channel split, or
-- sent in a row, put together again for each sender. A timer is the time that it is due.
pub mod Runs
pub mod Groups
pub mod Laws
use invarail.Prelude.{
  ℕ, ◌+◌, Bool, true, false, ◌&&◌, ◌||◌, not, List, [], ◌∷◌, ◌++◌, Option, none, some, Text, text,
  units, ◌==◌, ltb, leb, length, keep, is_empty, lookup, assign, truthy, trim, join_with,
  if◌then◌else◌,
}

-- What the debouncers read of `InboundMessage`
pub record Message : Type 0 where
  pub channel : Text
  pub sender_id : Text
  pub content : Text
  pub attachments : List Text
  -- `_textBatched` and `_debounced`
  pub is_text_batched : Bool
  pub is_debounced : Bool

abbrev pub key_of : Message → Text
key_of m = m.channel ++ (text ":" ++ m.sender_id)

-- `Map.delete`
unfoldable pub delete_key : {A : Type 0} → Text → List (Text × A) → List (Text × A)
unfolding ◌==◌
delete_key k entries = keep (λ e. not (e.0 == k)) entries

-- `PendingText`
pub record PendingText : Type 0 where
  pub msg : Message
  pub parts : List Text
  pub due : ℕ

abbrev pub PendingTexts : Type 0
PendingTexts = List (Text × PendingText)

module _ (window split_threshold : ℕ) where
  -- A message of a sender with a batch, or without one.
  abbrev pub collect_text : ℕ → Message → PendingTexts → Option PendingText → Bool × PendingTexts
  collect_text now msg pending (some existing) =
      let grown : PendingText = record {
        msg = existing.msg;
        parts = existing.parts ++ msg.content ∷ [];
        due = now + window;
      } in
      (true, assign (key_of msg) grown pending)
  collect_text now msg pending none =
      let opened : PendingText = record {
        msg = msg;
        parts = msg.content ∷ [];
        due = now + window;
      } in
      if leb split_threshold (length msg.content)
      then (true, assign (key_of msg) opened pending)
      else (false, pending)

  -- `MessageDebouncer.tryBatch`
  unfoldable pub try_batch_text : ℕ → Message → PendingTexts → Bool × PendingTexts
  unfolding trim
  try_batch_text now msg pending =
      if msg.is_text_batched
      then (false, pending)
      else if not (truthy (trim msg.content))
      then (false, pending)
      else collect_text now msg pending (lookup (key_of msg) pending)

abbrev pub released_text : PendingText → Message
released_text p = record {
  channel = p.msg.channel;
  sender_id = p.msg.sender_id;
  content = join_with (units b'\n') p.parts;
  attachments = p.msg.attachments;
  is_text_batched = true;
  is_debounced = p.msg.is_debounced;
}

abbrev pub flush_entry : Text → PendingTexts → Option PendingText → Option Message × PendingTexts
flush_entry key pending none = (none, pending)
flush_entry key pending (some p) = (some (released_text p), delete_key key pending)

-- `MessageDebouncer.flush`
unfoldable pub flush_text : Text → PendingTexts → Option Message × PendingTexts
unfolding lookup
flush_text key pending = flush_entry key pending (lookup key pending)

-- `PendingBatch`
pub record PendingMedia : Type 0 where
  pub attachments : List Text
  pub msg : Message
  pub due : ℕ

abbrev pub PendingMedias : Type 0
PendingMedias = List (Text × PendingMedia)

unfoldable pub is_media_only : Message → Bool
unfolding trim
is_media_only msg =
    not (is_empty msg.attachments)
    && (not (truthy (trim msg.content)) || ltb (length (trim msg.content)) 5)

abbrev pub collect_media : ℕ → ℕ → Message → PendingMedias → Option PendingMedia → PendingMedias
collect_media window now msg pending (some existing) =
    let grown : PendingMedia = record {
      attachments = existing.attachments ++ msg.attachments;
      msg = existing.msg;
      due = now + window;
    } in
    assign (key_of msg) grown pending
collect_media window now msg pending none =
    let opened : PendingMedia = record {
      attachments = msg.attachments;
      msg = msg;
      due = now + window;
    } in
    assign (key_of msg) opened pending

-- `MediaDebouncer.tryBatch`
unfoldable pub try_batch_media : ℕ → ℕ → Message → PendingMedias → Bool × PendingMedias
unfolding is_media_only lookup
try_batch_media window now msg pending =
    if msg.is_debounced
    then (false, pending)
    else if not (is_media_only msg)
    then (false, pending)
    else (true, collect_media window now msg pending (lookup (key_of msg) pending))

-- The message of the timer of a batch: a batch of one message has the attachments that it came with.
abbrev pub released_media : PendingMedia → Message
released_media p = record {
  channel = p.msg.channel;
  sender_id = p.msg.sender_id;
  content = p.msg.content;
  attachments = p.attachments;
  is_text_batched = p.msg.is_text_batched;
  is_debounced = true;
}
