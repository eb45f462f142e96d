-- ===== src/Services/Debounce/Runs.antt =====
-- A run of the text debouncer: messages that the media debouncer lets pass, as `handleMessage` of
-- src/orchestrator.ts hands them on, and timers that wake, in any order.
use invarail.Prelude.{
  ℕ, ◌≡◌, Bool, true, false, List, [], ◌∷◌, ◌++◌, Option, none, some, Text, units, ◌==◌, leb,
  lookup, truthy, trim, join_with, if◌then◌else◌,
}
use invarail.Services.Debounce.{
  Message, key_of, PendingText, PendingTexts, try_batch_text, flush_text,
}

pub data Event : Type 0 where
  arrives : ℕ → Message → Event
  wakes : ℕ → Text → Event

-- What is pending and what was dispatched, in its order.
pub record State : Type 0 where
  pub pending : PendingTexts
  pub dispatched : List Message

abbrev pub settle : Message → Bool × PendingTexts → List Message → State
settle m (true, p) d = record { pending = p; dispatched = d }
settle m (false, p) d = record { pending = p; dispatched = d ++ m ∷ [] }

abbrev pub emit : Option Message × PendingTexts → List Message → State
emit (none, p) d = record { pending = p; dispatched = d }
emit (some m, p) d = record { pending = p; dispatched = d ++ m ∷ [] }

abbrev pub is_due : ℕ → Option PendingText → Bool
is_due now none = false
is_due now (some p) = leb p.due now

module _ (window split_threshold : ℕ) where
  -- The caller dispatches what is not collected; a timer that is not due does nothing.
  unfoldable pub step : State → Event → State
  unfolding try_batch_text flush_text
  step s (arrives now m) =
      settle m (try_batch_text window split_threshold now m s.pending) s.dispatched
  step s (wakes now key) =
      if is_due now (lookup key s.pending) then emit (flush_text key s.pending) s.dispatched else s

  unfoldable pub run : State → List Event → State
  unfolding step
  run s [] = s
  run s (e ∷ es) = run (step s e) es

abbrev pub idle : State
idle = record { pending = []; dispatched = [] }

-- Messages as the channels give them, with a text.
abbrev pub IsText : Event → Type 0
IsText (arrives now m) = (m.is_text_batched ≡ false) × (truthy (trim m.content) ≡ true)
IsText (wakes now key) = Unit

-- The messages that a run is given.
unfoldable pub arrivals : List Event → List Message
arrivals [] = []
arrivals (arrives now m ∷ es) = m ∷ arrivals es
arrivals (wakes now key ∷ es) = arrivals es

-- The texts of a sender's messages.
unfoldable pub said : Text → List Message → List Text
said k [] = []
said k (m ∷ ms) = if key_of m == k then m.content ∷ said k ms else said k ms

unfoldable pub flat : List (List Text) → List Text
flat [] = []
flat (g ∷ gs) = g ++ flat gs

abbrev pub parts_of : Option PendingText → List Text
parts_of none = []
parts_of (some p) = p.parts

abbrev pub joined : List Text → Text
joined = join_with (units b'\n')
