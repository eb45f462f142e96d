-- ===== src/Services/Debounce/Laws.antt =====
-- What a run of the text debouncer keeps of what each sender said.
use invarail.Prelude.{
  ℕ, ◌≡◌, refl, sym, ap, ◌∙◌, Bool, true, false, List, [], ◌∷◌, ◌++◌, Option, none, some, Text, leb,
  length, lookup, truthy, trim, All, if◌then◌else◌, if_holds,
}
use mathlib.Core.Path.{subst}
use mathlib.Core.List.{append_assoc, append-nil}
use invarail.Services.Debounce.{
  Message, key_of, PendingText, PendingTexts, collect_text, try_batch_text, flush_entry, flush_text,
}
use invarail.Services.Debounce.Runs.{
  Event, arrives, wakes, State, settle, emit, is_due, step, run, idle, IsText, arrivals, parts_of,
}
use invarail.Services.Debounce.Groups.{Grouped, Kept, collected, passed, released, idle-Kept}

module _ (window split_threshold : ℕ) where
  try_batch_text-texts :
      (now : ℕ) (m : Message) (pending : PendingTexts)
      → m.is_text_batched ≡ false
      → truthy (trim m.content) ≡ true
      → try_batch_text window split_threshold now m pending
        ≡ collect_text window split_threshold now m pending (lookup (key_of m) pending)
  unfolding try_batch_text
  try_batch_text-texts now m pending h k = rw (h, k) refl

  collect_text-Kept :
      (s : State) (came : List Message) (now : ℕ) (m : Message) (o : Option PendingText)
      → lookup (key_of m) s.pending ≡ o
      → Kept s came
      → Kept
          (settle m (collect_text window split_threshold now m s.pending o) s.dispatched)
          (came ++ m ∷ [])
  collect_text-Kept s came now m (some p) e kept =
      collected s came m _ (ap (λ o. parts_of o ++ m.content ∷ []) (sym e))
        (kept.keyed (key_of m) p e) kept
  collect_text-Kept s came now m none e kept =
      if_holds (λ (r : Bool × PendingTexts). Kept (settle m r s.dispatched) (came ++ m ∷ []))
        (leb split_threshold (length m.content)) _ _
        (λ _. collected s came m _ (ap (λ o. parts_of o ++ m.content ∷ []) (sym e)) refl kept)
        λ _. passed s came m e kept

  wake-Kept :
      (s : State) (came : List Message) (now : ℕ) (key : Text) (o : Option PendingText)
      → lookup key s.pending ≡ o
      → Kept s came
      → Kept (if is_due now o then emit (flush_entry key s.pending o) s.dispatched else s) came
  wake-Kept s came now key none e kept = kept
  wake-Kept s came now key (some p) e kept =
      if_holds (λ (r : State). Kept r came) (leb p.due now) _ _ (λ _. released s came key p e kept)
        λ _. kept

  step-Kept :
      (s : State) (came : List Message) (e : Event)
      → IsText e
      → Kept s came
      → Kept (step window split_threshold s e) (came ++ arrivals (e ∷ []))
  unfolding step arrivals flush_text
  step-Kept s came (arrives now m) (h, k) kept =
      rw (try_batch_text-texts now m s.pending h k)
        (collect_text-Kept s came now m (lookup (key_of m) s.pending) refl kept)
  step-Kept s came (wakes now key) h kept =
      rw (append-nil came) (wake-Kept s came now key (lookup key s.pending) refl kept)

  arrivals-cons :
      (e : Event) (es : List Event) → arrivals (e ∷ []) ++ arrivals es ≡ arrivals (e ∷ es)
  unfolding arrivals
  arrivals-cons (arrives now m) es = refl
  arrivals-cons (wakes now key) es = refl

  run-Kept :
      (s : State) (came : List Message) (es : List Event)
      → All IsText es
      → Kept s came
      → Kept (run window split_threshold s es) (came ++ arrivals es)
  unfolding run arrivals
  run-Kept s came [] h kept = rw (append-nil came) kept
  run-Kept s came (e ∷ es) (h, hs) kept =
      let after = step window split_threshold s e in
      subst (λ l. Kept (run window split_threshold after es) l)
        (append_assoc came (arrivals (e ∷ [])) (arrivals es)
          ∙ ap (λ l. came ++ l) (arrivals-cons e es))
        (run-Kept after (came ++ arrivals (e ∷ [])) es hs (step-Kept s came e h kept))

  -- In every run of messages with texts and of timers, in any order and at any times, no text of a
  -- sender is lost, doubled or put before an earlier one: what was dispatched of a sender are its
  -- texts in the order of their arrival, some in a row joined by line ends, and the last ones may
  -- wait in the sender's batch.
  pub run-Grouped :
      (es : List Event)
      → All IsText es
      → (k : Text) → Grouped k (run window split_threshold idle es) (arrivals es)
  run-Grouped es h k = (run-Kept idle [] es h idle-Kept).whole k
