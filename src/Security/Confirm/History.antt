-- ===== src/Security/Confirm/History.antt =====
-- A whole history of confirmation messages on one world.
use invarail.Prelude.{ℕ, ◌+◌, ◌≤◌, ◌≡◌, List, [], ◌∷◌, ◌++◌, map, Text, count, ◌==◌, In}
use invarail.Registry.{Call}
use invarail.Security.Ledger.{PendingAction}
use invarail.Security.Ledger.Members.{Held}
use invarail.Security.Ledger.Counts.{stored}
use invarail.Security.Exchange.{World, Event}
use invarail.Security.Confirm.{stored_call, handle_confirmation}

-- The history of messages on one world.
unfoldable pub handle_all : List Event → World → World
handle_all [] w = w
handle_all (e ∷ es) w = handle_all es (handle_confirmation e w).1

-- The call that was run for an action that a message confirmed.
abbrev pub ran : Event × PendingAction → Call
ran (e, a) = stored_call e a

-- How many of them have the id.
abbrev pub confirmed : Text → List (Event × PendingAction) → ℕ
confirmed j spent = count (λ p. p.1.id == j) spent

-- The calls that ran are those of confirmed actions, each of which the ledger held; of every id there
-- were as many entries in the ledger as were confirmed and are left, and no entry has come.
abbrev pub Spends : World → World → Type 0
Spends w w' =
    (spent : List (Event × PendingAction)) × (w'.calls ≡ w.calls ++ map ran spent)
    × ((j : Text) → confirmed j spent + stored j w'.ledger ≤ stored j w.ledger)
    × ((p : Event × PendingAction) → In p spent → Held p.1 w.ledger)
    × ((a : PendingAction) → Held a w'.ledger → Held a w.ledger)
