-- ===== src/Security/Confirm/Denial.antt =====
-- What a denial does, and what it does not.
use invarail.Prelude.{ℕ, ◌≡◌, refl, false, none, some, Text, trim, arith}
use invarail.Security.Ledger.{PendingAction, File, find_by_id, consume, save}
use invarail.Security.Exchange.{World, Event, deny, read_message, principal_of, replied, cancelled}
use invarail.Security.Confirm.{deny_action, handle_reading, handle_confirmation}

handle_confirmation_deny :
    (e : Event) (id : Text) (w : World)
    → read_message (trim e.message) ≡ deny id
    → handle_confirmation e w ≡ deny_action e id w
unfolding handle_confirmation
handle_confirmation_deny e id w h = rw (h, handle_reading) refl

consume_failing :
    (id : Text) (now : ℕ) (file : File PendingAction) → (consume id now false file).1 ≡ file
unfolding consume save
consume_failing id now file = ground arith

deny_action_found :
    (e : Event) (id : Text) (w : World) (a : PendingAction)
    → find_by_id id (principal_of e) e.read_at w.ledger ≡ some a
    → e.consume_lands ≡ false
    → ((deny_action e id w).0 ≡ replied (cancelled a.tool) none)
      × ((deny_action e id w).1.ledger ≡ w.ledger)
unfolding deny_action
deny_action_found e id w a found lost =
    rw (found, deny_action) (refl, rw lost (consume_failing a.id e.consumed_at w.ledger))

-- A denial of an action of the sender's own whose removal is not written to disk still answers that
-- the action is cancelled and will not run, and leaves the ledger as it was, so the same sender can
-- still confirm it.
pub deny_not_persisted :
    (e : Event) (id : Text) (w : World) (a : PendingAction)
    → read_message (trim e.message) ≡ deny id
    → find_by_id id (principal_of e) e.read_at w.ledger ≡ some a
    → e.consume_lands ≡ false
    → ((handle_confirmation e w).0 ≡ replied (cancelled a.tool) none)
      × ((handle_confirmation e w).1.ledger ≡ w.ledger)
      × (find_by_id id (principal_of e) e.read_at (handle_confirmation e w).1.ledger ≡ some a)
deny_not_persisted e id w a h found lost =
    let answer = deny_action_found e id w a found lost in
    rw (handle_confirmation_deny e id w h) (answer.0, answer.1, rw answer.1 found)
