-- ===== src/Security/Confirm/Runs.antt =====
-- Which calls confirmations let run, one message at a time and over a whole history of messages.
use invarail.Prelude.{
  ◌<◌, ◌≡◌, ◌⊎◌, inl, inr, refl, ap, none, some, Text, trim, arith, Option-cases,
}
use invarail.Security.Ledger.{PendingAction, File, bare_confirm_max_age_ms}
use invarail.Security.Ledger.Laws.{find_by_id_sound, latest_for_sound}
use invarail.Security.Exchange.{
  World, Event, Reading, deny, always, targeted, bare, near, other, read_message, principal_of,
}
use invarail.Security.Confirm.{
  select_action, authorize_action, deny_action, confirm_action, handle_reading, handle_confirmation,
}
use invarail.Security.Confirm.Laws.{Ran, calls-authorize_action}

-- The action that a confirmation selects belongs to the principal of the message and has not
-- expired.
select_action_sound :
    (e : Event) (r : Reading) (file : File PendingAction) (a : PendingAction)
    → select_action e r file ≡ some a
    → (a.sender ≡ principal_of e) × (e.read_at < a.expires_at)
unfolding select_action
select_action_sound e (always id) file a h =
    let s = find_by_id_sound id (principal_of e) e.read_at file a h in (s.1, s.2)
select_action_sound e (targeted id) file a h =
    let s = find_by_id_sound id (principal_of e) e.read_at file a h in (s.1, s.2)
select_action_sound e bare file a h =
    let s =
      latest_for_sound (principal_of e) e.channel bare_confirm_max_age_ms e.now e.read_at file a
        h in
    (s.0, s.3)
select_action_sound e near file a h = ground arith
select_action_sound e other file a h = ground arith
select_action_sound e (deny id) file a h = ground arith

-- A call of a stored action: selected for the principal, live, spent, allowed now, and run once as
-- stored.
abbrev pub RunsStored : Event → Reading → World → World → Type 0
RunsStored e r w w' =
    (a : PendingAction) × (select_action e r w.ledger ≡ some a)
    × (a.sender ≡ principal_of e)
    × (e.read_at < a.expires_at)
    × Ran e a w w'

pub confirm_action_nothing :
    (e : Event) (r : Reading) (w : World)
    → select_action e r w.ledger ≡ none
    → (confirm_action e r w).1 ≡ w
confirm_action_nothing e r w h = rw (h, confirm_action) refl

pub confirm_action_found :
    (e : Event) (r : Reading) (w : World) (a : PendingAction)
    → select_action e r w.ledger ≡ some a
    → confirm_action e r w ≡ authorize_action e r a w
confirm_action_found e r w a h = rw (h, confirm_action) refl

runs_confirm_action :
    (e : Event) (r : Reading) (w : World)
    → ((confirm_action e r w).1.calls ≡ w.calls) ⊎ RunsStored e r w (confirm_action e r w).1
runs_confirm_action e r w = elim (Option-cases (select_action e r w.ledger)) [
  | inl nothing ↦ inl (ap (λ (v : World). v.calls) (confirm_action_nothing e r w nothing))
  | inr (a, found) ↦
      let (own, live) = select_action_sound e r w.ledger a found in
      rw (confirm_action_found e r w a found) (elim (calls-authorize_action e r a w) [
        | inl same ↦ inl same
        | inr once ↦ inr (a, found, own, live, once)
      ])
]

pub calls-deny_action : (e : Event) (id : Text) (w : World) → (deny_action e id w).1.calls ≡ w.calls
unfolding deny_action
calls-deny_action e id w = ground arith

runs_handle_reading :
    (e : Event) (r : Reading) (w : World)
    → ((handle_reading e r w).1.calls ≡ w.calls) ⊎ RunsStored e r w (handle_reading e r w).1
runs_handle_reading e (deny id) w = inl (calls-deny_action e id w)
runs_handle_reading e other w = inl refl
runs_handle_reading e (always id) w = runs_confirm_action e (always id) w
runs_handle_reading e (targeted id) w = runs_confirm_action e (targeted id) w
runs_handle_reading e bare w = runs_confirm_action e bare w
runs_handle_reading e near w = runs_confirm_action e near w

-- Whatever the message, either no tool runs, or one call runs, exactly once: an action of the
-- ledger that the message selects, recorded for the sender's principal and not expired, with the
-- tool, parameters, agent and session that were stored; its consumption has landed, and the tool
-- policy that holds at this moment allows it.
pub handle_confirmation-RunsStored :
    (e : Event) (w : World)
    → ((handle_confirmation e w).1.calls ≡ w.calls)
      ⊎ RunsStored e (read_message (trim e.message)) w (handle_confirmation e w).1
unfolding handle_confirmation
handle_confirmation-RunsStored e w = runs_handle_reading e (read_message (trim e.message)) w
