-- ===== src/Security/Confirm.antt =====
-- src/security/confirm-handler.ts: the one entry point of every confirmation. The handler changes a
-- `World`; what it reads from outside (the message, clocks, the tools, whether writes land) is an
-- `Event`. It awaits nothing between choosing an action and consuming it.
pub mod Laws
pub mod Runs
pub mod History
pub mod Denial
use invarail.Prelude.{
  ℕ, Bool, true, false, ◌&&◌, ◌||◌, not, List, [], ◌∷◌, ◌++◌, Option, none, some, Text, text, trim,
  lower, starts_with, given, if◌then◌else◌,
}
use invarail.Registry.{Tool, Outcome, returned, threw, ToolContext, Call, get_tool, scoped_execute}
use invarail.Security.Ledger.{
  PendingAction, File, bare_confirm_max_age_ms, latest_for, find_by_id, list_for, consume,
}
use invarail.Security.Grants.{confirm, grant_target_for, record_grant}
use invarail.Security.Policy.{Query, Reason, Verdict, allowed, denied, check_tool_policy}
use invarail.Security.Exchange.{
  Audit, action_denied, denied_policy, action_confirmed, grant_minted, World, Event, GrantNote,
  no_note, minted, not_supported, Reply, cancelled, no_match, not_recorded, not_permitted,
  no_success, ran, failed, Executed, ConfirmOutcome, unhandled, replied, Reading, deny, always,
  targeted, bare, near, other, read_message, principal_of, exchange,
}

unfoldable pub deny_action : Event → Text → World → ConfirmOutcome × World
deny_action e id w = elim (find_by_id id (principal_of e) e.read_at w.ledger) [
  | none ↦ (unhandled, w)
  | some a ↦ (
    replied (cancelled a.tool) none,
    record w {
      ledger = (consume a.id e.consumed_at e.consume_lands w.ledger).1;
      audit = w.audit ++ action_denied a.tool a.id ∷ [];
      transcript = w.transcript ++ exchange e a;
    },
  )
]

-- The action that a confirmation means.
unfoldable pub select_action : Event → Reading → File PendingAction → Option PendingAction
select_action e (always id) file = find_by_id id (principal_of e) e.read_at file
select_action e (targeted id) file = find_by_id id (principal_of e) e.read_at file
select_action e bare file =
    latest_for (principal_of e) (some e.channel) (some bare_confirm_max_age_ms) e.now e.read_at file
select_action e near file = none
select_action e other file = none
select_action e (deny id) file = none

-- `if (isStrict && !targetId) return { handled: false }`, else the list of open proposals.
abbrev no_pending : Event → Reading → World → ConfirmOutcome
no_pending e bare w = unhandled
no_pending e other w = unhandled
no_pending e _ w = replied (no_match (list_for (principal_of e) e.read_at w.ledger)) none

abbrev pub stored_query : Event → PendingAction → Query
stored_query e a = record {
  tool = a.tool;
  category = a.category;
  channel = some a.channel;
  sender_id = principal_of e;
  raw_sender_id = some e.sender_id;
}

abbrev pub stored_call : Event → PendingAction → Call
stored_call e a = record {
  tool = a.tool;
  params = a.params;
  context = record {
    agent_id = a.agent_id;
    session_key = a.session_key;
    sender_id = some (principal_of e);
    channel = some e.channel;
    channel_id = none;
  };
}

-- `/^(Error|Failed)/i.test(observation.trim())`
unfoldable pub reports_failure : Text → Bool
reports_failure observation =
    let s = lower (trim observation) in
    starts_with (text "error") s || starts_with (text "failed") s

abbrev pub is_always : Reading → Bool
is_always (always id) = true
is_always _ = false

-- "always": a grant for this tool and target, never off a failed run.
unfoldable pub mint_grant : Event → PendingAction → World → GrantNote × World
mint_grant e a w = elim (given (grant_target_for (get_tool a.tool e.registry) a.params)) [
  | none ↦ (not_supported a.tool, w)
  | some target ↦
      let (grant, grants) =
        record_grant e.grant_id e.granted_at e.grant_lands a.tool target (principal_of e) e.channel
          confirm w.grants in
      (
        minted a.tool target grant.id,
        record w { grants = grants; audit = w.audit ++ grant_minted a.tool target ∷ [] },
      )
]

abbrev executed_of : PendingAction → Text → Executed
executed_of a observation = record {
  tool = a.tool;
  observation = observation;
  agent_id = a.agent_id;
  session_key = a.session_key;
  category = a.category;
}

abbrev pub write_exchange : Event → PendingAction → World → World
write_exchange e a w = record w { transcript = w.transcript ++ exchange e a }

-- What follows the tool's answer, or its error.
unfoldable pub finish : Event → Reading → PendingAction → Outcome → World → ConfirmOutcome × World
unfolding mint_grant
finish e r a (threw message) w = (
  replied (failed a.tool message) none,
  write_exchange e a (record w { audit = w.audit ++ action_confirmed a.tool false ∷ [] }),
)
finish e r a (returned observation) w =
    let ok = not (reports_failure observation) in
    let w' : World = record w { audit = w.audit ++ action_confirmed a.tool ok ∷ [] } in
    let done : Option Executed = if ok then some (executed_of a observation) else none in
    let (note, w'') = if ok && is_always r then mint_grant e a w' else (no_note, w') in
    (
      replied (if ok then ran a.tool observation note else no_success a.tool observation note) done,
      write_exchange e a w'',
    )

-- The stored call, scoped to exactly its tool.
unfoldable pub execute_action : Event → Reading → PendingAction → World → ConfirmOutcome × World
unfolding scoped_execute finish
execute_action e r a w =
    let (outcome, calls) =
      scoped_execute (a.tool ∷ []) e.registry e.run (stored_call e a) w.calls in
    finish e r a outcome (record w { calls = calls })

-- What the policy of now says of the stored action decides.
unfoldable pub after_verdict :
    Event → Reading → PendingAction → Verdict → World → ConfirmOutcome × World
unfolding execute_action
after_verdict e r a (denied reason) w = (
  replied (not_permitted reason) none,
  record w { audit = w.audit ++ denied_policy a.tool reason ∷ [] },
)
after_verdict e r a allowed w = execute_action e r a w

-- Consumption must have landed before anything runs.
unfoldable pub after_consume :
    Event → Reading → PendingAction → Option PendingAction → World → ConfirmOutcome × World
unfolding after_verdict
after_consume e r a none w = (replied not_recorded none, w)
after_consume e r a (some _) w =
    after_verdict e r a (check_tool_policy e.config e.registry (stored_query e a)) w

unfoldable pub authorize_action : Event → Reading → PendingAction → World → ConfirmOutcome × World
unfolding after_consume
authorize_action e r a w =
    let (spent, ledger) = consume a.id e.consumed_at e.consume_lands w.ledger in
    after_consume e r a spent (record w { ledger = ledger })

abbrev confirm_action : Event → Reading → World → ConfirmOutcome × World
confirm_action e r w = elim (select_action e r w.ledger) [
  | none ↦ (no_pending e r w, w)
  | some a ↦ authorize_action e r a w
]

abbrev pub handle_reading : Event → Reading → World → ConfirmOutcome × World
handle_reading e (deny id) w = deny_action e id w
handle_reading e other w = (unhandled, w)
handle_reading e (always id) w = confirm_action e (always id) w
handle_reading e (targeted id) w = confirm_action e (targeted id) w
handle_reading e bare w = confirm_action e bare w
handle_reading e near w = confirm_action e near w

unfoldable pub handle_confirmation : Event → World → ConfirmOutcome × World
unfolding deny_action select_action authorize_action
handle_confirmation e w = handle_reading e (read_message (trim e.message)) w
