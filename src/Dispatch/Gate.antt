-- ===== src/Dispatch/Gate.antt =====
-- src/dispatch.ts: the executor that a dispatch gives to the tool loop and to pipelines. A tool
-- that must ask first is recorded in the ledger instead of run, unless a grant covers the call.
pub mod Laws
use invarail.Prelude.{
  ℕ, Bool, true, false, List, [], ◌∷◌, ◌++◌, Option, none, some, Text, text, includes, ltb, length,
  or_else, if◌then◌else◌,
}
use invarail.Registry.{
  Registry, Outcome, returned, ToolContext, Call, Run, get_tool, scoped_execute,
}
use invarail.Security.Ledger.{PendingAction, Preview, File, ttl_ms, record_action}
use invarail.Security.Grants.{StandingGrant, Approval, Origin, resolve_grant_approval}

-- What is fixed for one dispatch; `category` is the one that the router gave.
pub record Dispatch : Type 0 where
  pub registry : Registry
  pub run : Run
  pub allowed_tools : List Text
  pub confirm_set : List Text
  pub principal : Option Text
  pub channel : Option Text
  pub origin : Option Origin
  pub agent_id : Text
  pub session_key : Text
  pub category : Text

-- What a call finds when it is made: an id, the clocks, and whether the ledger can be written.
pub record Moment : Type 0 where
  pub id : Text
  pub now : ℕ
  pub read_at : ℕ
  pub lands : Bool

pub record GateState : Type 0 where
  pub ledger : File PendingAction
  pub grants : File StandingGrant
  pub calls : List Call

-- The observation that the loop gets.
pub data Observation : Type 0 where
  outcome : Outcome → Observation
  ledger_unwritable : Text → Observation
  confirmation_required : Call → Text → Observation

abbrev pub unknown : Text
unknown = text "unknown"

abbrev pub preview_of : Dispatch → Call → Preview
preview_of d call = record {
  tool = call.tool;
  params = call.params;
  sender = or_else d.principal unknown;
  channel = or_else d.channel unknown;
  agent_id = d.agent_id;
  session_key = d.session_key;
  category = some d.category;
}

abbrev pub run_scoped : Dispatch → Call → GateState → Observation × GateState
run_scoped d call s =
    let (result, calls) = scoped_execute d.allowed_tools d.registry d.run call s.calls in
    (outcome result, record s { calls = calls })

abbrev answer_recorded : Call → Option PendingAction → Observation
answer_recorded call none = ledger_unwritable call.tool
answer_recorded call (some a) = confirmation_required call a.id

unfoldable pub ask_first : Dispatch → Moment → Call → GateState → Observation × GateState
ask_first d m call s =
    let (recorded, ledger) =
      record_action m.id m.now m.read_at ttl_ms m.lands (preview_of d call) s.ledger in
    (answer_recorded call recorded, record s { ledger = ledger })

-- The call's grant approval for the principal of this dispatch.
abbrev pub approval_of : Dispatch → Call → GateState → Option Approval
approval_of d call s =
    resolve_grant_approval (get_tool call.tool d.registry) call.params (or_else d.principal unknown)
      d.origin s.grants

unfoldable pub gated_execute : Dispatch → Moment → Call → GateState → Observation × GateState
unfolding ask_first
gated_execute d m call s =
    if includes call.tool d.allowed_tools
    then (if includes call.tool d.confirm_set
        then (elim (approval_of d call s) [
          | some _ ↦ run_scoped d call s
          | none ↦ ask_first d m call s
        ])
        else run_scoped d call s)
    else run_scoped d call s
