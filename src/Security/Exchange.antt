-- ===== src/Security/Exchange.antt =====
-- src/security/confirm-handler.ts: what a confirmation reads and changes, and how its message is
-- read.
use invarail.Prelude.{
  ℕ, Bool, true, false, List, [], ◌∷◌, Option, none, some, Text, lower, take, given, if◌then◌else◌,
}
use invarail.Identity.{resolve_principal}
use invarail.Config.{Config}
use invarail.Registry.{Registry, Call, Run}
use invarail.Security.Ledger.{PendingAction, File}
use invarail.Security.Grants.{StandingGrant}
use invarail.Security.Policy.{Reason}
use invarail.Security.Patterns.{
  deny_match, always_match, confirmation_match, near_miss, parse_confirmation_id,
}

pub record Turn : Type 0 where
  pub agent_id : Text
  pub session_key : Text
  pub from_user : Bool

-- The rows of `logAutonomousAction`.
pub data Audit : Type 0 where
  action_denied : Text → Text → Audit
  denied_policy : Text → Reason → Audit
  action_confirmed : Text → Bool → Audit
  grant_minted : Text → Text → Audit

pub record World : Type 0 where
  pub ledger : File PendingAction
  pub grants : File StandingGrant
  pub calls : List Call
  pub transcript : List Turn
  pub audit : List Audit

-- `turns` is how many of the two transcript writes succeed before one throws; 0 with no session
-- store.
pub record Event : Type 0 where
  pub config : Config
  pub registry : Registry
  pub run : Run
  pub message : Text
  pub sender_id : Text
  pub channel : Text
  pub now : ℕ
  pub read_at : ℕ
  pub consumed_at : ℕ
  pub consume_lands : Bool
  pub grant_id : Text
  pub granted_at : ℕ
  pub grant_lands : Bool
  pub turns : ℕ

-- What is said about a standing grant behind the result of the call.
pub data GrantNote : Type 0 where
  no_note : GrantNote
  minted : Text → Text → Text → GrantNote
  not_supported : Text → GrantNote

-- The replies, with what each quotes.
pub data Reply : Type 0 where
  cancelled : Text → Reply
  no_match : List PendingAction → Reply
  not_recorded : Reply
  not_permitted : Reason → Reply
  no_success : Text → Text → GrantNote → Reply
  ran : Text → Text → GrantNote → Reply
  failed : Text → Text → Reply

pub record Executed : Type 0 where
  pub tool : Text
  pub observation : Text
  pub agent_id : Text
  pub session_key : Text
  pub category : Option Text

pub record ConfirmOutcome : Type 0 where
  pub handled : Bool
  pub reply : Option Reply
  pub executed : Option Executed

abbrev pub unhandled : ConfirmOutcome
unhandled = record { handled = false; reply = none; executed = none }

abbrev pub replied : Reply → Option Executed → ConfirmOutcome
replied r e = record { handled = true; reply = some r; executed = e }

-- How a trimmed message is read. `bare` is a confirmation with no id.
pub data Reading : Type 0 where
  deny : Text → Reading
  always : Text → Reading
  targeted : Text → Reading
  bare : Reading
  near : Reading
  other : Reading

unfoldable pub read_message : Text → Reading
read_message m = elim (deny_match m) [
  | some id ↦ deny (lower id)
  | none ↦ elim (always_match m) [
    | some id ↦ always (lower id)
    | none ↦ elim (confirmation_match m) [
      | some _ ↦ elim (given (parse_confirmation_id m)) [ some id ↦ targeted id | none ↦ bare ]
      | none ↦ if near_miss m then near else other
    ]
  ]
]

abbrev pub principal_of : Event → Text
principal_of e = resolve_principal e.sender_id e.config.people

-- The two transcript writes; the first that throws ends them.
abbrev pub exchange : Event → PendingAction → List Turn
exchange e a = take e.turns (
    record { agent_id = a.agent_id; session_key = a.session_key; from_user = true }
    ∷ record { agent_id = a.agent_id; session_key = a.session_key; from_user = false }
    ∷ [])
