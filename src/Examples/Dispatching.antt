-- ===== src/Examples/Dispatching.antt =====
-- Dispatches at concrete inputs.
use invarail.Prelude.{
  ◌≡◌, ◌↔◌, refl, true, false, ◌&&◌, [], ◌∷◌, none, some, text, trim, includes, starts_with, lookup,
  is_some, ◌==◌, arith, if◌then◌else◌,
}
use invarail.Identity.{is_owner}
use invarail.Config.{Config}
use invarail.Examples.Data.{alice, echo, rules, config, registry, echo_call}
use invarail.Registry.{
  expand_tool_names, expand_name, returned, get_tool, get_metadata_confirm_tools,
}
use invarail.Security.Ledger.{PendingAction, find_by_id}
use invarail.Security.Grants.{resolve_grant_approval}
use invarail.Security.Policy.{allowed, channel_security, outside, check_tool_policy}
use invarail.Dispatch.{
  strip_tools, expand_tokens, strip, sender_owner, sender_trusted, filter_tools, effective_category,
  resolve_confirm_set, chat, Situation, guard_fires, guarded_tools,
}
use invarail.Dispatch.Scope.{query_of, offered, filter_tools-check_tool_policy_iff}
use invarail.Dispatch.Confirmation.{includes-resolve_confirm_set}
use invarail.Dispatch.Gaps.{guarded_tools_unfiltered}
use invarail.Dispatch.Gate.{Dispatch, Moment, GateState, preview_of, approval_of, gated_execute}
use invarail.Dispatch.Gate.Laws.{calls-gated_execute, gated_execute_previews}

abbrev dispatch : Dispatch
dispatch = record {
  registry = registry;
  run = λ _. returned (text "ok");
  allowed_tools = echo ∷ [];
  confirm_set = echo ∷ [];
  principal = some alice;
  channel = some (text "web");
  origin = none;
  agent_id = text "main";
  session_key = text "s";
  category = text "chat";
}

abbrev moment : Moment
moment = record { id = text "3fa2c1b9"; now = 5; read_at = 6; lands = true }

abbrev state : GateState
state = record { ledger = none; grants = none; calls = [] }

calls-gated_execute_example : (gated_execute dispatch moment echo_call state).1.calls ≡ (
    if includes echo (echo ∷ [])
      && is_some (get_tool echo registry)
      && (if includes echo (echo ∷ [])
          then is_some (approval_of dispatch echo_call state)
          else true)
    then echo_call ∷ []
    else [])
calls-gated_execute_example = calls-gated_execute dispatch moment echo_call state

gated_execute_previews_example :
    ((gated_execute dispatch moment echo_call state).1.calls ≡ [])
    × ((a : PendingAction) × (find_by_id
            (text "3fa2c1b9")
            alice
            7
            (gated_execute dispatch moment echo_call state).1.ledger
          ≡ some a)
        × (a.preview ≡ preview_of dispatch echo_call))
unfolding includes ◌==◌ resolve_grant_approval lookup get_tool trim
gated_execute_previews_example =
    gated_execute_previews dispatch moment echo_call state 7 refl refl refl refl tt (omega arith)

abbrev first_message : Situation
first_message = record {
  sticky = false;
  cron_mode = false;
  re_routed = false;
  overridden = false;
  channel = some (text "web");
  turn_count = some 0;
  browser_control = false;
}

filter_tools-check_tool_policy_iff_example :
    (effective_category config (some rules) (sender_trusted config (some rules) (some alice)) chat
      ≡ chat)
    × ((includes echo (
            offered config registry first_message chat (text "say hello") (
              filter_tools
                (some rules)
                (sender_owner config (some alice))
                (sender_trusted config (some rules) (some alice))
                registry
                (echo ∷ [])))
          ≡ true)
        ↔ (check_tool_policy config registry (query_of config alice (text "web") chat echo)
            ≡ allowed))
unfolding channel_security lookup outside includes ◌==◌ sender_trusted guard_fires filter_tools
    strip_tools expand_tokens strip sender_owner starts_with expand_tool_names expand_name is_owner
filter_tools-check_tool_policy_iff_example =
    filter_tools-check_tool_policy_iff config registry rules (record { tools = echo ∷ [] }) alice
      (text "web") chat echo refl refl refl refl refl first_message (text "say hello") refl refl
      refl refl

includes-resolve_confirm_set_example :
    includes echo (resolve_confirm_set registry (some rules) false chat) ≡ true
unfolding includes ◌==◌ get_metadata_confirm_tools
includes-resolve_confirm_set_example =
    includes-resolve_confirm_set registry (some rules) false chat echo

abbrev lenient : Config
lenient = record config { specialists = (chat, record { tools = text "exec" ∷ [] }) ∷ [] }

abbrev mid_conversation : Situation
mid_conversation = record {
  sticky = false;
  cron_mode = false;
  re_routed = false;
  overridden = false;
  channel = some (text "web");
  turn_count = some 2;
  browser_control = false;
}

guarded_tools_unfiltered_example :
    (includes (text "exec") (filter_tools (some rules) false true registry (text "exec" ∷ []))
      ≡ false)
    × (includes (text "exec") (
          guarded_tools lenient mid_conversation
            (text "code")
            (text "ok then")
            (filter_tools (some rules) false true registry (text "exec" ∷ [])))
        ≡ true)
unfolding lookup includes ◌==◌ guard_fires trim
guarded_tools_unfiltered_example =
    guarded_tools_unfiltered lenient registry rules false true mid_conversation (text "code")
      (text "ok then") (text "exec") (text "exec" ∷ []) (record { tools = text "exec" ∷ [] }) refl
      refl refl refl refl
