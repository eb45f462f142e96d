-- ===== src/Dispatch/Gaps.antt =====
-- Where the layers of a dispatch and the policy at confirmation answer differently.
use invarail.Prelude.{
  ◌≡◌, refl, Bool, true, false, List, none, some, Text, includes, listed, given, ◌==◌, eq_refl,
  lookup, arith,
}
use invarail.Config.{ChannelSecurity, Specialist, Config}
use invarail.Registry.{Registry}
use invarail.Security.Policy.{
  Query, category_not_allowed, allowed, denied, channel_security, check_tool_policy,
  category_layers, tool_layers, specialist_layer, outside,
}
use invarail.Dispatch.Scope.{includes-strip}
use invarail.Dispatch.{
  console, web, chat, resolve_channel_security, strip, strip_tools, expand_tokens, filter_tools,
  allow_category, restrict_category, effective_category, Situation, guard_fires, guarded_tools,
}

blocked_absent :
    (s : ChannelSecurity) (owner trusted : Bool) (t : Text) (tools : List Text)
    → listed t s.blocked_tools ≡ true
    → includes t (strip_tools (some s) owner trusted tools) ≡ false
unfolding strip_tools
blocked_absent s owner trusted t tools h = ground (
  arith,
  includes-strip s.blocked_tools t tools,
  includes-strip s.owner_only_tools t (strip s.blocked_tools tools),
  includes-strip s.restricted_tools t (strip s.blocked_tools tools),
  includes-strip s.restricted_tools t (strip s.owner_only_tools (strip s.blocked_tools tools)),
)

inherits :
    (config : Config) (s : ChannelSecurity) (c : Text)
    → given (some c) ≡ some c
    → (c == console) ≡ true
    → channel_security config (some c) ≡ none
    → channel_security config (some web) ≡ some s
    → resolve_channel_security config (some c) ≡ some s
unfolding resolve_channel_security channel_security
inherits config s c named is_console no_own web_own = ground arith

console_inherits :
    (config : Config) (s : ChannelSecurity)
    → channel_security config (some console) ≡ none
    → channel_security config (some web) ≡ some s
    → resolve_channel_security config (some console) ≡ some s
console_inherits config s = inherits config s console refl (eq_refl console)

-- On the console, where only the web channel has a policy and it blocks the tool: a dispatch does
-- not offer the tool, but the policy at confirmation allows it, if the specialist of the category
-- does not rule it out.
pub check_tool_policy-console_gap :
    (config : Config) (registry : Registry) (s : ChannelSecurity) (q : Query) (owner trusted : Bool)
    (tools : List Text)
    → q.channel ≡ some console
    → channel_security config (some console) ≡ none
    → channel_security config (some web) ≡ some s
    → listed q.tool s.blocked_tools ≡ true
    → specialist_layer config registry (given q.category) q.tool ≡ none
    → (check_tool_policy config registry q ≡ allowed)
      × (includes q.tool
            (filter_tools (resolve_channel_security config q.channel) owner trusted registry tools)
          ≡ false)
unfolding check_tool_policy filter_tools category_layers tool_layers
check_tool_policy-console_gap config registry s q owner trusted tools at no_own web_own blocked
      fits =
    rw at (
      rw (no_own, console_inherits config s no_own web_own, fits)
        (ground
          (arith, blocked_absent s owner trusted q.tool (expand_tokens registry tools) blocked)))

-- On a channel with a policy whose list of categories has chat, a category outside the list is
-- served as chat; but a call that was recorded under that category is denied at confirmation.
pub check_tool_policy_remapped :
    (config : Config) (registry : Registry) (s : ChannelSecurity) (trusted : Bool) (q : Query)
    (cat : Text)
    → channel_security config (given q.channel) ≡ some s
    → given q.category ≡ some cat
    → outside cat s.allowed_categories ≡ true
    → outside chat s.allowed_categories ≡ false
    → (effective_category config (some s) trusted cat ≡ chat)
      × (check_tool_policy config registry q ≡ denied (category_not_allowed cat q.channel))
unfolding check_tool_policy effective_category allow_category restrict_category category_layers
    outside
check_tool_policy_remapped config registry s trusted q cat own named out in_chat =
    rw (own, named) (ground arith)

-- Where a channel blocks a tool and the chat specialist lists it: the filter has taken the tool out
-- of the list of whatever specialist was chosen, but if the conversational guard fires, and no
-- browser is under control, the tools of the message are those of the chat specialist and hold it.
pub guarded_tools_unfiltered :
    (config : Config) (registry : Registry) (s : ChannelSecurity) (owner trusted : Bool)
    (situation : Situation) (category message t : Text) (tools : List Text) (sp : Specialist)
    → listed t s.blocked_tools ≡ true
    → guard_fires situation category message ≡ true
    → situation.browser_control ≡ false
    → lookup chat config.specialists ≡ some sp
    → includes t sp.tools ≡ true
    → (includes t (filter_tools (some s) owner trusted registry tools) ≡ false)
      × (includes t (
            guarded_tools config situation category message
              (filter_tools (some s) owner trusted registry tools))
          ≡ true)
unfolding guarded_tools filter_tools
guarded_tools_unfiltered config registry s owner trusted situation category message t tools sp
      blocked fires no_browser is_chat has =
    (
      blocked_absent s owner trusted t (expand_tokens registry tools) blocked,
      rw (fires, no_browser, is_chat) has,
    )
