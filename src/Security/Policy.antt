-- ===== src/Security/Policy.antt =====
-- src/security/tool-policy.ts: may this principal run this tool in this category on this channel?
use invarail.Prelude.{
  Bool, true, false, ◌&&◌, ◌||◌, not, List, Option, none, some, Text, lookup, given, includes,
  listed, if◌then◌else◌,
}
use invarail.Identity.{is_owner}
use invarail.Config.{ChannelSecurity, Config}
use invarail.Registry.{Registry, expand_tool_names}

pub record Query : Type 0 where
  pub tool : Text
  pub category : Option Text
  pub channel : Option Text
  pub sender_id : Text
  pub raw_sender_id : Option Text

-- The reasons, with what the message of each quotes.
pub data Reason : Type 0 where
  category_not_allowed : Text → Option Text → Reason
  category_restricted : Text → Reason
  tool_blocked : Text → Option Text → Reason
  tool_owner_only : Text → Reason
  tool_restricted : Text → Reason
  not_in_specialist : Text → Text → Reason

pub data Verdict : Type 0 where
  allowed : Verdict
  denied : Reason → Verdict

-- `config.channels?.[channel]?.security`
unfoldable pub channel_security : Config → Option Text → Option ChannelSecurity
channel_security config none = none
channel_security config (some channel) = elim (lookup channel config.channels) [
  | none ↦ none
  | some c ↦ c.security
]

-- `!security?.trustedUsers || …`
unfoldable pub is_trusted : Option ChannelSecurity → Text → Option Text → Bool
is_trusted none sender raw = true
is_trusted (some s) sender raw = elim s.trusted_users [
  | none ↦ true
  | some users ↦ includes sender users || elim raw [ none ↦ false | some r ↦ includes r users ]
]

-- `x && security?.list && !security.list.includes(x)`
unfoldable pub outside : Text → Option (List Text) → Bool
outside a none = false
outside a (some xs) = not (includes a xs)

-- The two layers on the category; `none` lets the query through.
unfoldable pub category_layers :
    Option ChannelSecurity → Bool → Option Text → Option Text → Option Reason
unfolding outside
category_layers none trusted channel category = none
category_layers (some s) trusted channel none = none
category_layers (some s) trusted channel (some category) =
    if outside category s.allowed_categories
    then some (category_not_allowed category channel)
    else if not trusted && listed category s.restricted_categories
    then some (category_restricted category)
    else none

-- The three layers on the tool.
unfoldable pub tool_layers :
    Option ChannelSecurity → Bool → Bool → Option Text → Text → Option Reason
tool_layers none owner trusted channel tool = none
tool_layers (some s) owner trusted channel tool =
    if listed tool s.blocked_tools
    then some (tool_blocked tool channel)
    else if not owner && listed tool s.owner_only_tools
    then some (tool_owner_only tool)
    else if not trusted && listed tool s.restricted_tools
    then some (tool_restricted tool)
    else none

-- The specialist's tool set.
unfoldable pub specialist_layer : Config → Registry → Option Text → Text → Option Reason
specialist_layer config registry none tool = none
specialist_layer config registry (some category) tool = elim (lookup category config.specialists) [
  | none ↦ none
  | some specialist ↦
      if includes tool (expand_tool_names registry specialist.tools)
      then none
      else some (not_in_specialist tool category)
]

-- The first layer that denies gives the reason.
abbrev pub first_reason : Option Reason → Option Reason → Option Reason → Verdict
first_reason (some r) _ _ = denied r
first_reason none (some r) _ = denied r
first_reason none none (some r) = denied r
first_reason none none none = allowed

abbrev is_owner_either : Config → Query → Bool
is_owner_either config q =
    is_owner q.sender_id config.people
    || elim q.raw_sender_id [ none ↦ false | some raw ↦ is_owner raw config.people ]

unfoldable pub check_tool_policy : Config → Registry → Query → Verdict
unfolding channel_security is_trusted category_layers tool_layers specialist_layer
check_tool_policy config registry q =
    let security = channel_security config (given q.channel) in
    let trusted = is_trusted security q.sender_id q.raw_sender_id in
    first_reason (category_layers security trusted q.channel (given q.category))
      (tool_layers security (is_owner_either config q) trusted q.channel q.tool)
      (specialist_layer config registry (given q.category) q.tool)
