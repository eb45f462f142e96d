-- ===== src/Dispatch.antt =====
-- src/dispatch.ts: the security layers that decide, before a model runs, which category serves a
-- message, which tools exist for it, and which of those ask first.
pub mod Gate
pub mod Scope
pub mod Confirmation
pub mod Gaps
use invarail.Prelude.{
  ℕ, Bool, true, false, ◌&&◌, ◌||◌, not, List, [], ◌∷◌, ◌++◌, map, Option, none, some, Text, text,
  lookup, given, ◌==◌, includes, starts_with, listed, keep, any, ltb, truthy, trim, delete_name,
  length, or_option, if◌then◌else◌,
}
use invarail.Identity.{resolve_principal, is_owner}
use invarail.Config.{ChannelSecurity, ChannelConfig, Specialist, Config}
use invarail.Registry.{Registry, Tool, mcp_prefix, expand_tool_names, get_metadata_confirm_tools}

-- `chConfig?.security`
abbrev own_security : Option ChannelConfig → Option ChannelSecurity
own_security none = none
own_security (some c) = c.security

abbrev pub console : Text
console = text "console"

abbrev pub web : Text
web = text "web"

abbrev pub chat : Text
chat = text "chat"

-- The console is hosted by the web adapter: without an entry of its own the web channel's policy
-- holds.
unfoldable pub resolve_channel_security : Config → Option Text → Option ChannelSecurity
resolve_channel_security config channel = elim (given channel) [
  | none ↦ none
  | some c ↦ elim (own_security (lookup c config.channels)) [
    | some s ↦ some s
    | none ↦ if c == console then own_security (lookup web config.channels) else none
  ]
]

-- `isTrusted`: a sender that is not known is trusted nowhere.
unfoldable pub sender_trusted : Config → Option ChannelSecurity → Option Text → Bool
sender_trusted config security none = false
sender_trusted config none (some raw) = true
sender_trusted config (some s) (some raw) = elim s.trusted_users [
  | none ↦ true
  | some users ↦ includes (resolve_principal raw config.people) users || includes raw users
]

unfoldable pub sender_owner : Config → Option Text → Bool
sender_owner config none = false
sender_owner config (some raw) = is_owner raw config.people

-- `allowedCategories[0] ?? config.router.defaultCategory`
abbrev first_or : List Text → Text → Text
first_or [] d = d
first_or (c ∷ cs) d = c

-- Layer 2b.
unfoldable pub allow_category : Option ChannelSecurity → Text → Text → Text
allow_category none default category = category
allow_category (some s) default category = elim s.allowed_categories [
  | none ↦ category
  | some cs ↦
      if includes category cs
      then category
      else if includes chat cs
      then chat
      else first_or cs default
]

-- Layer 2c.
unfoldable pub restrict_category : Option ChannelSecurity → Bool → Text → Text
restrict_category none trusted category = category
restrict_category (some s) trusted category =
    if not trusted && listed category s.restricted_categories then chat else category

unfoldable pub effective_category : Config → Option ChannelSecurity → Bool → Text → Text
unfolding allow_category restrict_category
effective_category config security trusted category =
    restrict_category security trusted (allow_category security config.default_category category)

-- `config.specialists[c] ?? getDefaultSpecialist(config, c)`
unfoldable pub specialist_for : Config → Text → Option Specialist
specialist_for config category =
    or_option (lookup category config.specialists)
      (if category == chat then some (record { tools = [] }) else none)

-- Layer 3a: tokens become tool names before any rule on tools is applied.
unfoldable pub expand_tokens : Registry → List Text → List Text
expand_tokens registry tools =
    if any (starts_with mcp_prefix) tools then expand_tool_names registry tools else tools

-- A rule that strips the tools of a list.
unfoldable pub strip : Option (List Text) → List Text → List Text
strip none tools = tools
strip (some names) tools = keep (λ t. not (includes t names)) tools

-- Layers 3b to 3d on the expanded names.
unfoldable pub strip_tools : Option ChannelSecurity → Bool → Bool → List Text → List Text
unfolding strip
strip_tools none owner trusted tools = tools
strip_tools (some s) owner trusted tools =
    let unblocked = strip s.blocked_tools tools in
    let owned = if owner then unblocked else strip s.owner_only_tools unblocked in
    if trusted then owned else strip s.restricted_tools owned

unfoldable pub filter_tools :
    Option ChannelSecurity → Bool → Bool → Registry → List Text → List Text
unfolding expand_tokens strip_tools
filter_tools security owner trusted registry tools =
    strip_tools security owner trusted (expand_tokens registry tools)

-- What a dispatch knows of the message besides its text.
pub record Situation : Type 0 where
  pub sticky : Bool
  pub cron_mode : Bool
  pub re_routed : Bool
  pub overridden : Bool
  pub channel : Option Text
  pub turn_count : Option ℕ
  pub browser_control : Bool

abbrev past_first_turn : Option ℕ → Bool
past_first_turn none = false
past_first_turn (some n) = ltb 0 n

abbrev is_console : Option Text → Bool
is_console none = false
is_console (some c) = c == console

-- Layer 4a2, the conversational guard: a short message in mid-conversation goes to chat.
unfoldable pub guard_fires : Situation → Text → Text → Bool
guard_fires s category message =
    not (category == chat)
    && not s.sticky
    && not s.cron_mode
    && not s.re_routed
    && not s.overridden
    && not (is_console s.channel)
    && past_first_turn s.turn_count
    && ltb (length (trim message)) 30

-- 4a2 and 4a3: `specialistConfig = config.specialists.chat ?? specialistConfig`, then browser
-- control.
unfoldable pub guarded_tools : Config → Situation → Text → Text → List Text → List Text
guarded_tools config s category message tools =
    let chosen =
      if guard_fires s category message
      then elim (lookup chat config.specialists) [ none ↦ tools | some sp ↦ sp.tools ]
      else tools in
    if s.browser_control then keep (λ t. not (t == text "web_fetch")) chosen else chosen

abbrev pub cron_blocked_tools : List Text
cron_blocked_tools =
    text "write_file"
    ∷ text "task_add"
    ∷ text "task_update"
    ∷ text "task_done"
    ∷ text "task_remove"
    ∷ text "workspace_write"
    ∷ text "memory_save"
    ∷ []

abbrev pub exec_tool : Text
exec_tool = text "exec"

abbrev pub message_category : Text
message_category = text "message"

abbrev pub send_message : Text
send_message = text "send_message"

unfoldable pub cron_keeps : Text → Text → Bool
cron_keeps category t =
    not (includes t cron_blocked_tools)
    && not (t == exec_tool && not (category == exec_tool))
    && not (t == send_message && not (category == message_category))

unfoldable pub filter_cron_tools : List Text → Text → List Text
unfolding cron_keeps
filter_cron_tools tools category = keep (cron_keeps category) tools

abbrev pub names_or_none : Option (List Text) → List Text
names_or_none none = []
names_or_none (some xs) = xs

abbrev pub confirm_list : Option ChannelSecurity → List Text
confirm_list none = []
confirm_list (some s) = names_or_none s.confirm_tools

abbrev pub auto_list : Option ChannelSecurity → List Text
auto_list none = []
auto_list (some s) = names_or_none s.auto_approve_tools

-- The tool that an owner-scheduled job of this category is approved for.
unfoldable pub category_tool : Text → Option Text
category_tool category =
    if category == message_category
    then some send_message
    else if category == exec_tool
    then some exec_tool
    else none

unfoldable pub promote : List Text → List Text → List Text → List Text
promote explicit [] set = set
promote explicit (t ∷ ts) set =
    promote explicit ts (if includes t explicit then set else delete_name t set)

unfoldable pub waive_cron : List Text → Option Text → List Text → List Text
waive_cron explicit none set = set
waive_cron explicit (some t) set = if includes t explicit then set else delete_name t set

unfoldable pub resolve_confirm_set : Registry → Option ChannelSecurity → Bool → Text → List Text
unfolding promote waive_cron category_tool
resolve_confirm_set registry security cron_mode category =
    let explicit = confirm_list security in
    let promoted =
      promote explicit (auto_list security) (explicit ++ get_metadata_confirm_tools registry) in
    if cron_mode then waive_cron explicit (category_tool category) promoted else promoted
