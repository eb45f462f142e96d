-- ===== src/Dispatch/Scope.antt =====
-- The tools that a dispatch offers, against the policy that is asked again at confirmation.
use invarail.Prelude.{
  ◌≡◌, ◌↔◌, Bool, true, false, ◌&&◌, not, List, [], ◌∷◌, Option, none, some, inl, inr, Text,
  includes, listed, given, lookup, arith, Bool-cases, if◌then◌else◌, any, starts_with,
}
use invarail.Prelude.{includes-keep}
use invarail.Identity.{resolve_principal, is_owner}
use invarail.Identity.Laws.{is_owner-resolve_principal}
use invarail.Config.{ChannelSecurity, Specialist, Config}
use invarail.Registry.{Registry, mcp_prefix, expand_tool_names}
use invarail.Registry.Laws.{expand_tool_names_plain}
use invarail.Security.Policy.{
  Query, allowed, channel_security, is_trusted, check_tool_policy, tool_layers, outside,
}
use invarail.Dispatch.{
  resolve_channel_security, sender_trusted, sender_owner, strip, strip_tools, expand_tokens,
  filter_tools, effective_category, Situation, guard_fires, guarded_tools, filter_cron_tools,
}

pub includes-strip :
    (names : Option (List Text)) (t : Text) (tools : List Text)
    → includes t (strip names tools) ≡ (includes t tools && not (listed t names))
unfolding strip
includes-strip none t tools = ground arith
includes-strip (some xs) t tools = includes-keep (λ u. not (includes u xs)) t tools

-- A tool survives the stripping layers exactly if no tool layer of the policy denies it.
includes-strip_tools :
    (security : Option ChannelSecurity) (owner trusted : Bool) (channel : Option Text) (t : Text)
    (tools : List Text)
    → includes t tools ≡ true
    → (includes t (strip_tools security owner trusted tools) ≡ true)
      ↔ (tool_layers security owner trusted channel t ≡ none)
unfolding strip_tools tool_layers
includes-strip_tools none owner trusted channel t tools h = ground arith
includes-strip_tools (some s) true true channel t tools h =
    ground (arith, includes-strip s.blocked_tools t tools)
includes-strip_tools (some s) true false channel t tools h = ground (
  arith,
  includes-strip s.blocked_tools t tools,
  includes-strip s.restricted_tools t (strip s.blocked_tools tools),
)
includes-strip_tools (some s) false true channel t tools h = ground (
  arith,
  includes-strip s.blocked_tools t tools,
  includes-strip s.owner_only_tools t (strip s.blocked_tools tools),
)
includes-strip_tools (some s) false false channel t tools h = ground (
  arith,
  includes-strip s.blocked_tools t tools,
  includes-strip s.owner_only_tools t (strip s.blocked_tools tools),
  includes-strip s.restricted_tools t (strip s.owner_only_tools (strip s.blocked_tools tools)),
)

includes-strip_tools_absent :
    (security : Option ChannelSecurity) (owner trusted : Bool) (t : Text) (tools : List Text)
    → includes t tools ≡ false
    → includes t (strip_tools security owner trusted tools) ≡ false
unfolding strip_tools
includes-strip_tools_absent none owner trusted t tools h = h
includes-strip_tools_absent (some s) owner trusted t tools h = ground (
  arith,
  includes-strip s.blocked_tools t tools,
  includes-strip s.owner_only_tools t (strip s.blocked_tools tools),
  includes-strip s.restricted_tools t (strip s.blocked_tools tools),
  includes-strip s.restricted_tools t (strip s.owner_only_tools (strip s.blocked_tools tools)),
)

expand_tokens_eq :
    (registry : Registry) (tools : List Text)
    → expand_tokens registry tools ≡ expand_tool_names registry tools
unfolding expand_tokens
expand_tokens_eq registry tools = ground (arith, expand_tool_names_plain registry tools)

resolve_channel_security_own :
    (config : Config) (c : Text) (s : ChannelSecurity)
    → channel_security config (given (some c)) ≡ some s
    → resolve_channel_security config (some c) ≡ some s
unfolding channel_security resolve_channel_security
resolve_channel_security_own config [] s h = ground arith
resolve_channel_security_own config (x ∷ c) s h = ground arith

-- The question that the confirmation handler asks about a call that `raw` previewed.
abbrev pub query_of : Config → Text → Text → Text → Text → Query
query_of config raw c cat t = record {
  tool = t;
  category = some cat;
  channel = some c;
  sender_id = resolve_principal raw config.people;
  raw_sender_id = some raw;
}

-- What the executors are given of the tools that the filter left: `runSpecialist` expands the names
-- once more.
abbrev pub offered : Config → Registry → Situation → Text → Text → List Text → List Text
offered config registry situation cat message tools =
    let chosen = expand_tool_names registry (guarded_tools config situation cat message tools) in
    if situation.cron_mode then filter_cron_tools chosen cat else chosen

module _ (config : Config) (registry : Registry) (s : ChannelSecurity) (sp : Specialist)
    (raw c cat t : Text) (own : channel_security config (given (some c)) ≡ some s)
    (named : given (some cat) ≡ some cat) (inside : outside cat s.allowed_categories ≡ false)
    (unrestricted : (not (sender_trusted config (some s) (some raw))
        && listed cat s.restricted_categories)
      ≡ false)
    (specialist : lookup cat config.specialists ≡ some sp) (situation : Situation) (message : Text)
    (no_guard : guard_fires situation cat message ≡ false)
    (no_browser : situation.browser_control ≡ false) (no_cron : situation.cron_mode ≡ false)
    (plain : any (starts_with mcp_prefix) (
        filter_tools
          (some s)
          (sender_owner config (some raw))
          (sender_trusted config (some s) (some raw))
          registry
          sp.tools)
      ≡ false) where
  same_trust :
      is_trusted (some s) (resolve_principal raw config.people) (some raw)
      ≡ sender_trusted config (some s) (some raw)
  unfolding is_trusted sender_trusted
  same_trust = ground arith

  -- The verdict is the tool layers' and the specialist's alone.
  verdict_eq : (check_tool_policy config registry (query_of config raw c cat t) ≡ allowed) ↔ (
      (tool_layers
          (some s)
          (is_owner raw config.people)
          (sender_trusted config (some s) (some raw))
          (some c)
          t
        ≡ none)
      × (includes t (expand_tool_names registry sp.tools) ≡ true))
  unfolding check_tool_policy
  verdict_eq =
      rw (own, named)
        (ground (arith, own, same_trust, is_owner-resolve_principal raw config.people))

  effective_category_eq :
      effective_category config (some s) (sender_trusted config (some s) (some raw)) cat ≡ cat
  unfolding effective_category outside
  effective_category_eq = ground arith

  -- The tools that survive the filter are those that the policy allows.
  filtered_iff :
      (includes t (
          filter_tools
            (some s)
            (sender_owner config (some raw))
            (sender_trusted config (some s) (some raw))
            registry
            sp.tools)
        ≡ true)
      ↔ (check_tool_policy config registry (query_of config raw c cat t) ≡ allowed)
  unfolding filter_tools sender_owner
  filtered_iff =
      rw expand_tokens_eq (elim (Bool-cases (includes t (expand_tool_names registry sp.tools))) [
        | inl here ↦
            let lemma =
              includes-strip_tools (some s) (is_owner raw config.people)
                (sender_trusted config (some s) (some raw)) (some c) t
                (expand_tool_names registry sp.tools) here in
            (λ e. verdict_eq.1 (lemma.0 e, here), λ e. lemma.1 (verdict_eq.0 e).0)
        | inr gone ↦
            let absent =
              includes-strip_tools_absent (some s) (is_owner raw config.people)
                (sender_trusted config (some s) (some raw)) t (expand_tool_names registry sp.tools)
                gone in
            (λ e. cc (e, absent), λ e. cc (gone, (verdict_eq.0 e).1))
      ])

  -- On a channel with a policy of its own, in a category that has a specialist, is allowed, and is
  -- not restricted for the sender: the channel's rules keep the category; and where the
  -- conversational guard does not fire, no browser is under control, the message is no scheduled
  -- job, and no tool that is left is named like an mcp token: the tools behind the filter, the guard
  -- and the browser's and the jobs' rules hold a tool exactly if the policy, asked about that tool at
  -- confirmation, allows it.
  pub filter_tools-check_tool_policy_iff :
      (effective_category config (some s) (sender_trusted config (some s) (some raw)) cat ≡ cat)
      × ((includes t (
              offered config registry situation cat message (
                filter_tools
                  (some s)
                  (sender_owner config (some raw))
                  (sender_trusted config (some s) (some raw))
                  registry
                  sp.tools))
            ≡ true)
          ↔ (check_tool_policy config registry (query_of config raw c cat t) ≡ allowed))
  unfolding guarded_tools
  filter_tools-check_tool_policy_iff = (
    effective_category_eq,
    rw (no_guard, no_browser, no_cron) (rw (expand_tool_names_plain registry _ plain) filtered_iff),
  )
