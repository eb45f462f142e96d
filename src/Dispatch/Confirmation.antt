-- ===== src/Dispatch/Confirmation.antt =====
-- Which tools ask first, and what a scheduled job may use.
use invarail.Prelude.{
  ◌≡◌, ◌↔◌, ◌≢◌, ◌⊎◌, Bool, true, false, ◌&&◌, ◌||◌, not, List, [], ◌∷◌, ◌++◌, Option, none, some,
  Text, includes, ◌==◌, eq_iff, arith, includes-keep, includes-append, includes-delete_name,
  delete_name,
}
use invarail.Config.{ChannelSecurity}
use invarail.Registry.{Registry, get_metadata_confirm_tools}
use invarail.Dispatch.{
  confirm_list, auto_list, promote, waive_cron, category_tool, resolve_confirm_set,
  cron_blocked_tools, filter_cron_tools, exec_tool, message_category, send_message,
}

includes-promote :
    (explicit auto set : List Text) (t : Text)
    → includes t (promote explicit auto set)
      ≡ (includes t set && (includes t explicit || not (includes t auto)))
unfolding promote includes
includes-promote explicit [] set t = ground arith
includes-promote explicit (a ∷ auto) set t = ground (
  arith,
  includes-promote explicit auto set t,
  includes-promote explicit auto (delete_name a set) t,
  includes-delete_name t a set,
  eq_iff t a,
  eq_iff a t,
)

abbrev is_waived : Bool → Option Text → Text → Bool
is_waived false _ t = false
is_waived true none t = false
is_waived true (some c) t = c == t

includes-waive_cron :
    (explicit set : List Text) (tool : Option Text) (t : Text)
    → includes t (waive_cron explicit tool set)
      ≡ (includes t set && (includes t explicit || not (is_waived true tool t)))
unfolding waive_cron
includes-waive_cron explicit set none t = ground arith
includes-waive_cron explicit set (some c) t =
    ground (arith, includes-delete_name t c set, eq_iff t c, eq_iff c t)

-- A tool asks first exactly if the channel lists it, or its own declaration asks and neither the
-- channel promotes it nor the scheduled job was approved for it. So no promotion and no scheduled
-- job lifts a rule that the channel states.
pub includes-resolve_confirm_set :
    (registry : Registry) (security : Option ChannelSecurity) (cron_mode : Bool) (category t : Text)
    → includes t (resolve_confirm_set registry security cron_mode category) ≡ (
        includes t (confirm_list security)
        || (includes t (get_metadata_confirm_tools registry)
            && not (includes t (auto_list security))
            && not (is_waived cron_mode (category_tool category) t)))
unfolding resolve_confirm_set
includes-resolve_confirm_set registry security true category t =
    let explicit = confirm_list security in
    let all_tools = explicit ++ get_metadata_confirm_tools registry in
    ground (
      arith,
      includes-waive_cron explicit (promote explicit (auto_list security) all_tools)
          (category_tool category) t,
      includes-promote explicit (auto_list security) all_tools t,
      includes-append t explicit (get_metadata_confirm_tools registry),
    )
includes-resolve_confirm_set registry security false category t =
    let explicit = confirm_list security in
    let all_tools = explicit ++ get_metadata_confirm_tools registry in
    ground (
      arith,
      includes-promote explicit (auto_list security) all_tools t,
      includes-append t explicit (get_metadata_confirm_tools registry),
    )

-- A scheduled job has a tool exactly if its specialist has it, it is none of the tools that
-- are always blocked for jobs, and it is `exec` or `send_message` only in a job scheduled as that category.
pub includes-filter_cron_tools :
    (tools : List Text) (category t : Text)
    → (includes t (filter_cron_tools tools category) ≡ true) ↔ (
        (includes t tools ≡ true)
        × (includes t cron_blocked_tools ≡ false)
        × ((t ≢ exec_tool) ⊎ (category ≡ exec_tool))
        × ((t ≢ send_message) ⊎ (category ≡ message_category)))
unfolding filter_cron_tools
includes-filter_cron_tools tools category t = rw includes-keep (
    ground (
      arith,
      eq_iff t exec_tool,
      eq_iff category exec_tool,
      eq_iff t send_message,
      eq_iff category message_category,
    ))
