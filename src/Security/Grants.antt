-- ===== src/Security/Grants.antt =====
-- src/security/grants.ts: standing grants, each for one tool, one exact target and one principal.
pub mod Laws
use invarail.Prelude.{
  ℕ, Bool, true, false, ◌&&◌, List, [], ◌∷◌, ◌++◌, Option, none, some, Text, text, ◌==◌, trim,
  truthy, lookup, find_first, keep, or_else, if◌then◌else◌,
}
use invarail.Json.{Json, null, bool, num, str, arr, obj, Params}
use invarail.Registry.{Tool}
use invarail.Security.Ledger.{File, save, remove_first}

pub data GrantSource : Type 0 where
  confirm cron_creation : GrantSource

pub record StandingGrant : Type 0 where
  pub id : Text
  pub tool : Text
  pub target : Text
  pub principal : Text
  pub channel : Text
  pub created_at : ℕ
  pub source : GrantSource

-- `typeof value !== 'string' || value.trim() === ''`
unfoldable pub target_part : Option Json → Option Text
target_part (some (str s)) = let t = trim s in if truthy t then some t else none
target_part (some null) = none
target_part (some (bool b)) = none
target_part (some (num n)) = none
target_part (some (arr xs)) = none
target_part (some (obj fs)) = none
target_part none = none

abbrev pub both : Option Text → Option (List Text) → Option (List Text)
both none _ = none
both (some t) none = none
both (some t) (some ts) = some (t ∷ ts)

-- The loop over `targetArgs`.
unfoldable pub target_parts : Params → List Text → Option (List Text)
unfolding target_part
target_parts params [] = some []
target_parts params (arg ∷ args) = both (target_part (lookup arg params)) (target_parts params args)

-- `parts.join(':')`
unfoldable pub join_colon : List Text → Text
join_colon [] = []
join_colon (t ∷ []) = t
join_colon (t ∷ u ∷ ts) = t ++ (text ":" ++ join_colon (u ∷ ts))

abbrev pub join_parts : Option (List Text) → Option Text
join_parts none = none
join_parts (some ts) = some (join_colon ts)

unfoldable pub grant_target_for : Option Tool → Params → Option Text
unfolding target_parts join_colon
grant_target_for none params = none
grant_target_for (some tool) params = elim tool.target_args [
  | none ↦ none
  | some [] ↦ none
  | some (a ∷ args) ↦ join_parts (target_parts params (a ∷ args))
]

abbrev pub covers : Text → Text → Text → StandingGrant → Bool
covers tool target principal g = g.tool == tool && g.target == target && g.principal == principal

unfoldable pub find_match : Text → Text → Text → File StandingGrant → Option StandingGrant
find_match tool target principal file = find_first (covers tool target principal) (or_else file [])

-- `record`: the write's own result is not looked at.
unfoldable pub record_grant :
    Text
    → ℕ
    → Bool
    → Text
    → Text
    → Text
    → Text
    → GrantSource
    → File StandingGrant
    → StandingGrant × File StandingGrant
unfolding find_match save
record_grant id now lands tool target principal channel source file =
    elim (find_match tool target principal file) [
      | some existing ↦ (existing, file)
      | none ↦
          let grant : StandingGrant = record {
            id = id;
            tool = tool;
            target = target;
            principal = principal;
            channel = channel;
            created_at = now;
            source = source;
          } in
          (grant, save lands (or_else file [] ++ grant ∷ []) file)
    ]

abbrev pub owned : Text → Text → StandingGrant → Bool
owned id principal g = g.id == id && g.principal == principal

unfoldable pub list_grants : Text → File StandingGrant → List StandingGrant
list_grants principal file = keep (λ g. g.principal == principal) (or_else file [])

unfoldable pub revoke :
    Text → Text → Bool → File StandingGrant → Option StandingGrant × File StandingGrant
unfolding save
revoke id principal lands file = elim (find_first (owned id principal) (or_else file [])) [
  | none ↦ (none, file)
  | some g ↦ (
    if lands then some g else none,
    save lands (remove_first (owned id principal) (or_else file [])) file,
  )
]

pub data Approval : Type 0 where
  standing reply_origin : Approval

pub record Origin : Type 0 where
  pub channel : Text
  pub channel_id : Text

-- `${origin.channel}:${origin.channelId}`
abbrev pub origin_target : Origin → Text
origin_target o = o.channel ++ (text ":" ++ o.channel_id)

abbrev pub from_origin : Option Origin → Text → Option Approval
from_origin none target = none
from_origin (some o) target = if target == origin_target o then some reply_origin else none

abbrev pub approve_target :
    Tool → Text → Option Origin → File StandingGrant → Option Text → Option Approval
approve_target tool principal origin file none = none
approve_target tool principal origin file (some []) = none
approve_target tool principal origin file (some (c ∷ s)) =
    elim (find_match tool.name (c ∷ s) principal file) [
      | some g ↦ some standing
      | none ↦ from_origin origin (c ∷ s)
    ]

-- Should this confirm-gated call run without asking? `none` asks as usual.
unfoldable pub resolve_grant_approval :
    Option Tool → Params → Text → Option Origin → File StandingGrant → Option Approval
unfolding find_match grant_target_for
resolve_grant_approval none params principal origin file = none
resolve_grant_approval (some tool) params principal origin file =
    approve_target tool principal origin file (grant_target_for (some tool) params)
