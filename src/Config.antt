-- ===== src/Config.antt =====
-- src/config/schema.ts and src/config/types.ts: the settings that the authority plane reads.
use invarail.Prelude.{List, Option, Text}
use invarail.Identity.{People}

-- `ChannelSecuritySchema`; every list is optional.
pub record ChannelSecurity : Type 0 where
  pub allowed_categories : Option (List Text)
  pub blocked_tools : Option (List Text)
  pub trusted_users : Option (List Text)
  pub restricted_categories : Option (List Text)
  pub restricted_tools : Option (List Text)
  pub confirm_tools : Option (List Text)
  pub auto_approve_tools : Option (List Text)
  pub owner_only_tools : Option (List Text)

-- `ChannelConfigSchema`, the fields that are read.
pub record ChannelConfig : Type 0 where
  pub token : Option Text
  pub security : Option ChannelSecurity

-- `SpecialistConfig`: of a specialist only the tool list decides what may run.
pub record Specialist : Type 0 where
  pub tools : List Text

pub record Config : Type 0 where
  pub people : People
  pub channels : List (Text × ChannelConfig)
  pub specialists : List (Text × Specialist)
  pub default_category : Text
