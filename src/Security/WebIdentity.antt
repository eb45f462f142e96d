-- ===== src/Security/WebIdentity.antt =====
-- src/security/web-identity.ts: who a request of the web channel is.
use invarail.Prelude.{
  ◌≡◌, refl, Bool, true, false, ◌++◌, Option, none, some, Text, text, ◌==◌, lookup, trim, given,
  is_some, if◌then◌else◌,
}
use invarail.Config.{ChannelConfig, Config}

pub data DecidedBy : Type 0 where
  token_owner claimed_id default_id : DecidedBy

pub record WebIdentity : Type 0 where
  pub sender_id : Text
  pub channel_id : Text
  pub by : DecidedBy

abbrev web_token : Option ChannelConfig → Option Text
web_token none = none
web_token (some c) = given c.token

-- `!!opts.config?.channels.web?.token`
unfoldable pub token_configured : Option Config → Bool
token_configured none = false
token_configured (some config) = is_some (web_token (lookup (text "web") config.channels))

abbrev owner_of : Option Config → Option Text
owner_of none = none
owner_of (some config) = given config.people.owner_id

abbrev trimmed : Option Text → Option Text
trimmed none = none
trimmed (some s) = some (trim s)

-- A claimed id that is not the owner's partitions the session.
abbrev partition : Option Text → Text → Text → Text
partition none owner channel = channel
partition (some c) owner channel = if c == owner then channel else channel ++ (text ":" ++ c)

abbrev unauthenticated : Option Text → Text → Text → WebIdentity
unauthenticated none channel fallback = record {
  sender_id = fallback;
  channel_id = channel;
  by = default_id;
}
unauthenticated (some c) channel fallback = record {
  sender_id = c;
  channel_id = channel;
  by = claimed_id;
}

abbrev decide_identity : Bool → Option Text → Option Text → Text → Text → WebIdentity
decide_identity true (some owner) claimed channel fallback = record {
  sender_id = owner;
  channel_id = partition claimed owner channel;
  by = token_owner;
}
decide_identity true none claimed channel fallback = unauthenticated claimed channel fallback
decide_identity false owner claimed channel fallback = unauthenticated claimed channel fallback

unfoldable pub resolve_web_identity : Option Config → Option Text → Text → Text → WebIdentity
unfolding token_configured
resolve_web_identity config claimed channel fallback =
    decide_identity (token_configured config) (owner_of config) (given (trimmed claimed)) channel
      fallback

-- Where a token and an owner are configured, no claim of the caller changes who the request is.
resolve_web_identity_owner :
    (config : Config) (owner : Text) (claimed : Option Text) (channel fallback : Text)
    → token_configured (some config) ≡ true
    → given config.people.owner_id ≡ some owner
    → (resolve_web_identity (some config) claimed channel fallback).sender_id ≡ owner
unfolding resolve_web_identity token_configured
resolve_web_identity_owner config owner claimed channel fallback h k = rw (h, k) refl
