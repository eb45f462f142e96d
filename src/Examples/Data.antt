-- ===== src/Examples/Data.antt =====
-- One small gateway: an owner, a tool that asks first, a channel, and an action that waits.
use invarail.Prelude.{Bool, true, [], ◌∷◌, none, some, Text, text}
use invarail.Json.{str, Params}
use invarail.Config.{ChannelSecurity, Config}
use invarail.Registry.{Tool, Registry, returned, Call}
use invarail.Security.Ledger.{Preview, PendingAction, ttl_ms}
use invarail.Security.Grants.{StandingGrant, confirm}
use invarail.Security.Exchange.{World, Event}

abbrev pub alice : Text
alice = text "alice"

abbrev pub echo : Text
echo = text "echo"

abbrev pub rules : ChannelSecurity
rules = record {
  allowed_categories = some (text "chat" ∷ []);
  blocked_tools = some (text "exec" ∷ []);
  trusted_users = none;
  restricted_categories = none;
  restricted_tools = none;
  confirm_tools = none;
  auto_approve_tools = none;
  owner_only_tools = none;
}

abbrev pub config : Config
config = record {
  people = record { owner_id = some alice; principals = [] };
  channels = (text "web", record { token = none; security = some rules }) ∷ [];
  specialists = (text "chat", record { tools = echo ∷ [] }) ∷ [];
  default_category = text "chat";
}

abbrev pub echo_tool : Tool
echo_tool = record {
  name = echo;
  category = text "util";
  requires_confirm = true;
  target_args = some (text "to" ∷ []);
}

abbrev pub registry : Registry
registry = echo_tool ∷ []

abbrev pub params : Params
params = (text "to", str (text "bob")) ∷ []

abbrev pub preview : Preview
preview = record {
  tool = echo;
  params = params;
  sender = alice;
  channel = text "web";
  agent_id = text "main";
  session_key = text "s";
  category = none;
}

abbrev pub action : PendingAction
action = record { preview = preview; id = text "3fa2c1b9"; created_at = 0; expires_at = ttl_ms }

abbrev pub world : World
world = record {
  ledger = some (action ∷ []);
  grants = none;
  calls = [];
  transcript = [];
  audit = [];
}

abbrev pub says : Text → Bool → Event
says message lands = record {
  config = config;
  registry = registry;
  run = λ _. returned (text "ok");
  message = message;
  sender_id = alice;
  channel = text "web";
  now = 10;
  read_at = 11;
  consumed_at = 12;
  consume_lands = lands;
  grant_id = text "g";
  granted_at = 13;
  grant_lands = true;
  turns = 2;
}

abbrev pub grant : StandingGrant
grant = record {
  id = text "g";
  tool = echo;
  target = text "bob";
  principal = alice;
  channel = text "web";
  created_at = 0;
  source = confirm;
}

abbrev pub echo_call : Call
echo_call = record {
  tool = echo;
  params = params;
  context = record {
    agent_id = text "main";
    session_key = text "s";
    sender_id = some alice;
    channel = some (text "web");
    channel_id = none;
  };
}
