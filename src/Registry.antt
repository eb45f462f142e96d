-- ===== src/Registry.antt =====
-- src/tools/registry.ts: the registered tools, and the executor that is scoped to a set of names.
-- What a tool does when it runs is not this code: `run` stands for `tool.execute`, and `calls`
-- records which calls reached it.
pub mod Laws
use invarail.Prelude.{
  Bool, true, false, List, [], ◌∷◌, ◌++◌, map, Option, none, some, Text, text, ◌==◌, includes,
  starts_with, find_first, keep, any, if◌then◌else◌,
}
use invarail.Json.{Params}

-- The fields of `InvarailTool` that the authority plane reads.
pub record Tool : Type 0 where
  pub name : Text
  pub category : Text
  pub requires_confirm : Bool
  pub target_args : Option (List Text)

-- The values of the `Map`, in insertion order.
abbrev pub Registry : Type 0
Registry = List Tool

-- `Map.set`: a name that is there keeps its place.
unfoldable pub register : Tool → Registry → Registry
register tool [] = tool ∷ []
register tool (t ∷ rest) = if t.name == tool.name then tool ∷ rest else t ∷ register tool rest

unfoldable pub get_tool : Text → Registry → Option Tool
get_tool name registry = find_first (λ t. t.name == name) registry

unfoldable pub get_by_category : Text → Registry → List Tool
get_by_category category registry = keep (λ t. t.category == category) registry

abbrev pub mcp_prefix : Text
mcp_prefix = text "mcp:"

-- One round of the `flatMap`.
unfoldable pub expand_name : Registry → Text → List Text
unfolding get_by_category
expand_name registry n =
    if starts_with mcp_prefix n
    then map (λ (t : Tool). t.name) (get_by_category n registry)
    else n ∷ []

unfoldable pub expand_tool_names : Registry → List Text → List Text
expand_tool_names registry [] = []
expand_tool_names registry (n ∷ names) = expand_name registry n ++ expand_tool_names registry names

unfoldable pub get_metadata_confirm_tools : Registry → List Text
get_metadata_confirm_tools registry =
    map (λ (t : Tool). t.name) (keep (λ (t : Tool). t.requires_confirm) registry)

-- A promise: what it resolves to, or the message of the error that rejects it.
pub data Outcome : Type 0 where
  returned : Text → Outcome
  threw : Text → Outcome

-- `ToolContext` of src/tools/types.ts, without the paths.
pub record ToolContext : Type 0 where
  pub agent_id : Text
  pub session_key : Text
  pub sender_id : Option Text
  pub channel : Option Text
  pub channel_id : Option Text

pub record Call : Type 0 where
  pub tool : Text
  pub params : Params
  pub context : ToolContext

abbrev pub Run : Type 0
Run = Call → Outcome

abbrev pub not_available : Text → Outcome
not_available name =
    returned (text "Error: Tool \"" ++ name ++ text "\" is not available in this context.")

-- `toolNotFound` of src/errors.ts
abbrev pub tool_not_found : Text → Outcome
tool_not_found name = threw (text "Tool \"" ++ name ++ text "\" not found in registry")

-- `createScopedExecutor(allowedTools)`, applied to a call.
unfoldable pub scoped_execute : List Text → Registry → Run → Call → List Call → Outcome × List Call
unfolding get_tool
scoped_execute allowed registry run call calls =
    if includes call.tool allowed
    then (elim (get_tool call.tool registry) [
      | none ↦ (tool_not_found call.tool, calls)
      | some tool ↦ (run call, calls ++ call ∷ [])
    ])
    else (not_available call.tool, calls)
