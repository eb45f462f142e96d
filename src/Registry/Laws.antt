-- ===== src/Registry/Laws.antt =====
-- What the scoped executor lets through, and what expansion of names keeps.
use invarail.Prelude.{
  ◌≡◌, refl, ap, false, List, [], ◌∷◌, ◌++◌, Text, includes, starts_with, any, arith, Bool-cases,
  inl, inr, is_some, ◌&&◌, if◌then◌else◌,
}
use invarail.Registry.{
  Registry, Call, Run, mcp_prefix, expand_name, expand_tool_names, get_tool, scoped_execute,
}

-- Names with no `mcp:` token among them expand to themselves.
pub expand_tool_names_plain :
    (registry : Registry) (names : List Text)
    → any (starts_with mcp_prefix) names ≡ false
    → expand_tool_names registry names ≡ names
unfolding expand_tool_names expand_name
expand_tool_names_plain registry [] h = refl
expand_tool_names_plain registry (n ∷ names) h = elim (Bool-cases (starts_with mcp_prefix n)) [
  | inl token ↦ ground arith
  | inr plain ↦
      rw plain (ap (λ rest. n ∷ rest) (expand_tool_names_plain registry names (ground arith)))
]

-- A call reaches its tool exactly if its name is among the allowed ones and is registered; it then
-- reaches it once, as it was made.
pub calls-scoped_execute :
    (allowed : List Text) (registry : Registry) (run : Run) (call : Call) (calls : List Call)
    → (scoped_execute allowed registry run call calls).1 ≡ (
        if includes call.tool allowed && is_some (get_tool call.tool registry)
        then calls ++ call ∷ []
        else calls)
unfolding scoped_execute
calls-scoped_execute allowed registry run call calls = ground arith
