-- ===== src/ToolLoop/Verbs.antt =====
-- src/tool-loop/engine.ts: the verbs that a tool accounts for, `TOOL_ACTION_VERBS`.
use invarail.Prelude.{Text, text, List, [], ◌∷◌, ◌++◌, lookup, or_else}

unfoldable pub tool_action_verbs : List (Text × List Text)
tool_action_verbs =
    (text "image_generate", text "created" ∷ text "generated" ∷ [])
    ∷ (text "diagram_generate", text "created" ∷ text "generated" ∷ [])
    ∷ (text "write_file", text "created" ∷ text "written" ∷ text "saved" ∷ [])
    ∷ (text "document", text "created" ∷ text "generated" ∷ text "saved" ∷ [])
    ∷ (text "exec", text "executed" ∷ text "ran" ∷ [])
    ∷ (text "task_add", text "created" ∷ text "added" ∷ [])
    ∷ (text "task_done", text "completed" ∷ text "marked" ∷ [])
    ∷ (text "task_update", text "updated" ∷ text "modified" ∷ text "changed" ∷ [])
    ∷ (text "cron_add", text "scheduled" ∷ text "added" ∷ text "created" ∷ [])
    ∷ (text "memory_save", text "saved" ∷ text "added" ∷ [])
    ∷ (text "memory_forget", text "removed" ∷ text "deleted" ∷ [])
    ∷ (
      text "web_search",
      text "searched" ∷ text "found" ∷ text "checked" ∷ text "looked" ∷ text "retrieved" ∷ [],
    )
    ∷ (
      text "web_fetch",
      text "fetched" ∷ text "retrieved" ∷ text "checked" ∷ text "looked" ∷ text "found" ∷ [],
    )
    ∷ (
      text "browser",
      text "checked"
          ∷ text "searched"
          ∷ text "looked"
          ∷ text "fetched"
          ∷ text "retrieved"
          ∷ text "found"
          ∷ [],
    )
    ∷ (
      text "memory_search",
      text "searched" ∷ text "found" ∷ text "checked" ∷ text "looked" ∷ text "retrieved" ∷ [],
    )
    ∷ (text "read_file", text "checked" ∷ text "looked" ∷ text "retrieved" ∷ text "found" ∷ [])
    ∷ (
      text "gmail_read",
      text "checked" ∷ text "searched" ∷ text "looked" ∷ text "retrieved" ∷ text "found" ∷ [],
    )
    ∷ (
      text "calendar_read",
      text "checked" ∷ text "searched" ∷ text "looked" ∷ text "retrieved" ∷ text "found" ∷ [],
    )
    ∷ []

unfoldable pub verbs_of : List Text → List Text
unfolding tool_action_verbs lookup
verbs_of [] = []
verbs_of (t ∷ ts) = or_else (lookup t tool_action_verbs) [] ++ verbs_of ts
