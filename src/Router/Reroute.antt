-- ===== src/Router/Reroute.antt =====
-- src/router/reroute.ts: what a specialist's answer says that it could not do, and the text that the
-- router and the next specialist are then given. The expressions are functions of the texts.
pub mod Gaps
use invarail.Prelude.{
  ℕ, ◌≡◌, refl, Bool, true, false, ◌&&◌, not, List, [], ◌∷◌, ◌++◌, Option, none, some, Text, text,
  units, ltb, length, take, take_last, is_empty, keep, truthy, includes, trim, or_else, map,
  find_first, find_first_passes, join_with, arith, Option-cases, inl, inr, In, ◌⊎◌, if◌then◌else◌,
}

-- A tool and what it is needed for
pub record Capability : Type 0 where
  pub tool : Text
  pub need : Text

abbrev pub read_file : Capability
read_file = record { tool = text "read_file"; need = text "read a file" }

abbrev pub write_file : Capability
write_file = record { tool = text "write_file"; need = text "write a file" }

abbrev pub web_search : Capability
web_search = record { tool = text "web_search"; need = text "search the web" }

abbrev pub task_add : Capability
task_add = record { tool = text "task_add"; need = text "add a task" }

abbrev pub send_message : Capability
send_message = record { tool = text "send_message"; need = text "send a message" }

abbrev pub cron_add : Capability
cron_add = record { tool = text "cron_add"; need = text "schedule a job" }

-- `INTENT_TOOLS`
abbrev pub intent_tools : List Capability
intent_tools = read_file ∷ write_file ∷ web_search ∷ task_add ∷ send_message ∷ cron_add ∷ []

-- `CLAIM_TOOLS`
abbrev pub claim_tools : List Capability
claim_tools = task_add ∷ write_file ∷ web_search ∷ send_message ∷ cron_add ∷ []

-- `it.verb.test(clause)`, `c.claim.test(answer)`, the clauses that `INTENT_FRAME` finds in a text in
-- their order, `missing.replace(/^to\s+/i, '')`, `JSON.stringify` and the white space put together
pub record Expressions : Type 0 where
  pub has_verb : Capability → Text → Bool
  pub has_claim : Capability → Text → Bool
  pub intent_clauses : Text → List Text
  pub without_to : Text → Text
  pub on_one_line : Text → Text

pub data Kind : Type 0 where
  claimed announced : Kind

pub record RerouteSignal : Type 0 where
  pub kind : Kind
  pub missing : Text

-- A step: its tool, if it has one, the parameters as JSON (`{}` where there are none), and what it
-- observed.
pub record Done : Type 0 where
  pub tool : Option Text
  pub params : Text
  pub observation : Option Text

abbrev has_tool : Done → Bool
has_tool s = truthy (or_else s.tool [])

abbrev shortened : ℕ → Text → Text
shortened n t = if ltb n (length t) then take n t ++ text "…" else t

module _ (x : Expressions) where
  abbrev pub announces : List Text → Text → Capability → Bool
  announces tools clause c = x.has_verb c clause && not (includes c.tool tools)

  -- The first clause with a tool that is missing.
  unfoldable pub first_missing : List Text → List Text → Option Capability
  unfolding includes
  first_missing tools [] = none
  first_missing tools (clause ∷ clauses) = elim (find_first (announces tools clause) intent_tools) [
    | some c ↦ some c
    | none ↦ first_missing tools clauses
  ]

  unfoldable pub announced_missing_capability : Text → List Text → Option Capability
  unfolding trim first_missing
  announced_missing_capability answer tools =
      let tail = take_last 500 (trim answer) in
      if is_empty tail then none else first_missing tools (x.intent_clauses tail)

  abbrev pub claims : List Text → Text → Capability → Bool
  claims tools answer c = not (includes c.tool tools) && x.has_claim c answer

  unfoldable pub claimed_missing_capability : Text → List Text → Option Capability
  unfolding includes
  claimed_missing_capability answer tools = find_first (claims tools answer) claim_tools

  abbrev pub strongest : Option Capability → Option Capability → Option RerouteSignal
  strongest (some c) o = some (record { kind = claimed; missing = c.need })
  strongest none (some a) = some (record { kind = announced; missing = a.need })
  strongest none none = none

  unfoldable pub reroute_signal : Text → List Text → Option RerouteSignal
  unfolding claimed_missing_capability announced_missing_capability
  reroute_signal answer tools =
      strongest (claimed_missing_capability answer tools)
        (announced_missing_capability answer tools)

  unfoldable pub reroute_classify_text : Text → Text → Text → Text
  reroute_classify_text message from_category missing =
      text "(Re-route: the \""
      ++ (from_category
          ++ (text "\" specialist could not finish this request — it needs to "
              ++ (x.without_to missing
                  ++ (text
                        ", which it has no tool for. Pick the category whose tools cover the WHOLE request.)\n\n"
                      ++ message))))

  abbrev pub done_line : Done → Text
  done_line s =
      text "- "
      ++ (or_else s.tool []
          ++ (text "("
              ++ (shortened 160 s.params
                  ++ (text ") → " ++ shortened 200 (x.on_one_line (or_else s.observation []))))))

  abbrev pub done_lines : List Done → List Text
  done_lines [] = text "Nothing was done yet." ∷ []
  done_lines (s ∷ steps) =
      text
        "Already done — do NOT repeat these; anything that says it awaits confirmation stays pending for the user:"
      ∷ map done_line (s ∷ steps)

  -- `handoffMessage`
  unfoldable pub handoff_message : Text → Text → Text → List Done → Text
  handoff_message message from_category missing steps =
      let header =
        text "[Handoff: the \""
        ++ (from_category
            ++ (text "\" specialist started this and stopped because it needs to "
                ++ (x.without_to missing ++ text "."))) in
      join_with (units b'\n') (
        message
        ∷ []
        ∷ header
        ∷ (done_lines (keep has_tool steps)
            ++ text "Finish the remaining parts of the request.]" ∷ []))
