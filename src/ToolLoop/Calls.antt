-- ===== src/ToolLoop/Calls.antt =====
-- src/tool-loop/engine.ts: the state of the tool loop, and how it runs the calls of one reply.
-- The model, the tools and the user are functions of the moment, the number of times that the loop
-- went outside before. Regular expressions, parameter schemas, the store of learned errors and the
-- estimate of tokens are parameters too. A `parameters` argument that is an array or null is taken as
-- any other argument, and times and log lines are left out.
use invarail.Prelude.{
  join_with, ℕ, suc, Bool, List, [], ◌∷◌, ◌++◌, Option, some, Text, text, lookup, ◌==◌, leb, ltb,
  length, take, is_empty, or_else, or_option, Attempt, ok, err, if◌then◌else◌,
}
use invarail.Json.{Json, obj, Members, end, member, Params}
use invarail.Pipeline.{Message}
use invarail.ToolLoop.Drift.{Tracker}

pub record Call : Type 0 where
  pub name : Text
  pub params : Params

-- `ReActStep`: what the model said, the call that it made, and the observation; or the final answer.
pub data ReActStep : Type 0 where
  tool_step : Text → Call → Text → ReActStep
  answer_step : Text → ReActStep

pub record Reply : Type 0 where
  pub content : Text
  pub tool_calls : List Call
  pub prompt_tokens : ℕ
  pub completion_tokens : ℕ

-- The repairs that a run has used, and what they granted.
pub record Repairs : Type 0 where
  pub hallucination : Bool
  pub refusal : Bool
  pub intent : Bool
  pub empty : Bool
  pub drift : Bool
  pub extra_iterations : ℕ
  pub final_answer_checks : ℕ

pub record Loop : Type 0 where
  pub messages : List Message
  pub steps : List ReActStep
  pub repairs : Repairs
  pub overflow_repaired : Bool
  pub last_rejected : Text
  pub tracker : Tracker
  pub last_narrated : Text
  pub notes : List Text
  pub file_tokens : List Text
  pub last_action_hash : Text
  pub action_repeats : ℕ
  -- the calls that reached the executor
  pub executed : List Call
  pub prompt_tokens : ℕ
  pub completion_tokens : ℕ
  pub moment : ℕ

-- What the hook on a final answer says.
pub data Verdict : Type 0 where
  accepted : Verdict
  rejected : Text → Option ℕ → Verdict

pub data Stop : Type 0 where
  natural at_cap : Stop

pub record Env : Type 0 where
  pub chat : ℕ → List Message → Attempt Reply
  pub synthesize : ℕ → List Message → Attempt Text
  pub executor : ℕ → Call → Attempt Text
  pub is_cancelled : ℕ → Bool
  pub poll_steering : ℕ → List Text
  pub on_final_answer : Option (ℕ → Text → List ReActStep → Stop → Attempt Verdict)
  pub trim_messages : List Message → List Message
  pub is_overflow : Text → Bool
  -- the parsers of calls that a text narrates, for the tools that are available
  pub parse_calls : List Text → Text → Option Call
  pub narrated_head : Text → Text
  pub validate_params : Call → Params × List Text
  pub stringify : Params → Text
  pub hint_prefix : Call → Text
  pub enrich : Text → Text → Text
  pub take_files : Text → Text × List Text
  pub result_limit : Text → Option ℕ
  pub spill : Text → ℕ → Text
  pub digits : ℕ → Text
  pub hedges_in : Text → ℕ
  pub restates : Text → Bool
  pub strip_scaffolding : Text → Text
  pub claims_action : Text → Bool
  pub claims_data : Text → Bool
  pub mentions : Text → Text → Bool
  pub announces_intent : Text → Bool

abbrev pub push_message : Text → Text → Loop → Loop
push_message role content s = record s {
  messages = s.messages ++ record { role = role; content = content } ∷ [];
}

abbrev pub push_step : ReActStep → Loop → Loop
push_step st s = record s { steps = s.steps ++ st ∷ [] }

abbrev entries : Members → Params
entries end = []
entries (member k v rest) = (k, v) ∷ entries rest

abbrev nested : Option Json → Params → Params
nested (some (obj inner)) ps = entries inner
nested _ ps = ps

-- Arguments that are nested under `parameters` are taken out.
unfoldable pub unwrap : Call → Call
unwrap c = record { name = c.name; params = nested (lookup (text "parameters") c.params) c.params }

-- `Using ${toolName}…`, once for a streak of one tool
unfoldable pub narrate : Text → Loop → Loop
narrate name s = if name == s.last_narrated then s else record s {
  notes = s.notes ++ (text "Using " ++ (name ++ text "…")) ∷ [];
  last_narrated = name;
}

unfoldable pub tool_result_limits : List (Text × ℕ)
tool_result_limits =
    (text "browser", 16000)
    ∷ (text "pi_build", 16000)
    ∷ (text "reason", 12000)
    ∷ (text "web_fetch", 12000)
    ∷ (text "docs_search", 8000)
    ∷ (text "code_session", 8000)
    ∷ (text "read_file", 8000)
    ∷ (text "exec", 8000)
    ∷ []

module _ (env : Env) where
  unfoldable pub limit_for : Text → ℕ
  unfolding tool_result_limits lookup
  limit_for name = or_else (or_option (lookup name tool_result_limits) (env.result_limit name)) 2000

  unfoldable pub clip : Text → ℕ → Text → Text
  unfolding limit_for
  clip name i observation =
      if ltb (limit_for name) (length observation)
      then take (limit_for name) observation
        ++ (text "\n... [truncated from "
            ++ (env.digits (length observation)
                ++ (text " chars."
                    ++ (env.spill observation i
                        ++ text " Do NOT re-read the rest by re-calling this tool in slices.]"))))
      else observation

  abbrev observed : Text → Attempt Text → Text
  observed name (ok o) = o
  observed name (err e) =
      text "Tool \""
      ++ (name ++ (text "\" failed: " ++ (e ++ text ". Try a different approach or tool.")))

  -- An observation on its way to the model.
  unfoldable pub deliver : ℕ → Text → Call → Text → Loop → Loop
  unfolding clip
  deliver i thought c observation s =
      let enriched = env.enrich (env.hint_prefix c ++ observation) c.name in
      let (stripped, files) = env.take_files enriched in
      let shown = clip c.name i stripped in
      push_message (text "tool") shown
        (push_step (tool_step thought c shown) (record s { file_tokens = s.file_tokens ++ files }))

  unfoldable pub execute : ℕ → Text → Call → Loop → Loop
  unfolding deliver
  execute i thought c s =
      deliver i thought c (observed c.name (env.executor s.moment c))
        (record s { executed = s.executed ++ c ∷ []; moment = suc s.moment })

  unfoldable pub action_hash : Call → Text
  action_hash c = c.name ++ (text ":" ++ env.stringify c.params)

  abbrev pub blocked_message : Call → ℕ → Text
  blocked_message c n =
      text "BLOCKED: You called "
      ++ (c.name
          ++ (text " with the same parameters "
              ++ (env.digits (suc n)
                  ++ text
                      " times. Try a different action, different parameters, or provide your final answer.")))

  abbrev pub block : Call → ℕ → Loop → Loop
  block c n s = push_message (text "tool") (blocked_message c n) (
      push_step (tool_step [] c (blocked_message c n))
        (record s { last_action_hash = []; action_repeats = 0 }))

  -- A call with valid parameters: the third of the same in a row is blocked.
  unfoldable pub run_valid : ℕ → Text → Call → Loop → Loop
  unfolding execute action_hash
  run_valid i thought c s =
      let hash = action_hash c in
      let repeats = suc s.action_repeats in
      if hash == s.last_action_hash
      then (if leb 2 repeats
          then block c repeats s
          else execute i thought c (record s { action_repeats = repeats }))
      else execute i thought c (record s { last_action_hash = hash; action_repeats = 0 })

  abbrev invalid : Call → List Text → Text
  invalid c errors =
      text "Invalid parameters for \"" ++ (c.name ++ (text "\": " ++ join_with (text "; ") errors))

  unfoldable pub run_call : ℕ → Text → Call → Loop → Loop
  unfolding unwrap narrate run_valid deliver
  run_call i thought call s =
      let c = unwrap call in
      let (params, errors) = env.validate_params c in
      let valid : Call = record { name = c.name; params = params } in
      if is_empty errors
      then run_valid i thought valid (narrate c.name s)
      else deliver i thought valid (invalid valid errors) (narrate c.name s)

  unfoldable pub run_calls : ℕ → Text → List Call → Loop → Loop
  unfolding run_call
  run_calls i thought [] s = s
  run_calls i thought (c ∷ cs) s = run_calls i thought cs (run_call i thought c s)
