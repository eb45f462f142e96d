-- ===== src/ToolLoop/Engine.antt =====
-- src/tool-loop/engine.ts: what `runToolLoopInner` makes of a reply without a call.
use invarail.Prelude.{
  join_with, ℕ, suc, ◌+◌, Bool, true, false, ◌&&◌, not, List, [], ◌∷◌, ◌++◌, Option, none, some,
  Text, text, ltb, length, trim, truthy, any, is_empty, or_else, Attempt, ok, err, if◌then◌else◌,
}
use invarail.ToolLoop.Drift.{ToolCall, Response, Drift, steady, repeating, hedging, streak}
use invarail.ToolLoop.Calls.{
  Call, ReActStep, tool_step, answer_step, Reply, Repairs, Loop, Verdict, accepted, rejected, Stop,
  natural, Env, push_message, push_step,
}
use invarail.ToolLoop.Verbs.{verbs_of}

pub record Config : Type 0 where
  pub max_iterations : ℕ
  pub tool_names : List Text
  pub skip_drift_detection : Bool
  pub premature_answer_repair : Bool
  pub has_history : Bool
  pub user_message : Text

pub record ReActResult : Type 0 where
  pub answer : Text
  pub steps : List ReActStep
  pub iterations : ℕ
  pub hit_max_iterations : Bool
  pub cancelled : Bool

-- How an iteration ends: the loop goes on, it returns, or it throws.
pub data Turn : Type 0 where
  again : Loop → Turn
  finished : ReActResult → Loop → Turn
  threw : Text → Loop → Turn

abbrev pub tools_used : List ReActStep → List Text
tools_used [] = []
tools_used (tool_step thought c o ∷ steps) = c.name ∷ tools_used steps
tools_used (answer_step a ∷ steps) = tools_used steps

abbrev pub set_repairs : Repairs → Loop → Loop
set_repairs r s = record s { repairs = r }

-- The repairs at the start of a run.
abbrev pub unused : Repairs
unused = record {
  hallucination = false;
  refusal = false;
  intent = false;
  empty = false;
  drift = false;
  extra_iterations = 0;
  final_answer_checks = 0;
}

abbrev pub extend : ℕ → Repairs → Repairs
extend n r = record r { extra_iterations = r.extra_iterations + n }

-- Push the reply and a prompt that asks for another try.
abbrev pub ask_again : Text → Text → Repairs → Loop → Turn
ask_again content prompt r s =
    again (
      push_message (text "user") prompt (push_message (text "assistant") content (set_repairs r s)))

abbrev pub remember : Text → Loop → Loop
remember answer s = if truthy (trim answer) then record s { last_rejected = answer } else s

-- `fileTokens.map(p => ` [FILE:${p}]`).join('')`
abbrev pub file_append : List Text → Text
file_append [] = []
file_append (p ∷ ps) = text " [FILE:" ++ (p ++ (text "]" ++ file_append ps))

-- The decision of the drift check: nothing to repair, or the prompt that re-anchors.
abbrev pub is_stuck_sign : Drift → Bool
is_stuck_sign repeating = true
is_stuck_sign streak = true
is_stuck_sign _ = false

abbrev pub is_drift : Drift → Bool
is_drift steady = false
is_drift _ = true

abbrev pub first_call : List Call → Option Call
first_call [] = none
first_call (c ∷ cs) = some c

module _ (env : Env) (cfg : Config) where
  -- `claimsActionWithoutToolCall`
  unfoldable pub claims_without_call : Text → List Text → Bool
  unfolding verbs_of
  claims_without_call answer tools =
      if not (env.claims_action answer) && not (env.claims_data answer)
      then false
      else if is_empty tools
      then true
      else if env.claims_data answer && not (env.claims_action answer)
      then false
      else if is_empty (verbs_of tools)
      then false
      else not (any (env.mentions answer) (verbs_of tools))

  abbrev pub has_tool_access : Bool
  has_tool_access = not (is_empty cfg.tool_names)

  abbrev sig_of : Option Call → Option ToolCall
  sig_of none = none
  sig_of (some c) =
      some (record { tool = c.name; sig = c.name ++ (text ":" ++ env.stringify c.params) })

  abbrev pub response_of : Reply → Option Call → Response
  response_of reply c = record {
    size = length reply.content;
    hedges = env.hedges_in reply.content;
    restates = env.restates reply.content;
    call = sig_of c;
  }

  abbrev drifting : Text → Loop → Text
  drifting how s =
      text "You appear to be "
      ++ (how
          ++ (text ". Original request: \""
              ++ (cfg.user_message
                  ++ (text "\". Progress: "
                      ++ (env.digits (length s.steps)
                          ++ text
                              " tool calls completed. Focus on the next concrete action to answer the request, or provide your final answer if you have enough information.")))))

  abbrev pub drift_prompt : Drift → Loop → Text
  drift_prompt repeating s =
      text
        "STOP. You are repeating the same action. Do NOT call the same tool with the same parameters again. Either try a completely different approach or provide your final answer with the data you already have."
  drift_prompt streak s =
      text
        "STOP AND RECONSIDER. You have called the same tool 5 times in a row with varying parameters — you are grinding, not progressing. Original request: \""
      ++ (cfg.user_message
          ++ text
              "\". Re-read your available tool descriptions: is there a DIFFERENT tool that accomplishes the goal in one step? If yes, call it now. If you already have enough information, give your final answer.")
  drift_prompt hedging s = drifting (text "hedging instead of acting") s
  drift_prompt _ s = drifting (text "generating longer responses without progress") s

  -- The stop of an answer that stands.
  unfoldable pub accept_answer : ℕ → Text → Loop → Turn
  accept_answer i answer s =
      let kept =
        if not (truthy (trim answer)) && truthy s.last_rejected then s.last_rejected else answer in
      let s' = push_step (answer_step kept) s in
      finished
        (record {
          answer = kept ++ file_append s.file_tokens;
          steps = s'.steps;
          iterations = suc i;
          hit_max_iterations = false;
          cancelled = false;
        })
        s'

  abbrev pub judge_verdict : ℕ → Text → Text → Loop → Attempt Verdict → Turn
  judge_verdict i content answer s (ok accepted) = accept_answer i answer s
  judge_verdict i content answer s (ok (rejected feedback grant)) =
      ask_again content feedback (extend (or_else grant 4) s.repairs) s
  judge_verdict i content answer s (err e) = accept_answer i answer s

  abbrev pub count_check : Loop → Loop
  count_check s =
      record (set_repairs
        (record s.repairs { final_answer_checks = suc s.repairs.final_answer_checks }) s) {
          moment = suc s.moment;
        }

  abbrev pub ask_hook :
      Option (ℕ → Text → List ReActStep → Stop → Attempt Verdict) → ℕ → Text → Text → Loop → Turn
  ask_hook none i content answer s = accept_answer i answer s
  ask_hook (some hook) i content answer s =
      if ltb s.repairs.final_answer_checks 3
      then judge_verdict i content answer (count_check s) (hook s.moment answer s.steps natural)
      else accept_answer i answer s

  -- The checkpoint at a natural stop, three times at most.
  unfoldable pub checkpoint : ℕ → Text → Text → Loop → Turn
  unfolding accept_answer
  checkpoint i content answer s = ask_hook env.on_final_answer i content answer s

  abbrev short_follow_up : Bool
  short_follow_up = cfg.has_history && ltb (length (trim cfg.user_message)) 30

  abbrev pub wants_hallucination : Text → Loop → Bool
  wants_hallucination answer s =
      has_tool_access
      && not s.repairs.hallucination
      && claims_without_call answer (tools_used s.steps)

  abbrev pub wants_refusal : Loop → Bool
  wants_refusal s =
      has_tool_access
      && is_empty s.steps
      && not s.repairs.refusal
      && not short_follow_up
      && cfg.premature_answer_repair

  abbrev pub wants_intent : Text → Loop → Bool
  wants_intent answer s =
      has_tool_access
      && is_empty s.steps
      && s.repairs.refusal
      && not s.repairs.intent
      && env.announces_intent answer

  abbrev empty_prompt : Text
  empty_prompt = text "Your last response was empty. Provide your final answer now as plain text."

  abbrev hallucination_prompt : Text
  hallucination_prompt =
      text
        "You said you performed an action, but you did NOT call any tool. You MUST use the provided tools to make changes — you cannot modify data by just saying so. Please call the correct tool now to fulfill the request."

  abbrev refusal_prompt : Text
  refusal_prompt =
      text
        "You gave a final answer without using any tools. If one of your tools serves this request, call it now — do not refuse or claim you cannot. You have full access to: "
      ++ (join_with (text ", ") cfg.tool_names
          ++ text
              ". If NO tool is relevant to this request, simply restate your answer directly — do not invent tool calls.")

  abbrev intent_prompt : Text
  intent_prompt =
      text
        "You announced an action but did not call any tool. Announcing is not doing: call the tool now. If you are not going to act, say so plainly instead of saying you will."

  abbrev pub wants_answer : Text → Loop → Bool
  wants_answer answer s = not (truthy (trim answer)) && not s.repairs.empty

  abbrev pub granted : Loop → Repairs
  granted s = extend 1 s.repairs

  abbrev pub repair_empty : Text → Loop → Turn
  repair_empty content s = ask_again content empty_prompt (record (granted s) { empty = true }) s

  abbrev pub repair_hallucination : Text → Text → Loop → Turn
  repair_hallucination content answer s =
      ask_again content hallucination_prompt (record (granted s) { hallucination = true })
        (remember answer s)

  abbrev pub repair_refusal : Text → Text → Loop → Turn
  repair_refusal content answer s =
      ask_again content refusal_prompt (record (granted s) { refusal = true }) (remember answer s)

  abbrev pub repair_intent : Text → Text → Loop → Turn
  repair_intent content answer s =
      ask_again content intent_prompt (record (granted s) { intent = true }) (remember answer s)

  -- A reply without a call: each repair once, then the checkpoint.
  unfoldable pub settle_answer : ℕ → Text → Loop → Turn
  unfolding claims_without_call checkpoint
  settle_answer i content s =
      let answer = env.strip_scaffolding content in
      if wants_answer answer s
      then repair_empty content s
      else if wants_hallucination answer s
      then repair_hallucination content answer s
      else if wants_refusal s
      then repair_refusal content answer s
      else if wants_intent answer s
      then repair_intent content answer s
      else checkpoint i content answer s
