-- ===== src/ToolLoop/Run.antt =====
-- src/tool-loop/engine.ts: `runToolLoopInner`, one iteration at a time, and the loop around it. The
-- loop takes fuel; ToolLoop.Termination has how much is enough.
use invarail.Prelude.{
  join_with, ℕ, zero, suc, ◌+◌, ◌-◌, Bool, true, false, ◌&&◌, ◌||◌, not, List, [], ◌∷◌, ◌++◌,
  Option, none, some, Text, text, ◌==◌, leb, ltb, length, take, truthy, is_empty, Attempt, ok, err,
  keep, if◌then◌else◌,
}
use invarail.Pipeline.{Message}
use invarail.ToolLoop.Drift.{Drift, check_drift}
use invarail.ToolLoop.Calls.{
  Call, ReActStep, tool_step, answer_step, Reply, Loop, Verdict, rejected, at_cap, Env,
  push_message, push_step, run_calls,
}
use invarail.ToolLoop.Engine.{
  Config, ReActResult, Turn, again, finished, threw, ask_again, extend, tools_used, file_append,
  is_stuck_sign, is_drift, first_call, response_of, drift_prompt, has_tool_access, settle_answer,
}

-- `[...new Set(names)]`
abbrev unique : List Text → List Text
unique [] = []
unique (t ∷ ts) = t ∷ keep (λ u. not (u == t)) (unique ts)

abbrev tool_role : Text
tool_role = text "tool"

abbrev count_tools : List Message → ℕ
count_tools [] = 0
count_tools (m ∷ ms) = let rest = count_tools ms in if m.role == tool_role then suc rest else rest

abbrev compact_one : Message → Message
compact_one m =
    if ltb 300 (length m.content)
    then record m { content = take 300 m.content ++ text "…[compacted after context overflow]" }
    else m

-- The first `n` tool observations are cut.
unfoldable pub compact_first : ℕ → List Message → List Message
compact_first n [] = []
compact_first zero (m ∷ ms) = m ∷ ms
compact_first (suc n) (m ∷ ms) =
    let cut = compact_one m ∷ compact_first n ms in
    let whole = m ∷ compact_first (suc n) ms in if m.role == tool_role then cut else whole

-- All tool observations but the last two.
unfoldable pub compact : List Message → List Message
unfolding compact_first
compact ms = compact_first (count_tools ms - 2) ms

module _ (env : Env) (cfg : Config) where
  abbrev pub steer_each : List Text → Loop → Loop
  steer_each [] s = s
  steer_each (m ∷ ms) s =
      steer_each ms (push_message (text "user") (text "[User interjected mid-task]: " ++ m) s)

  -- The messages that the user sent meanwhile, then the trim.
  unfoldable pub prepare : Loop → Loop
  prepare s =
      let steered = steer_each (env.poll_steering s.moment) s in
      record steered { messages = env.trim_messages steered.messages; moment = suc s.moment }

  abbrev pub asked : Loop → Loop
  asked s = record s { moment = suc s.moment }

  abbrev pub count_tokens : Reply → Loop → Loop
  count_tokens reply s = record s {
    prompt_tokens = s.prompt_tokens + reply.prompt_tokens;
    completion_tokens = s.completion_tokens + reply.completion_tokens;
  }

  abbrev one_call : Option Call → List Call
  one_call none = []
  one_call (some c) = c ∷ []

  -- The calls of a reply, and whether its text narrates them: then the first alone.
  unfoldable pub calls_of : Reply → List Call × Bool
  calls_of reply =
      if is_empty reply.tool_calls && truthy reply.content && has_tool_access env cfg
      then (one_call (env.parse_calls cfg.tool_names reply.content), true)
      else (reply.tool_calls, false)

  abbrev pub shown_content : Bool → Text → Text
  shown_content narrated content = if narrated then env.narrated_head content else content

  unfoldable pub use_tools : ℕ → Reply → List Call → Bool → Loop → Turn
  unfolding run_calls
  use_tools i reply calls narrated s = again (
      run_calls env i reply.content calls
        (push_message (text "assistant") (shown_content narrated reply.content) s))

  abbrev pub should_repair : Drift → Bool
  should_repair d = is_drift d && (not cfg.skip_drift_detection || is_stuck_sign d)

  abbrev pub after_drift : ℕ → Reply → List Call → Bool → Loop → Turn
  after_drift i reply calls narrated s =
      if is_empty calls
      then settle_answer env cfg i reply.content s
      else use_tools i reply calls narrated s

  abbrev pub repair_drift : Reply → Drift → Loop → Turn
  repair_drift reply d s =
      ask_again reply.content (drift_prompt env cfg d s)
        (record (extend 1 s.repairs) { drift = true }) s

  unfoldable pub after_reply : ℕ → Reply → Loop → Turn
  unfolding check_drift calls_of use_tools settle_answer
  after_reply i reply s =
      let (calls, narrated) = calls_of reply in
      let (d, tracker) = check_drift (response_of env cfg reply (first_call calls)) s.tracker in
      let tracked = record s { tracker = tracker } in
      if not s.repairs.drift && leb 3 i
      then (if should_repair d
          then repair_drift reply d tracked
          else after_drift i reply calls narrated tracked)
      else after_drift i reply calls narrated s

  abbrev pub settle_retry : ℕ → Loop → Attempt Reply → Turn
  settle_retry i s (ok reply) = after_reply i reply (count_tokens reply s)
  settle_retry i s (err e) = threw e s

  abbrev pub compacted : Loop → Loop
  compacted s = record s { messages = compact s.messages; overflow_repaired = true }

  abbrev pub settle_chat : ℕ → Loop → Attempt Reply → Turn
  settle_chat i s (ok reply) = after_reply i reply (count_tokens reply s)
  settle_chat i s (err e) =
      if not s.overflow_repaired && env.is_overflow e
      then settle_retry i (asked (compacted s)) (env.chat s.moment (compact s.messages))
      else threw e s

  abbrev listed : List Text → Text
  listed [] = []
  listed (t ∷ ts) = text " (" ++ (join_with (text ", ") (t ∷ ts) ++ text ")")

  abbrev pub cancelled_result : ℕ → Loop → ReActResult
  cancelled_result i s = record {
    answer =
        text "🛑 Stopped on request after "
        ++ (env.digits (length (tools_used s.steps))
            ++ (text " tool step(s)"
                ++ (listed (unique (tools_used s.steps))
                    ++ text
                        ". The task did NOT complete — partial work may exist in the workspace.")));
    steps = s.steps;
    iterations = i;
    hit_max_iterations = false;
    cancelled = true;
  }

  -- One round of the `for` loop.
  unfoldable pub iterate : ℕ → Loop → Turn
  unfolding prepare after_reply compact
  iterate i s =
      let ready = prepare (asked s) in
      let go = settle_chat i (asked ready) (env.chat ready.moment ready.messages) in
      if env.is_cancelled s.moment then finished (cancelled_result i s) (asked s) else go

  abbrev or_text : Text → Text → Text
  or_text [] d = d
  or_text (c ∷ t) d = c ∷ t

  abbrev cap_result : Text → Loop → ReActResult
  cap_result answer s = record {
    answer = answer ++ file_append s.file_tokens;
    steps = s.steps;
    iterations = cfg.max_iterations;
    hit_max_iterations = true;
    cancelled = false;
  }

  abbrev cap_verdict : Text → Attempt Verdict → Text
  cap_verdict answer (ok (rejected feedback grant)) = feedback
  cap_verdict answer _ = answer

  -- At the cap the checkpoint replaces the answer that it rejects.
  abbrev judged_at_cap : Text → Loop → Text
  judged_at_cap answer s = elim env.on_final_answer [
    | none ↦ answer
    | some hook ↦ cap_verdict answer (hook s.moment answer s.steps at_cap)
  ]

  abbrev last_said : List ReActStep → Text
  last_said [] = text "I was unable to complete the request."
  last_said (tool_step thought c o ∷ []) = o
  last_said (answer_step a ∷ []) = []
  last_said (s ∷ t ∷ steps) = last_said (t ∷ steps)

  abbrev synthesized : Text → Loop → Text
  synthesized content s = or_text (env.strip_scaffolding content) (
      or_text s.last_rejected
        (text "I was unable to complete the request within the allowed steps."))

  abbrev close_at_cap : Text → Loop → Turn
  close_at_cap answer s =
      let s' = push_step (answer_step answer) s in finished (cap_result answer s') s'

  abbrev pub settle_synthesis : Loop → Attempt Text → Turn
  settle_synthesis s (ok content) = close_at_cap (judged_at_cap (synthesized content s) s) (asked s)
  settle_synthesis s (err e) = finished (cap_result (last_said s.steps) s) s

  abbrev limit_prompt : Text
  limit_prompt =
      text
        "You have reached the maximum number of tool calls. Based ONLY on the actual tool results above, provide your best answer to the original question. If you were unable to find the requested information, say so honestly. NEVER fabricate data, file names, command output, or results that did not appear in the tool observations. Do not call any more tools."

  -- Behind the loop: a synthesis without tools, or the last observation.
  unfoldable pub at_limit : Loop → Turn
  at_limit s =
      let told = push_message (text "user") limit_prompt s in
      settle_synthesis (asked told) (env.synthesize s.moment told.messages)

  abbrev pub go_on : Turn → (Loop → Option Turn) → Option Turn
  go_on (again s) k = k s
  go_on (finished r s) k = some (finished r s)
  go_on (threw e s) k = some (threw e s)

  -- The `for` loop from iteration `i`; `none` if the fuel runs out.
  unfoldable pub run_tool_loop : ℕ → ℕ → Loop → Option Turn
  unfolding iterate at_limit
  run_tool_loop zero i s = none
  run_tool_loop (suc fuel) i s =
      let more = go_on (iterate i s) (run_tool_loop fuel (suc i)) in
      if ltb i (cfg.max_iterations + s.repairs.extra_iterations) then more else some (at_limit s)
