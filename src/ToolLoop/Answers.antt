-- ===== src/ToolLoop/Answers.antt =====
-- What the tool loop keeps of an answer that a repair sent back.
use invarail.Prelude.{
  ℕ, ◌≡◌, refl, ◌∙◌, ap, if_holds, ◌⊎◌, Bool, true, ◌&&◌, not, List, [], ◌∷◌, ◌++◌, Option, none,
  some, Text, truthy, trim, is_empty, ltb, leb, Attempt, ok, err, inl, inr, arith,
}
use invarail.ToolLoop.Calls.{
  Call, Reply, Loop, Verdict, accepted, rejected, Stop, ReActStep, Env, deliver, run_valid,
  run_call, run_calls, narrate, push_message,
}
use invarail.ToolLoop.Engine.{
  Config, ReActResult, Turn, again, finished, threw, accept_answer, ask_hook, judge_verdict,
  count_check, checkpoint, settle_answer, remember, wants_answer, wants_hallucination,
  wants_refusal, wants_intent, response_of, first_call,
}
use invarail.ToolLoop.Run.{
  after_drift, repair_drift, should_repair, settle_chat, settle_retry, asked, count_tokens,
  compacted, steer_each, cancelled_result, calls_of, prepare, use_tools, after_reply, iterate,
}
use invarail.ToolLoop.Drift.{check_drift}

abbrev pub NotBlank : Text → Type 0
NotBlank t = truthy (trim t) ≡ true

-- An answer that is not blank, and the files behind it.
abbrev pub Answers : ReActResult → Type 0
Answers r = (answer files : Text) × (r.answer ≡ answer ++ files) × NotBlank answer

-- A rejected answer is kept while the loop goes on; a natural stop answers.
abbrev pub Kept : Turn → Type 0
Kept (again s) = NotBlank s.last_rejected
Kept (finished r s) = (r.cancelled ≡ true) ⊎ (r.hit_max_iterations ≡ true) ⊎ Answers r
Kept (threw e s) = Unit

-- A run is over: it throws, is cancelled, is at the cap, or answers.
abbrev pub Settled : Turn → Type 0
Settled (again s) = ⊥
Settled (finished r s) = (r.cancelled ≡ true) ⊎ (r.hit_max_iterations ≡ true) ⊎ Answers r
Settled (threw e s) = Unit

NotBlank-truthy : (t : Text) → NotBlank t → truthy t ≡ true
unfolding trim
NotBlank-truthy [] h = h
NotBlank-truthy (c ∷ t) h = refl

cong_NotBlank : {t u : Text} → u ≡ t → NotBlank t → NotBlank u
cong_NotBlank e h = ap (λ x. truthy (trim x)) e ∙ h

remember-NotBlank :
    (answer : Text) (s : Loop)
    → NotBlank s.last_rejected
    → NotBlank (remember answer s).last_rejected
remember-NotBlank answer s h =
    if_holds (λ s'. NotBlank s'.last_rejected) (truthy (trim answer))
      (record s { last_rejected = answer }) s (λ e. e) λ _. h

pub remember_same :
    (answer : Text) (s : Loop) → NotBlank answer → NotBlank (remember answer s).last_rejected
remember_same answer s h =
    if_holds (λ s'. NotBlank s'.last_rejected) (truthy (trim answer))
      (record s { last_rejected = answer }) s (λ e. e) λ e. absurd (ground arith)

module _ (env : Env) (i : ℕ) (thought : Text) where
  run_valid-rejected :
      (c : Call) (s : Loop) → (run_valid env i thought c s).last_rejected ≡ s.last_rejected
  unfolding run_valid
  run_valid-rejected c s = ground arith

  deliver-rejected :
      (c : Call) (o : Text) (s : Loop)
      → (deliver env i thought c o s).last_rejected ≡ s.last_rejected
  unfolding deliver
  deliver-rejected c o s = refl

  narrate-rejected : (name : Text) (s : Loop) → (narrate name s).last_rejected ≡ s.last_rejected
  unfolding narrate
  narrate-rejected name s = ground arith

  run_call-rejected :
      (c : Call) (s : Loop) → (run_call env i thought c s).last_rejected ≡ s.last_rejected
  unfolding run_call
  run_call-rejected c s = grind (arith, run_valid-rejected, deliver-rejected, narrate-rejected)

  pub run_calls-rejected :
      (cs : List Call) (s : Loop) → (run_calls env i thought cs s).last_rejected ≡ s.last_rejected
  unfolding run_calls
  run_calls-rejected [] s = refl
  run_calls-rejected (c ∷ cs) s =
      run_calls-rejected cs (run_call env i thought c s) ∙ run_call-rejected c s

steer_each-rejected :
    (env : Env) (cfg : Config) (ms : List Text) (s : Loop)
    → (steer_each env cfg ms s).last_rejected ≡ s.last_rejected
steer_each-rejected env cfg [] s = refl
steer_each-rejected env cfg (m ∷ ms) s = steer_each-rejected env cfg ms (push_message _ _ s)

module _ (env : Env) (cfg : Config) where
  accept_answer-Kept :
      (i : ℕ) (answer : Text) (s : Loop)
      → NotBlank s.last_rejected
      → Kept (accept_answer env cfg i answer s)
  unfolding accept_answer
  accept_answer-Kept i answer s h = inr (
      inr (
        _,
        _,
        refl,
        if_holds NotBlank (not (truthy (trim answer)) && truthy s.last_rejected) s.last_rejected
            answer (λ _. h) λ e. ground (arith, NotBlank-truthy s.last_rejected h),
      ))

  judge_verdict-Kept :
      (i : ℕ) (content answer : Text) (s : Loop) (v : Attempt Verdict)
      → NotBlank s.last_rejected
      → Kept (judge_verdict env cfg i content answer s v)
  judge_verdict-Kept i content answer s (ok accepted) h = accept_answer-Kept i answer s h
  judge_verdict-Kept i content answer s (ok (rejected feedback grant)) h = h
  judge_verdict-Kept i content answer s (err e) h = accept_answer-Kept i answer s h

  ask_hook-Kept :
      (o : Option (ℕ → Text → List ReActStep → Stop → Attempt Verdict)) (i : ℕ)
      (content answer : Text) (s : Loop)
      → NotBlank s.last_rejected
      → Kept (ask_hook env cfg o i content answer s)
  ask_hook-Kept none i content answer s h = accept_answer-Kept i answer s h
  ask_hook-Kept (some hook) i content answer s h =
      if_holds Kept (ltb s.repairs.final_answer_checks 3) _ _
        (λ _. judge_verdict-Kept i content answer (count_check env cfg s) _ h)
        λ _. accept_answer-Kept i answer s h

  settle_answer-Kept :
      (i : ℕ) (content : Text) (s : Loop)
      → NotBlank s.last_rejected
      → Kept (settle_answer env cfg i content s)
  unfolding settle_answer checkpoint
  settle_answer-Kept i content s h =
      let answer = env.strip_scaffolding content in
      if_holds Kept (wants_answer env cfg answer s) _ _ (λ _. h)
        λ _.
          if_holds Kept (wants_hallucination env cfg answer s) _ _
            (λ _. remember-NotBlank answer s h)
            λ _.
              if_holds Kept (wants_refusal env cfg s) _ _ (λ _. remember-NotBlank answer s h)
                λ _.
                  if_holds Kept (wants_intent env cfg answer s) _ _
                    (λ _. remember-NotBlank answer s h)
                    λ _. ask_hook-Kept env.on_final_answer i content answer s h

  use_tools-Kept :
      (i : ℕ) (reply : Reply) (calls : List Call) (narrated : Bool) (s : Loop)
      → NotBlank s.last_rejected
      → Kept (use_tools env cfg i reply calls narrated s)
  unfolding use_tools
  use_tools-Kept i reply calls narrated s h =
      cong_NotBlank (run_calls-rejected env i reply.content calls _) h

  after_drift-Kept :
      (i : ℕ) (reply : Reply) (calls : List Call) (narrated : Bool) (s : Loop)
      → NotBlank s.last_rejected
      → Kept (after_drift env cfg i reply calls narrated s)
  after_drift-Kept i reply calls narrated s h =
      if_holds Kept (is_empty calls) _ _ (λ _. settle_answer-Kept i reply.content s h)
        λ _. use_tools-Kept i reply calls narrated s h

  after_reply-Kept :
      (i : ℕ) (reply : Reply) (s : Loop)
      → NotBlank s.last_rejected
      → Kept (after_reply env cfg i reply s)
  unfolding after_reply
  after_reply-Kept i reply s h =
      let (calls, narrated) = calls_of env cfg reply in
      let (d, tracker) = check_drift (response_of env cfg reply (first_call calls)) s.tracker in
      let tracked = record s { tracker = tracker } in
      if_holds Kept (not s.repairs.drift && leb 3 i) _ _
        (λ _.
          if_holds Kept (should_repair env cfg d) (repair_drift env cfg reply d tracked) _ (λ _. h)
            λ _. after_drift-Kept i reply calls narrated tracked h)
        λ _. after_drift-Kept i reply calls narrated s h

  settle_retry-Kept :
      (i : ℕ) (s : Loop) (r : Attempt Reply)
      → NotBlank s.last_rejected
      → Kept (settle_retry env cfg i s r)
  settle_retry-Kept i s (ok reply) h = after_reply-Kept i reply (count_tokens env cfg reply s) h
  settle_retry-Kept i s (err e) h = tt

  settle_chat-Kept :
      (i : ℕ) (s : Loop) (r : Attempt Reply)
      → NotBlank s.last_rejected
      → Kept (settle_chat env cfg i s r)
  settle_chat-Kept i s (ok reply) h = after_reply-Kept i reply (count_tokens env cfg reply s) h
  settle_chat-Kept i s (err e) h =
      if_holds Kept (not s.overflow_repaired && env.is_overflow e) _ (threw e s)
        (λ _. settle_retry-Kept i (asked env cfg (compacted env cfg s)) _ h) λ _. tt

  prepare-rejected : (s : Loop) → (prepare env cfg s).last_rejected ≡ s.last_rejected
  unfolding prepare
  prepare-rejected s = steer_each-rejected env cfg (env.poll_steering s.moment) s

  pub iterate-Kept : (i : ℕ) (s : Loop) → NotBlank s.last_rejected → Kept (iterate env cfg i s)
  unfolding iterate
  iterate-Kept i s h =
      let ready = prepare env cfg (asked env cfg s) in
      let reply = env.chat ready.moment ready.messages in
      if_holds Kept (env.is_cancelled s.moment) (finished (cancelled_result env cfg i s) _) _
        (λ _. inl refl)
        λ _.
          settle_chat-Kept i (asked env cfg ready) reply
            (cong_NotBlank (prepare-rejected (asked env cfg s)) h)
