-- ===== src/ToolLoop/Termination.antt =====
-- How long the tool loop can run.
use invarail.Prelude.{
  ℕ, zero, suc, ◌+◌, ◌*◌, ◌≤◌, ◌<◌, ◌≡◌, refl, sym, ap, Bool, true, false, ◌&&◌, not, List, [], ◌∷◌,
  Option, some, Text, ltb, leb, is_empty, Attempt, ok, err, arith, if◌then◌else◌,
}
use mathlib.Core.Path.{subst}
use invarail.ToolLoop.Calls.{Call, Reply, Repairs, Loop, Env, push_message}
use invarail.ToolLoop.Engine.{
  unused, Config, response_of, first_call, Turn, again, finished, threw, settle_answer,
}
use invarail.ToolLoop.Run.{
  after_drift, repair_drift, should_repair, settle_chat, settle_retry, asked, count_tokens,
  compacted, steer_each, go_on, cancelled_result, calls_of, prepare, use_tools, after_reply,
  iterate, at_limit, run_tool_loop,
}
use invarail.ToolLoop.Allowance.{
  ltb→lt, allowance, GrantsAtMost, Within, if-Within, run_calls-repairs, settle_answer-Within,
}
use invarail.ToolLoop.Drift.{check_drift}

-- The loop returns or throws: it does not run out of fuel.
abbrev pub Ends : Option Turn → Type 0
Ends o = (t : Turn) × (o ≡ some t)

le_of_eq : {a b : ℕ} → a ≡ b → a ≤ b
le_of_eq h = omega arith

steer_each-repairs :
    (env : Env) (cfg : Config) (ms : List Text) (s : Loop)
    → (steer_each env cfg ms s).repairs ≡ s.repairs
steer_each-repairs env cfg [] s = refl
steer_each-repairs env cfg (m ∷ ms) s = steer_each-repairs env cfg ms (push_message _ _ s)

module _ (env : Env) (cfg : Config) (grant : ℕ) (grants : GrantsAtMost grant env) where
  prepare-repairs : (s : Loop) → (prepare env cfg s).repairs ≡ s.repairs
  unfolding prepare
  prepare-repairs s = steer_each-repairs env cfg (env.poll_steering s.moment) s

  use_tools-Within :
      (i : ℕ) (reply : Reply) (calls : List Call) (narrated : Bool) (s : Loop)
      → Within grant (allowance grant s.repairs) (use_tools env cfg i reply calls narrated s)
  unfolding use_tools
  use_tools-Within i reply calls narrated s =
      le_of_eq (ap (allowance grant) (run_calls-repairs env i reply.content calls _))

  after_drift-Within :
      (i : ℕ) (reply : Reply) (calls : List Call) (narrated : Bool) (s : Loop)
      → Within grant (allowance grant s.repairs) (after_drift env cfg i reply calls narrated s)
  after_drift-Within i reply calls narrated s =
      if-Within grant (allowance grant s.repairs) (is_empty calls)
        (settle_answer env cfg i reply.content s) (use_tools env cfg i reply calls narrated s)
        (λ _. settle_answer-Within env cfg grant grants i reply.content s)
        λ _. use_tools-Within i reply calls narrated s

  after_reply-Within :
      (i : ℕ) (reply : Reply) (s : Loop)
      → Within grant (allowance grant s.repairs) (after_reply env cfg i reply s)
  unfolding after_reply
  after_reply-Within i reply s =
      let n = allowance grant s.repairs in
      let (calls, narrated) = calls_of env cfg reply in
      let (d, tracker) = check_drift (response_of env cfg reply (first_call calls)) s.tracker in
      let tracked = record s { tracker = tracker } in
      if-Within grant n (not s.repairs.drift && leb 3 i)
        (if should_repair env cfg d
          then repair_drift env cfg reply d tracked
          else after_drift env cfg i reply calls narrated tracked)
        (after_drift env cfg i reply calls narrated s)
        (λ h.
          if-Within grant n (should_repair env cfg d) (repair_drift env cfg reply d tracked)
            (after_drift env cfg i reply calls narrated tracked) (λ _. ground arith)
            λ _. after_drift-Within i reply calls narrated tracked)
        λ _. after_drift-Within i reply calls narrated s

  settle_retry-Within :
      (i : ℕ) (s : Loop) (r : Attempt Reply)
      → Within grant (allowance grant s.repairs) (settle_retry env cfg i s r)
  settle_retry-Within i s (ok reply) = after_reply-Within i reply (count_tokens env cfg reply s)
  settle_retry-Within i s (err e) = tt

  same_budget :
      (r r' : Repairs)
      → r ≡ r'
      → (t : Turn) → Within grant (allowance grant r) t
      → Within grant (allowance grant r') t
  same_budget r r' e t h = subst (λ x. Within grant (allowance grant x) t) e h

  settle_chat-Within :
      (i : ℕ) (s : Loop) (r : Attempt Reply)
      → Within grant (allowance grant s.repairs) (settle_chat env cfg i s r)
  settle_chat-Within i s (ok reply) = after_reply-Within i reply (count_tokens env cfg reply s)
  settle_chat-Within i s (err e) =
      if-Within grant (allowance grant s.repairs) (not s.overflow_repaired && env.is_overflow e) _
        (threw e s) (λ _. settle_retry-Within i (asked env cfg (compacted env cfg s)) _) λ _. tt

  iterate-Within :
      (i : ℕ) (s : Loop) → Within grant (allowance grant s.repairs) (iterate env cfg i s)
  unfolding iterate
  iterate-Within i s =
      let ready = prepare env cfg (asked env cfg s) in
      let reply = env.chat ready.moment ready.messages in
      let go = settle_chat env cfg i (asked env cfg ready) reply in
      if-Within grant (allowance grant s.repairs) (env.is_cancelled s.moment)
        (finished (cancelled_result env cfg i s) (asked env cfg s)) go (λ _. tt)
        λ _.
          same_budget ready.repairs s.repairs (prepare-repairs (asked env cfg s)) go
            (settle_chat-Within i (asked env cfg ready) reply)

  if-Ends :
      (b : Bool) (x y : Option Turn) → (b ≡ true → Ends x) → Ends y → Ends (if b then x else y)
  if-Ends true x y h k = h refl
  if-Ends false x y h k = k

  pub go_on-Ends :
      (n : ℕ) (t : Turn) (k : Loop → Option Turn)
      → Within grant n t
      → ((s : Loop) → allowance grant s.repairs ≤ n → Ends (k s))
      → Ends (go_on env cfg t k)
  go_on-Ends n (again s) k w next = next s w
  go_on-Ends n (finished r s) k w next = (finished r s, refl)
  go_on-Ends n (threw e s) k w next = (threw e s, refl)

  pub run_from :
      (fuel i n : ℕ) (s : Loop)
      → allowance grant s.repairs ≤ n
      → i ≤ cfg.max_iterations + n
      → cfg.max_iterations + n < i + fuel
      → Ends (run_tool_loop env cfg fuel i s)
  unfolding run_tool_loop
  run_from zero i n s h within enough = absurd (omega arith)
  run_from (suc fuel) i n s h within enough =
      if-Ends (ltb i (cfg.max_iterations + s.repairs.extra_iterations))
        (go_on env cfg (iterate env cfg i s) (run_tool_loop env cfg fuel (suc i)))
        (some (at_limit env cfg s))
        (λ below.
          go_on-Ends (allowance grant s.repairs) (iterate env cfg i s)
            (run_tool_loop env cfg fuel (suc i)) (iterate-Within i s)
            λ s' h'.
              run_from fuel (suc i) n s' (omega arith)
                (omega (arith, ltb→lt i (cfg.max_iterations + s.repairs.extra_iterations) below))
                (omega arith))
        (at_limit env cfg s, refl)

-- Whatever the model, the tools and the user do, and however often they repeat themselves: where no
-- check of the final answer grants more than `grant` iterations, which is at least the default of
-- four, a run returns or throws within `max_iterations` iterations, five for the repairs and thrice
-- `grant`; it does not run on.
pub run_tool_loop-Ends :
    (env : Env) (cfg : Config) (grant : ℕ) (s : Loop)
    → GrantsAtMost grant env
    → s.repairs ≡ unused
    → Ends (run_tool_loop env cfg (cfg.max_iterations + 5 + 3 * grant + 1) 0 s)
run_tool_loop-Ends env cfg grant s grants fresh =
    run_from env cfg grant grants (cfg.max_iterations + 5 + 3 * grant + 1) 0 (5 + 3 * grant) s
      (subst (λ r. allowance grant r ≤ 5 + 3 * grant) (sym fresh) (omega arith)) (omega arith)
      (omega arith)
