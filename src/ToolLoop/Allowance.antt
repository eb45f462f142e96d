-- ===== src/ToolLoop/Allowance.antt =====
-- What an iteration of the tool loop leaves of the iterations that can be granted.
use invarail.Prelude.{
  ℕ, zero, suc, ◌+◌, ◌-◌, ◌*◌, ◌≤◌, ◌<◌, ◌≡◌, refl, ◌∙◌, Bool, true, false, List, [], ◌∷◌, Option,
  none, some, Text, ltb, Attempt, ok, err, arith, if◌then◌else◌,
}
use invarail.ToolLoop.Calls.{
  Call, ReActStep, Repairs, Loop, Verdict, accepted, rejected, Stop, natural, Env, deliver,
  run_valid, run_call, run_calls, narrate,
}
use invarail.ToolLoop.Engine.{
  Config, extend, remember, wants_answer, wants_hallucination, wants_refusal, wants_intent,
  repair_empty, repair_hallucination, repair_refusal, repair_intent, Turn, again, finished, threw,
  accept_answer, ask_hook, judge_verdict, count_check, checkpoint, settle_answer,
}

abbrev pub one_unless : Bool → ℕ
one_unless true = 0
one_unless false = 1

-- The iterations that are granted, and those that still can be: one for each repair that is unused,
-- and `grant` for each of the three checks.
abbrev pub allowance : ℕ → Repairs → ℕ
allowance grant r =
    r.extra_iterations
    + one_unless r.hallucination
    + one_unless r.refusal
    + one_unless r.intent
    + one_unless r.empty
    + one_unless r.drift
    + (3 - r.final_answer_checks) * grant

-- No check grants more than `grant`, nor less than the default.
abbrev pub GrantsAtMost : ℕ → Env → Type 0
GrantsAtMost grant env =
    (4 ≤ grant)
    × ((k : ℕ) (answer : Text) (steps : List ReActStep) (feedback : Text) (n : ℕ)
          (hook : ℕ → Text → List ReActStep → Stop → Attempt Verdict)
        → env.on_final_answer ≡ some hook
        → hook k answer steps natural ≡ ok (rejected feedback (some n))
        → n ≤ grant)

-- If the loop goes on, its allowance has not grown.
abbrev pub Within : ℕ → ℕ → Turn → Type 0
Within grant n (again s) = allowance grant s.repairs ≤ n
Within grant n (finished r s) = Unit
Within grant n (threw e s) = Unit

pub if-Within :
    (grant n : ℕ) (b : Bool) (x y : Turn)
    → (b ≡ true → Within grant n x)
    → (b ≡ false → Within grant n y)
    → Within grant n (if b then x else y)
if-Within grant n true x y h k = h refl
if-Within grant n false x y h k = k refl

pub ltb→lt : (a b : ℕ) → ltb a b ≡ true → a < b
ltb→lt a b h = ground arith

one_check :
    (checks grant : ℕ) → checks < 3 → (3 - suc checks) * grant + grant ≡ (3 - checks) * grant
one_check zero grant h = omega arith
one_check (suc zero) grant h = omega arith
one_check (suc (suc zero)) grant h = omega arith
one_check (suc (suc (suc n))) grant h = absurd (omega arith)

spend_check :
    (r : Repairs) (n grant : ℕ)
    → r.final_answer_checks < 3
    → n ≤ grant
    → allowance grant (extend n (record r { final_answer_checks = suc r.final_answer_checks }))
      ≤ allowance grant r
spend_check r n grant below h = omega (arith, one_check r.final_answer_checks grant below)

remember-repairs : (answer : Text) (s : Loop) → (remember answer s).repairs ≡ s.repairs
remember-repairs answer s = ground arith

module _ (env : Env) (i : ℕ) (thought : Text) where
  run_valid-repairs : (c : Call) (s : Loop) → (run_valid env i thought c s).repairs ≡ s.repairs
  unfolding run_valid
  run_valid-repairs c s = ground arith

  deliver-repairs :
      (c : Call) (o : Text) (s : Loop) → (deliver env i thought c o s).repairs ≡ s.repairs
  unfolding deliver
  deliver-repairs c o s = refl

  narrate-repairs : (name : Text) (s : Loop) → (narrate name s).repairs ≡ s.repairs
  unfolding narrate
  narrate-repairs name s = ground arith

  run_call-repairs : (c : Call) (s : Loop) → (run_call env i thought c s).repairs ≡ s.repairs
  unfolding run_call
  run_call-repairs c s = grind (arith, run_valid-repairs, deliver-repairs, narrate-repairs)

pub run_calls-repairs :
    (env : Env) (i : ℕ) (thought : Text) (cs : List Call) (s : Loop)
    → (run_calls env i thought cs s).repairs ≡ s.repairs
unfolding run_calls
run_calls-repairs env i thought [] s = refl
run_calls-repairs env i thought (c ∷ cs) s =
    run_calls-repairs env i thought cs (run_call env i thought c s)
    ∙ run_call-repairs env i thought c s

module _ (env : Env) (cfg : Config) (grant : ℕ) (grants : GrantsAtMost grant env) where
  judge_verdict-Within :
      (i : ℕ) (content answer : Text) (s : Loop)
      (hook : ℕ → Text → List ReActStep → Stop → Attempt Verdict) (v : Attempt Verdict)
      → env.on_final_answer ≡ some hook
      → hook s.moment answer s.steps natural ≡ v
      → ltb s.repairs.final_answer_checks 3 ≡ true
      → Within grant
          (allowance grant s.repairs)
          (judge_verdict env cfg i content answer (count_check env cfg s) v)
  unfolding accept_answer
  judge_verdict-Within i content answer s hook (ok accepted) is_hook e below = tt
  judge_verdict-Within i content answer s hook (ok (rejected feedback none)) is_hook e below =
      let enough = grants.0 in spend_check s.repairs 4 grant (ltb→lt _ 3 below) enough
  judge_verdict-Within i content answer s hook (ok (rejected feedback (some n))) is_hook e below =
      let enough = grants.1 s.moment answer s.steps feedback n hook is_hook e in
      spend_check s.repairs n grant (ltb→lt _ 3 below) enough
  judge_verdict-Within i content answer s hook (err x) is_hook e below = tt

  ask_hook-Within :
      (o : Option (ℕ → Text → List ReActStep → Stop → Attempt Verdict)) (i : ℕ)
      (content answer : Text) (s : Loop)
      → env.on_final_answer ≡ o
      → Within grant (allowance grant s.repairs) (ask_hook env cfg o i content answer s)
  unfolding accept_answer
  ask_hook-Within none i content answer s e = tt
  ask_hook-Within (some hook) i content answer s e =
      if-Within grant (allowance grant s.repairs) (ltb s.repairs.final_answer_checks 3) _ _
        (judge_verdict-Within i content answer s hook (hook s.moment answer s.steps natural) e refl)
        λ _. tt

  checkpoint-Within :
      (i : ℕ) (content answer : Text) (s : Loop)
      → Within grant (allowance grant s.repairs) (checkpoint env cfg i content answer s)
  unfolding checkpoint
  checkpoint-Within i content answer s = ask_hook-Within env.on_final_answer i content answer s refl

  pub settle_answer-Within :
      (i : ℕ) (content : Text) (s : Loop)
      → Within grant (allowance grant s.repairs) (settle_answer env cfg i content s)
  unfolding settle_answer
  settle_answer-Within i content s =
      let n = allowance grant s.repairs in
      let answer = env.strip_scaffolding content in
      let last = checkpoint env cfg i content answer s in
      let fourth =
        if wants_intent env cfg answer s then repair_intent env cfg content answer s else last in
      let third =
        if wants_refusal env cfg s then repair_refusal env cfg content answer s else fourth in
      let second =
        if wants_hallucination env cfg answer s
        then repair_hallucination env cfg content answer s
        else third in
      if-Within grant n (wants_answer env cfg answer s) (repair_empty env cfg content s) second
        (λ h. ground arith)
        λ _.
          if-Within grant n (wants_hallucination env cfg answer s)
            (repair_hallucination env cfg content answer s) third (λ h. ground arith)
            λ _.
              if-Within grant n (wants_refusal env cfg s) (repair_refusal env cfg content answer s)
                fourth (λ h. ground arith)
                λ _.
                  if-Within grant n (wants_intent env cfg answer s)
                    (repair_intent env cfg content answer s) last (λ h. ground arith)
                    λ _. checkpoint-Within i content answer s
