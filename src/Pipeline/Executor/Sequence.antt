-- ===== src/Pipeline/Executor/Sequence.antt =====
-- How running composes, and what the concurrent calls of a stage leave.
use invarail.Prelude.{
  ok, and_then, and_then_assoc, and_then_cong, ℕ, suc, ◌+◌, ◌≡◌, refl, sym, ◌∙◌, Bool, true, false,
  List, [], ◌∷◌, ◌++◌, length, length-append, arith, Text, if◌then◌else◌,
}
use invarail.Json.{Params}
use invarail.Pipeline.{Value, PipelineContext, Outside, Step, stage, Stages, done, then_stage}
use invarail.Pipeline.Calls.{Machine, Ended, tick, call_all, run_parallel, stop_before}
use invarail.Pipeline.Executor.{wrap_error, store_result, execute_stage, execute_stages}

abbrev pub append_stages : Stages → Stages → Stages
append_stages done b = b
append_stages (then_stage s a) b = then_stage s (append_stages a b)

when_true : {A : Type 0} (b : Bool) (x y : A) → b ≡ true → (if b then x else y) ≡ x
when_true true x y h = refl
when_true false x y h = cc

-- An aborted machine runs no further stage.
execute_stages-aborted :
    (env : Outside) (stages : Stages) (last : Value) (m : Machine)
    → m.ctx.abort ≡ true
    → execute_stages env stages last m ≡ (ok last, m)
unfolding execute_stages
execute_stages-aborted env done last m h = refl
execute_stages-aborted env (then_stage (stage base kind) rest) last m h =
    when_true m.ctx.abort _ _ h

-- Two guards whose outcomes `f` leaves as they are, before code that `f` goes on from.
past_guards :
    (b c : Bool) (x y go go' : Ended) (f : Value → Machine → Ended)
    → (b ≡ true → x ≡ and_then x f)
    → (c ≡ true → y ≡ and_then y f)
    → go ≡ and_then go' f
    → (if b then x else if c then y else go) ≡ and_then (if b then x else if c then y else go') f
past_guards true c x y go go' f h k e = h refl
past_guards false true x y go go' f h k e = k refl
past_guards false false x y go go' f h k e = e

-- Running one sequence of stages behind another is running the first and then, from the machine and
-- the result that it leaves, the second; an error of the first, an abort and a stop included.
pub execute_stages-append :
    (env : Outside) (a b : Stages) (last : Value) (m : Machine)
    → execute_stages env (append_stages a b) last m
      ≡ and_then (execute_stages env a last m) (execute_stages env b)
unfolding execute_stages stop_before
execute_stages-append env done b last m = refl
execute_stages-append env (then_stage (stage base kind) a) b last m =
    let e = wrap_error base.name (execute_stage env (stage base kind) (tick m)) in
    let rest = λ (v : Value) (m' : Machine). execute_stages env a v (store_result base.name v m') in
    past_guards m.ctx.abort (env.is_cancelled m.moment) _ _ _ _ (execute_stages env b)
      (λ h. sym (execute_stages-aborted env b last m h))
      (λ _. sym (execute_stages-aborted env b last (stop_before base.name m) refl))
      (and_then_cong e
          (λ v m'. execute_stages env (append_stages a b) v (store_result base.name v m'))
          (λ v m'. and_then (rest v m') (execute_stages env b))
          (λ v m'. execute_stages-append env a b v (store_result base.name v m'))
        ∙ sym (and_then_assoc e rest (execute_stages env b)))

count-call_all :
    (env : Outside) (tool : Text) (k : ℕ) (list : List Params)
    → length (call_all env tool k list).fulfilled + length (call_all env tool k list).rejected
      ≡ length list
unfolding call_all
count-call_all env tool k [] = refl
count-call_all env tool k (ps ∷ rest) = ground (arith, count-call_all env tool (suc k) rest)

-- However the concurrent calls of a stage end and in whatever order they complete, the stage does not
-- fail, the steps from before stay in front, and there is one new step for each call.
pub run_parallel-steps :
    (env : Outside) (tool : Text) (resolve : PipelineContext → List Params) (m : Machine)
    → ((k : ℕ) (xs : List Step) → length (env.completes k xs) ≡ length xs)
    → (v : Value) × (m' : Machine) × (new : List Step) × (run_parallel env tool resolve m
        ≡ (ok v, m'))
      × (m'.ctx.steps ≡ m.ctx.steps ++ new)
      × (length new ≡ length (resolve m.ctx))
unfolding run_parallel
run_parallel-steps env tool resolve m settles =
    let s = call_all env tool m.moment (resolve m.ctx) in
    (
      _,
      _,
      env.completes m.moment s.fulfilled ++ s.rejected,
      refl,
      refl,
      omega (
        arith,
        length-append (env.completes m.moment s.fulfilled) s.rejected,
        settles m.moment s.fulfilled,
        count-call_all env tool m.moment (resolve m.ctx),
      ),
    )
