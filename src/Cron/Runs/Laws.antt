-- ===== src/Cron/Runs/Laws.antt =====
-- Retries, one-shot jobs, and the guard against stacked runs.
use invarail.Prelude.{
  ℕ, ◌-◌, ◌≤◌, suc, ◌≡◌, refl, Bool, true, false, ◌&&◌, List, [], ◌∷◌, ◌++◌, Option, none, some,
  Text, ◌==◌, eq_iff, includes, any, length, includes-delete_name, count, ltb, is_some, or_else,
  or_option, zero, sym, ap, ◌∙◌, if_holds, arith, if◌then◌else◌,
}
use mathlib.Core.Path.{subst}
use invarail.Cron.Store.{CronJob, get_job, apply_update, update_job, update_last_run}
use invarail.Cron.Service.{Service, disable}
use invarail.Cron.Service.Laws.{NoLeak, ticks, find_first-change_job, edit_disables}
use invarail.Cron.Runs.{
  max_retries, Outcome, Ended, disable_job, after_stamp, after_trigger, try_job, once_more,
  attempt_from, Told, tell, execute_inner, Flights, begin_run, remove_one, end_run, Step, tick,
  ended, Reaches, here, then_step, idle,
}

-- Why an attempt fails: `onTrigger` throws, or the write of the last run does, or that of the
-- retirement of a one-shot job.
abbrev pub failure : CronJob → Outcome → Option Text
failure job o =
    or_option o.error
      (or_option o.stamp_error (if or_else job.once false then o.edit_error else none))

module _ (valid : Text → Bool) (job : CronJob) where
  disable_job-error : (e : Option Text) (s : Service) → (disable_job valid job e s).0 ≡ e
  disable_job-error none s = refl
  disable_job-error (some e) s = refl

  after_stamp-error :
      (o : Outcome) (e : Option Text) (s : Service)
      → (after_stamp valid job o e s).0
        ≡ or_option e (if or_else job.once false then o.edit_error else none)
  after_stamp-error o none s = ground (arith, disable_job-error o.edit_error s)
  after_stamp-error o (some e) s = refl

  after_trigger-error :
      (o : Outcome) (e : Option Text) (s : Service)
      → (after_trigger valid job o e s).0
        ≡ or_option e
            (or_option o.stamp_error (if or_else job.once false then o.edit_error else none))
  unfolding update_last_run
  after_trigger-error o none s =
      after_stamp-error o o.stamp_error (record s { jobs = update_last_run job.id o.at s.jobs })
  after_trigger-error o (some e) s = refl

  try_job-failure : (o : Outcome) (s : Service) → (try_job valid job o s).0 ≡ failure job o
  unfolding try_job
  try_job-failure o s = after_trigger-error o o.error s

-- The three attempts of a run.
three_attempts :
    (valid : Text → Bool) (outcomes : ℕ → Outcome) (job : CronJob) (s : Service)
    → let e = (attempt_from valid job outcomes max_retries 0 s).0 in
      (e.tries ≤ 3)
      × (e.tries ≡ suc (length e.waits))
      × (e.error ≡ (
          if is_some (failure job (outcomes 0)) && is_some (failure job (outcomes 1))
          then failure job (outcomes 2)
          else none))
unfolding attempt_from
three_attempts valid outcomes job s =
    let r0 = try_job valid job (outcomes 0) s in
    let r1 = try_job valid job (outcomes 1) r0.1 in
    ground (
      arith,
      try_job-failure valid job (outcomes 0) s,
      try_job-failure valid job (outcomes 1) r0.1,
      try_job-failure valid job (outcomes 2) r1.1,
    )

-- The failures that are known after a run with this end.
abbrev told : Bool → CronJob → Option Text → List (Text × Text) → List (Text × Text)
told listens job none known = known
told listens job (some error) known = if listens then known ++ (job.id, error) ∷ [] else known

tell-told :
    (listens : Bool) (job : CronJob) (o : Option Text) (t : Told)
    → (tell listens job o t).failures ≡ told listens job o t.failures
tell-told listens job none t = refl
tell-told true job (some e) t = refl
tell-told false job (some e) t = refl

tell-service :
    (listens : Bool) (job : CronJob) (o : Option Text) (t : Told)
    → (tell listens job o t).service ≡ t.service
tell-service listens job none t = refl
tell-service true job (some e) t = refl
tell-service false job (some e) t = refl

told_cases :
    (listens b c : Bool) (job : CronJob) (o : Option Text) (known : List (Text × Text))
    → told listens job (if b && c then o else none) known ≡ (
        if listens && b && c
        then (elim o [ none ↦ known | some error ↦ known ++ (job.id, error) ∷ [] ])
        else known)
told_cases true true true job none known = refl
told_cases true true true job (some e) known = refl
told_cases false true true job none known = refl
told_cases false true true job (some e) known = refl
told_cases true true false job o known = refl
told_cases true false c job o known = refl
told_cases false true false job o known = refl
told_cases false false c job o known = refl

-- A run fails exactly if all three attempts do, in `onTrigger` or in the writes behind it; `onFailure`,
-- where there is one, is then told of the last error. It made three attempts at most, and one wait
-- before each but the first.
pub execute_inner_reports :
    (valid : Text → Bool) (listens : Bool) (outcomes : ℕ → Outcome) (job : CronJob) (s : Told)
    → let (e, t) = execute_inner valid listens outcomes job s in
      (e.tries ≤ 3)
      × (e.tries ≡ suc (length e.waits))
      × (t.failures ≡ (
          if listens && is_some (failure job (outcomes 0)) && is_some (failure job (outcomes 1))
          then (elim (failure job (outcomes 2)) [
            | none ↦ s.failures
            | some error ↦ s.failures ++ (job.id, error) ∷ []
          ])
          else s.failures))
unfolding execute_inner attempt_from
execute_inner_reports valid listens outcomes job s =
    let (few, waits, e) = three_attempts valid outcomes job s.service in
    let known = s.failures in
    let b = is_some (failure job (outcomes 0)) in
    let c = is_some (failure job (outcomes 1)) in
    let r = attempt_from valid job outcomes max_retries 0 s.service in
    (
      few,
      waits,
      tell-told listens job r.0.error (record s { service = r.1 })
          ∙ ap (λ o. told listens job o known) e
          ∙ told_cases listens b c job (failure job (outcomes 2)) known,
    )

-- No timer of the job ticks, and the store has it disabled.
abbrev pub Retired : Text → Service → Type 0
Retired id s =
    (any (ticks id) s.timers ≡ false)
    × ((j : CronJob) × (get_job id s.jobs ≡ some j) × (j.enabled ≡ false))

module _ (valid : Text → Bool) (job : CronJob) (once : job.once ≡ some true) where
  abbrev Ready : Service → Type 0
  Ready s = NoLeak s × ((j : CronJob) × (get_job job.id s.jobs ≡ some j))

  -- After an attempt: retired, or ready for the next.
  abbrev Tried : Option Text × Service → Type 0
  Tried (none, s) = Retired job.id s
  Tried (some e, s) = Ready s

  disable_job-Tried : (e : Option Text) (s : Service) → Ready s → Tried (disable_job valid job e s)
  unfolding get_job apply_update update_job
  disable_job-Tried none s (leak, (j, there)) =
      let (silent, kept) = edit_disables valid job.id s j leak there in (silent, (_, kept, refl))
  disable_job-Tried (some e) s (leak, (j, there)) = (
    leak,
    (
      apply_update disable j,
      rw (there, update_job, get_job)
          (find_first-change_job job.id (apply_update disable) s.jobs j (λ _. refl) there),
    ),
  )

  after_stamp-Tried :
      (o : Outcome) (e : Option Text) (s : Service) → Ready s → Tried (after_stamp valid job o e s)
  after_stamp-Tried o none s ready =
      if_holds Tried (or_else job.once false) (disable_job valid job o.edit_error s) (none, s)
        (λ _. disable_job-Tried o.edit_error s ready)
        λ e. absurd (cc (sym e ∙ ap (λ o. or_else o false) once))
  after_stamp-Tried o (some e) s ready = ready

  after_trigger-Tried :
      (o : Outcome) (e : Option Text) (s : Service)
      → Ready s
      → Tried (after_trigger valid job o e s)
  unfolding get_job update_last_run
  after_trigger-Tried o none s (leak, (j, there)) =
      let stamp : CronJob → CronJob = λ j. record j { last_run_at = some o.at } in
      after_stamp-Tried o o.stamp_error (record s { jobs = update_last_run job.id o.at s.jobs })
        (leak, (stamp j, find_first-change_job job.id stamp s.jobs j (λ _. refl) there))
  after_trigger-Tried o (some e) s ready = ready

  try_job-Tried : (o : Outcome) (s : Service) → Ready s → Tried (try_job valid job o s)
  unfolding try_job
  try_job-Tried o s ready = after_trigger-Tried o o.error s ready

  settled : (r : Option Text × Service) → Tried r → r.0 ≡ none → Retired job.id r.1
  settled (none, s) h e = h
  settled (some x, s) h e = absurd (ground arith)

  went_on :
      (outcomes : ℕ → Outcome) (attempt : ℕ) (r : Option Text × Service) (rest : Ended × Service)
      → Tried r
      → (Ready r.1 → rest.0.error ≡ none → Retired job.id rest.1)
      → (elim r.0 as (λ _. Ended × Service) [
        | none ↦ (record { tries = 1; waits = []; error = none }, r.1)
        | some _ ↦ once_more valid job attempt rest
      ]).0.error
        ≡ none
      → Retired job.id
          (elim r.0 as (λ _. Ended × Service) [
            | none ↦ (record { tries = 1; waits = []; error = none }, r.1)
            | some _ ↦ once_more valid job attempt rest
          ]).1
  went_on outcomes attempt (none, s) rest h next e = h
  went_on outcomes attempt (some x, s) rest h next e = next h e

  attempt_from_retires :
      (outcomes : ℕ → Outcome) (left attempt : ℕ) (s : Service)
      → Ready s
      → (attempt_from valid job outcomes left attempt s).0.error ≡ none
      → Retired job.id (attempt_from valid job outcomes left attempt s).1
  unfolding attempt_from
  attempt_from_retires outcomes zero attempt s ready ok =
      let r = try_job valid job (outcomes attempt) s in
      settled r (try_job-Tried (outcomes attempt) s ready) ok
  attempt_from_retires outcomes (suc left) attempt s ready ok =
      let r = try_job valid job (outcomes attempt) s in
      went_on outcomes attempt r (attempt_from valid job outcomes left (suc attempt) r.1)
        (try_job-Tried (outcomes attempt) s ready)
        (λ again e. attempt_from_retires outcomes left (suc attempt) r.1 again e) ok

-- Where no timer is leaked: a one-shot job of the store whose run ends without an error, at whatever
-- attempt, and whichever writes failed before, is disabled in the store, and none of its timers ticks
-- on.
pub execute_inner_retires :
    (valid : Text → Bool) (listens : Bool) (outcomes : ℕ → Outcome) (job : CronJob) (s : Told)
    → NoLeak s.service
    → get_job job.id s.service.jobs ≡ some job
    → job.once ≡ some true
    → (execute_inner valid listens outcomes job s).0.error ≡ none
    → Retired job.id (execute_inner valid listens outcomes job s).1.service
unfolding execute_inner
execute_inner_retires valid listens outcomes job s leak there once ok =
    let r = attempt_from valid job outcomes max_retries 0 s.service in
    subst (λ (t : Service). Retired job.id t)
      (sym (tell-service listens job r.0.error (record s { service = r.1 })))
      (attempt_from_retires valid job once outcomes max_retries 0 s.service (leak, (job, there)) ok)

-- No id has two runs in flight, and the guard knows the ids that have one.
abbrev pub OneEach : Flights → Type 0
OneEach s =
    (id : Text)
    → (count (λ x. x == id) s.in_flight ≤ 1) × (includes id s.in_flight ≡ includes id s.active)

includes-count : (u : Text) (xs : List Text) → includes u xs ≡ ltb 0 (count (λ x. x == u) xs)
unfolding includes
includes-count u [] = refl
includes-count u (x ∷ xs) = ground (arith, includes-count u xs)

count-remove_one :
    (id u : Text) (xs : List Text)
    → count (λ x. x == u) (remove_one id xs)
      ≡ (if id == u then count (λ x. x == u) xs - 1 else count (λ x. x == u) xs)
count-remove_one id u [] = ground arith
count-remove_one id u (x ∷ xs) =
    ground (arith, count-remove_one id u xs, eq_iff x u, eq_iff x id, eq_iff id u)

Step-OneEach : (s t : Flights) → Step s t → OneEach s → OneEach t
unfolding begin_run end_run includes
Step-OneEach s _ (tick id _) h = λ u.
    ground
      (arith, h u, h id, eq_iff id u, includes-count u s.in_flight, includes-count id s.in_flight)
Step-OneEach s _ (ended id _ flying) h = λ u. ground (
  arith,
  h u,
  eq_iff id u,
  eq_iff u id,
  includes-delete_name u id s.active,
  count-remove_one id u s.in_flight,
  includes-count u (remove_one id s.in_flight),
  includes-count u s.in_flight,
)

keeps_OneEach : (s t : Flights) → Reaches s t → OneEach s → OneEach t
keeps_OneEach s _ (here _) h = h
keeps_OneEach s _ (then_step _ t u r step) h = Step-OneEach t u step (keeps_OneEach s t r h)

-- From no run in flight, however jobs tick and whenever their runs end: no job has two runs in
-- flight, and the guard knows exactly the jobs that have one.
pub Reaches-OneEach :
    (s : Flights)
    → Reaches idle s
    → (id : Text)
    → (count (λ x. x == id) s.in_flight ≤ 1) × (includes id s.in_flight ≡ includes id s.active)
unfolding includes
Reaches-OneEach s r = keeps_OneEach idle s r (λ u. (omega arith, refl))
