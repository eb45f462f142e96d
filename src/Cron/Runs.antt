-- ===== src/Cron/Runs.antt =====
-- src/cron/service.ts, the runs: what a tick starts, its retries, and the runs that a boot catches
-- up on.
pub mod Laws
pub mod CatchUp
use invarail.Prelude.{
  ℕ, ◌+◌, suc, zero, Bool, true, false, ◌&&◌, ◌||◌, not, List, [], ◌∷◌, ◌++◌, Option, none, some,
  Text, text, includes, delete_name, or_else, ◌≡◌, ◌==◌, ◌*◌, ltb, if◌then◌else◌,
}
use invarail.Cron.Store.{
  CronJob, JobUpdate, update_job, update_last_run, heartbeat, same_type, list_jobs,
}
use invarail.Cron.Service.{Service, disable, edit}

abbrev pub max_retries : ℕ
max_retries = 2

-- `RETRY_DELAYS_MS[attempt]`
abbrev retry_delay_ms : ℕ → ℕ
retry_delay_ms zero = 30000
retry_delay_ms (suc n) = 60000

-- What happens at one attempt: the error of `onTrigger`, if it throws, the time at its end, and the
-- errors of the writes of `updateLastRun` and of `edit`. An error of a write for a job that is not in
-- the store cannot be, and is let be.
pub record Outcome : Type 0 where
  pub error : Option Text
  pub at : ℕ
  pub stamp_error : Option Text
  pub edit_error : Option Text

-- How the loop over the attempts ended.
pub record Ended : Type 0 where
  pub tries : ℕ
  pub waits : List ℕ
  pub error : Option Text

module _ (valid : Text → Bool) (job : CronJob) where
  -- The job is disabled in memory before the store is written; timers are stopped after that.
  abbrev pub disable_job : Option Text → Service → Option Text × Service
  disable_job none s = (none, (edit valid job.id disable s).1)
  disable_job (some e) s = (some e, record s { jobs = (update_job job.id disable s.jobs).1 })

  -- A one-shot job retires after its first success.
  abbrev pub retire : Option Text → Service → Option Text × Service
  retire write_error s = if or_else job.once false then disable_job write_error s else (none, s)

  abbrev pub after_stamp : Outcome → Option Text → Service → Option Text × Service
  after_stamp o none s = retire o.edit_error s
  after_stamp o (some e) s = (some e, s)

  abbrev pub after_trigger : Outcome → Option Text → Service → Option Text × Service
  after_trigger o none s =
      after_stamp o o.stamp_error (record s { jobs = update_last_run job.id o.at s.jobs })
  after_trigger o (some e) s = (some e, s)

  -- The `try` of an attempt: the error that it caught, if any, and what it left.
  unfoldable pub try_job : Outcome → Service → Option Text × Service
  unfolding edit update_job update_last_run
  try_job o s = after_trigger o o.error s

  abbrev pub once_more : ℕ → Ended × Service → Ended × Service
  once_more attempt (rest, s) =
      (record rest { tries = suc rest.tries; waits = retry_delay_ms attempt ∷ rest.waits }, s)

  -- The loop from one attempt on, with `left` retries after it.
  unfoldable pub attempt_from : (ℕ → Outcome) → ℕ → ℕ → Service → Ended × Service
  unfolding try_job
  attempt_from outcomes zero attempt s =
      let (e, s') = try_job (outcomes attempt) s in
      (record { tries = 1; waits = []; error = e }, s')
  attempt_from outcomes (suc left) attempt s =
      let r = try_job (outcomes attempt) s in
      let rest = attempt_from outcomes left (suc attempt) r.1 in
      elim r.0 [
        | none ↦ (record { tries = 1; waits = []; error = none }, r.1)
        | some _ ↦ once_more attempt rest
      ]

-- The service, and the failures that its `onFailure` was told of, if it has one.
pub record Told : Type 0 where
  pub service : Service
  pub failures : List (Text × Text)

abbrev pub tell : Bool → CronJob → Option Text → Told → Told
tell listens job none s = s
tell listens job (some error) s =
    if listens then record s { failures = s.failures ++ (job.id, error) ∷ [] } else s

-- `executeJobInner`
unfoldable pub execute_inner : (Text → Bool) → Bool → (ℕ → Outcome) → CronJob → Told → Ended × Told
unfolding attempt_from
execute_inner valid listens outcomes job s =
    let (ended, service) = attempt_from valid job outcomes max_retries 0 s.service in
    (ended, tell listens job ended.error (record s { service = service }))

-- The guard of `executeJob`: the ids of `activeJobs`, and the runs in flight.
pub record Flights : Type 0 where
  pub active : List Text
  pub in_flight : List Text

-- A tick, or a run by hand: it starts a run, or it is skipped.
unfoldable pub begin_run : Text → Flights → Flights
begin_run id s =
    if includes id s.active
    then s
    else record { active = id ∷ s.active; in_flight = id ∷ s.in_flight }

abbrev pub remove_one : Text → List Text → List Text
remove_one id [] = []
remove_one id (x ∷ xs) = if x == id then xs else x ∷ remove_one id xs

-- The `finally` of a run in flight.
unfoldable pub end_run : Text → Flights → Flights
end_run id s = record { active = delete_name id s.active; in_flight = remove_one id s.in_flight }

-- What can happen: a tick at any time, and the end of a run that is in flight.
pub data Step : Flights → Flights → Type 0 where
  tick : (id : Text) (s : Flights) → Step s (begin_run id s)
  ended : (id : Text) (s : Flights) → includes id s.in_flight ≡ true → Step s (end_run id s)

pub data Reaches : Flights → Flights → Type 0 where
  here : (s : Flights) → Reaches s s
  then_step : (s t u : Flights) → Reaches s t → Step t u → Reaches s u

abbrev pub idle : Flights
idle = record { active = []; in_flight = [] }

abbrev pub catchup_stagger_ms : ℕ
catchup_stagger_ms = 45000

-- The scheduler library's `nextRun` for a schedule: the first fire after an instant, if there is
-- one; `none` of the outer option for a schedule that it refuses.
abbrev pub NextRun : Type 0
NextRun = Text → ℕ → Option (Option ℕ)

abbrev joined : Option (Option ℕ) → Option ℕ
joined none = none
joined (some o) = o

abbrev still_due : ℕ → Option ℕ → Bool
still_due now none = true
still_due now (some next) = not (ltb next now)

-- A fire was missed since the last run, and the cycle after it has not passed as well.
unfoldable pub is_missed : NextRun → ℕ → CronJob → Bool
is_missed next_run now job =
    elim (joined (next_run job.schedule (or_else job.last_run_at job.created_at))) [
      | none ↦ false
      | some missed ↦ ltb missed now && still_due now (joined (next_run job.schedule missed))
    ]

-- `catchUpMissedRuns`: the runs of the boot, each with its delay.
unfoldable pub catch_up_from : NextRun → ℕ → ℕ → List CronJob → List (CronJob × ℕ)
unfolding is_missed
catch_up_from next_run now index [] = []
catch_up_from next_run now index (job ∷ jobs) =
    if not (same_type job.kind heartbeat || not job.enabled) && is_missed next_run now job
    then (job, index * catchup_stagger_ms) ∷ catch_up_from next_run now (suc index) jobs
    else catch_up_from next_run now index jobs

unfoldable pub catch_up : NextRun → ℕ → List CronJob → List (CronJob × ℕ)
unfolding catch_up_from
catch_up next_run now jobs = catch_up_from next_run now 0 (list_jobs false jobs)
