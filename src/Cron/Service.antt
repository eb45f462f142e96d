-- ===== src/Cron/Service.antt =====
-- src/cron/service.ts, the timers: which jobs tick while the service runs. A timer lives from its
-- creation until its `stop`; the `schedulers` map keeps at most one timer of a job.
pub mod Laws
pub mod Gaps
use invarail.Prelude.{
  ℕ, ◌+◌, suc, Bool, true, false, ◌&&◌, ◌||◌, not, List, [], ◌∷◌, ◌++◌, Option, none, some, Text,
  text, ◌==◌, nat_eq, keep, is_some, lookup, assign, if◌then◌else◌,
}
use invarail.Cron.Store.{
  JobType, cron, heartbeat, same_type, JobCreate, CronJob, JobUpdate, list_jobs, add_job,
  remove_job, update_job,
}

-- A `Cron` object of the scheduler library that has not been stopped, and the job that its ticks
-- run.
pub record Timer : Type 0 where
  pub handle : ℕ
  pub job_id : Text

pub record Service : Type 0 where
  pub jobs : List CronJob
  pub running : Bool
  pub timers : List Timer
  pub schedulers : List (Text × ℕ)
  pub next_handle : ℕ

abbrev pub stop_timer : ℕ → List Timer → List Timer
stop_timer h timers = keep (λ t. not (nat_eq t.handle h)) timers

-- `schedulers.delete(id)`
abbrev pub forget : Text → List (Text × ℕ) → List (Text × ℕ)
forget id m = keep (λ e. not (e.0 == id)) m

-- `existing.stop(); this.schedulers.delete(id)`, where the map has the job.
unfoldable pub unschedule : Text → Service → Service
unschedule id s = elim (lookup id s.schedulers) [
  | none ↦ s
  | some h ↦ record s { timers = stop_timer h s.timers; schedulers = forget id s.schedulers }
]

unfoldable pub remove : Text → Service → Bool × Service
unfolding unschedule
remove id s =
    let (found, jobs) = remove_job id s.jobs in (found, record (unschedule id s) { jobs = jobs })

abbrev stop_each : List (Text × ℕ) → List Timer → List Timer
stop_each [] timers = timers
stop_each ((id, h) ∷ m) timers = stop_each m (stop_timer h timers)

unfoldable pub stop : Service → Service
stop s = record s { running = false; timers = stop_each s.schedulers s.timers; schedulers = [] }

-- Whether the scheduler library takes a schedule is its own matter: a parameter.
module _ (valid : Text → Bool) where
  -- `scheduleJob`: a schedule that is refused is logged and no more.
  unfoldable pub schedule_job : CronJob → Service → Service
  schedule_job job s =
      if valid job.schedule
      then record s {
        timers = s.timers ++ record { handle = s.next_handle; job_id = job.id } ∷ [];
        schedulers = assign job.id s.next_handle s.schedulers;
        next_handle = suc s.next_handle;
      }
      else s

  unfoldable pub schedule_each : List CronJob → Service → Service
  unfolding schedule_job
  schedule_each [] s = s
  schedule_each (j ∷ jobs) s =
      if same_type j.kind heartbeat
      then schedule_each jobs s
      else schedule_each jobs (schedule_job j s)

  -- `start`, up to the catch-up of missed runs.
  unfoldable pub start : Service → Service
  unfolding schedule_each
  start s = schedule_each (list_jobs false s.jobs) (record s { running = true })

  unfoldable pub add : Text → ℕ → JobCreate → Service → CronJob × Service
  unfolding schedule_job
  add id now input s =
      let (job, jobs) = add_job id now input s.jobs in
      let saved : Service = record s { jobs = jobs } in
      (
        job,
        if s.running && job.enabled && not (same_type job.kind heartbeat)
            then schedule_job job saved
            else saved,
      )

  -- A changed schedule, or a job switched on or off, replaces the timer.
  unfoldable pub reschedule : JobUpdate → CronJob → Text → Service → Service
  unfolding schedule_job
  reschedule changes job id s =
      let stopped = unschedule id s in
      if is_some changes.schedule || is_some changes.enabled
      then (if job.enabled && s.running then schedule_job job stopped else stopped)
      else s

  unfoldable pub edit : Text → JobUpdate → Service → Option CronJob × Service
  unfolding reschedule
  edit id changes s =
      let (updated, jobs) = update_job id changes s.jobs in
      elim updated [
        | none ↦ (none, s)
        | some job ↦ (some job, reschedule changes job id (record s { jobs = jobs }))
      ]

-- `{ enabled: false }`
abbrev pub disable : JobUpdate
disable = record {
  name = none;
  schedule = none;
  category = none;
  message = none;
  enabled = some false;
  once = none;
}
