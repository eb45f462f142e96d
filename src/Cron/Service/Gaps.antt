-- ===== src/Cron/Service/Gaps.antt =====
-- Where the timers and the store part.
use invarail.Prelude.{
  ℕ, ◌≡◌, refl, Bool, true, false, ◌||◌, List, [], ◌∷◌, ◌++◌, none, some, Text, eq_iff, eq_refl,
  eq_sound, any, All, lookup, assign, lookup-assign, find_first, find_first_passes, is_some, arith,
}
use invarail.Cron.Store.{
  JobCreate, CronJob, JobUpdate, heartbeat, same_type, is_duplicate, has_job_id, add_job,
  update_job, get_job, apply_update,
}
use invarail.Cron.Service.{
  Timer, Service, stop_timer, schedule_job, add, unschedule, remove, edit, reschedule,
}
use invarail.Cron.Service.Laws.{IsIssued, NoLeak, ticks}

older_stay :
    (id : Text) (n : ℕ) (timers : List Timer)
    → All (IsIssued n) timers
    → any (ticks id) (stop_timer n (timers ++ record { handle = n; job_id = id } ∷ []))
      ≡ any (ticks id) timers
older_stay id n [] h = ground arith
older_stay id n (t ∷ timers) (p, h) = ground (arith, older_stay id n timers h)

any_last :
    (id : Text) (t : Timer) (timers : List Timer)
    → t.job_id ≡ id
    → any (ticks id) (timers ++ t ∷ []) ≡ true
any_last id t [] h = ground (arith, eq_iff t.job_id id)
any_last id t (u ∷ timers) h = ground (arith, any_last id t timers h)

unschedule-running : (id : Text) (s : Service) → (unschedule id s).running ≡ s.running
unfolding unschedule
unschedule-running id s = ground arith

module _ (valid : Text → Bool) where
  -- Where no timer is leaked and the service runs, adding a job that is there already, is no
  -- heartbeat and has a schedule that is taken gives it a second timer: after its removal it still
  -- ticks exactly if it ticked before the add.
  pub remove-add_leaks :
      (id : Text) (now : ℕ) (input : JobCreate) (s : Service) (j : CronJob)
      → s.running ≡ true
      → NoLeak s
      → find_first (is_duplicate input) s.jobs ≡ some j
      → same_type j.kind heartbeat ≡ false
      → valid j.schedule ≡ true
      → any (ticks j.id) (remove j.id (add valid id now input s).1).1.timers
        ≡ any (ticks j.id) s.timers
  unfolding add add_job schedule_job remove unschedule
  remove-add_leaks id now input s j runs (kept, issued) old timed takes =
      let on : j.enabled ≡ true =
        ground (arith, find_first_passes (is_duplicate input) s.jobs j old) in
      let latest : lookup j.id (assign j.id s.next_handle s.schedulers) ≡ some s.next_handle =
        ground (arith, lookup-assign j.id j.id s.next_handle s.schedulers, eq_refl j.id) in
      rw (old, add, add_job, runs, on, timed, takes, unschedule, latest)
        (rw (old, add, add_job, runs, on, timed, takes)
          (older_stay j.id s.next_handle s.timers issued))

  -- A heartbeat gets no timer when it is added, but it gets one when it is edited while the service
  -- runs: where it is enabled after the edit, the edit touches its schedule or its switch, and the
  -- schedule is one.
  pub edit_schedules_heartbeat :
      (id other : Text) (now : ℕ) (input : JobCreate) (changes : JobUpdate) (s : Service)
      (j : CronJob)
      → input.kind ≡ some heartbeat
      → find_first (is_duplicate input) s.jobs ≡ none
      → s.running ≡ true
      → get_job id s.jobs ≡ some j
      → j.kind ≡ heartbeat
      → (apply_update changes j).enabled ≡ true
      → is_some changes.schedule || is_some changes.enabled ≡ true
      → valid (apply_update changes j).schedule ≡ true
      → ((add valid other now input s).1.timers ≡ s.timers)
        × (any (ticks id) (edit valid id changes s).1.timers ≡ true)
  unfolding add add_job edit update_job reschedule schedule_job apply_update get_job
  edit_schedules_heartbeat id other now input changes s j beats new runs here beating on touched
        takes =
      (
        rw (new, add, add_job, beats, runs) refl,
        (let changed = apply_update changes j in
            let saved : Service = record s {
              jobs = (update_job id changes s.jobs).1;
              running = true;
            } in
            let timer : Timer = record {
              handle = (unschedule id saved).next_handle;
              job_id = j.id;
            } in
            rw
              (
                here,
                edit,
                update_job,
                get_job,
                touched,
                on,
                unschedule-running id (record s { jobs = (update_job id changes s.jobs).1 }),
                runs,
                takes,
              )
              (any_last id timer (unschedule id saved).timers
                (eq_sound j.id id (find_first_passes (has_job_id id) s.jobs j here)))),
      )
