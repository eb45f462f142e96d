-- ===== src/Cron/Service/Laws.antt =====
-- The timers that live are the ones that the `schedulers` map keeps.
use invarail.Prelude.{
  ℕ, ◌<◌, suc, ◌≡◌, refl, Bool, true, false, ◌&&◌, ◌||◌, not, List, [], ◌∷◌, ◌++◌, none, some, Text,
  ◌==◌, is_some, eq_iff, eq_sound, eq_refl, nat_eq, any, All, All-append, All-keep, lookup, assign,
  lookup-assign, find_first, find_first_passes, arith, Bool-cases, Option-cases, inl, inr,
  if◌then◌else◌,
}
use invarail.Cron.Store.{
  JobCreate, CronJob, JobUpdate, has_job_id, new_job, same_type, heartbeat, is_duplicate, get_job,
  add_job, update_job, apply_update, change_job,
}
use invarail.Cron.Service.{
  Timer, Service, disable, stop_timer, forget, schedule_job, add, unschedule, reschedule, remove,
  edit,
}

-- A timer is the one that the map has for its job.
abbrev pub IsKept : List (Text × ℕ) → Timer → Type 0
IsKept m t = lookup t.job_id m ≡ some t.handle

abbrev pub IsIssued : ℕ → Timer → Type 0
IsIssued n t = t.handle < n

-- No timer is leaked, and handles are issued in turn.
abbrev pub NoLeak : Service → Type 0
NoLeak s = All (IsKept s.schedulers) s.timers × All (IsIssued s.next_handle) s.timers

lookup-forget :
    (id j : Text) (m : List (Text × ℕ))
    → lookup j (forget id m) ≡ (if id == j then none else lookup j m)
unfolding lookup
lookup-forget id j [] = ground arith
lookup-forget id j ((k, v) ∷ m) =
    ground (arith, lookup-forget id j m, eq_iff id j, eq_iff k j, eq_iff k id, eq_iff j id)

abbrev pub ticks : Text → Timer → Bool
ticks id t = t.job_id == id

unticked :
    (id : Text) (m : List (Text × ℕ)) (timers : List Timer)
    → All (IsKept m) timers
    → lookup id m ≡ none
    → any (ticks id) timers ≡ false
unticked id m [] h e = refl
unticked id m (t ∷ timers) (p, h) e = ground (arith, unticked id m timers h e, eq_iff t.job_id id)

stopped :
    (id : Text) (h : ℕ) (m : List (Text × ℕ)) (timers : List Timer)
    → All (IsKept m) timers
    → lookup id m ≡ some h
    → All (IsKept (forget id m)) (stop_timer h timers)
stopped id h m [] k e = tt
stopped id h m (t ∷ timers) (p, k) e =
    ground (arith, stopped id h m timers k e, lookup-forget id t.job_id m, eq_iff id t.job_id)

unschedule-NoLeak : (id : Text) (s : Service) → NoLeak s → NoLeak (unschedule id s)
unfolding unschedule
unschedule-NoLeak id s (k, i) = elim (Option-cases (lookup id s.schedulers)) [
  | inl gone ↦ rw (gone, unschedule) (k, i)
  | inr (h, here) ↦
      rw (here, unschedule)
        (
          stopped id h s.schedulers s.timers k here,
          All-keep (IsIssued s.next_handle) (λ t. not (nat_eq t.handle h)) s.timers i,
        )
]

unschedule-jobs : (id : Text) (s : Service) → (unschedule id s).jobs ≡ s.jobs
unfolding unschedule
unschedule-jobs id s = ground arith

unschedule-lookup : (id : Text) (s : Service) → lookup id (unschedule id s).schedulers ≡ none
unfolding unschedule
unschedule-lookup id s = ground (arith, lookup-forget id id s.schedulers, eq_refl id)

reassigned :
    (id : Text) (h : ℕ) (m : List (Text × ℕ)) (timers : List Timer)
    → All (IsKept m) timers
    → lookup id m ≡ none
    → All (IsKept (assign id h m)) timers
reassigned id h m [] k e = tt
reassigned id h m (t ∷ timers) (p, k) e = (
  ground (arith, lookup-assign id t.job_id h m, eq_iff id t.job_id),
  reassigned id h m timers k e,
)

IsIssued-later :
    (n : ℕ) (timers : List Timer) → All (IsIssued n) timers → All (IsIssued (suc n)) timers
IsIssued-later n [] i = tt
IsIssued-later n (t ∷ timers) (p, i) = (omega (arith, p), IsIssued-later n timers i)

-- Where no timer is leaked: no timer of a removed job ticks on, and none is leaked then.
pub remove_stops :
    (id : Text) (s : Service)
    → NoLeak s
    → (any (ticks id) (remove id s).1.timers ≡ false) × NoLeak (remove id s).1
unfolding remove
remove_stops id s leak =
    let after = unschedule-NoLeak id s leak in
    (
      unticked id (unschedule id s).schedulers (unschedule id s).timers after.0
          (unschedule-lookup id s),
      after,
    )

pub find_first-change_job :
    (id : Text) (f : CronJob → CronJob) (jobs : List CronJob) (j : CronJob)
    → ((x : CronJob) → (f x).id ≡ x.id)
    → find_first (has_job_id id) jobs ≡ some j
    → find_first (has_job_id id) (change_job id f jobs) ≡ some (f j)
unfolding change_job
find_first-change_job id f [] j same h = ground arith
find_first-change_job id f (x ∷ jobs) j same h =
    ground (arith, find_first-change_job id f jobs j same, same x)

module _ (valid : Text → Bool) where
  schedule_job-NoLeak :
      (job : CronJob) (s : Service)
      → NoLeak s
      → lookup job.id s.schedulers ≡ none
      → NoLeak (schedule_job valid job s)
  unfolding schedule_job
  schedule_job-NoLeak job s (k, i) fresh = elim (Bool-cases (valid job.schedule)) [
    | inl takes ↦ rw takes (
        let t : Timer = record { handle = s.next_handle; job_id = job.id } in
        let m = assign job.id s.next_handle s.schedulers in
        (
          All-append (IsKept m) s.timers (t ∷ [])
              (reassigned job.id s.next_handle s.schedulers s.timers k fresh)
              (
                ground
                    (arith, lookup-assign job.id job.id s.next_handle s.schedulers, eq_refl job.id),
                tt,
              ),
          All-append (IsIssued (suc s.next_handle)) s.timers (t ∷ [])
              (IsIssued-later s.next_handle s.timers i) (omega arith, tt),
        ))
    | inr refused ↦ rw refused (k, i)
  ]

  schedule_if-NoLeak :
      (b : Bool) (job : CronJob) (s : Service)
      → NoLeak s
      → lookup job.id s.schedulers ≡ none
      → NoLeak (if b then schedule_job valid job s else s)
  schedule_if-NoLeak true job s leak fresh = schedule_job-NoLeak job s leak fresh
  schedule_if-NoLeak false job s leak fresh = leak

  -- Where no timer is leaked, no enabled job has the name and schedule of a new job, and its id
  -- has no timer: adding it leaks no timer.
  pub add-NoLeak :
      (id : Text) (now : ℕ) (input : JobCreate) (s : Service)
      → NoLeak s
      → lookup id s.schedulers ≡ none
      → find_first (is_duplicate input) s.jobs ≡ none
      → NoLeak (add valid id now input s).1
  unfolding add add_job
  add-NoLeak id now input s leak fresh new =
      let job = new_job id now input in
      rw (new, add, add_job)
        (schedule_if-NoLeak (s.running && true && not (same_type job.kind heartbeat)) job
          (record s { jobs = s.jobs ++ job ∷ [] }) leak fresh)

  reschedule-NoLeak :
      (changes : JobUpdate) (job : CronJob) (id : Text) (s : Service)
      → job.id ≡ id
      → NoLeak s
      → NoLeak (reschedule valid changes job id s)
  unfolding reschedule
  reschedule-NoLeak changes job id s own leak =
      let stopped = unschedule-NoLeak id s leak in
      let free = unschedule-lookup id s in
      elim (Bool-cases (is_some changes.schedule || is_some changes.enabled)) [
        | inl timed ↦ rw timed (
            schedule_if-NoLeak (job.enabled && s.running) job (unschedule id s) stopped
              (rw own free))
        | inr plain ↦ rw plain leak
      ]

  -- Where no timer is leaked, editing a job leaks none, whatever changes.
  pub edit-NoLeak :
      (id : Text) (changes : JobUpdate) (s : Service)
      → NoLeak s
      → NoLeak (edit valid id changes s).1
  unfolding edit update_job get_job apply_update
  edit-NoLeak id changes s leak = elim (Option-cases (find_first (has_job_id id) s.jobs)) [
    | inl absent ↦ rw (absent, edit, update_job, get_job) leak
    | inr (j, here) ↦
        let named = find_first_passes (has_job_id id) s.jobs j here in
        let changed = apply_update changes j in
        rw (here, edit, update_job, get_job)
          (reschedule-NoLeak changes changed id
            (record s { jobs = (update_job id changes s.jobs).1 }) (eq_sound j.id id named) leak)
  ]

  -- Disabling a job of the store stops its timers, where no timer is leaked; the store keeps the
  -- job.
  pub edit_disables :
      (id : Text) (s : Service) (j : CronJob)
      → NoLeak s
      → get_job id s.jobs ≡ some j
      → (any (ticks id) (edit valid id disable s).1.timers ≡ false)
        × (get_job id (edit valid id disable s).1.jobs ≡ some (apply_update disable j))
  unfolding edit update_job get_job reschedule apply_update
  edit_disables id s j leak here =
      let saved : Service = record s { jobs = (update_job id disable s.jobs).1 } in
      let after = unschedule-NoLeak id saved leak in
      rw (here, edit, update_job, get_job)
        (
          unticked id (unschedule id saved).schedulers (unschedule id saved).timers after.0
              (unschedule-lookup id saved),
          rw (unschedule-jobs id saved, here, update_job, get_job)
              (find_first-change_job id (apply_update disable) s.jobs j (λ _. refl) here),
        )
