-- ===== src/Cron/Runs/CatchUp.antt =====
-- The plan of a boot: which runs are caught up on, and when.
use invarail.Prelude.{
  ℕ, ◌*◌, suc, zero, ◌≡◌, refl, sym, Bool, true, ◌&&◌, List, [], ◌∷◌, length, keep, arith,
}
use invarail.Cron.Store.{CronJob, cron, same_type, list_jobs}
use invarail.Cron.Runs.{NextRun, is_missed, catch_up_from, catch_up, catchup_stagger_ms}

-- A job on a schedule that is enabled, and whose last missed fire is still worth a run.
abbrev pub is_due : NextRun → ℕ → CronJob → Bool
is_due next_run now job = same_type job.kind cron && job.enabled && is_missed next_run now job

-- One delay for each of `n` runs, from the `index`-th on.
abbrev pub delays : ℕ → ℕ → List ℕ
delays index zero = []
delays index (suc n) = index * catchup_stagger_ms ∷ delays (suc index) n

abbrev pub planned_jobs : List (CronJob × ℕ) → List CronJob
planned_jobs [] = []
planned_jobs ((j, d) ∷ plan) = j ∷ planned_jobs plan

abbrev pub planned_delays : List (CronJob × ℕ) → List ℕ
planned_delays [] = []
planned_delays ((j, d) ∷ plan) = d ∷ planned_delays plan

catch_up_from_plan :
    (next_run : NextRun) (now index : ℕ) (jobs : List CronJob)
    → (planned_jobs (catch_up_from next_run now index jobs) ≡ keep (is_due next_run now) jobs)
      × (planned_delays (catch_up_from next_run now index jobs)
          ≡ delays index (length (keep (is_due next_run now) jobs)))
unfolding catch_up_from
catch_up_from_plan next_run now index [] = (refl, refl)
catch_up_from_plan next_run now index (job ∷ jobs) = ground (
  arith,
  catch_up_from_plan next_run now index jobs,
  catch_up_from_plan next_run now (suc index) jobs,
)

keep-keep :
    (p q : CronJob → Bool) (jobs : List CronJob)
    → ((j : CronJob) → q j ≡ true → p j ≡ true)
    → keep q (keep p jobs) ≡ keep q jobs
keep-keep p q [] h = refl
keep-keep p q (j ∷ jobs) h = ground (arith, keep-keep p q jobs h, h j)

-- A boot runs exactly the due jobs of the store, once each and in the store's order, one every 45
-- seconds from the first, which runs at once.
pub catch_up_plan :
    (next_run : NextRun) (now : ℕ) (jobs : List CronJob)
    → (planned_jobs (catch_up next_run now jobs) ≡ keep (is_due next_run now) jobs)
      × (planned_delays (catch_up next_run now jobs)
          ≡ delays 0 (length (keep (is_due next_run now) jobs)))
unfolding catch_up list_jobs
catch_up_plan next_run now jobs =
    let same = keep-keep (λ j. j.enabled) (is_due next_run now) jobs (λ j e. ground arith) in
    rw (sym same) (catch_up_from_plan next_run now 0 (keep (λ j. j.enabled) jobs))
