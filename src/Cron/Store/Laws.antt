-- ===== src/Cron/Store/Laws.antt =====
-- The store of jobs: what each operation changes, and for which ids.
use invarail.Prelude.{
  find_first-append, ℕ, ◌≡◌, refl, not, List, [], ◌∷◌, none, some, Text, ◌==◌, eq_iff, eq_refl,
  find_first, keep, length, length-keep, ltb, is_some, arith, Option-cases, inl, inr, if◌then◌else◌,
}
use invarail.Cron.Store.{
  JobCreate, CronJob, JobUpdate, has_job_id, is_duplicate, new_job, get_job, add_job, remove_job,
  change_job, update_job, apply_update,
}

-- Adding the same job again, whenever and under whatever id, gives the job of the first time and
-- changes nothing.
add_job-add_job :
    (id other : Text) (now later : ℕ) (input : JobCreate) (jobs : List CronJob)
    → add_job other later input (add_job id now input jobs).1 ≡ add_job id now input jobs
unfolding add_job
add_job-add_job id other now later input jobs =
    elim (Option-cases (find_first (is_duplicate input) jobs)) [
      | inl new ↦
          let found =
            find_first-append (is_duplicate input) jobs (new_job id now input) new
              (ground (arith, eq_refl input.name, eq_refl input.schedule)) in
          rw (new, add_job, found) (rw (new, add_job) refl)
      | inr (j, old) ↦ rw (old, add_job, old) (rw (old, add_job) refl)
    ]

find_first-keep :
    (id u : Text) (jobs : List CronJob)
    → find_first (has_job_id u) (keep (λ j. not (has_job_id id j)) jobs)
      ≡ (if id == u then none else find_first (has_job_id u) jobs)
find_first-keep id u [] = ground arith
find_first-keep id u (j ∷ jobs) =
    ground (arith, find_first-keep id u jobs, eq_iff j.id id, eq_iff j.id u, eq_iff id u)

shrinks :
    (id : Text) (jobs : List CronJob)
    → ltb (length (keep (λ j. not (has_job_id id j)) jobs)) (length jobs)
      ≡ is_some (find_first (has_job_id id) jobs)
shrinks id [] = refl
shrinks id (j ∷ jobs) =
    ground (arith, shrinks id jobs, length-keep (λ j. not (has_job_id id j)) jobs)

-- A removal answers whether the job was there; it is gone then, and every other job is as it was.
get_job-remove_job :
    (id u : Text) (jobs : List CronJob)
    → ((remove_job id jobs).0 ≡ is_some (get_job id jobs))
      × (get_job u (remove_job id jobs).1 ≡ (if id == u then none else get_job u jobs))
unfolding remove_job get_job
get_job-remove_job id u jobs = (shrinks id jobs, find_first-keep id u jobs)

find_first-change_job :
    (id u : Text) (c : JobUpdate) (jobs : List CronJob)
    → find_first (has_job_id u) (change_job id (apply_update c) jobs) ≡ (
        if id == u
        then (elim (find_first (has_job_id u) jobs) [
          | none ↦ none
          | some j ↦ some (apply_update c j)
        ])
        else find_first (has_job_id u) jobs)
unfolding change_job apply_update
find_first-change_job id u c [] = ground arith
find_first-change_job id u c (j ∷ jobs) =
    ground (arith, find_first-change_job id u c jobs, eq_iff j.id id, eq_iff j.id u, eq_iff id u)

-- An update answers the changed job, or `null` where there is none; the store has the change under
-- its id and every other job as it was.
get_job-update_job :
    (id u : Text) (c : JobUpdate) (jobs : List CronJob)
    → ((update_job id c jobs).0 ≡ get_job id (update_job id c jobs).1)
      × (get_job u (update_job id c jobs).1 ≡ (
          if id == u
          then (elim (get_job u jobs) [ none ↦ none | some j ↦ some (apply_update c j) ])
          else get_job u jobs))
unfolding update_job get_job
get_job-update_job id u c jobs = ground (
  arith,
  find_first-change_job id u c jobs,
  find_first-change_job id id c jobs,
  eq_iff id u,
  eq_refl id,
)
