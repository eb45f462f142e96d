-- ===== src/Cron/Store.antt =====
-- src/cron/store.ts, on the types of src/cron/types.ts. The list is what the file holds after each
-- save.
pub mod Laws
use invarail.Prelude.{
  ℕ, Bool, true, false, ◌&&◌, ◌||◌, not, List, [], ◌∷◌, ◌++◌, map, Option, none, some, Text, text,
  ◌==◌, or_else, find_first, keep, ltb, length, if◌then◌else◌,
}

pub data JobType : Type 0 where
  cron heartbeat : JobType

abbrev pub same_type : JobType → JobType → Bool
same_type cron cron = true
same_type cron heartbeat = false
same_type heartbeat cron = false
same_type heartbeat heartbeat = true

pub record Delivery : Type 0 where
  pub channel : Text
  pub target : Text

-- `CronJobCreate`
pub record JobCreate : Type 0 where
  pub name : Text
  pub kind : Option JobType
  pub schedule : Text
  pub category : Text
  pub message : Text
  pub delivery : Delivery
  pub once : Option Bool

-- `CronJob`; times are the instants of `Date`.
pub record CronJob : Type 0 where
  pub id : Text
  pub name : Text
  pub kind : JobType
  pub schedule : Text
  pub category : Text
  pub message : Text
  pub delivery : Delivery
  pub enabled : Bool
  pub once : Option Bool
  pub created_at : ℕ
  pub last_run_at : Option ℕ

-- `CronJobUpdate`
pub record JobUpdate : Type 0 where
  pub name : Option Text
  pub schedule : Option Text
  pub category : Option Text
  pub message : Option Text
  pub enabled : Option Bool
  pub once : Option Bool

unfoldable pub list_jobs : Bool → List CronJob → List CronJob
list_jobs include_disabled jobs = if include_disabled then jobs else keep (λ j. j.enabled) jobs

abbrev pub has_job_id : Text → CronJob → Bool
has_job_id id j = j.id == id

unfoldable pub get_job : Text → List CronJob → Option CronJob
get_job id jobs = find_first (has_job_id id) jobs

unfoldable pub list_by_type : JobType → Bool → List CronJob → List CronJob
list_by_type kind include_disabled jobs =
    keep (λ j. same_type j.kind kind && (include_disabled || j.enabled)) jobs

-- The job that the dedup rule finds.
abbrev pub is_duplicate : JobCreate → CronJob → Bool
is_duplicate input j = j.enabled && j.name == input.name && j.schedule == input.schedule

abbrev pub new_job : Text → ℕ → JobCreate → CronJob
new_job id now input = record {
  id = id;
  name = input.name;
  kind = or_else input.kind cron;
  schedule = input.schedule;
  category = input.category;
  message = input.message;
  delivery = input.delivery;
  enabled = true;
  once = input.once;
  created_at = now;
  last_run_at = none;
}

unfoldable pub add_job : Text → ℕ → JobCreate → List CronJob → CronJob × List CronJob
add_job id now input jobs = elim (find_first (is_duplicate input) jobs) [
  | some existing ↦ (existing, jobs)
  | none ↦ (new_job id now input, jobs ++ new_job id now input ∷ [])
]

unfoldable pub remove_job : Text → List CronJob → Bool × List CronJob
remove_job id jobs =
    let rest = keep (λ j. not (has_job_id id j)) jobs in (ltb (length rest) (length jobs), rest)

-- `if (changes.f !== undefined) job.f = changes.f`, for every field.
unfoldable pub apply_update : JobUpdate → CronJob → CronJob
apply_update c j = record j {
  name = or_else c.name j.name;
  schedule = or_else c.schedule j.schedule;
  category = or_else c.category j.category;
  message = or_else c.message j.message;
  enabled = or_else c.enabled j.enabled;
  once = elim c.once [ none ↦ j.once | some b ↦ some b ];
}

-- `find`, then a change of the object that was found, in place.
unfoldable pub change_job : Text → (CronJob → CronJob) → List CronJob → List CronJob
change_job id change [] = []
change_job id change (j ∷ jobs) =
    if has_job_id id j then change j ∷ jobs else j ∷ change_job id change jobs

unfoldable pub update_job : Text → JobUpdate → List CronJob → Option CronJob × List CronJob
unfolding get_job change_job
update_job id changes jobs = elim (get_job id jobs) [
  | none ↦ (none, jobs)
  | some j ↦ (some (apply_update changes j), change_job id (apply_update changes) jobs)
]

unfoldable pub update_last_run : Text → ℕ → List CronJob → List CronJob
unfolding change_job
update_last_run id now jobs = change_job id (λ j. record j { last_run_at = some now }) jobs
