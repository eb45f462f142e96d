-- ===== src/Examples/Scheduling.antt =====
-- Scheduled jobs at concrete inputs.
use invarail.Prelude.{
  ℕ, zero, ◌+◌, ◌≤◌, ◌≡◌, refl, suc, Bool, true, false, [], ◌∷◌, none, some, Text, text, ◌==◌,
  includes, any, count, length, lookup, arith,
}
use invarail.Cron.Store.{JobCreate, CronJob, JobUpdate, cron, heartbeat, get_job}
use invarail.Cron.Service.{Service, add, edit, remove, disable}
use invarail.Cron.Service.Laws.{edit-NoLeak, NoLeak, ticks, remove_stops}
use invarail.Cron.Service.Gaps.{remove-add_leaks}
use invarail.Cron.Runs.{
  Outcome, try_job, attempt_from, Told, execute_inner, Flights, begin_run, tick, Reaches, here,
  then_step, idle, NextRun,
}
use invarail.Cron.Runs.Laws.{Retired, execute_inner_reports, execute_inner_retires, Reaches-OneEach}

abbrev valid : Text → Bool
valid _ = true

abbrev job : CronJob
job = record {
  id = text "a";
  name = text "remind";
  kind = cron;
  schedule = text "0 9 * * *";
  category = text "message";
  message = text "hi";
  delivery = record { channel = text "web"; target = text "w" };
  enabled = true;
  once = some true;
  created_at = 0;
  last_run_at = none;
}

abbrev pulse : CronJob
pulse = record job { id = text "h"; name = text "pulse"; kind = heartbeat }

abbrev input : JobCreate
input = record {
  name = text "remind";
  kind = none;
  schedule = text "0 9 * * *";
  category = text "message";
  message = text "hi";
  delivery = record { channel = text "web"; target = text "w" };
  once = some true;
}

abbrev service : Service
service = record {
  jobs = job ∷ pulse ∷ [];
  running = true;
  timers = record { handle = 0; job_id = text "a" } ∷ [];
  schedulers = (text "a", 0) ∷ [];
  next_handle = 1;
}

service-NoLeak : NoLeak service
unfolding lookup ◌==◌
service-NoLeak = ((refl, tt), (omega arith, tt))

remove_stops_example :
    (any (ticks (text "a")) (remove (text "a") service).1.timers ≡ false)
    × NoLeak (remove (text "a") service).1
remove_stops_example = remove_stops (text "a") service service-NoLeak

remove-add_leaks_example :
    any (ticks (text "a")) (remove (text "a") (add valid (text "b") 5 input service).1).1.timers
    ≡ any (ticks (text "a")) service.timers
unfolding ◌==◌
remove-add_leaks_example =
    remove-add_leaks valid (text "b") 5 input service job refl service-NoLeak refl refl refl

abbrev enable : JobUpdate
enable = record disable { enabled = some true }

edit-NoLeak_example : NoLeak (edit valid (text "a") enable service).1
edit-NoLeak_example = edit-NoLeak valid (text "a") enable service service-NoLeak

abbrev told : Told
told = record { service = service; failures = [] }

-- The job runs at the first attempt, but its last run is not written; the second one is.
abbrev outcomes : ℕ → Outcome
outcomes zero = record {
  error = none;
  at = 7;
  stamp_error = some (text "disk full");
  edit_error = none;
}
outcomes (suc n) = record { error = none; at = 9; stamp_error = none; edit_error = none }

execute_inner_reports_example :
    let (e, t) = execute_inner valid true outcomes job told in
    (e.tries ≤ 3) × (e.tries ≡ suc (length e.waits)) × (t.failures ≡ [])
execute_inner_reports_example = execute_inner_reports valid true outcomes job told

execute_inner_retires_example :
    Retired (text "a") (execute_inner valid true outcomes job told).1.service
unfolding get_job ◌==◌ execute_inner attempt_from try_job
execute_inner_retires_example =
    execute_inner_retires valid true outcomes job told service-NoLeak refl refl refl

abbrev ticked_twice : Flights
ticked_twice = begin_run (text "a") (begin_run (text "a") idle)

two_ticks : Reaches idle ticked_twice
two_ticks =
    then_step idle (begin_run (text "a") idle) ticked_twice
      (then_step idle idle (begin_run (text "a") idle) (here idle) (tick (text "a") idle))
      (tick (text "a") (begin_run (text "a") idle))

Reaches-OneEach_example :
    (count (λ x. x == text "a") ticked_twice.in_flight ≤ 1)
    × (includes (text "a") ticked_twice.in_flight ≡ includes (text "a") ticked_twice.active)
Reaches-OneEach_example = Reaches-OneEach ticked_twice two_ticks (text "a")

abbrev hourly : NextRun
hourly schedule since = some (some (since + 3600000))
