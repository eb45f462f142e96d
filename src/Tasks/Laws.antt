-- ===== src/Tasks/Laws.antt =====
-- The board: what is listed, and what an update and a removal change.
use invarail.Prelude.{
  ℕ, ◌≡◌, refl, Bool, false, not, List, [], ◌∷◌, ◌++◌, Option, none, some, Text, ◌==◌, eq_iff,
  find_first, keep, length, length-keep, ltb, is_some, arith, if◌then◌else◌,
}
use invarail.Tasks.{
  same_status, TaskStatus, done, Task, TaskCreate, TaskUpdate, TaskFilter, Creator, is_open,
  list_tasks, has_task_id, get_task, add_task, apply_changes, change_task, update_task, remove_task,
}

keep-append_one :
    (p : Task → Bool) (ts : List Task) (t : Task)
    → keep p (ts ++ t ∷ []) ≡ (if p t then keep p ts ++ t ∷ [] else keep p ts)
keep-append_one p [] t = ground arith
keep-append_one p (x ∷ ts) t = ground (arith, keep-append_one p ts t)

abbrev pub no_filter : TaskFilter
no_filter = record { status = none; assignee = none; tag = none }

-- A task that is added is the last of the default list, whatever its fields, and the tasks before
-- it are listed as before.
list_tasks-add_task :
    (id : Text) (now : ℕ) (input : TaskCreate) (by : Creator) (tasks : List Task)
    → let (task, after) = add_task id now input by tasks in
      list_tasks no_filter after ≡ list_tasks no_filter tasks ++ task ∷ []
unfolding list_tasks add_task
list_tasks-add_task id now input by tasks =
    keep-append_one is_open tasks (add_task id now input by tasks).0

find_first-keep :
    (id u : Text) (tasks : List Task)
    → find_first (has_task_id u) (keep (λ t. not (has_task_id id t)) tasks)
      ≡ (if id == u then none else find_first (has_task_id u) tasks)
find_first-keep id u [] = ground arith
find_first-keep id u (t ∷ tasks) =
    ground (arith, find_first-keep id u tasks, eq_iff t.id id, eq_iff t.id u, eq_iff id u)

shrinks :
    (id : Text) (tasks : List Task)
    → ltb (length (keep (λ t. not (has_task_id id t)) tasks)) (length tasks)
      ≡ is_some (find_first (has_task_id id) tasks)
shrinks id [] = refl
shrinks id (t ∷ tasks) =
    ground (arith, shrinks id tasks, length-keep (λ x. not (has_task_id id x)) tasks)

-- A removal answers whether the task was there; it is gone then, and every other task is as it was.
get_task-remove_task :
    (id u : Text) (tasks : List Task)
    → ((remove_task id tasks).0 ≡ is_some (get_task id tasks))
      × (get_task u (remove_task id tasks).1 ≡ (if id == u then none else get_task u tasks))
unfolding remove_task get_task
get_task-remove_task id u tasks = (shrinks id tasks, find_first-keep id u tasks)

find_first-change_task :
    (id u : Text) (now : ℕ) (c : TaskUpdate) (tasks : List Task)
    → find_first (has_task_id u) (change_task id (apply_changes now c) tasks) ≡ (
        if id == u
        then (elim (find_first (has_task_id u) tasks) [
          | none ↦ none
          | some t ↦ some (apply_changes now c t)
        ])
        else find_first (has_task_id u) tasks)
unfolding change_task apply_changes
find_first-change_task id u now c [] = ground arith
find_first-change_task id u now c (t ∷ tasks) =
    ground
      (arith, find_first-change_task id u now c tasks, eq_iff t.id id, eq_iff t.id u, eq_iff id u)

abbrev pub sets_done : Option TaskStatus → Bool
sets_done none = false
sets_done (some s) = same_status s done

-- An update of a task of the board answers the changed task, which the board then has under the
-- id, and leaves every other task as it was. The task is stamped with the time if the update sets
-- `done`; an update that opens it again, or sets no status, leaves the stamp.
pub get_task-update_task :
    (id u : Text) (now : ℕ) (c : TaskUpdate) (tasks : List Task) (t : Task)
    → get_task id tasks ≡ some t
    → (changed : Task) × ((update_task id now c tasks).0 ≡ some changed)
      × (changed.completed_at ≡ (if sets_done c.status then some now else t.completed_at))
      × (get_task u (update_task id now c tasks).1
          ≡ (if id == u then some changed else get_task u tasks))
unfolding update_task get_task apply_changes
get_task-update_task id u now c tasks t here = (
  apply_changes now c t,
  rw (here, update_task, get_task) refl,
  ground arith,
  rw (here, update_task, get_task)
      (ground (arith, find_first-change_task id u now c tasks, eq_iff id u, here)),
)
