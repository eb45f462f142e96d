-- ===== src/Tasks.antt =====
-- src/tasks/store.ts, on the types of src/tasks/types.ts: the task board. The list is what the file
-- holds after each save; the Markdown view that is rendered from it is not modelled.
pub mod Laws
use invarail.Prelude.{
  ℕ, Bool, true, false, ◌&&◌, ◌||◌, not, List, [], ◌∷◌, ◌++◌, Option, none, some, Text, ◌==◌,
  includes, or_else, or_option, given, is_some, find_first, keep, ltb, length, if◌then◌else◌,
}

pub data TaskStatus : Type 0 where
  todo in_progress done cancelled : TaskStatus

pub data TaskPriority : Type 0 where
  low medium high : TaskPriority

pub data Creator : Type 0 where
  user bot : Creator

pub record Task : Type 0 where
  pub id : Text
  pub title : Text
  pub details : Option Text
  pub status : TaskStatus
  pub priority : TaskPriority
  pub created_by : Creator
  pub assignee : Option Text
  pub due_date : Option Text
  pub tags : Option (List Text)
  pub created_at : ℕ
  pub updated_at : ℕ
  pub completed_at : Option ℕ

pub record TaskCreate : Type 0 where
  pub title : Text
  pub details : Option Text
  pub priority : Option TaskPriority
  pub assignee : Option Text
  pub due_date : Option Text
  pub tags : Option (List Text)

pub record TaskUpdate : Type 0 where
  pub title : Option Text
  pub details : Option Text
  pub status : Option TaskStatus
  pub priority : Option TaskPriority
  pub assignee : Option Text
  pub due_date : Option Text
  pub tags : Option (List Text)

-- `TaskFilter`; no filter is one without fields.
pub record TaskFilter : Type 0 where
  pub status : Option TaskStatus
  pub assignee : Option Text
  pub tag : Option Text

abbrev pub same_status : TaskStatus → TaskStatus → Bool
same_status todo todo = true
same_status in_progress in_progress = true
same_status done done = true
same_status cancelled cancelled = true
same_status _ _ = false

abbrev pub is_open : Task → Bool
is_open t = same_status t.status todo || same_status t.status in_progress

abbrev by_status : TaskFilter → List Task → List Task
by_status f tasks = elim f.status [
  | some s ↦ keep (λ t. same_status t.status s) tasks
  | none ↦
      if not (is_some (given f.assignee)) && not (is_some (given f.tag))
      then keep is_open tasks
      else tasks
]

abbrev is_assigned : Text → Task → Bool
is_assigned a t = elim t.assignee [ none ↦ false | some b ↦ b == a ]

abbrev is_tagged : Text → Task → Bool
is_tagged g t = elim t.tags [ none ↦ false | some gs ↦ includes g gs ]

abbrev by_assignee : Option Text → List Task → List Task
by_assignee none tasks = tasks
by_assignee (some a) tasks = keep (is_assigned a) tasks

abbrev by_tag : Option Text → List Task → List Task
by_tag none tasks = tasks
by_tag (some g) tasks = keep (is_tagged g) tasks

unfoldable pub list_tasks : TaskFilter → List Task → List Task
list_tasks f tasks = by_tag (given f.tag) (by_assignee (given f.assignee) (by_status f tasks))

abbrev pub has_task_id : Text → Task → Bool
has_task_id id t = t.id == id

unfoldable pub get_task : Text → List Task → Option Task
get_task id tasks = find_first (has_task_id id) tasks

unfoldable pub add_task : Text → ℕ → TaskCreate → Creator → List Task → Task × List Task
add_task id now input created_by tasks =
    let task : Task = record {
      id = id;
      title = input.title;
      details = input.details;
      status = todo;
      priority = or_else input.priority medium;
      created_by = created_by;
      assignee = input.assignee;
      due_date = input.due_date;
      tags = input.tags;
      created_at = now;
      updated_at = now;
      completed_at = none;
    } in
    (task, tasks ++ task ∷ [])

-- A task that is done is stamped; the stamp of a task that is opened again stays.
abbrev pub completion : Option TaskStatus → ℕ → Option ℕ → Option ℕ
completion none now stamp = stamp
completion (some s) now stamp = if same_status s done then some now else stamp

-- `if (changes.f !== undefined) task.f = changes.f`, for every field.
unfoldable pub apply_changes : ℕ → TaskUpdate → Task → Task
apply_changes now c t = record t {
  title = or_else c.title t.title;
  details = or_option c.details t.details;
  status = or_else c.status t.status;
  priority = or_else c.priority t.priority;
  assignee = or_option c.assignee t.assignee;
  due_date = or_option c.due_date t.due_date;
  tags = or_option c.tags t.tags;
  completed_at = completion c.status now t.completed_at;
  updated_at = now;
}

-- The first task with the id, changed in place.
unfoldable pub change_task : Text → (Task → Task) → List Task → List Task
change_task id change [] = []
change_task id change (t ∷ tasks) =
    if has_task_id id t then change t ∷ tasks else t ∷ change_task id change tasks

unfoldable pub update_task : Text → ℕ → TaskUpdate → List Task → Option Task × List Task
unfolding get_task change_task
update_task id now changes tasks = elim (get_task id tasks) [
  | none ↦ (none, tasks)
  | some t ↦ (some (apply_changes now changes t), change_task id (apply_changes now changes) tasks)
]

unfoldable pub remove_task : Text → List Task → Bool × List Task
remove_task id tasks =
    let rest = keep (λ t. not (has_task_id id t)) tasks in (ltb (length rest) (length tasks), rest)
