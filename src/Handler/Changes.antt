-- ===== src/Handler/Changes.antt =====
-- The handler of `UpdateTask` of internal/handler/task.go on top of `Service.Update`: the response of
-- a request and what the request has changed, field by field.
use team_tasks.Base.{some, ◌++◌, map, ◌≡◌}
use team_tasks.Domain.{Task, TaskHistory}
use team_tasks.Domain.Ids.{Uuid}
use team_tasks.Domain.Errors.{Result, ok}
use team_tasks.Store.{Tables, find_task, update_task as put_task}
use team_tasks.Task.Diff.{Formats}
use team_tasks.Task.Diff.Laws.{diff, given, given_ptr}
use team_tasks.Task.Service.Permission.{Verdict, granted, missing, barred}
use team_tasks.Handler.Response.{Response, reply, refused}
use team_tasks.Handler.Tasks.{ApiTask, UpdateTaskRequest, update_task}

-- The row of a task that is shown.
abbrev pub row_of : ApiTask → Task
row_of a = record {
  id = a.id;
  team_id = a.team_id;
  created_by = a.created_by;
  assignee_id = a.assignee_id;
  title = a.title;
  description = a.description;
  status = a.status;
  priority = a.priority;
  due_date = a.due_date;
  created_at = a.created_at;
  updated_at = a.updated_at;
}

-- The stored task with what the request has for it.
abbrev pub IsChanged : UpdateTaskRequest → Task → ApiTask → Type 0
IsChanged b stored shown =
    ((shown.id ≡ stored.id)
      × (shown.team_id ≡ stored.team_id)
      × (shown.created_by ≡ stored.created_by)
      × (shown.created_at ≡ stored.created_at))
    × ((shown.title ≡ given b.title stored.title)
        × (shown.description ≡ given_ptr b.description stored.description))
    × ((shown.status ≡ given b.status stored.status)
        × (shown.priority ≡ given b.priority stored.priority))
    × ((shown.assignee_id ≡ given_ptr b.assignee_id stored.assignee_id)
        × (shown.due_date ≡ given_ptr b.due_date stored.due_date))

-- The tables behind a change: the row is as it is shown, and the difference is in the history, in
-- the name of the user and at the time that is shown.
abbrev pub with_change : Formats → Uuid → Uuid → Task → ApiTask → Tables → Tables
with_change fmt user_id id stored shown b = record b {
  tasks = put_task (row_of shown) b.tasks;
  history =
      b.history
      ++ map (λ (h : TaskHistory). record h { changed_at = shown.updated_at })
          (diff fmt id user_id stored (row_of shown));
}

abbrev pub Ends :
    Formats
    → Uuid
    → Uuid
    → UpdateTaskRequest
    → Tables
    → Verdict
    → Result (Response ApiTask)
    → Tables
    → Type 0
Ends fmt user_id id b before granted r after =
    (stored : Task) × (shown : ApiTask) × (find_task id before.tasks ≡ some stored)
    × (r ≡ ok (reply 200 shown))
    × IsChanged b stored shown
    × (after ≡ with_change fmt user_id id stored shown before)
Ends fmt user_id id b before missing r after =
    (r ≡ ok (refused 404 "task not found")) × (after ≡ before)
Ends fmt user_id id b before barred r after = (r ≡ ok (refused 403 "forbidden")) × (after ≡ before)
