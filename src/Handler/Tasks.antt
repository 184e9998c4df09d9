-- ===== src/Handler/Tasks.antt =====
-- `CreateTask`, `ListTasks`, `UpdateTask` and `GetTaskHistory` of internal/handler/task.go. A date of
-- the API is an instant; that it is written as its day is left to the generated code.
use team_tasks.Base.{ℕ, ℤ, pos, String, Option, none, some, List, [], ◌∷◌, map}
use team_tasks.Domain.{
  Task, TaskHistory, CreateTaskInput, UpdateTaskInput, TaskFilter, TaskStatus, TaskPriority, Time,
}
use team_tasks.Domain.Ids.{Uuid}
use team_tasks.Domain.Errors.{forbidden}
use team_tasks.Action.{Action}
use team_tasks.Handler.Response.{Response, authorized, with_body, answer, msg_forbidden}
use team_tasks.Handler.Comments.{task_cases}

-- `TaskService`
pub record TaskService (W : Type 0) : Type 0 where
  pub create : Uuid → CreateTaskInput → Action W Task
  pub list : Uuid → TaskFilter → Action W (List Task × ℤ)
  pub update : Uuid → Uuid → UpdateTaskInput → Action W Task
  pub history : Uuid → Uuid → Action W (List TaskHistory)

pub record CreateTaskRequest : Type 0 where
  pub team_id : Uuid
  pub title : String
  pub description : Option String
  pub assignee_id : Option Uuid
  pub priority : Option TaskPriority
  pub due_date : Option Time

pub record UpdateTaskRequest : Type 0 where
  pub title : Option String
  pub description : Option String
  pub status : Option TaskStatus
  pub assignee_id : Option Uuid
  pub priority : Option TaskPriority
  pub due_date : Option Time

pub record ListTasksParams : Type 0 where
  pub team_id : Option Uuid
  pub status : Option TaskStatus
  pub assignee_id : Option Uuid
  pub page : Option ℤ
  pub limit : Option ℤ

pub record ApiTask : Type 0 where
  pub id : Uuid
  pub team_id : Uuid
  pub created_by : Uuid
  pub assignee_id : Option Uuid
  pub title : String
  pub description : Option String
  pub status : String
  pub priority : String
  pub due_date : Option Time
  pub created_at : Time
  pub updated_at : Time

pub record ApiTaskHistory : Type 0 where
  pub id : ℕ
  pub task_id : Uuid
  pub changed_by : Uuid
  pub field : String
  pub old_value : Option String
  pub new_value : Option String
  pub changed_at : Time

pub record TaskListResponse : Type 0 where
  pub tasks : List ApiTask
  pub total : ℤ
  pub page : ℤ
  pub limit : ℤ

abbrev pub to_api_task : Task → ApiTask
to_api_task t = record {
  id = t.id;
  team_id = t.team_id;
  created_by = t.created_by;
  assignee_id = t.assignee_id;
  title = t.title;
  description = t.description;
  status = t.status;
  priority = t.priority;
  due_date = t.due_date;
  created_at = t.created_at;
  updated_at = t.updated_at;
}

abbrev pub to_api_history : TaskHistory → ApiTaskHistory
to_api_history e = record {
  id = e.id;
  task_id = e.task_id;
  changed_by = e.changed_by;
  field = e.field;
  old_value = e.old_value;
  new_value = e.new_value;
  changed_at = e.changed_at;
}

-- A field of a request in place of the zero value of its type.
abbrev pub given_or : {A : Type 0} → A → Option A → A
given_or zero_value none = zero_value
given_or zero_value (some a) = a

abbrev pub create_input : CreateTaskRequest → CreateTaskInput
create_input b = record {
  team_id = b.team_id;
  title = b.title;
  description = b.description;
  assignee_id = b.assignee_id;
  due_date = b.due_date;
  priority = given_or "" b.priority;
}

abbrev pub update_input : UpdateTaskRequest → UpdateTaskInput
update_input b = record {
  title = b.title;
  description = b.description;
  status = b.status;
  assignee_id = b.assignee_id;
  due_date = b.due_date;
  priority = b.priority;
}

abbrev pub list_filter : ListTasksParams → TaskFilter
list_filter p = record {
  team_id = p.team_id;
  status = p.status;
  assignee_id = p.assignee_id;
  page = given_or (pos 0) p.page;
  limit = given_or (pos 0) p.limit;
}

abbrev pub list_response : TaskFilter → List Task × ℤ → TaskListResponse
list_response filter (tasks, total) = record {
  tasks = map to_api_task tasks;
  total = total;
  page = filter.page;
  limit = filter.limit;
}

module _ {W : Type 0} (tasks : TaskService W) where
  unfoldable pub create_task : Option Uuid → Option CreateTaskRequest → Action W (Response ApiTask)
  create_task user body = authorized user λ user_id. with_body body λ b.
      answer 201 to_api_task
        (record { target = forbidden; status = 403; message = "not a team member" } ∷ [])
        (tasks.create user_id (create_input b))

  unfoldable pub list_tasks : Option Uuid → ListTasksParams → Action W (Response TaskListResponse)
  list_tasks user params = authorized user λ user_id.
      let filter = list_filter params in
      answer 200 (list_response filter)
        (record { target = forbidden; status = 403; message = msg_forbidden } ∷ [])
        (tasks.list user_id filter)

  unfoldable pub update_task :
      Option Uuid → Uuid → Option UpdateTaskRequest → Action W (Response ApiTask)
  update_task user id body = authorized user λ user_id.
      with_body body
        λ b. answer 200 to_api_task task_cases (tasks.update user_id id (update_input b))

  unfoldable pub get_task_history : Option Uuid → Uuid → Action W (Response (List ApiTaskHistory))
  get_task_history user id =
      authorized user
        λ user_id. answer 200 (map to_api_history) task_cases (tasks.history user_id id)
