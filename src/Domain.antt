-- ===== src/Domain.antt =====
-- The domain types of internal/domain. Go's `time.Time` is the number of nanoseconds of its
-- instant; `*T` is `Option T`; the named string types are texts, as Go checks no value of them.
pub mod Errors
pub mod Ids
use team_tasks.Base.{ℕ, ℤ, String, Option}
use team_tasks.Domain.Ids.{Uuid}

abbrev pub Time : Type 0
Time = ℕ

-- The zero value of `time.Time`.
abbrev pub time_zero : Time
time_zero = 0

abbrev pub TaskStatus : Type 0
TaskStatus = String

abbrev pub status_todo : TaskStatus
status_todo = "todo"

abbrev pub status_in_progress : TaskStatus
status_in_progress = "in_progress"

abbrev pub status_done : TaskStatus
status_done = "done"

abbrev pub TaskPriority : Type 0
TaskPriority = String

abbrev pub priority_low : TaskPriority
priority_low = "low"

abbrev pub priority_medium : TaskPriority
priority_medium = "medium"

abbrev pub priority_high : TaskPriority
priority_high = "high"

abbrev pub Role : Type 0
Role = String

abbrev pub role_owner : Role
role_owner = "owner"

abbrev pub role_admin : Role
role_admin = "admin"

abbrev pub role_member : Role
role_member = "member"

pub record Task : Type 0 where
  pub id : Uuid
  pub team_id : Uuid
  pub created_by : Uuid
  pub assignee_id : Option Uuid
  pub title : String
  pub description : Option String
  pub status : TaskStatus
  pub priority : TaskPriority
  pub due_date : Option Time
  pub created_at : Time
  pub updated_at : Time

pub record CreateTaskInput : Type 0 where
  pub team_id : Uuid
  pub title : String
  pub description : Option String
  pub assignee_id : Option Uuid
  pub due_date : Option Time
  pub priority : TaskPriority

pub record UpdateTaskInput : Type 0 where
  pub title : Option String
  pub description : Option String
  pub status : Option TaskStatus
  pub assignee_id : Option Uuid
  pub due_date : Option Time
  pub priority : Option TaskPriority

pub record TaskFilter : Type 0 where
  pub team_id : Option Uuid
  pub status : Option TaskStatus
  pub assignee_id : Option Uuid
  pub page : ℤ
  pub limit : ℤ

pub record TaskHistory : Type 0 where
  pub id : ℕ
  pub task_id : Uuid
  pub changed_by : Uuid
  pub field : String
  pub old_value : Option String
  pub new_value : Option String
  pub changed_at : Time

pub record Team : Type 0 where
  pub id : Uuid
  pub name : String
  pub created_by : Uuid
  pub created_at : Time

pub record User : Type 0 where
  pub id : Uuid
  pub email : String
  pub name : String
  pub password : String
  pub created_at : Time

pub record Comment : Type 0 where
  pub id : ℕ
  pub task_id : Uuid
  pub user_id : Uuid
  pub body : String
  pub created_at : Time

pub record TeamSummary : Type 0 where
  pub team_id : Uuid
  pub name : String
  pub member_count : ℤ
  pub done_last7_days : ℤ

pub record TopContributor : Type 0 where
  pub team_id : Uuid
  pub user_id : Uuid
  pub task_count : ℤ
  pub rank_in_team : ℤ

pub record OrphanTask : Type 0 where
  pub id : Uuid
  pub title : String
  pub team_id : Uuid
  pub assignee_id : Uuid
