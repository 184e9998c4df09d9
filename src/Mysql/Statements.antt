-- ===== src/Mysql/Statements.antt =====
-- The statements that MySQL is relied on for, in words of their own: each column of a table beside
-- the value that belongs into it, so that a storage that sends another text, or its values in another
-- order, is not covered by the laws of Mysql/Contract.
use Prim.Native.String.{◌++◌}
use team_tasks.Base.{String, Option, none, some, List, [], ◌∷◌, map}
use team_tasks.Domain.{Task, TaskHistory, Team, User, Comment, Role}
use team_tasks.Domain.Ids.{Uuid}
use team_tasks.Mysql.Driver.{Value, bytes, text, time, null, text_or_null, time_or_null}

abbrev pub Columns : Type 0
Columns = List (String × Value)

abbrev pub id_value : Uuid → Value
id_value id = bytes id.bytes

abbrev id_or_null : Option Uuid → Value
id_or_null none = null
id_or_null (some id) = id_value id

abbrev pub user_columns : User → Columns
user_columns u =
    ("id", id_value u.id)
    ∷ ("email", text u.email)
    ∷ ("name", text u.name)
    ∷ ("password", text u.password)
    ∷ ("created_at", time u.created_at)
    ∷ []

abbrev pub team_columns : Team → Columns
team_columns t =
    ("id", id_value t.id)
    ∷ ("name", text t.name)
    ∷ ("created_by", id_value t.created_by)
    ∷ ("created_at", time t.created_at)
    ∷ []

abbrev pub member_columns : Uuid → Uuid → Role → Columns
member_columns team_id user_id role =
    ("team_id", id_value team_id) ∷ ("user_id", id_value user_id) ∷ ("role", text role) ∷ []

abbrev pub task_columns : Task → Columns
task_columns t =
    ("id", id_value t.id)
    ∷ ("team_id", id_value t.team_id)
    ∷ ("created_by", id_value t.created_by)
    ∷ ("assignee_id", id_or_null t.assignee_id)
    ∷ ("title", text t.title)
    ∷ ("description", text_or_null t.description)
    ∷ ("status", text t.status)
    ∷ ("priority", text t.priority)
    ∷ ("due_date", time_or_null t.due_date)
    ∷ ("created_at", time t.created_at)
    ∷ ("updated_at", time t.updated_at)
    ∷ []

-- The columns that `set_task_row` sets.
abbrev pub edited_columns : Task → Columns
edited_columns t =
    ("assignee_id", id_or_null t.assignee_id)
    ∷ ("title", text t.title)
    ∷ ("description", text_or_null t.description)
    ∷ ("status", text t.status)
    ∷ ("priority", text t.priority)
    ∷ ("due_date", time_or_null t.due_date)
    ∷ ("updated_at", time t.updated_at)
    ∷ []

abbrev pub history_columns : TaskHistory → Columns
history_columns h =
    ("task_id", id_value h.task_id)
    ∷ ("changed_by", id_value h.changed_by)
    ∷ ("field", text h.field)
    ∷ ("old_value", text_or_null h.old_value)
    ∷ ("new_value", text_or_null h.new_value)
    ∷ ("changed_at", time h.changed_at)
    ∷ []

abbrev pub comment_columns : Comment → Columns
comment_columns c =
    ("task_id", id_value c.task_id) ∷ ("user_id", id_value c.user_id) ∷ ("body", text c.body) ∷ []

abbrev pub values : Columns → List Value
values = map (λ c. c.1)

abbrev names : Columns → List String
names = map (λ c. c.0)

abbrev commas : List String → String
commas [] = ""
commas (c ∷ []) = c
commas (c ∷ d ∷ cs) = c ++ (", " ++ commas (d ∷ cs))

abbrev marks : Columns → List String
marks = map (λ c. "?")

abbrev assignments : Columns → List String
assignments = map (λ c. c.0 ++ " = ?")

abbrev pub insert_into : String → Columns → String
insert_into table cs =
    "INSERT INTO "
    ++ (table ++ (" (" ++ (commas (names cs) ++ (") VALUES (" ++ (commas (marks cs) ++ ")")))))

abbrev pub row_update : String → Columns → String
row_update table cs =
    "UPDATE " ++ (table ++ (" SET " ++ (commas (assignments cs) ++ " WHERE id = ?")))

-- The rows of a table at a condition.
abbrev pub select_where : List String → String → String → String
select_where cs table condition =
    "SELECT " ++ (commas cs ++ (" FROM " ++ (table ++ (" WHERE " ++ condition))))

abbrev pub user_names : List String
user_names = "id" ∷ "email" ∷ "name" ∷ "password" ∷ "created_at" ∷ []

abbrev pub team_names : List String
team_names = "id" ∷ "name" ∷ "created_by" ∷ "created_at" ∷ []

abbrev pub task_names : List String
task_names =
    "id" ∷ "team_id" ∷ "created_by" ∷ "assignee_id" ∷ "title" ∷ "description" ∷ "status"
    ∷ "priority" ∷ "due_date" ∷ "created_at" ∷ "updated_at" ∷ []

abbrev pub history_names : List String
history_names =
    "id" ∷ "task_id" ∷ "changed_by" ∷ "field" ∷ "old_value" ∷ "new_value" ∷ "changed_at" ∷ []

abbrev pub comment_names : List String
comment_names = "id" ∷ "task_id" ∷ "user_id" ∷ "body" ∷ "created_at" ∷ []
