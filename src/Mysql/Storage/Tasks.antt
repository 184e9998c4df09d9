-- ===== src/Mysql/Storage/Tasks.antt =====
-- `TaskStorage` of internal/storage/mysql/task.go. An offset is an `int` of 64 bits that wraps round.
use Prim.Native.String.{◌++◌}
use team_tasks.Base.{ℤ, pos, String, Option, none, some, List, [], ◌∷◌}
use team_tasks.Base.{◌++◌ as append}
use team_tasks.Base.Int.{wrap64, ◌-ℤ◌, ◌*ℤ◌}
use team_tasks.Domain.{Task, TaskHistory, TaskFilter}
use team_tasks.Domain.Ids.{Uuid}
use team_tasks.Domain.Errors.{wrapped}
use team_tasks.Action.{⊤, Action, pure, lift, on_error, ◌>>=◌, ◌>>◌}
use team_tasks.Mysql.Rows.{uuid_to_bytes, to_task, to_history, convert_rows}
use team_tasks.Mysql.Driver.{
  Db, Value, bytes, text, time, int, null, text_or_null, time_or_null, Scan, lookup_error,
  with_deferred,
}

abbrev pub columns : String
columns =
    "id, team_id, created_by, assignee_id, title, description, status, priority, due_date, created_at, updated_at"

abbrev pub insert_task : String
insert_task = "INSERT INTO tasks (" ++ (columns ++ ") VALUES (?, ?, ?, ?, ?, ?, ?, ?, ?, ?, ?)")

abbrev pub select_by_id : String
select_by_id = "SELECT " ++ (columns ++ " FROM tasks WHERE id = ?")

abbrev pub update_by_id : String
update_by_id =
    "UPDATE tasks SET assignee_id = ?, title = ?, description = ?, status = ?, priority = ?, due_date = ?, updated_at = ? WHERE id = ?"

abbrev pub insert_history : String
insert_history =
    "INSERT INTO task_history (task_id, changed_by, field, old_value, new_value, changed_at) VALUES (?, ?, ?, ?, ?, ?)"

abbrev pub select_history : String
select_history =
    "SELECT id, task_id, changed_by, field, old_value, new_value, changed_at FROM task_history WHERE task_id = ? ORDER BY changed_at ASC"

-- A nil slice of bytes is the value NULL.
abbrev pub assignee_value : Option Uuid → Value
assignee_value none = null
assignee_value (some id) = bytes (uuid_to_bytes id)

abbrev pub task_args : Task → List Value
task_args t =
    bytes (uuid_to_bytes t.id)
    ∷ bytes (uuid_to_bytes t.team_id)
    ∷ bytes (uuid_to_bytes t.created_by)
    ∷ assignee_value t.assignee_id
    ∷ text t.title
    ∷ text_or_null t.description
    ∷ text t.status
    ∷ text t.priority
    ∷ time_or_null t.due_date
    ∷ time t.created_at
    ∷ time t.updated_at
    ∷ []

abbrev pub update_args : Task → List Value
update_args t =
    assignee_value t.assignee_id
    ∷ text t.title
    ∷ text_or_null t.description
    ∷ text t.status
    ∷ text t.priority
    ∷ time_or_null t.due_date
    ∷ time t.updated_at
    ∷ bytes (uuid_to_bytes t.id)
    ∷ []

abbrev pub history_args : TaskHistory → List Value
history_args h =
    bytes (uuid_to_bytes h.task_id)
    ∷ bytes (uuid_to_bytes h.changed_by)
    ∷ text h.field
    ∷ text_or_null h.old_value
    ∷ text_or_null h.new_value
    ∷ time h.changed_at
    ∷ []

-- `conds` and `args` of `buildTaskFilter`.
pub record Conditions : Type 0 where
  pub conds : List String
  pub args : List Value

abbrev pub no_conditions : Conditions
no_conditions = record { conds = []; args = [] }

-- `if f.X != nil { conds = append(…); args = append(…) }`
abbrev pub add_condition : {A : Type 0} → String → (A → Value) → Option A → Conditions → Conditions
add_condition cond value none c = c
add_condition cond value (some a) c = record {
  conds = append c.conds (cond ∷ []);
  args = append c.args (value a ∷ []);
}

unfoldable pub build_task_filter : TaskFilter → Conditions
build_task_filter f =
    add_condition "assignee_id = ?" (λ id. bytes (uuid_to_bytes id)) f.assignee_id
      (add_condition "status = ?" (λ s. text s) f.status
        (add_condition "team_id = ?" (λ id. bytes (uuid_to_bytes id)) f.team_id no_conditions))

-- `strings.Join(conds, " AND ")`
unfoldable pub join_and : List String → String
join_and [] = ""
join_and (c ∷ []) = c
join_and (c ∷ d ∷ cs) = c ++ (" AND " ++ join_and (d ∷ cs))

abbrev pub where_clause : List String → String
where_clause [] = ""
where_clause (c ∷ cs) = "WHERE " ++ join_and (c ∷ cs)

abbrev pub count_statement : List String → String
count_statement conds = "SELECT COUNT(*) FROM tasks " ++ where_clause conds

abbrev pub page_statement : List String → String
page_statement conds =
    "SELECT "
    ++ (columns
        ++ (" FROM tasks " ++ (where_clause conds ++ " ORDER BY created_at DESC LIMIT ? OFFSET ?")))

-- `(filter.Page - 1) * filter.Limit`
unfoldable pub offset : ℤ → ℤ → ℤ
offset page limit = wrap64 (wrap64 (page -ℤ pos 1) *ℤ limit)

module _ {W : Type 0} (db : Db W) where
  unfoldable pub save_task : Task → Action W ⊤
  save_task task =
      on_error (wrapped "mysql: save task") (db.exec insert_task (task_args task)) >> pure tt

  unfoldable pub get_task_by_id : Uuid → Action W Task
  get_task_by_id id = do
    row ←
        on_error (lookup_error "mysql: get task by id")
          (db.get Scan.task_rows select_by_id (bytes (uuid_to_bytes id) ∷ []))
    lift (to_task row)

  unfoldable pub list_tasks : TaskFilter → Action W (List Task × ℤ)
  list_tasks f = do
    let c = build_task_filter f
    total ←
        on_error (wrapped "mysql: count tasks")
          (db.get Scan.counts (count_statement c.conds) c.args)
    rows ← on_error (wrapped "mysql: list tasks") (
        db.select Scan.task_rows (page_statement c.conds)
          (append c.args (int f.limit ∷ int (offset f.page f.limit) ∷ [])))
    tasks ← lift (convert_rows to_task rows)
    pure (tasks, total)

  unfoldable pub insert_entries : List TaskHistory → Action W ⊤
  insert_entries [] = pure tt
  insert_entries (h ∷ hs) =
      on_error (wrapped "mysql: save history") (db.tx_exec insert_history (history_args h))
      >> insert_entries hs

  unfoldable pub update_task_with_history : Task → List TaskHistory → Action W ⊤
  update_task_with_history task entries = do
    on_error (wrapped "mysql: begin tx") db.begin
    with_deferred db.rollback (do
      on_error (wrapped "mysql: update task") (db.tx_exec update_by_id (update_args task))
      insert_entries entries
      on_error (wrapped "mysql: commit") db.commit
      pure tt)

  unfoldable pub save_history : TaskHistory → Action W ⊤
  save_history h =
      on_error (wrapped "mysql: save history") (db.exec insert_history (history_args h)) >> pure tt

  unfoldable pub list_history : Uuid → Action W (List TaskHistory)
  list_history task_id = do
    rows ←
        on_error (wrapped "mysql: list history")
          (db.select Scan.history_rows select_history (bytes (uuid_to_bytes task_id) ∷ []))
    lift (convert_rows to_history rows)
