-- ===== src/Mysql/Rows.antt =====
-- The rows of internal/storage/mysql and their conversions: `uuidToBytes`, `bytesToUUID`,
-- `bytesToUUIDPtr`, `isDuplicateEntry` of helpers.go, and `toTask`, `toHistory`, `toTeam`, `toUser`,
-- `toComment`. A nil slice, which is the value NULL of a column, is the empty list of bytes.
use Prim.Native.String.{◌++◌}
use team_tasks.Base.{
  ℕ, pos, String, Bool, false, Option, none, some, List, [], ◌∷◌, ◌==◌, length, if◌then◌else◌,
}
use team_tasks.Base.Decimal.{decimal}
use team_tasks.Domain.{Time, Task, TaskHistory, Team, User, Comment, TaskStatus, TaskPriority}
use team_tasks.Domain.Ids.{Uuid}
use team_tasks.Domain.Errors.{Error, Result, ok, err, plain, wrapped, mysql_error}

abbrev pub uuid_to_bytes : Uuid → List ℕ
uuid_to_bytes id = id.bytes

unfoldable pub bytes_to_uuid : List ℕ → Result Uuid
bytes_to_uuid b =
    if length b == 16
    then ok (record { bytes = b })
    else err (plain ("expected 16 bytes, got " ++ decimal (pos (length b))))

abbrev pub optional : Result Uuid → Result (Option Uuid)
optional (ok id) = ok (some id)
optional (err e) = err e

unfoldable pub bytes_to_uuid_ptr : List ℕ → Result (Option Uuid)
bytes_to_uuid_ptr [] = ok none
bytes_to_uuid_ptr (b ∷ bs) = optional (bytes_to_uuid (b ∷ bs))

-- `errors.As(err, &me) && me.Number == 1062`
abbrev pub is_duplicate_entry : Error → Bool
is_duplicate_entry (mysql_error number) = number == 1062
is_duplicate_entry (wrapped label e) = is_duplicate_entry e
is_duplicate_entry _ = false

-- `if err != nil { return …, fmt.Errorf("…: %w", err) }`
abbrev pub parse : {A B : Type 0} → String → Result A → (A → Result B) → Result B
parse label (ok a) f = f a
parse label (err e) f = err (wrapped label e)

pub record TaskRow : Type 0 where
  pub id : List ℕ
  pub team_id : List ℕ
  pub created_by : List ℕ
  pub assignee_id : List ℕ
  pub title : String
  pub description : Option String
  pub status : TaskStatus
  pub priority : TaskPriority
  pub due_date : Option Time
  pub created_at : Time
  pub updated_at : Time

pub record HistoryRow : Type 0 where
  pub id : ℕ
  pub task_id : List ℕ
  pub changed_by : List ℕ
  pub field : String
  pub old_value : Option String
  pub new_value : Option String
  pub changed_at : Time

pub record TeamRow : Type 0 where
  pub id : List ℕ
  pub name : String
  pub created_by : List ℕ
  pub created_at : Time

pub record UserRow : Type 0 where
  pub id : List ℕ
  pub email : String
  pub name : String
  pub password : String
  pub created_at : Time

pub record CommentRow : Type 0 where
  pub id : ℕ
  pub task_id : List ℕ
  pub user_id : List ℕ
  pub body : String
  pub created_at : Time

unfoldable pub to_task : TaskRow → Result Task
to_task r = parse "mysql: parse task id" (bytes_to_uuid r.id) λ id.
    parse "mysql: parse task team_id" (bytes_to_uuid r.team_id) λ team_id.
      parse "mysql: parse task created_by" (bytes_to_uuid r.created_by) λ created_by.
        parse "mysql: parse task assignee_id" (bytes_to_uuid_ptr r.assignee_id) λ assignee_id.
          ok (record {
            id = id;
            team_id = team_id;
            created_by = created_by;
            assignee_id = assignee_id;
            title = r.title;
            description = r.description;
            status = r.status;
            priority = r.priority;
            due_date = r.due_date;
            created_at = r.created_at;
            updated_at = r.updated_at;
          })

unfoldable pub to_history : HistoryRow → Result TaskHistory
to_history r = parse "mysql: parse history task_id" (bytes_to_uuid r.task_id) λ task_id.
    parse "mysql: parse history changed_by" (bytes_to_uuid r.changed_by) λ changed_by. ok (record {
      id = r.id;
      task_id = task_id;
      changed_by = changed_by;
      field = r.field;
      old_value = r.old_value;
      new_value = r.new_value;
      changed_at = r.changed_at;
    })

unfoldable pub to_team : TeamRow → Result Team
to_team r = parse "mysql: parse team id" (bytes_to_uuid r.id) λ id.
    parse "mysql: parse team created_by" (bytes_to_uuid r.created_by) λ created_by.
      ok (record { id = id; name = r.name; created_by = created_by; created_at = r.created_at })

unfoldable pub to_user : UserRow → Result User
to_user r = parse "mysql: parse user id" (bytes_to_uuid r.id) λ id. ok (record {
  id = id;
  email = r.email;
  name = r.name;
  password = r.password;
  created_at = r.created_at;
})

unfoldable pub to_comment : CommentRow → Result Comment
to_comment r = parse "mysql: parse comment task_id" (bytes_to_uuid r.task_id) λ task_id.
    parse "mysql: parse comment user_id" (bytes_to_uuid r.user_id) λ user_id. ok (record {
      id = r.id;
      task_id = task_id;
      user_id = user_id;
      body = r.body;
      created_at = r.created_at;
    })

-- What is read of the column of an assignee, which is empty for NULL.
abbrev pub assignee_bytes : Option Uuid → List ℕ
assignee_bytes none = []
assignee_bytes (some id) = uuid_to_bytes id

-- The row that is read of a task that has been inserted.
abbrev pub task_row : Task → TaskRow
task_row t = record {
  id = uuid_to_bytes t.id;
  team_id = uuid_to_bytes t.team_id;
  created_by = uuid_to_bytes t.created_by;
  assignee_id = assignee_bytes t.assignee_id;
  title = t.title;
  description = t.description;
  status = t.status;
  priority = t.priority;
  due_date = t.due_date;
  created_at = t.created_at;
  updated_at = t.updated_at;
}

-- The row that is read of a user that has been inserted.
abbrev pub user_row : User → UserRow
user_row u = record {
  id = uuid_to_bytes u.id;
  email = u.email;
  name = u.name;
  password = u.password;
  created_at = u.created_at;
}

-- The loops that convert the rows of a query, up to the first that cannot be.
abbrev pub collected : {B : Type 0} → Result B → Result (List B) → Result (List B)
collected (ok b) (ok bs) = ok (b ∷ bs)
collected (ok b) (err e) = err e
collected (err e) rest = err e

unfoldable pub convert_rows : {A B : Type 0} → (A → Result B) → List A → Result (List B)
convert_rows f [] = ok []
convert_rows f (r ∷ rs) = collected (f r) (convert_rows f rs)
