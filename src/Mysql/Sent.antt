-- ===== src/Mysql/Sent.antt =====
-- The rows of tasks that the storage of internal/storage/mysql/task.go reads, and the values that it
-- sends.
use team_tasks.Base.{
  ℕ, String, Option, none, some, List, [], ◌∷◌, ◌≡◌, ◌↔◌, refl, arith, ap, ◌∙◌, map, length, All,
}
use team_tasks.Domain.{Task, Time}
use team_tasks.Domain.Ids.{Uuid}
use team_tasks.Domain.Errors.{ok}
use team_tasks.Mysql.Rows.{TaskRow, to_task, task_row, assignee_bytes, convert_rows}
use team_tasks.Mysql.Conversions.{HasUuids, IsUuids, convert_rows-task_row}
use team_tasks.Mysql.Driver.{Value, bytes, text, time, null, text_or_null, time_or_null}
use team_tasks.Mysql.Storage.Tasks.{assignee_value, task_args}

-- The values of a row, in the order of the columns that `SaveTask` and the queries name.
abbrev bytes_or_null : List ℕ → Value
bytes_or_null [] = null
bytes_or_null (b ∷ bs) = bytes (b ∷ bs)

abbrev pub row_values : TaskRow → List Value
row_values r =
    bytes r.id
    ∷ bytes r.team_id
    ∷ bytes r.created_by
    ∷ bytes_or_null r.assignee_id
    ∷ text r.title
    ∷ text_or_null r.description
    ∷ text r.status
    ∷ text r.priority
    ∷ time_or_null r.due_date
    ∷ time r.created_at
    ∷ time r.updated_at
    ∷ []

assignee_sent : (o : Option Uuid) → IsUuids o → bytes_or_null (assignee_bytes o) ≡ assignee_value o
assignee_sent none h = refl
assignee_sent (some id) h = full id.bytes h
  where
    full : (b : List ℕ) → length b ≡ 16 → bytes_or_null b ≡ bytes b
    full [] e = absurd (omega arith)
    full (x ∷ b) e = refl

task_sent : (t : Task) → HasUuids t → row_values (task_row t) ≡ task_args t
task_sent t h = rw (assignee_sent t.assignee_id h.3) refl

bytes_back :
    (b : List ℕ) (o : Option Uuid) → bytes_or_null b ≡ assignee_value o → b ≡ assignee_bytes o
bytes_back [] none e = refl
bytes_back [] (some id) e = cc
bytes_back (x ∷ b) none e = cc
bytes_back (x ∷ b) (some id) e = cc

text_back : (o p : Option String) → text_or_null o ≡ text_or_null p → o ≡ p
text_back none none e = refl
text_back none (some s) e = cc
text_back (some s) none e = cc
text_back (some s) (some u) e = cc

time_back : (o p : Option Time) → time_or_null o ≡ time_or_null p → o ≡ p
time_back none none e = refl
time_back none (some s) e = cc
time_back (some s) none e = cc
time_back (some s) (some u) e = cc

row_back : (r : TaskRow) (t : Task) → row_values r ≡ task_args t → r ≡ task_row t
row_back r t e =
    let id : r.id ≡ t.id.bytes = cc in
    let team : r.team_id ≡ t.team_id.bytes = cc in
    let creator : r.created_by ≡ t.created_by.bytes = cc in
    let assignee : bytes_or_null r.assignee_id ≡ assignee_value t.assignee_id = cc in
    let title : r.title ≡ t.title = cc in
    let description : text_or_null r.description ≡ text_or_null t.description = cc in
    let status : r.status ≡ t.status = cc in
    let priority : r.priority ≡ t.priority = cc in
    let due : time_or_null r.due_date ≡ time_or_null t.due_date = cc in
    let created : r.created_at ≡ t.created_at = cc in
    let updated : r.updated_at ≡ t.updated_at = cc in
    λ i. record {
      id = id i;
      team_id = team i;
      created_by = creator i;
      assignee_id = bytes_back r.assignee_id t.assignee_id assignee i;
      title = title i;
      description = text_back r.description t.description description i;
      status = status i;
      priority = priority i;
      due_date = time_back r.due_date t.due_date due i;
      created_at = created i;
      updated_at = updated i;
    }

rows_sent : (ts : List Task) → All HasUuids ts → map row_values (map task_row ts) ≡ map task_args ts
rows_sent [] h = refl
rows_sent (t ∷ ts) (h, hs) = λ i. task_sent t h i ∷ rows_sent ts hs i

rows_back :
    (rows : List TaskRow) (ts : List Task)
    → map row_values rows ≡ map task_args ts
    → rows ≡ map task_row ts
rows_back [] [] e = refl
rows_back [] (t ∷ ts) e = cc
rows_back (r ∷ rows) [] e = cc
rows_back (r ∷ rows) (t ∷ ts) e =
    let here : row_values r ≡ task_args t = cc in
    let rest : map row_values rows ≡ map task_args ts = cc in
    λ i. row_back r t here i ∷ rows_back rows ts rest i

-- The rows of a query are read as a list of tasks exactly if their values are those that `SaveTask`
-- sends for these tasks and every identifier has sixteen bytes: nothing is lost on the way to the
-- database and back, and a row that no task is sent as is refused.
pub convert_rows_iff :
    (rows : List TaskRow) (ts : List Task)
    → (convert_rows to_task rows ≡ ok ts)
      ↔ ((map row_values rows ≡ map task_args ts) × All HasUuids ts)
convert_rows_iff rows ts = (
  λ e.
      let (is, valid) = (convert_rows-task_row rows ts).0 e in
      (ap (map row_values) is ∙ rows_sent ts valid, valid),
  λ (sent, valid). (convert_rows-task_row rows ts).1 (rows_back rows ts sent, valid),
)
