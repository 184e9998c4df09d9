-- ===== src/Task/Diff.antt =====
-- `buildHistoryEntries` of internal/service/task/task.go and its comparisons of pointers. The
-- function writes through the task's pointer and appends to a slice: both are the state here.
pub mod Laws
pub mod Audit
pub mod Replay
use team_tasks.Base.{
  String, Bool, true, false, Option, none, some, List, [], ◌∷◌, ◌++◌, ◌==◌, str_eq, if◌then◌else◌,
}
use team_tasks.Domain.{Time, time_zero, Task, UpdateTaskInput, TaskHistory}
use team_tasks.Domain.Ids.{Uuid, uuid_eq}

-- The formats that the code takes from elsewhere: `uuid.UUID.String`, and the layout 2006-01-02 of
-- `time.Time.Format` in UTC.
pub record Formats : Type 0 where
  pub uuid_string : Uuid → String
  pub format_day : Time → String

-- `strPtrEqual`, `uuidPtrEqual`, `timePtrEqual` are one function over the test of their values.
abbrev pub ptr_equal : {A : Type 0} → (A → A → Bool) → Option A → Option A → Bool
ptr_equal eq none none = true
ptr_equal eq (some a) (some b) = eq a b
ptr_equal eq _ _ = false

unfoldable pub str_ptr_equal : Option String → Option String → Bool
str_ptr_equal = ptr_equal str_eq

unfoldable pub uuid_ptr_equal : Option Uuid → Option Uuid → Bool
uuid_ptr_equal = ptr_equal uuid_eq

-- `a.Equal(*b)` compares the instants.
unfoldable pub time_ptr_equal : Option Time → Option Time → Bool
time_ptr_equal = ptr_equal ◌==◌

pub record Edit : Type 0 where
  pub task : Task
  pub entries : List TaskHistory

module _ (fmt : Formats) where
  pub format_date : Option Time → String
  format_date none = ""
  format_date (some t) = fmt.format_day t

  -- `old := ""; if task.AssigneeID != nil { old = task.AssigneeID.String() }`
  pub assignee_text : Option Uuid → String
  assignee_text none = ""
  assignee_text (some id) = fmt.uuid_string id

module _ (fmt : Formats) (task_id caller_id : Uuid) where
  -- The literal `domain.TaskHistory{…}` of one change; the other fields are zero values.
  abbrev pub entry : String → Option String → Option String → TaskHistory
  entry field old new = record {
    id = 0;
    task_id = task_id;
    changed_by = caller_id;
    field = field;
    old_value = old;
    new_value = new;
    changed_at = time_zero;
  }

  edit_title : Option String → Edit → Edit
  edit_title none s = s
  edit_title (some v) s = if str_eq v s.task.title then s else record {
    task = record (s.task) { title = v };
    entries = s.entries ++ entry "title" (some s.task.title) (some v) ∷ [];
  }

  edit_description : Option String → Edit → Edit
  edit_description none s = s
  edit_description (some v) s = if str_ptr_equal s.task.description (some v) then s else record {
    task = record (s.task) { description = some v };
    entries = s.entries ++ entry "description" s.task.description (some v) ∷ [];
  }

  edit_status : Option String → Edit → Edit
  edit_status none s = s
  edit_status (some v) s = if str_eq v s.task.status then s else record {
    task = record (s.task) { status = v };
    entries = s.entries ++ entry "status" (some s.task.status) (some v) ∷ [];
  }

  edit_priority : Option String → Edit → Edit
  edit_priority none s = s
  edit_priority (some v) s = if str_eq v s.task.priority then s else record {
    task = record (s.task) { priority = v };
    entries = s.entries ++ entry "priority" (some s.task.priority) (some v) ∷ [];
  }

  edit_assignee : Option Uuid → Edit → Edit
  edit_assignee none s = s
  edit_assignee (some v) s = if uuid_ptr_equal s.task.assignee_id (some v) then s else record {
    task = record (s.task) { assignee_id = some v };
    entries =
        s.entries
        ++ entry "assignee_id" (some (assignee_text fmt s.task.assignee_id))
            (some (fmt.uuid_string v))
          ∷ [];
  }

  edit_due_date : Option Time → Edit → Edit
  edit_due_date none s = s
  edit_due_date (some v) s = if time_ptr_equal s.task.due_date (some v) then s else record {
    task = record (s.task) { due_date = some v };
    entries =
        s.entries
        ++ entry "due_date" (some (format_date fmt s.task.due_date))
            (some (format_date fmt (some v)))
          ∷ [];
  }

  unfoldable pub build_history_entries : Task → UpdateTaskInput → Edit
  unfolding format_date assignee_text edit_title edit_description edit_status edit_priority
      edit_assignee edit_due_date str_ptr_equal uuid_ptr_equal time_ptr_equal
  build_history_entries task input = edit_due_date input.due_date (
      edit_assignee input.assignee_id (
        edit_priority input.priority (
          edit_status input.status (
            edit_description input.description
              (edit_title input.title (record { task = task; entries = [] }))))))
