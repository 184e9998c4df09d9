-- ===== src/Task/Diff/Laws.antt =====
-- What `buildHistoryEntries` computes: the difference of the stored task and the task asked for.
use mathlib.Core.List.{append-nil}
use team_tasks.Base.{
  String, Bool, true, false, Option, none, some, List, [], ◌∷◌, ◌++◌, str_eq, if◌then◌else◌, ◌≡◌,
  arith, str_eq_iff, inl, inr, Option-cases, refl, map, All, All-append,
}
use team_tasks.Domain.{Time, Task, UpdateTaskInput, TaskHistory}
use team_tasks.Domain.Ids.{Uuid, uuid_eq_iff}
use team_tasks.Task.Diff.{
  Formats, Edit, entry, str_ptr_equal, uuid_ptr_equal, time_ptr_equal, format_date, assignee_text,
  edit_title, edit_description, edit_status, edit_priority, edit_assignee, edit_due_date,
  build_history_entries,
}

-- A field that is given, else the one that the task has.
abbrev pub given : {A : Type 0} → Option A → A → A
given none old = old
given (some new) old = new

abbrev pub given_ptr : {A : Type 0} → Option A → Option A → Option A
given_ptr none old = old
given_ptr (some new) old = some new

-- The task that an update asks for.
abbrev pub overlay : Task → UpdateTaskInput → Task
overlay t input = record t {
  assignee_id = given_ptr input.assignee_id t.assignee_id;
  title = given input.title t.title;
  description = given_ptr input.description t.description;
  status = given input.status t.status;
  priority = given input.priority t.priority;
  due_date = given_ptr input.due_date t.due_date;
}

-- One entry if the two values differ, none if they are equal.
abbrev pub change : Bool → TaskHistory → List TaskHistory
change same h = if same then [] else h ∷ []

-- Entries with no number yet: the database numbers them.
abbrev pub Unnumbered : List TaskHistory → Type 0
Unnumbered = All (λ (h : TaskHistory). h.id ≡ 0)

module _ (fmt : Formats) (task_id caller_id : Uuid) where
  abbrev pub title_change : String → String → List TaskHistory
  title_change old new =
      change (str_eq new old) (entry fmt task_id caller_id "title" (some old) (some new))

  edit_title_lem :
      (v : Option String) (s : Edit)
      → edit_title fmt task_id caller_id v s ≡ record {
        task = record (s.task) { title = given v s.task.title };
        entries = s.entries ++ title_change s.task.title (given v s.task.title);
      }
  unfolding edit_title
  edit_title_lem none s = ground (arith, str_eq_iff s.task.title s.task.title, append-nil s.entries)
  edit_title_lem (some v) s = ground (arith, str_eq_iff v s.task.title, append-nil s.entries)

  abbrev pub status_change : String → String → List TaskHistory
  status_change old new =
      change (str_eq new old) (entry fmt task_id caller_id "status" (some old) (some new))

  edit_status_lem :
      (v : Option String) (s : Edit)
      → edit_status fmt task_id caller_id v s ≡ record {
        task = record (s.task) { status = given v s.task.status };
        entries = s.entries ++ status_change s.task.status (given v s.task.status);
      }
  unfolding edit_status
  edit_status_lem none s =
      ground (arith, str_eq_iff s.task.status s.task.status, append-nil s.entries)
  edit_status_lem (some v) s = ground (arith, str_eq_iff v s.task.status, append-nil s.entries)

  abbrev pub priority_change : String → String → List TaskHistory
  priority_change old new =
      change (str_eq new old) (entry fmt task_id caller_id "priority" (some old) (some new))

  edit_priority_lem :
      (v : Option String) (s : Edit)
      → edit_priority fmt task_id caller_id v s ≡ record {
        task = record (s.task) { priority = given v s.task.priority };
        entries = s.entries ++ priority_change s.task.priority (given v s.task.priority);
      }
  unfolding edit_priority
  edit_priority_lem none s =
      ground (arith, str_eq_iff s.task.priority s.task.priority, append-nil s.entries)
  edit_priority_lem (some v) s = ground (arith, str_eq_iff v s.task.priority, append-nil s.entries)

  abbrev pub description_change : Option String → Option String → List TaskHistory
  description_change old new =
      change (str_ptr_equal old new) (entry fmt task_id caller_id "description" old new)

  edit_description_lem :
      (v : Option String) (s : Edit)
      → edit_description fmt task_id caller_id v s ≡ record {
        task = record (s.task) { description = given_ptr v s.task.description };
        entries =
            s.entries ++ description_change s.task.description (given_ptr v s.task.description);
      }
  unfolding edit_description str_ptr_equal
  edit_description_lem none s = elim (Option-cases s.task.description) [
    | inl e ↦ ground (arith, append-nil s.entries)
    | inr (d, e) ↦ ground (arith, str_eq_iff d d, append-nil s.entries)
  ]
  edit_description_lem (some v) s = elim (Option-cases s.task.description) [
    | inl e ↦ ground (arith, append-nil s.entries)
    | inr (d, e) ↦ ground (arith, str_eq_iff d v, append-nil s.entries)
  ]

  abbrev pub assignee_change : Option Uuid → Option Uuid → List TaskHistory
  assignee_change old new = change (uuid_ptr_equal old new) (
      entry fmt task_id caller_id "assignee_id" (some (assignee_text fmt old))
        (some (assignee_text fmt new)))

  edit_assignee_lem :
      (v : Option Uuid) (s : Edit)
      → edit_assignee fmt task_id caller_id v s ≡ record {
        task = record (s.task) { assignee_id = given_ptr v s.task.assignee_id };
        entries = s.entries ++ assignee_change s.task.assignee_id (given_ptr v s.task.assignee_id);
      }
  unfolding edit_assignee uuid_ptr_equal assignee_text
  edit_assignee_lem none s = elim (Option-cases s.task.assignee_id) [
    | inl e ↦ ground (arith, append-nil s.entries)
    | inr (d, e) ↦ ground (arith, uuid_eq_iff d d, append-nil s.entries)
  ]
  edit_assignee_lem (some v) s = elim (Option-cases s.task.assignee_id) [
    | inl e ↦ ground (arith, append-nil s.entries)
    | inr (d, e) ↦ ground (arith, uuid_eq_iff d v, append-nil s.entries)
  ]

  abbrev pub due_date_change : Option Time → Option Time → List TaskHistory
  due_date_change old new = change (time_ptr_equal old new) (
      entry fmt task_id caller_id "due_date" (some (format_date fmt old))
        (some (format_date fmt new)))

  edit_due_date_lem :
      (v : Option Time) (s : Edit)
      → edit_due_date fmt task_id caller_id v s ≡ record {
        task = record (s.task) { due_date = given_ptr v s.task.due_date };
        entries = s.entries ++ due_date_change s.task.due_date (given_ptr v s.task.due_date);
      }
  unfolding edit_due_date time_ptr_equal format_date
  edit_due_date_lem none s = elim (Option-cases s.task.due_date) [
    | inl e ↦ ground (arith, append-nil s.entries)
    | inr (d, e) ↦ ground (arith, append-nil s.entries)
  ]
  edit_due_date_lem (some v) s = elim (Option-cases s.task.due_date) [
    | inl e ↦ ground (arith, append-nil s.entries)
    | inr (d, e) ↦ ground (arith, append-nil s.entries)
  ]

  -- The difference of two tasks, field by field: one entry for each field with two values.
  abbrev pub diff : Task → Task → List TaskHistory
  diff old new =
      ((((title_change old.title new.title ++ description_change old.description new.description)
            ++ status_change old.status new.status)
          ++ priority_change old.priority new.priority)
        ++ assignee_change old.assignee_id new.assignee_id)
      ++ due_date_change old.due_date new.due_date

  -- The history entries of an update are the difference of the stored task and the task asked for,
  -- and that task is what is left to be stored.
  pub build_history_entries-diff :
      (task : Task) (input : UpdateTaskInput)
      → build_history_entries fmt task_id caller_id task input
        ≡ record { task = overlay task input; entries = diff task (overlay task input) }
  unfolding build_history_entries
  build_history_entries-diff task input = simp (
    edit_title_lem, edit_description_lem, edit_status_lem, edit_priority_lem, edit_assignee_lem,
    edit_due_date_lem,
  )

  change-Unnumbered :
      (same : Bool) (field : String) (old new : Option String)
      → Unnumbered (change same (entry fmt task_id caller_id field old new))
  change-Unnumbered true field old new = tt
  change-Unnumbered false field old new = (refl, tt)

  pub diff-Unnumbered : (old new : Task) → Unnumbered (diff old new)
  diff-Unnumbered old new =
      let joined = All-append (λ (h : TaskHistory). h.id ≡ 0) in
      search (joined, change-Unnumbered) depth 8

pub stamped-Unnumbered :
    (now : Time) (hs : List TaskHistory)
    → Unnumbered hs
    → Unnumbered (map (λ (h : TaskHistory). record h { changed_at = now }) hs)
stamped-Unnumbered now [] new = tt
stamped-Unnumbered now (h ∷ hs) (zero_id, new) = (zero_id, stamped-Unnumbered now hs new)
