-- ===== src/Task/Diff/Audit.antt =====
-- The history as an audit log: which fields it names, and what it records of each.
use team_tasks.Base.{
  String, Bool, true, false, not, ◌&&◌, ◌||◌, Option, none, some, List, [], ◌∷◌, ◌++◌, str_eq, ◌==◌,
  if◌then◌else◌, ◌≡◌, ◌≢◌, ◌↔◌, refl, ap, ◌∙◌, arith, str_eq_iff, All,
}
use team_tasks.Domain.{Time, Task, UpdateTaskInput, TaskHistory}
use team_tasks.Domain.Ids.{Uuid, uuid_eq, uuid_eq_iff}
use team_tasks.Task.Diff.{
  Formats, ptr_equal, str_ptr_equal, uuid_ptr_equal, time_ptr_equal, format_date, assignee_text,
  build_history_entries,
}
use team_tasks.Task.Diff.Laws.{overlay, change, diff, build_history_entries-diff}

-- Does the history have an entry for the field?
abbrev pub mentions : String → List TaskHistory → Bool
mentions name [] = false
mentions name (h ∷ hs) = str_eq name h.field || mentions name hs

mentions-append :
    (name : String) (xs ys : List TaskHistory)
    → mentions name (xs ++ ys) ≡ (mentions name xs || mentions name ys)
mentions-append name [] ys = refl
mentions-append name (x ∷ xs) ys = ground (arith, mentions-append name xs ys)

mentions-change :
    (name : String) (same : Bool) (h : TaskHistory)
    → mentions name (change same h) ≡ (not same && str_eq name h.field)
mentions-change name true h = refl
mentions-change name false h = ground arith

-- A pointer comparison decides the equality of what is pointed to.
ptr_equal_iff :
    {A : Type 0} (eq : A → A → Bool)
    → ((a b : A) → (eq a b ≡ true) ↔ (a ≡ b))
    → (p q : Option A) → (ptr_equal eq p q ≡ true) ↔ (p ≡ q)
ptr_equal_iff eq h none none = ground arith
ptr_equal_iff eq h none (some b) = ground arith
ptr_equal_iff eq h (some a) none = ground arith
ptr_equal_iff eq h (some a) (some b) = ground (arith, h a b)

pub str_ptr_equal_iff : (p q : Option String) → (str_ptr_equal p q ≡ true) ↔ (p ≡ q)
unfolding str_ptr_equal
str_ptr_equal_iff = ptr_equal_iff str_eq str_eq_iff

pub uuid_ptr_equal_iff : (p q : Option Uuid) → (uuid_ptr_equal p q ≡ true) ↔ (p ≡ q)
unfolding uuid_ptr_equal
uuid_ptr_equal_iff = ptr_equal_iff uuid_eq uuid_eq_iff

time_eq_iff : (a b : Time) → ((a == b) ≡ true) ↔ (a ≡ b)
time_eq_iff a b = ground arith

pub time_ptr_equal_iff : (p q : Option Time) → (time_ptr_equal p q ≡ true) ↔ (p ≡ q)
unfolding time_ptr_equal
time_ptr_equal_iff = ptr_equal_iff ◌==◌ time_eq_iff

ruleset mentions_laws = (mentions-append, mentions-change)

-- What the history calls the value of a field.
abbrev pub shown : Formats → String → Task → Option String
shown fmt name t =
    if str_eq name "title"
    then some t.title
    else if str_eq name "description"
    then t.description
    else if str_eq name "status"
    then some t.status
    else if str_eq name "priority"
    then some t.priority
    else if str_eq name "assignee_id"
    then some (assignee_text fmt t.assignee_id)
    else some (format_date fmt t.due_date)

-- The fields that the history names are those in which two tasks differ.
abbrev pub NamesChanges : Task → Task → List TaskHistory → Type 0
NamesChanges old new hs =
    ((mentions "title" hs ≡ true) ↔ (new.title ≢ old.title))
    × ((mentions "description" hs ≡ true) ↔ (new.description ≢ old.description))
    × ((mentions "status" hs ≡ true) ↔ (new.status ≢ old.status))
    × ((mentions "priority" hs ≡ true) ↔ (new.priority ≢ old.priority))
    × ((mentions "assignee_id" hs ≡ true) ↔ (new.assignee_id ≢ old.assignee_id))
    × ((mentions "due_date" hs ≡ true) ↔ (new.due_date ≢ old.due_date))

module _ (fmt : Formats) (task_id caller_id : Uuid) where
  mentions-diff :
      (name : String) (old new : Task)
      → mentions name (diff fmt task_id caller_id old new) ≡ (
          (((((not (str_eq new.title old.title) && str_eq name "title")
                  || (not (str_ptr_equal old.description new.description)
                      && str_eq name "description"))
                || (not (str_eq new.status old.status) && str_eq name "status"))
              || (not (str_eq new.priority old.priority) && str_eq name "priority"))
            || (not (uuid_ptr_equal old.assignee_id new.assignee_id) && str_eq name "assignee_id"))
          || (not (time_ptr_equal old.due_date new.due_date) && str_eq name "due_date"))
  mentions-diff name old new = simp mentions_laws

  pub diff-NamesChanges :
      (old new : Task) → NamesChanges old new (diff fmt task_id caller_id old new)
  diff-NamesChanges old new = (
    rw (mentions-diff "title" old new) (ground (arith, str_eq_iff new.title old.title)),
    rw (mentions-diff "description" old new)
        (ground (arith, str_ptr_equal_iff old.description new.description)),
    rw (mentions-diff "status" old new) (ground (arith, str_eq_iff new.status old.status)),
    rw (mentions-diff "priority" old new) (ground (arith, str_eq_iff new.priority old.priority)),
    rw (mentions-diff "assignee_id" old new)
        (ground (arith, uuid_ptr_equal_iff old.assignee_id new.assignee_id)),
    rw (mentions-diff "due_date" old new)
        (ground (arith, time_ptr_equal_iff old.due_date new.due_date)),
  )

  -- An entry is about the task, names the caller, and records the field's text before and after.
  abbrev pub Records : Task → Task → TaskHistory → Type 0
  Records old new h =
      (h.task_id ≡ task_id)
      × (h.changed_by ≡ caller_id)
      × (h.old_value ≡ shown fmt h.field old)
      × (h.new_value ≡ shown fmt h.field new)

  pub diff-Records : (old new : Task) → All (Records old new) (diff fmt task_id caller_id old new)
  diff-Records old new = ground arith

  -- After an update the history names exactly the fields whose values have changed, once the given
  -- fields are put in, and each entry has the task, the caller and the texts before and after.
  pub build_history_entries-audits :
      (task : Task) (input : UpdateTaskInput)
      → let r = build_history_entries fmt task_id caller_id task input in
        (r.task ≡ overlay task input)
        × NamesChanges task r.task r.entries
        × All (Records task r.task) r.entries
  build_history_entries-audits task input =
      rw (build_history_entries-diff fmt task_id caller_id task input)
        (refl, diff-NamesChanges task (overlay task input), diff-Records task (overlay task input))

  diff_self : (t : Task) → diff fmt task_id caller_id t t ≡ []
  diff_self t = ground (
    arith,
    str_eq_iff t.title t.title,
    str_ptr_equal_iff t.description t.description,
    str_eq_iff t.status t.status,
    str_eq_iff t.priority t.priority,
    uuid_ptr_equal_iff t.assignee_id t.assignee_id,
    time_ptr_equal_iff t.due_date t.due_date,
  )

  overlay_idem :
      (t : Task) (input : UpdateTaskInput) → overlay (overlay t input) input ≡ overlay t input
  overlay_idem t input = ground arith

  -- An update that is made a second time changes nothing and records nothing.
  build_history_entries_idem :
      (task : Task) (input : UpdateTaskInput)
      → let once = build_history_entries fmt task_id caller_id task input in
        build_history_entries fmt task_id caller_id once.task input
        ≡ record { task = once.task; entries = [] }
  build_history_entries_idem task input =
      let after = overlay task input in
      let none_left =
        ap (diff fmt task_id caller_id after) (overlay_idem task input) ∙ diff_self after in
      rw (build_history_entries-diff fmt task_id caller_id task input) (
        build_history_entries-diff fmt task_id caller_id after input ∙ λ i. record {
          task = overlay_idem task input i;
          entries = none_left i;
        })
