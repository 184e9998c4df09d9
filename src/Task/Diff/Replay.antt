-- ===== src/Task/Diff/Replay.antt =====
-- The history as a log from which the fields of a task can be read off.
use team_tasks.Base.{
  String, Bool, true, false, ◌&&◌, Option, some, List, [], ◌∷◌, ◌++◌, map, str_eq, if◌then◌else◌,
  ◌≡◌, ◌≢◌, ◌↔◌, refl, sym, ap, ◌∙◌, arith, str_eq_iff, All, Bool-cases, true_or_false, if_same,
  inl, inr,
}
use team_tasks.Domain.{Task, TaskHistory, Time}
use team_tasks.Domain.Ids.{Uuid, uuid_eq, uuid_eq_iff}
use team_tasks.Task.Diff.{Formats, assignee_text, format_date}
use team_tasks.Task.Diff.Laws.{diff}
use team_tasks.Task.Diff.Audit.{
  mentions, shown, Records, diff-NamesChanges, diff-Records, uuid_ptr_equal_iff, str_ptr_equal_iff,
  time_ptr_equal_iff,
}

-- The fields that the history names.
pub data Field : Type 0 where
  title description status priority assignee due_date : Field

abbrev pub name_of : Field → String
name_of title = "title"
name_of description = "description"
name_of status = "status"
name_of priority = "priority"
name_of assignee = "assignee_id"
name_of due_date = "due_date"

abbrev pub is_about : Uuid → String → TaskHistory → Bool
is_about id name h = uuid_eq h.task_id id && str_eq name h.field

-- The value that a field has after the entries of a history, oldest first.
abbrev pub replay : Uuid → String → List TaskHistory → Option String → Option String
replay id name [] v = v
replay id name (h ∷ hs) v = replay id name hs (if is_about id name h then h.new_value else v)

pub replay-append :
    (id : Uuid) (name : String) (xs ys : List TaskHistory) (v : Option String)
    → replay id name (xs ++ ys) v ≡ replay id name ys (replay id name xs v)
replay-append id name [] ys v = refl
replay-append id name (h ∷ xs) ys v =
    replay-append id name xs ys (if is_about id name h then h.new_value else v)

-- The time of the entries does not matter.
pub replay-stamp :
    (now : Time) (id : Uuid) (name : String) (hs : List TaskHistory) (v : Option String)
    → replay id name (map (λ (h : TaskHistory). record h { changed_at = now }) hs) v
      ≡ replay id name hs v
replay-stamp now id name [] v = refl
replay-stamp now id name (h ∷ hs) v =
    replay-stamp now id name hs (if is_about id name h then h.new_value else v)

-- What a test decides is so, where a history that names the changes does not name it.
stable :
    {A : Type 0} (a b : A) (test m : Bool)
    → (test ≡ true) ↔ (a ≡ b)
    → (m ≡ true) ↔ (b ≢ a)
    → m ≡ false
    → a ≡ b
stable a b test m decides named absent = elim (Bool-cases test) [
  | inl same ↦ decides.0 same
  | inr other ↦
      let differs = named.1 (λ e. true_or_false test (decides.1 (sym e)) other) in
      absurd (true_or_false m differs absent)
]

module _ (fmt : Formats) (task_id caller_id : Uuid) where
  -- Entries that record the change from one task to another leave alone what is about other tasks.
  replay-others :
      (id : Uuid) (name : String) (old new : Task) (hs : List TaskHistory) (v : Option String)
      → All (Records fmt task_id caller_id old new) hs
      → task_id ≢ id
      → replay id name hs v ≡ v
  replay-others id name old new [] v records other = refl
  replay-others id name old new (h ∷ hs) v (here, records) other =
      let same = here.0 in
      let no : uuid_eq h.task_id id ≡ false =
        ground (arith, same, other, uuid_eq_iff h.task_id id) in
      rw no (replay-others id name old new hs v records other)

  replay-Records :
      (name : String) (old new : Task) (hs : List TaskHistory) (v : Option String)
      → All (Records fmt task_id caller_id old new) hs
      → replay task_id name hs v ≡ (if mentions name hs then shown fmt name new else v)
  replay-Records name old new [] v records = refl
  replay-Records name old new (h ∷ hs) v (here, records) =
      let same : uuid_eq h.task_id task_id ≡ true = (uuid_eq_iff h.task_id task_id).1 here.0 in
      elim (Bool-cases (str_eq name h.field)) [
        | inl named ↦
            let field : name ≡ h.field = (str_eq_iff name h.field).0 named in
            let value : h.new_value ≡ shown fmt name new =
              here.3 ∙ ap (λ f. shown fmt f new) (sym field) in
            rw (same, named)
              (replay-Records name old new hs h.new_value records
                ∙ ap (λ x. if mentions name hs then shown fmt name new else x) value
                ∙ if_same (mentions name hs) (shown fmt name new))
        | inr other ↦ rw (same, other) (replay-Records name old new hs v records)
      ]

  unchanged :
      (f : Field) (old new : Task)
      → mentions (name_of f) (diff fmt task_id caller_id old new) ≡ false
      → shown fmt (name_of f) old ≡ shown fmt (name_of f) new
  unchanged title old new absent =
      let names = (diff-NamesChanges fmt task_id caller_id old new).0 in
      ap some (stable old.title new.title _ _ (str_eq_iff old.title new.title) names absent)
  unchanged description old new absent =
      let names = (diff-NamesChanges fmt task_id caller_id old new).1 in
      stable old.description new.description _ _ (str_ptr_equal_iff old.description new.description)
        names absent
  unchanged status old new absent =
      let names = (diff-NamesChanges fmt task_id caller_id old new).2 in
      ap some (stable old.status new.status _ _ (str_eq_iff old.status new.status) names absent)
  unchanged priority old new absent =
      let names = (diff-NamesChanges fmt task_id caller_id old new).3 in
      ap some
        (stable old.priority new.priority _ _ (str_eq_iff old.priority new.priority) names absent)
  unchanged assignee old new absent =
      let names = (diff-NamesChanges fmt task_id caller_id old new).4 in
      ap (λ a. some (assignee_text fmt a))
        (stable old.assignee_id new.assignee_id _ _
          (uuid_ptr_equal_iff old.assignee_id new.assignee_id) names absent)
  unchanged due_date old new absent =
      let names = (diff-NamesChanges fmt task_id caller_id old new).5 in
      ap (λ d. some (format_date fmt d))
        (stable old.due_date new.due_date _ _ (time_ptr_equal_iff old.due_date new.due_date) names
          absent)

  -- The difference of two tasks leads each field of the one to that of the other.
  pub replay-diff :
      (f : Field) (old new : Task)
      → replay task_id (name_of f) (diff fmt task_id caller_id old new) (shown fmt (name_of f) old)
        ≡ shown fmt (name_of f) new
  replay-diff f old new =
      let hs = diff fmt task_id caller_id old new in
      let records = diff-Records fmt task_id caller_id old new in
      replay-Records (name_of f) old new hs (shown fmt (name_of f) old) records
      ∙ elim (Bool-cases (mentions (name_of f) hs)) [
        | inl named ↦ rw named refl
        | inr absent ↦ rw absent (unchanged f old new absent)
      ]

  pub replay-others_diff :
      (f : Field) (id : Uuid) (old new : Task) (v : Option String)
      → task_id ≢ id
      → replay id (name_of f) (diff fmt task_id caller_id old new) v ≡ v
  replay-others_diff f id old new v =
      replay-others id (name_of f) old new _ v (diff-Records fmt task_id caller_id old new)
