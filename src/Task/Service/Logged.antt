-- ===== src/Task/Service/Logged.antt =====
-- A history that accounts for what has become of the tasks, and what an update and a new row make of it.
use mathlib.Core.List.{append_assoc, append-nil}
use mathlib.Core.Option.{some-injective}
use team_tasks.Base.{
  none, some, List, [], ◌∷◌, ◌++◌, map, ◌≡◌, ◌≢◌, refl, sym, ap, subst, ◌∙◌, arith, Bool-cases, inl,
  inr,
}
use team_tasks.Domain.{Task, TaskHistory, UpdateTaskInput}
use team_tasks.Domain.Ids.{Uuid, uuid_eq, uuid_eq_iff}
use team_tasks.Domain.Errors.{Result, ok, err}
use team_tasks.Store.{Tables, find_task, update_task, set_columns}
use team_tasks.Store.Tasks.{find_task-id, find_task-update_task, find_task-update_other}
use team_tasks.Task.Diff.{Formats, assignee_text, format_date}
use team_tasks.Task.Diff.Laws.{overlay, diff}
use team_tasks.Task.Diff.Audit.{shown}
use team_tasks.Task.Diff.Replay.{
  Field, title, description, status, priority, assignee, due_date, name_of, replay, replay-append,
  replay-stamp, replay-diff, replay-others_diff,
}
use team_tasks.Task.Service.Updating.{Updated}

-- The task still stands under its identifier, and the entries lead each of its fields from the text
-- that it had to the text that it has.
abbrev pub Led : Formats → List TaskHistory → Uuid → Task → List Task → Type 0
Led fmt hs id t tasks =
    (t' : Task) × (find_task id tasks ≡ some t')
    × ((f : Field) → replay id (name_of f) hs (shown fmt (name_of f) t) ≡ shown fmt (name_of f) t')

-- The history has grown by entries that account for all that has become of every task.
abbrev pub Logged : Formats → Tables → Tables → Type 0
Logged fmt before after =
    (hs : List TaskHistory) × (after.history ≡ before.history ++ hs)
    × ((id : Uuid) (t : Task) → find_task id before.tasks ≡ some t → Led fmt hs id t after.tasks)

pub Logged-Same : (fmt : Formats) (before after : Tables) → after ≡ before → Logged fmt before after
Logged-Same fmt before after same = (
  [],
  ap (λ (b : Tables). b.history) same ∙ sym (append-nil before.history),
  λ id t found. (t, ap (λ (b : Tables). find_task id b.tasks) same ∙ found, λ f. refl),
)

pub Logged-trans :
    (fmt : Formats) (b1 b2 b3 : Tables) → Logged fmt b1 b2 → Logged fmt b2 b3 → Logged fmt b1 b3
Logged-trans fmt b1 b2 b3 (hs, grown, led) (hs', grown', led') = (
  hs ++ hs',
  grown' ∙ ap (◌++ hs') grown ∙ append_assoc b1.history hs hs',
  λ id t found.
      let (t2, found2, fields) = led id t found in
      let (t3, found3, fields') = led' id t2 found2 in
      (
        t3,
        found3,
        λ f.
            replay-append id (name_of f) hs hs' (shown fmt (name_of f) t)
            ∙ ap (replay id (name_of f) hs') (fields f)
            ∙ fields' f,
      ),
)

-- The history shows neither the time of an update nor a column that no update sets.
shown_stamped :
    (fmt : Formats) (f : Field) (t u : Task)
    → t ≡ record u { updated_at = t.updated_at }
    → shown fmt (name_of f) t ≡ shown fmt (name_of f) u
shown_stamped fmt title t u e = ap (λ (x : Task). some x.title) e
shown_stamped fmt description t u e = ap (λ (x : Task). x.description) e
shown_stamped fmt status t u e = ap (λ (x : Task). some x.status) e
shown_stamped fmt priority t u e = ap (λ (x : Task). some x.priority) e
shown_stamped fmt assignee t u e = ap (λ (x : Task). some (assignee_text fmt x.assignee_id)) e
shown_stamped fmt due_date t u e = ap (λ (x : Task). some (format_date fmt x.due_date)) e

shown_set :
    (fmt : Formats) (f : Field) (t u : Task)
    → shown fmt (name_of f) (set_columns t u) ≡ shown fmt (name_of f) t
shown_set fmt title t u = refl
shown_set fmt description t u = refl
shown_set fmt status t u = refl
shown_set fmt priority t u = refl
shown_set fmt assignee t u = refl
shown_set fmt due_date t u = refl

-- What an update has done is accounted for by the entries that it has added.
pub Updated-Logged :
    (fmt : Formats) (caller_id task_id : Uuid) (input : UpdateTaskInput) (before : Tables)
    (r : Result Task) (after : Tables)
    → Updated fmt caller_id task_id input before r after
    → Logged fmt before after
Updated-Logged fmt caller_id task_id input before (err e) after same =
    Logged-Same fmt before after same
Updated-Logged fmt caller_id task_id input before (ok t) after
      (stored, found, member, allowed, edited, done) =
    let new = overlay stored input in
    let hs = diff fmt task_id caller_id stored new in
    let stamped = map (λ (h : TaskHistory). record h { changed_at = t.updated_at }) hs in
    let id_of : t.id ≡ task_id =
      ap (λ (u : Task). u.id) edited ∙ find_task-id task_id before.tasks {t = stored} found in
    let tasks = ap (λ (b : Tables). b.tasks) done in
    (
      stamped,
      ap (λ (b : Tables). b.history) done,
      λ id u here. elim (Bool-cases (uuid_eq task_id id)) [
        | inl same ↦
            let is_id : task_id ≡ id = (uuid_eq_iff task_id id).0 same in
            let is_u : u ≡ stored =
              some-injective u stored
                (sym here ∙ ap (λ i. find_task i before.tasks) (sym is_id) ∙ found) in
            (
              set_columns t u,
              ap (find_task id) tasks
                  ∙ subst
                      (λ i.
                        find_task i before.tasks ≡ some u
                        → find_task i (update_task t before.tasks) ≡ some (set_columns t u))
                      (id_of ∙ is_id) (find_task-update_task t u before.tasks) here,
              λ f.
                  replay-stamp t.updated_at id (name_of f) hs (shown fmt (name_of f) u)
                  ∙ (λ i. replay (sym is_id i) (name_of f) hs (shown fmt (name_of f) (is_u i)))
                  ∙ replay-diff fmt task_id caller_id f stored new
                  ∙ sym (shown_stamped fmt f t new edited)
                  ∙ sym (shown_set fmt f t u),
            )
        | inr other ↦
            let apart : task_id ≢ id = λ e. ground (arith, other, uuid_eq_iff task_id id) in
            (
              u,
              ap (find_task id) tasks
                  ∙ find_task-update_other id t before.tasks (λ e. apart (sym id_of ∙ e))
                  ∙ here,
              λ f.
                  replay-stamp t.updated_at id (name_of f) hs (shown fmt (name_of f) u)
                  ∙ replay-others_diff fmt task_id caller_id f id stored new _ apart,
            )
      ],
    )

-- A row under a new identifier hides no other.
pub added-Logged :
    (fmt : Formats) (t : Task) (before after : Tables)
    → find_task t.id before.tasks ≡ none
    → after ≡ record before { tasks = t ∷ before.tasks }
    → Logged fmt before after
unfolding find_task
added-Logged fmt t before after absent done = (
  [],
  ap (λ (b : Tables). b.history) done ∙ sym (append-nil before.history),
  λ id u found. elim (Bool-cases (uuid_eq t.id id)) [
    | inl same ↦
        let is_id : t.id ≡ id = (uuid_eq_iff t.id id).0 same in
        let never : none ≡ some u = sym absent ∙ ap (λ i. find_task i before.tasks) is_id ∙ found in
        cc
    | inr other ↦
        let kept : find_task id (t ∷ before.tasks) ≡ some u = rw other found in
        (u, ap (λ (b : Tables). find_task id b.tasks) done ∙ kept, λ f. refl)
  ],
)
