-- ===== src/Memory/Database/Laws.antt =====
-- The database in memory meets the laws that the storages rely on.
use team_tasks.Base.{
  String, Bool, true, ◌&&◌, Option, none, some, List, [], ◌∷◌, ◌≡◌, refl, arith, if◌then◌else◌,
  Bool-cases, and_true, inl, inr, sym, ◌++◌, All,
}
use mathlib.Core.List.Permᴰ
use team_tasks.Domain.{Task, TaskHistory, Time, Team, time_zero}
use team_tasks.Domain.Ids.{Uuid, IsUuid, uuid_eq}
use team_tasks.Domain.Errors.{ok}
use team_tasks.Store.{
  update_task, set_columns, find_email, find_user, find_team, find_task, history_of, teams_of,
  IsHistoryOf, AreTeamsOf,
}
use team_tasks.Mysql.Conversions.{HasUuids, IsUuids}
use team_tasks.Mysql.Driver.{text_or_null, time_or_null}
use team_tasks.Mysql.Contract.{
  IsMysql, Fetched, Selected, team_row, TeamHasUuids, history_row, EntryHasUuids,
}
use team_tasks.Mysql.Rows.{user_row, task_row, CommentRow}
use team_tasks.Mysql.Storage.Tasks.{assignee_value}
use team_tasks.Memory.Database.{
  database, answered, is_uuid, are_uuids, task_is_good, team_is_good, optional_text, optional_id,
  optional_time, all_are, all_answered, entry_is_good,
}

answered-Fetched :
    {A R : Type 0} (row : A → R) (good : A → Bool) (Valid : A → Type 0)
    → ((a : A) → good a ≡ true → Valid a)
    → (o : Option A) → Fetched row Valid o (answered row good o)
answered-Fetched row good Valid valid none = (λ e. refl, refl)
answered-Fetched {A} {R} row good Valid valid (some a) = elim (Bool-cases (good a)) [
  | inl full ↦ rw full (a, refl, refl, valid a full)
  | inr short ↦ rw short ((λ e. cc), refl)
]

is_uuid-IsUuid : (id : Uuid) → is_uuid id ≡ true → IsUuid id
is_uuid-IsUuid id e = ground arith

are_uuids-IsUuids : (o : Option Uuid) → are_uuids o ≡ true → IsUuids o
are_uuids-IsUuids none e = tt
are_uuids-IsUuids (some id) e = is_uuid-IsUuid id e

pub task_is_good-HasUuids : (t : Task) → task_is_good t ≡ true → HasUuids t
task_is_good-HasUuids t e =
    let (rest, assignee) =
      and_true (is_uuid t.id && is_uuid t.team_id && is_uuid t.created_by) _ e in
    let (ids, creator) = and_true (is_uuid t.id && is_uuid t.team_id) _ rest in
    let (id, team) = and_true (is_uuid t.id) _ ids in
    (
      is_uuid-IsUuid t.id id,
      is_uuid-IsUuid t.team_id team,
      is_uuid-IsUuid t.created_by creator,
      are_uuids-IsUuids t.assignee_id assignee,
    )

team_is_good-TeamHasUuids : (t : Team) → team_is_good t ≡ true → TeamHasUuids t
team_is_good-TeamHasUuids t e =
    let (id, creator) = and_true (is_uuid t.id) _ e in
    (is_uuid-IsUuid t.id id, is_uuid-IsUuid t.created_by creator)

text_back : (o : Option String) → optional_text (text_or_null o) ≡ o
text_back none = refl
text_back (some s) = refl

time_back : (o : Option Time) → optional_time (time_or_null o) ≡ o
time_back none = refl
time_back (some t) = refl

id_back : (o : Option Uuid) → optional_id (assignee_value o) ≡ o
id_back none = refl
id_back (some id) = refl

-- An update looks at no other columns than those that it sets, and the identifier.
update_task-columns :
    (t u : Task) (ts : List Task)
    → t.id ≡ u.id
    → ((old : Task) → set_columns t old ≡ set_columns u old)
    → update_task t ts ≡ update_task u ts
unfolding update_task
update_task-columns t u [] same columns = refl
update_task-columns t u (v ∷ ts) same columns = λ i.
    if uuid_eq v.id (same i)
    then columns v i ∷ ts
    else v ∷ update_task-columns t u ts same columns i

no_rows_of : (P : CommentRow → Type 0) (rows : List CommentRow) → ok [] ≡ ok rows → All P rows
no_rows_of P [] e = tt
no_rows_of P (r ∷ rows) e = cc

-- The task that an update reads from its values.
abbrev read_columns : Task → Task
read_columns t = record t {
  team_id = record { bytes = [] };
  created_by = record { bytes = [] };
  created_at = time_zero;
  assignee_id = optional_id (assignee_value t.assignee_id);
  description = optional_text (text_or_null t.description);
  due_date = optional_time (time_or_null t.due_date);
}

set_row : (t : Task) (ts : List Task) → update_task (read_columns t) ts ≡ update_task t ts
set_row t ts = update_task-columns (read_columns t) t ts refl (λ old. λ i.
    set_columns
      (record t {
        assignee_id = id_back t.assignee_id i;
        description = text_back t.description i;
        due_date = time_back t.due_date i;
      })
      old)

all_are-All :
    {A : Type 0} (good : A → Bool) (Valid : A → Type 0)
    → ((a : A) → good a ≡ true → Valid a)
    → (xs : List A) → all_are good xs ≡ true
    → All Valid xs
all_are-All good Valid valid [] e = tt
all_are-All good Valid valid (x ∷ xs) e =
    let (here, rest) = and_true (good x) (all_are good xs) e in
    (valid x here, all_are-All good Valid valid xs rest)

all_answered-Selected :
    {A R : Type 0} (row : A → R) (good : A → Bool) (Valid : A → Type 0) (P : List A → Type 0)
    → ((a : A) → good a ≡ true → Valid a)
    → (xs : List A) → P xs
    → Selected row Valid P (all_answered row good xs)
all_answered-Selected row good Valid P valid xs is = elim (Bool-cases (all_are good xs)) [
  | inl full ↦ rw full (xs, refl, all_are-All good Valid valid xs full, is)
  | inr short ↦ rw short tt
]

entry_is_good-EntryHasUuids : (h : TaskHistory) → entry_is_good h ≡ true → EntryHasUuids h
entry_is_good-EntryHasUuids h e =
    let (task, user) = and_true (is_uuid h.task_id) _ e in
    (is_uuid-IsUuid h.task_id task, is_uuid-IsUuid h.changed_by user)

pub database-IsMysql : IsMysql database (λ w. w.tables) (λ w. w.draft)
database-IsMysql = record {
  get_keeps = λ r statement args w. refl;
  select_keeps = λ r statement args w. refl;
  insert_user = λ u w. refl;
  user_by_email = λ email w.
      answered-Fetched user_row (λ u. is_uuid u.id) (λ u. IsUuid u.id) (λ u. is_uuid-IsUuid u.id)
        (find_email email w.tables.users);
  user_by_id = λ id w.
      answered-Fetched user_row (λ u. is_uuid u.id) (λ u. IsUuid u.id) (λ u. is_uuid-IsUuid u.id)
        (find_user id w.tables.users);
  team_by_id = λ id w.
      answered-Fetched team_row team_is_good TeamHasUuids team_is_good-TeamHasUuids
        (find_team id w.tables.teams);
  member_role = λ team_id user_id w.
      answered-Fetched (λ role. role) (λ role. true) (λ role. Unit) (λ role e. tt) _;
  put_member = λ team_id user_id role w. refl;
  task_by_id = λ id w.
      answered-Fetched task_row task_is_good HasUuids task_is_good-HasUuids
        (find_task id w.tables.tasks);
  insert_task = λ t w i. record (w.tables) {
    tasks =
        record t {
          assignee_id = id_back t.assignee_id i;
          description = text_back t.description i;
          due_date = time_back t.due_date i;
        }
        ∷ w.tables.tasks;
  };
  insert_comment = λ c w. (w.ticks, w.ticks, refl, refl);
  comments_of = λ id w rows e. no_rows_of _ rows e;
  history_of = λ id w.
      all_answered-Selected history_row entry_is_good EntryHasUuids (IsHistoryOf id w.tables)
        entry_is_good-EntryHasUuids (history_of id w.tables.history) (Permᴰ.refl _);
  teams_of = λ id w.
      all_answered-Selected team_row team_is_good TeamHasUuids (AreTeamsOf id w.tables)
        team_is_good-TeamHasUuids (teams_of id w.tables.members w.tables.teams) (Permᴰ.refl _);
  begin = λ w. (refl, λ a e. refl);
  tx_insert_team = λ t w. (refl, λ a e. refl);
  tx_insert_member = λ team_id user_id role w. (refl, λ a e. refl);
  tx_update_task =
      λ t w. (refl, λ a e. λ i. record (w.draft) { tasks = set_row t w.draft.tasks i });
  tx_insert_history = λ h zero_id w. (
    refl,
    λ a e. λ i. record (w.draft) {
      history =
          w.draft.history
          ++ record h {
            id = sym zero_id i;
            old_value = text_back h.old_value i;
            new_value = text_back h.new_value i;
          }
            ∷ [];
    },
  );
  commit = λ w. refl;
  rollback = λ w. refl;
}
