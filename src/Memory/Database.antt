-- ===== src/Memory/Database.antt =====
-- A database in memory that answers the statements of the storages, with the working copy of a
-- transaction, and a cache beside it. A row whose identifiers do not fill their columns is not
-- answered.
pub mod Laws
use team_tasks.Base.{
  ℤ, pos, ℕ, zero, suc, String, Bool, true, false, not, ◌&&◌, Option, none, some, List, [], ◌∷◌,
  ◌++◌, ◌≡◌, refl, arith, length, ◌==◌, map, if◌then◌else◌, str_eq, Bool-cases, inl, inr, All,
}
use team_tasks.Domain.{Task, TaskHistory, Team, User, Comment, Role, Time, time_zero}
use team_tasks.Domain.Ids.{Uuid, IsUuid, uuid_eq}
use team_tasks.Domain.Errors.{Error, Result, ok, err, no_rows, plain, errors_is, not_found}
use team_tasks.Action.{⊤, Action}
use team_tasks.Store.{
  Tables, role_of, find_task, find_team, find_user, find_email, update_task, history_of, teams_of,
}
use team_tasks.Auth.Service.Contract.{add_user}
use team_tasks.Team.Service.Contract.{put_member}
use team_tasks.Mysql.Rows.{user_row, task_row, CommentRow}
use team_tasks.Mysql.Conversions.{HasUuids}
use team_tasks.Mysql.Driver.{Db, Value, bytes, text, time, int, null, Scan, Row, is_no_rows}
use team_tasks.Mysql.Contract.{
  IsMysql, Fetched, team_row, TeamHasUuids, add_team_row, add_member_row, add_history_row,
  set_task_row, history_row,
}
use team_tasks.Mysql.Storage.Users as Users
use team_tasks.Mysql.Storage.Teams as Teams
use team_tasks.Mysql.Storage.Tasks as Tasks
use team_tasks.Mysql.Storage.Comments as Comments
use team_tasks.Mysql.Storage.Tasks.{count_statement, page_statement}
use team_tasks.Mysql.Query.{holds, chosen, natural, take, drop}
use team_tasks.Memory.Order.{latest_first}

pub record World : Type 0 where
  pub tables : Tables
  pub draft : Tables
  pub cache : List (String × List ℕ)
  pub ticks : ℕ

abbrev pub optional_text : Value → Option String
optional_text (text s) = some s
optional_text _ = none

abbrev pub optional_id : Value → Option Uuid
optional_id (bytes b) = some (record { bytes = b })
optional_id _ = none

abbrev pub optional_time : Value → Option Time
optional_time (time t) = some t
optional_time _ = none

-- What a statement changes, by its text and the values for its question marks.
abbrev user_of : List Value → Option (Tables → Tables)
user_of (bytes id ∷ text email ∷ text name ∷ text password ∷ time at ∷ []) = some (
    add_user (record {
      id = record { bytes = id };
      email = email;
      name = name;
      password = password;
      created_at = at;
    }))
user_of _ = none

abbrev member_of : (Uuid → Uuid → Role → Tables → Tables) → List Value → Option (Tables → Tables)
member_of change (bytes team_id ∷ bytes user_id ∷ text role ∷ []) =
    some (change (record { bytes = team_id }) (record { bytes = user_id }) role)
member_of change _ = none

abbrev team_of : List Value → Option (Tables → Tables)
team_of (bytes id ∷ text name ∷ bytes created_by ∷ time at ∷ []) = some (
    add_team_row (record {
      id = record { bytes = id };
      name = name;
      created_by = record { bytes = created_by };
      created_at = at;
    }))
team_of _ = none

abbrev task_of : List Value → Option (Tables → Tables)
task_of
      (bytes id
        ∷ bytes team_id
        ∷ bytes created_by
        ∷ assignee
        ∷ text title
        ∷ description
        ∷ text status
        ∷ text priority
        ∷ due_date
        ∷ time created_at
        ∷ time updated_at
        ∷ []) =
    some (λ (b : Tables). record b {
      tasks =
          record {
            id = record { bytes = id };
            team_id = record { bytes = team_id };
            created_by = record { bytes = created_by };
            assignee_id = optional_id assignee;
            title = title;
            description = optional_text description;
            status = status;
            priority = priority;
            due_date = optional_time due_date;
            created_at = created_at;
            updated_at = updated_at;
          }
          ∷ b.tasks;
    })
task_of _ = none

abbrev columns_of : List Value → Option (Tables → Tables)
columns_of
      (assignee
        ∷ text title
        ∷ description
        ∷ text status
        ∷ text priority
        ∷ due_date
        ∷ time updated_at
        ∷ bytes id
        ∷ []) =
    some (
      set_task_row (record {
        id = record { bytes = id };
        team_id = record { bytes = [] };
        created_by = record { bytes = [] };
        assignee_id = optional_id assignee;
        title = title;
        description = optional_text description;
        status = status;
        priority = priority;
        due_date = optional_time due_date;
        created_at = time_zero;
        updated_at = updated_at;
      }))
columns_of _ = none

abbrev entry_of : List Value → Option (Tables → Tables)
entry_of (bytes task_id ∷ bytes changed_by ∷ text field ∷ old ∷ new ∷ time at ∷ []) = some (
    add_history_row (record {
      id = 0;
      task_id = record { bytes = task_id };
      changed_by = record { bytes = changed_by };
      field = field;
      old_value = optional_text old;
      new_value = optional_text new;
      changed_at = at;
    }))
entry_of _ = none

abbrev comment_of : ℕ → List Value → Option (Tables → Tables)
comment_of ticks (bytes task_id ∷ bytes user_id ∷ text body ∷ []) = some (λ (b : Tables). record b {
  comments =
      record {
        id = ticks;
        task_id = record { bytes = task_id };
        user_id = record { bytes = user_id };
        body = body;
        created_at = ticks;
      }
      ∷ b.comments;
})
comment_of ticks _ = none

abbrev pub effect : ℕ → String → List Value → Option (Tables → Tables)
effect ticks statement args =
    if str_eq statement Users.insert_user
    then user_of args
    else (if str_eq statement Teams.insert_team
        then team_of args
        else (if str_eq statement Teams.insert_member
            then member_of add_member_row args
            else (if str_eq statement Teams.upsert_member
                then member_of put_member args
                else (if str_eq statement Tasks.insert_task
                    then task_of args
                    else (if str_eq statement Tasks.update_by_id
                        then columns_of args
                        else (if str_eq statement Tasks.insert_history
                            then entry_of args
                            else (if str_eq statement Comments.insert_comment
                                then comment_of ticks args
                                else none)))))))

abbrev pub run :
    (World → (Tables → Tables) → World)
    → World
    → Option (Tables → Tables)
    → Result (Result ℕ) × World
run change w none = (err (plain "unknown statement"), w)
run change w (some f) = (ok (ok w.ticks), change w f)

-- A row is answered if its identifiers are of the right size.
abbrev pub answered : {A R : Type 0} → (A → R) → (A → Bool) → Option A → Result R
answered row good none = err no_rows
answered row good (some a) = if good a then ok (row a) else err (plain "truncated identifier")

abbrev pub is_uuid : Uuid → Bool
is_uuid id = length id.bytes == 16

abbrev pub are_uuids : Option Uuid → Bool
are_uuids none = true
are_uuids (some id) = is_uuid id

abbrev pub task_is_good : Task → Bool
task_is_good t =
    is_uuid t.id && is_uuid t.team_id && is_uuid t.created_by && are_uuids t.assignee_id

abbrev pub team_is_good : Team → Bool
team_is_good t = is_uuid t.id && is_uuid t.created_by

abbrev pub entry_is_good : TaskHistory → Bool
entry_is_good h = is_uuid h.task_id && is_uuid h.changed_by

abbrev pub all_are : {A : Type 0} → (A → Bool) → List A → Bool
all_are good [] = true
all_are good (x ∷ xs) = good x && all_are good xs

abbrev pub all_answered : {A R : Type 0} → (A → R) → (A → Bool) → List A → Result (List R)
all_answered row good xs =
    if all_are good xs then ok (map row xs) else err (plain "truncated identifier")

abbrev fetched_user : Tables → String → List Value → Result (Row Scan.user_rows)
fetched_user b statement (text email ∷ []) =
    answered user_row (λ u. is_uuid u.id) (find_email email b.users)
fetched_user b statement (bytes id ∷ []) =
    answered user_row (λ u. is_uuid u.id) (find_user (record { bytes = id }) b.users)
fetched_user b statement _ = err (plain "unknown statement")

-- The conditions that a filter can be turned into, and those of a statement.
abbrev candidates : List (List String)
candidates =
    []
    ∷ ("team_id = ?" ∷ [])
    ∷ ("status = ?" ∷ [])
    ∷ ("assignee_id = ?" ∷ [])
    ∷ ("team_id = ?" ∷ "status = ?" ∷ [])
    ∷ ("team_id = ?" ∷ "assignee_id = ?" ∷ [])
    ∷ ("status = ?" ∷ "assignee_id = ?" ∷ [])
    ∷ ("team_id = ?" ∷ "status = ?" ∷ "assignee_id = ?" ∷ [])
    ∷ []

abbrev first_of : (List String → String) → String → List (List String) → Option (List String)
first_of write statement [] = none
first_of write statement (c ∷ cs) =
    let rest = first_of write statement cs in if str_eq statement (write c) then some c else rest

abbrev pub conditions_of : (List String → String) → String → Option (List String)
conditions_of write statement = first_of write statement candidates

abbrev pub counted : Option (List String) → List Task → List Value → Result ℤ
counted none ts args = err (plain "unknown statement")
counted (some conds) ts args = ok (pos (length (chosen (holds conds args) ts)))

-- The last two values of a page.
abbrev pub limits : List Value → ℕ × ℕ
limits (int limit ∷ int offset ∷ []) = (natural limit, natural offset)
limits (v ∷ vs) = limits vs
limits [] = (0, 0)

abbrev pub all_good : List Task → Bool
all_good [] = true
all_good (t ∷ ts) = task_is_good t && all_good ts

abbrev pub task_rows : List Task → Result (List (Row Scan.task_rows))
task_rows ts = if all_good ts then ok (map task_row ts) else err (plain "truncated identifier")

abbrev pub paged :
    Option (List String) → List Task → List Value → Result (List (Row Scan.task_rows))
paged none ts args = err (plain "unknown statement")
paged (some conds) ts args =
    let (limit, offset) = limits args in
    task_rows (take limit (drop offset (latest_first (chosen (holds conds args) ts))))

abbrev selected : (r : Scan) → Tables → String → List Value → Result (List (Row r))
selected Scan.task_rows b statement args =
    paged (conditions_of page_statement statement) b.tasks args
selected Scan.history_rows b statement (bytes id ∷ []) =
    all_answered history_row entry_is_good (history_of (record { bytes = id }) b.history)
selected Scan.team_rows b statement (bytes id ∷ []) =
    all_answered team_row team_is_good (teams_of (record { bytes = id }) b.members b.teams)
selected r b statement args = ok []

abbrev fetched : (r : Scan) → Tables → String → List Value → Result (Row r)
fetched Scan.user_rows b statement args = fetched_user b statement args
fetched Scan.team_rows b statement (bytes id ∷ []) =
    answered team_row team_is_good (find_team (record { bytes = id }) b.teams)
fetched Scan.task_rows b statement (bytes id ∷ []) =
    answered task_row task_is_good (find_task (record { bytes = id }) b.tasks)
fetched Scan.roles b statement (bytes team_id ∷ bytes user_id ∷ []) =
    answered (λ role. role) (λ role. true)
      (role_of (record { bytes = team_id }) (record { bytes = user_id }) b.members)
fetched Scan.counts b statement args =
    counted (conditions_of count_statement statement) b.tasks args
fetched r b statement _ = err (plain "unknown statement")

abbrev pub database : Db World
database = record {
  exec = λ statement args w.
      run (λ v f. record v { tables = f v.tables; ticks = suc v.ticks }) w
        (effect w.ticks statement args);
  get = λ r statement args w. (fetched r w.tables statement args, w);
  select = λ r statement args w. (selected r w.tables statement args, w);
  begin = λ w. (ok tt, record w { draft = w.tables });
  tx_exec = λ statement args w.
      run (λ v f. record v { draft = f v.draft }) w (effect w.ticks statement args);
  commit = λ w. (ok tt, record w { tables = w.draft });
  rollback = λ w. (ok tt, w);
}
