-- ===== src/Mysql/Contract.antt =====
-- What the storages rely on of MySQL and of its driver: the effect of each of their statements on
-- the tables, and that of a transaction. The laws are stated for a run in which no other request
-- writes between the calls, a column that keeps a text or a time as it is given, a comparison of
-- emails that tells apart what differs, and a commit that fails only if nothing is committed. The
-- rows of the history are seen without their numbers.
use team_tasks.Base.{ℕ, String, true, false, Option, some, List, [], ◌∷◌, ◌++◌, ◌≡◌, All, map}
use team_tasks.Domain.{Time, Task, TaskHistory, Team, User, Comment, Role}
use team_tasks.Domain.Ids.{Uuid, IsUuid}
use team_tasks.Domain.Errors.{Result, ok, err, errors_is, not_found}
use team_tasks.Action.{Action, ⊤}
use team_tasks.Store.{
  Tables, role_of, find_task, find_team, find_user, find_email, update_task, Keeps, Writes, Written,
  IsHistoryOf, AreTeamsOf,
}
use team_tasks.Auth.Service.Contract.{add_user}
use team_tasks.Team.Service.Contract.{put_member}
use team_tasks.Mysql.Rows.{uuid_to_bytes, task_row, user_row, TeamRow, CommentRow, HistoryRow}
use team_tasks.Mysql.Conversions.{HasUuids}
use Prim.Native.String as String
use team_tasks.Base.{◌++◌ as append}
use team_tasks.Mysql.Statements.{
  id_value, user_columns, team_columns, member_columns, task_columns, edited_columns,
  history_columns, comment_columns, values, insert_into, row_update, select_where, user_names,
  team_names, task_names, history_names, comment_names,
}
use team_tasks.Mysql.Driver.{Db, Value, text, Scan, is_no_rows}

-- The columns of a team.
abbrev pub team_row : Team → TeamRow
team_row t = record {
  id = uuid_to_bytes t.id;
  name = t.name;
  created_by = uuid_to_bytes t.created_by;
  created_at = t.created_at;
}

abbrev pub TeamHasUuids : Team → Type 0
TeamHasUuids t = IsUuid t.id × IsUuid t.created_by

-- What a query for one row has answered: the row of what is there, whose identifiers fill their
-- columns, or that there is none, or another error.
abbrev pub Fetched : {A R : Type 0} → (A → R) → (A → Type 0) → Option A → Result R → Type 0
Fetched {A} row Valid o (ok r) = (a : A) × (o ≡ some a) × (r ≡ row a) × Valid a
Fetched row Valid o (err e) =
    (is_no_rows e ≡ true → o ≡ Option.none) × (errors_is not_found e ≡ false)

-- What a query for several rows has answered: the rows of what it lists, or an error.
abbrev pub Selected :
    {A R : Type 0} → (A → R) → (A → Type 0) → (List A → Type 0) → Result (List R) → Type 0
Selected {A} row Valid P (ok rows) = (xs : List A) × (rows ≡ map row xs) × All Valid xs × P xs
Selected row Valid P (err e) = Unit

abbrev pub history_row : TaskHistory → HistoryRow
history_row h = record {
  id = h.id;
  task_id = uuid_to_bytes h.task_id;
  changed_by = uuid_to_bytes h.changed_by;
  field = h.field;
  old_value = h.old_value;
  new_value = h.new_value;
  changed_at = h.changed_at;
}

abbrev pub EntryHasUuids : TaskHistory → Type 0
EntryHasUuids h = IsUuid h.task_id × IsUuid h.changed_by

-- What the insertion of a comment has left: a row with a number and a date of the database.
abbrev pub Inserted : Comment → Tables → Result (Result ℕ) → Tables → Type 0
Inserted c before (ok res) after =
    (id : ℕ) × (at : Time) × (res ≡ ok id)
    × (after ≡ record before { comments = record c { id = id; created_at = at } ∷ before.comments })
Inserted c before (err e) after = after ≡ before

-- What the statements of the transactions change.
abbrev pub add_team_row : Team → Tables → Tables
add_team_row t b = record b { teams = t ∷ b.teams }

abbrev pub add_member_row : Uuid → Uuid → Role → Tables → Tables
add_member_row team_id user_id role b = record b {
  members = record { team_id = team_id; user_id = user_id; role = role } ∷ b.members;
}

abbrev pub set_task_row : Task → Tables → Tables
set_task_row t b = record b { tasks = update_task t b.tasks }

abbrev pub add_history_row : TaskHistory → Tables → Tables
add_history_row h b = record b { history = b.history ++ h ∷ [] }

module _ {W : Type 0} (view draft : W → Tables) where
  abbrev pub Fetches :
      {A R : Type 0} → (Tables → Option A) → (A → R) → (A → Type 0) → Action W R → Type 0
  Fetches find row Valid m = (w : W) → Fetched row Valid (find (view w)) (m w).0

  -- A statement of a transaction: nobody else sees what it changes.
  abbrev pub Drafts : {A : Type 0} → Action W A → (Tables → Tables) → Type 0
  Drafts {A} m change =
      (w : W)
      → (view (m w).1 ≡ view w) × ((a : A) → (m w).0 ≡ ok a → draft (m w).1 ≡ change (draft w))

-- The effect on the tables of the statements in the second argument's transaction and outside it.
pub record IsMysql {W : Type 0} (db : Db W) (view draft : W → Tables) : Type 0 where
  pub get_keeps :
      (r : Scan) (statement : String) (args : List Value) → Keeps view (db.get r statement args)
  pub select_keeps :
      (r : Scan) (statement : String) (args : List Value) → Keeps view (db.select r statement args)
  pub insert_user :
      (u : User)
      → Writes view
          (db.exec (insert_into "users" (user_columns u)) (values (user_columns u)))
          (add_user u)
  pub user_by_email :
      (email : String)
      → Fetches view draft
          (λ b. find_email email b.users)
          user_row
          (λ u. IsUuid u.id)
          (db.get Scan.user_rows (select_where user_names "users" "email = ?") (text email ∷ []))
  pub user_by_id :
      (id : Uuid)
      → Fetches view draft
          (λ b. find_user id b.users)
          user_row
          (λ u. IsUuid u.id)
          (db.get Scan.user_rows (select_where user_names "users" "id = ?") (id_value id ∷ []))
  pub team_by_id :
      (id : Uuid)
      → Fetches view draft
          (λ b. find_team id b.teams)
          team_row
          TeamHasUuids
          (db.get Scan.team_rows (select_where team_names "teams" "id = ?") (id_value id ∷ []))
  pub member_role :
      (team_id user_id : Uuid)
      → Fetches view draft
          (λ b. role_of team_id user_id b.members)
          (λ role. role)
          (λ role. Unit)
          (db.get Scan.roles
            (select_where ("role" ∷ []) "team_members" "team_id = ? AND user_id = ?")
            (id_value team_id ∷ id_value user_id ∷ []))
  pub put_member :
      (team_id user_id : Uuid) (role : Role)
      → Writes view
          (db.exec
            (String.◌++◌
              (insert_into "team_members" (member_columns team_id user_id role))
              " ON DUPLICATE KEY UPDATE role = VALUES(role)")
            (values (member_columns team_id user_id role)))
          (put_member team_id user_id role)
  pub task_by_id :
      (id : Uuid)
      → Fetches view draft
          (λ b. find_task id b.tasks)
          task_row
          HasUuids
          (db.get Scan.task_rows (select_where task_names "tasks" "id = ?") (id_value id ∷ []))
  pub insert_task :
      (t : Task)
      → Writes view
          (db.exec (insert_into "tasks" (task_columns t)) (values (task_columns t)))
          (λ b. record b { tasks = t ∷ b.tasks })
  pub insert_comment :
      (c : Comment) (w : W)
      → let (r, v) =
          db.exec
            (insert_into "task_comments" (comment_columns c))
            (values (comment_columns c))
            w in
        Inserted c (view w) r (view v)
  pub comments_of :
      (id : Uuid) (w : W) (rows : List CommentRow)
      → (db.select Scan.comment_rows
          (String.◌++◌
            (select_where comment_names "task_comments" "task_id = ?")
            " ORDER BY created_at ASC")
          (id_value id ∷ [])
          w).0
        ≡ ok rows
      → All (λ (r : CommentRow). r.task_id ≡ uuid_to_bytes id) rows
  pub history_of :
      (id : Uuid) (w : W)
      → Selected history_row EntryHasUuids
          (IsHistoryOf id (view w))
          (db.select Scan.history_rows
            (String.◌++◌
              (select_where history_names "task_history" "task_id = ?")
              " ORDER BY changed_at ASC")
            (id_value id ∷ [])
            w).0
  pub teams_of :
      (id : Uuid) (w : W)
      → Selected team_row TeamHasUuids
          (AreTeamsOf id (view w))
          (db.select Scan.team_rows
            "SELECT t.id, t.name, t.created_by, t.created_at FROM teams t INNER JOIN team_members tm ON tm.team_id = t.id WHERE tm.user_id = ?"
            (id_value id ∷ [])
            w).0
  pub begin :
      (w : W)
      → (view (db.begin w).1 ≡ view w)
        × ((a : ⊤) → (db.begin w).0 ≡ ok a → draft (db.begin w).1 ≡ view w)
  pub tx_insert_team :
      (t : Team)
      → Drafts view draft
          (db.tx_exec (insert_into "teams" (team_columns t)) (values (team_columns t)))
          (add_team_row t)
  pub tx_insert_member :
      (team_id user_id : Uuid) (role : Role)
      → Drafts view draft
          (db.tx_exec
            (insert_into "team_members" (member_columns team_id user_id role))
            (values (member_columns team_id user_id role)))
          (add_member_row team_id user_id role)
  pub tx_update_task :
      (t : Task)
      → Drafts view draft
          (db.tx_exec
            (row_update "tasks" (edited_columns t))
            (append (values (edited_columns t)) (id_value t.id ∷ [])))
          (set_task_row t)
  pub tx_insert_history :
      (h : TaskHistory)
      → h.id ≡ 0
      → Drafts view draft
          (db.tx_exec (insert_into "task_history" (history_columns h)) (values (history_columns h)))
          (add_history_row h)
  pub commit : (w : W) → Written (view w) (draft w) (db.commit w).0 (view (db.commit w).1)
  pub rollback : Keeps view db.rollback
