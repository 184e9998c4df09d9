-- ===== src/Store.antt =====
-- The abstract state that the services promise things about: the rows of the tables of migrations/,
-- newest first, as far as the code reads them. The storages are known to the services only by the
-- laws stated over this view.
pub mod Rules
pub mod Roles
pub mod Tasks
use team_tasks.Base.{
  String, Bool, true, false, map, ◌&&◌, Option, none, some, List, [], ◌∷◌, ◌≡◌, if◌then◌else◌,
  str_eq,
}
use mathlib.Core.List.{Permᴰ}
use team_tasks.Domain.{Task, TaskHistory, Team, User, Comment, Role}
use team_tasks.Domain.Ids.{Uuid, uuid_eq}
use team_tasks.Domain.Errors.{Result, ok, err, errors_is, not_found}
use team_tasks.Action.{Action}

pub record Membership : Type 0 where
  pub team_id : Uuid
  pub user_id : Uuid
  pub role : Role

pub record Tables : Type 0 where
  pub users : List User
  pub teams : List Team
  pub members : List Membership
  pub tasks : List Task
  pub history : List TaskHistory
  pub comments : List Comment

-- The role of a user in a team.
unfoldable pub role_of : Uuid → Uuid → List Membership → Option Role
role_of team_id user_id [] = none
role_of team_id user_id (m ∷ ms) =
    if uuid_eq m.team_id team_id && uuid_eq m.user_id user_id
    then some m.role
    else role_of team_id user_id ms

-- Gives a user a role in a team, in place of any that it has there.
unfoldable pub set_role : Uuid → Uuid → Role → List Membership → List Membership
set_role team_id user_id role [] = record { team_id = team_id; user_id = user_id; role = role } ∷ []
set_role team_id user_id role (m ∷ ms) =
    if uuid_eq m.team_id team_id && uuid_eq m.user_id user_id
    then record m { role = role } ∷ ms
    else m ∷ set_role team_id user_id role ms

unfoldable pub find_task : Uuid → List Task → Option Task
find_task id [] = none
find_task id (t ∷ ts) = if uuid_eq t.id id then some t else find_task id ts

unfoldable pub find_team : Uuid → List Team → Option Team
find_team id [] = none
find_team id (t ∷ ts) = if uuid_eq t.id id then some t else find_team id ts

unfoldable pub find_user : Uuid → List User → Option User
find_user id [] = none
find_user id (u ∷ us) = if uuid_eq u.id id then some u else find_user id us

unfoldable pub find_email : String → List User → Option User
find_email email [] = none
find_email email (u ∷ us) = if str_eq u.email email then some u else find_email email us

-- The columns that an update of a task sets; the others keep their values.
abbrev pub set_columns : Task → Task → Task
set_columns new old = record old {
  assignee_id = new.assignee_id;
  title = new.title;
  description = new.description;
  status = new.status;
  priority = new.priority;
  due_date = new.due_date;
  updated_at = new.updated_at;
}

unfoldable pub update_task : Task → List Task → List Task
update_task new [] = []
update_task new (t ∷ ts) =
    if uuid_eq t.id new.id then set_columns new t ∷ ts else t ∷ update_task new ts

-- What a lookup has found: its value, or by `ErrNotFound` nothing; any other error says nothing.
abbrev pub Found : {A : Type 0} → Option A → Result A → Type 0
Found o (ok a) = o ≡ some a
Found o (err e) = errors_is not_found e ≡ true → o ≡ none

-- What a write has left: all of it, or with an error nothing.
abbrev pub Written : {A : Type 0} → Tables → Tables → Result A → Tables → Type 0
Written before done (ok a) after = after ≡ done
Written before done (err e) after = after ≡ before

-- A result that is an error only by `ErrNotFound`.
abbrev pub Answered : {A : Type 0} → Result A → Type 0
Answered (ok a) = Unit
Answered (err e) = errors_is not_found e ≡ true

-- The call fails in no other way than by `ErrNotFound`.
abbrev pub Answers : {W A : Type 0} → Action W A → Type 0
Answers {W} m = (w : W) → Answered (m w).0

module _ {W A : Type 0} (view : W → Tables) where
  -- The call changes no table.
  abbrev pub Keeps : Action W A → Type 0
  Keeps m = (w : W) → view (m w).1 ≡ view w

  -- The call looks something up.
  abbrev pub LooksUp : Action W A → (Tables → Option A) → Type 0
  LooksUp m find = (w : W) → (view (m w).1 ≡ view w) × Found (find (view w)) (m w).0

  -- The call makes a change, at once or not at all.
  abbrev pub Writes : Action W A → (Tables → Tables) → Type 0
  Writes m change = (w : W) → Written (view w) (change (view w)) (m w).0 (view (m w).1)

-- The entries of the history of a task.
unfoldable pub history_of : Uuid → List TaskHistory → List TaskHistory
history_of id [] = []
history_of id (h ∷ hs) =
    let rest = history_of id hs in if uuid_eq h.task_id id then h ∷ rest else rest

abbrev pub is_member : Option Role → Bool
is_member none = false
is_member (some role) = true

-- The teams that a user is a member of.
unfoldable pub teams_of : Uuid → List Membership → List Team → List Team
teams_of user_id members [] = []
teams_of user_id members (t ∷ ts) =
    let rest = teams_of user_id members ts in
    if is_member (role_of t.id user_id members) then t ∷ rest else rest

-- The number of an entry is the database's.
abbrev pub unnumbered : TaskHistory → TaskHistory
unnumbered h = record h { id = 0 }

-- What a list that is returned is like.
abbrev pub Lists : {A : Type 0} → (List A → Type 0) → Result (List A) → Type 0
Lists P (ok xs) = P xs
Lists P (err e) = Unit

-- The entries of a task, in some order.
abbrev pub IsHistoryOf : Uuid → Tables → List TaskHistory → Type 0
IsHistoryOf id b hs = Permᴰ (map unnumbered hs) (map unnumbered (history_of id b.history))

-- The teams of a user, in some order.
abbrev pub AreTeamsOf : Uuid → Tables → List Team → Type 0
AreTeamsOf user_id b ts = Permᴰ ts (teams_of user_id b.members b.teams)
