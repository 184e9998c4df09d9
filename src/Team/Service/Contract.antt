-- ===== src/Team/Service/Contract.antt =====
-- What the team service relies on of its storages and of its notifier.
use team_tasks.Base.{String, ◌∷◌, ◌≡◌}
use team_tasks.Domain.{Team, Role, role_owner}
use team_tasks.Domain.Ids.{Uuid}
use team_tasks.Domain.Errors.{ok}
use team_tasks.Store.{
  Tables, role_of, set_role, find_team, find_user, Keeps, LooksUp, Writes, Answers, Lists,
  AreTeamsOf,
}
use team_tasks.Team.Service.{Deps}

-- The two rows of a new team.
abbrev pub add_team : Team → Uuid → Tables → Tables
add_team team owner_id b = record b {
  teams = team ∷ b.teams;
  members = record { team_id = team.id; user_id = owner_id; role = role_owner } ∷ b.members;
}

abbrev pub put_member : Uuid → Uuid → Role → Tables → Tables
put_member team_id user_id role b = record b { members = set_role team_id user_id role b.members }

-- What the service relies on, in a run in which no other request writes between its calls.
pub record IsTeamStore {W : Type 0} (s : Deps W) (view : W → Tables) : Type 0 where
  pub create_team_with_owner :
      (team : Team) (owner_id : Uuid)
      → Writes view (s.create_team_with_owner team owner_id) (add_team team owner_id)
  pub save_member :
      (team_id user_id : Uuid) (role : Role)
      → Writes view (s.save_member team_id user_id role) (put_member team_id user_id role)
  pub get_team_by_id : (id : Uuid) → LooksUp view (s.get_team_by_id id) (λ b. find_team id b.teams)
  pub get_member_role :
      (team_id user_id : Uuid)
      → LooksUp view (s.get_member_role team_id user_id) (λ b. role_of team_id user_id b.members)
  pub get_user_by_id : (id : Uuid) → LooksUp view (s.get_user_by_id id) (λ b. find_user id b.users)
  pub get_teams_by_user :
      (id : Uuid) (w : W)
      → let (r, v) = s.get_teams_by_user id w in
        (view v ≡ view w) × Lists (AreTeamsOf id (view w)) r
  pub send_invite : (email name : String) → Keeps view (s.send_invite email name)
  pub new_uuid : Keeps view s.platform.new_uuid
  pub now : (w : W) → view (s.platform.now w).1 ≡ view w

-- A storage that is up: its lookups fail only on what is not there, and it saves members. Nothing
-- is said of the notifier.
pub record IsUp {W : Type 0} (s : Deps W) : Type 0 where
  pub get_team_by_id : (id : Uuid) → Answers (s.get_team_by_id id)
  pub get_member_role : (team_id user_id : Uuid) → Answers (s.get_member_role team_id user_id)
  pub get_user_by_id : (id : Uuid) → Answers (s.get_user_by_id id)
  pub save_member :
      (team_id user_id : Uuid) (role : Role) (w : W)
      → (s.save_member team_id user_id role w).0 ≡ ok tt
