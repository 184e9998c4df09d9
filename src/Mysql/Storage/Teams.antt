-- ===== src/Mysql/Storage/Teams.antt =====
-- `TeamStorage` of internal/storage/mysql/team.go.
use team_tasks.Base.{String, List, [], ◌∷◌}
use team_tasks.Domain.{Team, Role, role_owner}
use team_tasks.Domain.Ids.{Uuid}
use team_tasks.Domain.Errors.{wrapped}
use team_tasks.Action.{⊤, Action, pure, lift, on_error, ◌>>=◌, ◌>>◌}
use team_tasks.Mysql.Rows.{uuid_to_bytes, to_team, convert_rows}
use team_tasks.Mysql.Driver.{Db, Value, bytes, text, time, Scan, lookup_error, with_deferred}

abbrev pub insert_team : String
insert_team = "INSERT INTO teams (id, name, created_by, created_at) VALUES (?, ?, ?, ?)"

abbrev pub insert_member : String
insert_member = "INSERT INTO team_members (team_id, user_id, role) VALUES (?, ?, ?)"

abbrev pub upsert_member : String
upsert_member =
    "INSERT INTO team_members (team_id, user_id, role) VALUES (?, ?, ?) ON DUPLICATE KEY UPDATE role = VALUES(role)"

abbrev pub select_by_user : String
select_by_user =
    "SELECT t.id, t.name, t.created_by, t.created_at FROM teams t INNER JOIN team_members tm ON tm.team_id = t.id WHERE tm.user_id = ?"

abbrev pub select_by_id : String
select_by_id = "SELECT id, name, created_by, created_at FROM teams WHERE id = ?"

abbrev pub select_role : String
select_role = "SELECT role FROM team_members WHERE team_id = ? AND user_id = ?"

abbrev pub team_args : Team → List Value
team_args t =
    bytes (uuid_to_bytes t.id)
    ∷ text t.name
    ∷ bytes (uuid_to_bytes t.created_by)
    ∷ time t.created_at
    ∷ []

abbrev pub member_args : Uuid → Uuid → Role → List Value
member_args team_id user_id role =
    bytes (uuid_to_bytes team_id) ∷ bytes (uuid_to_bytes user_id) ∷ text role ∷ []

module _ {W : Type 0} (db : Db W) where
  unfoldable pub create_team_with_owner : Team → Uuid → Action W ⊤
  create_team_with_owner team owner_id = do
    on_error (wrapped "mysql: begin tx") db.begin
    with_deferred db.rollback (do
      on_error (wrapped "mysql: insert team") (db.tx_exec insert_team (team_args team))
      on_error (wrapped "mysql: insert owner member")
          (db.tx_exec insert_member (member_args team.id owner_id role_owner))
      on_error (wrapped "mysql: commit") db.commit
      pure tt)

  unfoldable pub get_teams_by_user : Uuid → Action W (List Team)
  get_teams_by_user user_id = do
    rows ←
        on_error (wrapped "mysql: get teams by user")
          (db.select Scan.team_rows select_by_user (bytes (uuid_to_bytes user_id) ∷ []))
    lift (convert_rows to_team rows)

  unfoldable pub get_team_by_id : Uuid → Action W Team
  get_team_by_id id = do
    row ←
        on_error (lookup_error "mysql: get team by id")
          (db.get Scan.team_rows select_by_id (bytes (uuid_to_bytes id) ∷ []))
    lift (to_team row)

  unfoldable pub save_member : Uuid → Uuid → Role → Action W ⊤
  save_member team_id user_id role =
      on_error (wrapped "mysql: save member")
        (db.exec upsert_member (member_args team_id user_id role))
      >> pure tt

  unfoldable pub get_member_role : Uuid → Uuid → Action W Role
  get_member_role team_id user_id = on_error (lookup_error "mysql: get member role") (
      db.get Scan.roles select_role
        (bytes (uuid_to_bytes team_id) ∷ bytes (uuid_to_bytes user_id) ∷ []))
