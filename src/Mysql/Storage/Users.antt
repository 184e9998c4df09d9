-- ===== src/Mysql/Storage/Users.antt =====
-- `UserStorage` of internal/storage/mysql/user.go.
use team_tasks.Base.{String, List, [], ◌∷◌, if◌then◌else◌}
use team_tasks.Domain.{User}
use team_tasks.Domain.Ids.{Uuid}
use team_tasks.Domain.Errors.{Error, sentinel, conflict, wrapped}
use team_tasks.Action.{⊤, Action, pure, lift, on_error, ◌>>=◌, ◌>>◌}
use team_tasks.Mysql.Rows.{uuid_to_bytes, is_duplicate_entry, to_user}
use team_tasks.Mysql.Driver.{Db, Value, bytes, text, time, Scan, lookup_error}

abbrev pub insert_user : String
insert_user = "INSERT INTO users (id, email, name, password, created_at) VALUES (?, ?, ?, ?, ?)"

abbrev pub select_by_email : String
select_by_email = "SELECT id, email, name, password, created_at FROM users WHERE email = ?"

abbrev pub select_by_id : String
select_by_id = "SELECT id, email, name, password, created_at FROM users WHERE id = ?"

abbrev pub user_args : User → List Value
user_args u =
    bytes (uuid_to_bytes u.id)
    ∷ text u.email
    ∷ text u.name
    ∷ text u.password
    ∷ time u.created_at
    ∷ []

abbrev pub save_user_error : Error → Error
save_user_error e = if is_duplicate_entry e then sentinel conflict else wrapped "mysql: save user" e

module _ {W : Type 0} (db : Db W) where
  unfoldable pub save_user : User → Action W ⊤
  save_user u = on_error save_user_error (db.exec insert_user (user_args u)) >> pure tt

  unfoldable pub get_by_email : String → Action W User
  get_by_email email = do
    row ←
        on_error (lookup_error "mysql: get user by email")
          (db.get Scan.user_rows select_by_email (text email ∷ []))
    lift (to_user row)

  unfoldable pub get_by_id : Uuid → Action W User
  get_by_id id = do
    row ←
        on_error (lookup_error "mysql: get user by id")
          (db.get Scan.user_rows select_by_id (bytes (uuid_to_bytes id) ∷ []))
    lift (to_user row)
