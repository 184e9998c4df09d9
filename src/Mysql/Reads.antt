-- ===== src/Mysql/Reads.antt =====
-- The lookups of the storages find what the tables hold, where the driver's laws hold.
use team_tasks.Base.{
  String, true, false, Option, none, some, ◌≡◌, List, [], ◌∷◌, map, All, refl, ap, ◌∙◌, sym, subst,
  Bool-cases, arith, inl, inr,
}
use team_tasks.Domain.{Team, Role, TaskHistory}
use team_tasks.Domain.Ids.{Uuid, IsUuid}
use team_tasks.Domain.Errors.{Error, Result, ok, errors_is, not_found}
use team_tasks.Action.{Action, lift, on_error, ◌>>=◌}
use team_tasks.Action.Rules.{after_checked, last_checked}
use team_tasks.Store.{
  Tables, Found, Keeps, LooksUp, find_task, find_team, find_user, find_email, role_of, Lists,
  IsHistoryOf, AreTeamsOf,
}
use team_tasks.Mysql.Rows.{to_user, to_team, to_task, to_history, user_row, task_row, convert_rows}
use team_tasks.Mysql.Conversions.{HasUuids, to_user_iff, to_task-task_row, bytes_to_uuid-bytes}
use team_tasks.Mysql.Driver.{Db, lookup_error, is_no_rows}
use team_tasks.Mysql.Storage.Users as Users
use team_tasks.Mysql.Storage.Teams as Teams
use team_tasks.Mysql.Storage.Tasks as Tasks
use team_tasks.Mysql.Contract.{
  IsMysql, Fetched, Fetches, Selected, team_row, TeamHasUuids, history_row, EntryHasUuids,
}

-- The error of a failed query says that nothing is there only if nothing is.
looked_up :
    {A : Type 0} (o : Option A) (label : String) (e : Error)
    → (is_no_rows e ≡ true → o ≡ none) × (errors_is not_found e ≡ false)
    → errors_is not_found (lookup_error label e) ≡ true
    → o ≡ none
looked_up o label e (empty, other) is = elim (Bool-cases (is_no_rows e)) [
  | inl missing ↦ empty missing
  | inr present ↦ ground arith
]

to_team-team_row : (t : Team) → TeamHasUuids t → to_team (team_row t) ≡ ok t
unfolding to_team
to_team-team_row t (id, creator) =
    rw (bytes_to_uuid-bytes t.id id, bytes_to_uuid-bytes t.created_by creator) refl

converted_back :
    {A R : Type 0} (row : A → R) (Valid : A → Type 0) (to : R → Result A)
    → ((a : A) → Valid a → to (row a) ≡ ok a)
    → (xs : List A) → All Valid xs
    → convert_rows to (map row xs) ≡ ok xs
unfolding convert_rows
converted_back row Valid to back [] valid = refl
converted_back row Valid to back (x ∷ xs) (here, valid) =
    rw (back x here, converted_back row Valid to back xs valid) refl

to_history-history_row : (h : TaskHistory) → EntryHasUuids h → to_history (history_row h) ≡ ok h
unfolding to_history
to_history-history_row h (task, user) =
    rw (bytes_to_uuid-bytes h.task_id task, bytes_to_uuid-bytes h.changed_by user) refl

module _ {W A R : Type 0} (view : W → Tables) (row : A → R) (Valid : A → Type 0)
    (P : List A → Type 0) where
  -- Rows that are selected and read back.
  select-Lists :
      (to : R → Result A) (g : Error → Error) (m : Action W (List R)) (w : W)
      → ((a : A) → Valid a → to (row a) ≡ ok a)
      → Keeps view m
      → Selected row Valid P (m w).0
      → let (r, v) = (on_error g m >>= λ rows. lift (convert_rows to rows)) w in
        (view v ≡ view w) × Lists P r
  select-Lists to g m w back kept law =
      after_checked (λ (r : Result (List A)) (v : W). (view v ≡ view w) × Lists P r) g m
        (λ rows. lift (convert_rows to rows)) w
        (λ rows e.
          let (xs, same, valid, is) = subst (Selected row Valid P) e law in
          let read = ap (convert_rows to) same ∙ converted_back row Valid to back xs valid in
          (kept w, subst (Lists P) (sym read) is))
        (λ e h. (kept w, tt))

module _ {W A R : Type 0} (view draft : W → Tables) (find : Tables → Option A) (row : A → R)
    (Valid : A → Type 0) where
  -- A row that is fetched and read back.
  read-LooksUp :
      (to : R → Result A) (label : String) (m : Action W R)
      → ((a : A) → Valid a → to (row a) ≡ ok a)
      → Keeps view m
      → Fetches view draft find row Valid m
      → LooksUp view (on_error (lookup_error label) m >>= λ r. lift (to r)) find
  read-LooksUp to label m back kept law w =
      let P = λ (r : Result A) (v : W). (view v ≡ view w) × Found (find (view w)) r in
      after_checked P (lookup_error label) m (λ r. lift (to r)) w
        (λ r e.
          let (a, is, same, valid) = subst (Fetched row Valid (find (view w))) e (law w) in
          (kept w, subst (Found (find (view w))) (sym (ap to same ∙ back a valid)) is))
        (λ e h. (kept w, looked_up _ label e (subst (Fetched row Valid (find (view w))) h (law w))))

module _ {W : Type 0} (db : Db W) (view draft : W → Tables) (laws : IsMysql db view draft) where
  pub get_by_email-LooksUp :
      (email : String) → LooksUp view (Users.get_by_email db email) (λ b. find_email email b.users)
  unfolding Users.get_by_email
  get_by_email-LooksUp email =
      read-LooksUp view draft (λ b. find_email email b.users) user_row (λ u. IsUuid u.id) to_user _
        _ (λ u h. (to_user_iff (user_row u) u).1 (refl, h)) (laws.get_keeps _ _ _)
        (laws.user_by_email email)

  pub get_by_id-LooksUp :
      (id : Uuid) → LooksUp view (Users.get_by_id db id) (λ b. find_user id b.users)
  unfolding Users.get_by_id
  get_by_id-LooksUp id =
      read-LooksUp view draft (λ b. find_user id b.users) user_row (λ u. IsUuid u.id) to_user _ _
        (λ u h. (to_user_iff (user_row u) u).1 (refl, h)) (laws.get_keeps _ _ _)
        (laws.user_by_id id)

  pub get_team_by_id-LooksUp :
      (id : Uuid) → LooksUp view (Teams.get_team_by_id db id) (λ b. find_team id b.teams)
  unfolding Teams.get_team_by_id
  get_team_by_id-LooksUp id =
      read-LooksUp view draft (λ b. find_team id b.teams) team_row TeamHasUuids to_team _ _
        to_team-team_row (laws.get_keeps _ _ _) (laws.team_by_id id)

  pub get_task_by_id-LooksUp :
      (id : Uuid) → LooksUp view (Tasks.get_task_by_id db id) (λ b. find_task id b.tasks)
  unfolding Tasks.get_task_by_id
  get_task_by_id-LooksUp id =
      read-LooksUp view draft (λ b. find_task id b.tasks) task_row HasUuids to_task _ _
        to_task-task_row (laws.get_keeps _ _ _) (laws.task_by_id id)

  pub get_member_role-LooksUp :
      (team_id user_id : Uuid)
      → LooksUp view
          (Teams.get_member_role db team_id user_id)
          (λ b. role_of team_id user_id b.members)
  unfolding Teams.get_member_role
  get_member_role-LooksUp team_id user_id w =
      let find = role_of team_id user_id (view w).members in
      let law = laws.member_role team_id user_id w in
      let fetched = Fetched {A = Role} (λ role. role) (λ role. Unit) find in
      last_checked (λ (r : Result Role) (v : W). (view v ≡ view w) × Found find r) _ _ w
        (λ role e.
          let (a, is, same, valid) = subst fetched e law in
          (laws.get_keeps _ _ _ w, is ∙ ap some (sym same)))
        (λ e h. (laws.get_keeps _ _ _ w, looked_up _ _ e (subst fetched h law)))

  pub list_history-Lists :
      (id : Uuid) (w : W)
      → let (r, v) = Tasks.list_history db id w in
        (view v ≡ view w) × Lists (IsHistoryOf id (view w)) r
  unfolding Tasks.list_history
  list_history-Lists id w =
      select-Lists view history_row EntryHasUuids (IsHistoryOf id (view w)) to_history _ _ w
        to_history-history_row (laws.select_keeps _ _ _) (laws.history_of id w)

  pub get_teams_by_user-Lists :
      (id : Uuid) (w : W)
      → let (r, v) = Teams.get_teams_by_user db id w in
        (view v ≡ view w) × Lists (AreTeamsOf id (view w)) r
  unfolding Teams.get_teams_by_user
  get_teams_by_user-Lists id w =
      select-Lists view team_row TeamHasUuids (AreTeamsOf id (view w)) to_team _ _ w
        to_team-team_row (laws.select_keeps _ _ _) (laws.teams_of id w)
