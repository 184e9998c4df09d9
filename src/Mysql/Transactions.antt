-- ===== src/Mysql/Transactions.antt =====
-- What the storages write, at once or not at all: the transactions of `CreateTeamWithOwner` and
-- `UpdateTaskWithHistory`, and the single statements.
use mathlib.Core.List.{append-nil, append_assoc}
use team_tasks.Base.{List, [], ◌∷◌, ◌++◌, ◌≡◌, ap, ◌∙◌, sym, subst}
use team_tasks.Domain.{Task, TaskHistory, Team, User, Role, role_owner}
use team_tasks.Domain.Ids.{Uuid}
use team_tasks.Domain.Errors.{Error, Result, ok, err}
use team_tasks.Action.{⊤, Action, pure, on_error, ◌>>=◌, ◌>>◌}
use team_tasks.Action.Rules.{after_checked, >>=_assoc, pure->>=}
use team_tasks.Store.{Tables, Written, Writes, update_task}
use team_tasks.Store.Rules.{after_write}
use team_tasks.Auth.Service.Contract.{add_user}
use team_tasks.Team.Service.Contract.{add_team, put_member}
use team_tasks.Task.Diff.Laws.{Unnumbered}
use team_tasks.Mysql.Driver.{Db, with_deferred}
use team_tasks.Mysql.Storage.Users as Users
use team_tasks.Mysql.Storage.Teams as Teams
use team_tasks.Mysql.Storage.Tasks as Tasks
use team_tasks.Mysql.Contract.{
  IsMysql, Drafts, add_team_row, add_member_row, add_history_row, set_task_row,
}

module _ {W : Type 0} (db : Db W) (view draft : W → Tables) (laws : IsMysql db view draft) where
  -- A call that writes and whose result is dropped.
  dropped-Writes :
      {A : Type 0} (g : Error → Error) (m : Action W A) (change : Tables → Tables)
      → Writes view m change
      → Writes view (on_error g m >> pure tt) change
  dropped-Writes g m change law w =
      after_write view (λ r v. Written (view w) (change (view w)) r (view v)) change g m
        (λ _. pure tt) w law (λ a w1 done. done) (λ e w1 kept. kept)

  pub save_user-Writes : (u : User) → Writes view (Users.save_user db u) (add_user u)
  unfolding Users.save_user
  save_user-Writes u = dropped-Writes _ _ (add_user u) (laws.insert_user u)

  pub save_member-Writes :
      (team_id user_id : Uuid) (role : Role)
      → Writes view (Teams.save_member db team_id user_id role) (put_member team_id user_id role)
  unfolding Teams.save_member
  save_member-Writes team_id user_id role =
      dropped-Writes _ _ (put_member team_id user_id role) (laws.put_member team_id user_id role)

  pub save_task-Writes :
      (t : Task) → Writes view (Tasks.save_task db t) (λ b. record b { tasks = t ∷ b.tasks })
  unfolding Tasks.save_task
  save_task-Writes t =
      dropped-Writes _ _ (λ b. record b { tasks = t ∷ b.tasks }) (laws.insert_task t)

  -- The next call is a statement of the transaction.
  after_statement :
      {A B : Type 0} (P : Result B → W → Type 0) (change : Tables → Tables) (g : Error → Error)
      (m : Action W A) (f : A → Action W B) (w : W) {before now : Tables}
      → Drafts view draft m change
      → view w ≡ before
      → draft w ≡ now
      → ((a : A) (w1 : W) → view w1 ≡ before → draft w1 ≡ change now → P (f a w1).0 (f a w1).1)
      → ((e : Error) (w1 : W) → view w1 ≡ before → P (err (g e)) w1)
      → P ((on_error g m >>= f) w).0 ((on_error g m >>= f) w).1
  after_statement P change g m f w law seen drafted good bad =
      let (kept, changed) = law w in
      after_checked P g m f w (λ a e. good a _ (kept ∙ seen) (changed a e ∙ ap change drafted))
        (λ e h. bad e _ (kept ∙ seen))

  -- The end of a transaction: what has been drafted is written, or nothing is.
  commit-Written :
      (g : Error → Error) (w : W) {before after : Tables}
      → view w ≡ before
      → draft w ≡ after
      → let (r, v) = (on_error g db.commit >> pure tt) w in Written before after r (view v)
  commit-Written g w {before} {after} seen drafted =
      let P = λ (r : Result ⊤) (v : W). Written before after r (view v) in
      let done = λ (r : Result ⊤). Written (view w) (draft w) r (view (db.commit w).1) in
      after_checked P g db.commit (λ _. pure tt) w (λ a e. subst done e (laws.commit w) ∙ drafted)
        (λ e h. subst done h (laws.commit w) ∙ seen)

  moved :
      {A : Type 0} (before after : Tables) (r : Result A) {u v : Tables}
      → u ≡ v
      → Written before after r v
      → Written before after r u
  moved before after (ok a) same h = same ∙ h
  moved before after (err e) same h = same ∙ h

  -- A body that drafts a change and commits, between its beginning and the rollback that is
  -- deferred, makes the change or none.
  transaction-Writes :
      (g : Error → Error) (body : Action W ⊤) (change : Tables → Tables)
      → ((before : Tables) (w : W)
          → view w ≡ before
          → draft w ≡ before
          → Written before (change before) (body w).0 (view (body w).1))
      → Writes view (on_error g db.begin >> with_deferred db.rollback body) change
  unfolding with_deferred
  transaction-Writes g body change law w =
      let P = λ (r : Result ⊤) (v : W). Written (view w) (change (view w)) r (view v) in
      let (kept, drafted) = laws.begin w in
      after_checked P g db.begin (λ _. with_deferred db.rollback body) w
        (λ a e.
          let w1 = (db.begin w).1 in
          moved (view w) (change (view w)) (body w1).0 (laws.rollback (body w1).1)
            (law (view w) w1 kept (drafted a e)))
        (λ e h. kept)

  -- A team is created with its owner's membership, or neither is.
  pub create_team_with_owner-Writes :
      (team : Team) (owner_id : Uuid)
      → Writes view (Teams.create_team_with_owner db team owner_id) (add_team team owner_id)
  unfolding Teams.create_team_with_owner
  create_team_with_owner-Writes team owner_id =
      transaction-Writes _ _ (add_team team owner_id) (λ before w seen drafted.
        let P =
          λ (r : Result ⊤) (v : W). Written before (add_team team owner_id before) r (view v) in
        after_statement P (add_team_row team) _ _ _ w (laws.tx_insert_team team) seen drafted
          (λ a w1 seen1 drafted1.
            after_statement P (add_member_row team.id owner_id role_owner) _ _ _ w1
              (laws.tx_insert_member team.id owner_id role_owner) seen1 drafted1
              (λ c w2 seen2 drafted2. commit-Written _ w2 seen2 drafted2) (λ e w2 seen2. seen2))
          (λ e w1 seen1. seen1))

  after_entries :
      {B : Type 0} (P : Result B → W → Type 0) (hs : List TaskHistory) (f : ⊤ → Action W B) (w : W)
      {before now : Tables}
      → Unnumbered hs
      → view w ≡ before
      → draft w ≡ now
      → ((w1 : W)
          → view w1 ≡ before
          → draft w1 ≡ record now { history = now.history ++ hs }
          → P (f tt w1).0 (f tt w1).1)
      → ((e : Error) (w1 : W) → view w1 ≡ before → P (err e) w1)
      → P ((Tasks.insert_entries db hs >>= f) w).0 ((Tasks.insert_entries db hs >>= f) w).1
  unfolding Tasks.insert_entries
  after_entries P [] f w {before} {now} new seen drafted good bad =
      rw pure->>=
        (good w seen (drafted ∙ λ i. record now { history = sym (append-nil now.history) i }))
  after_entries P (h ∷ hs) f w {before} {now} (zero_id, new) seen drafted good bad = rw >>=_assoc (
      after_statement P (add_history_row h) _ _ _ w (laws.tx_insert_history h zero_id) seen drafted
        (λ a w1 seen1 drafted1.
          after_entries P hs f w1 new seen1 drafted1
            (λ w2 seen2 drafted2.
              good w2 seen2
                (drafted2 ∙ λ i. record now { history = append_assoc now.history (h ∷ []) hs i }))
            bad)
        (λ e w1 seen1. bad _ w1 seen1))

  -- A task is updated and its entries are added to the history, or nothing is changed.
  pub update_task_with_history-Writes :
      (t : Task) (hs : List TaskHistory)
      → Unnumbered hs
      → Writes view
          (Tasks.update_task_with_history db t hs)
          (λ b. record b { tasks = update_task t b.tasks; history = b.history ++ hs })
  unfolding Tasks.update_task_with_history
  update_task_with_history-Writes t hs new =
      let change =
        λ (b : Tables). record b { tasks = update_task t b.tasks; history = b.history ++ hs } in
      transaction-Writes _ _ change (λ before w seen drafted.
        let P = λ (r : Result ⊤) (v : W). Written before (change before) r (view v) in
        after_statement P (set_task_row t) _ _ _ w (laws.tx_update_task t) seen drafted
          (λ a w1 seen1 drafted1.
            after_entries P hs _ w1 new seen1 drafted1
              (λ w2 seen2 drafted2. commit-Written _ w2 seen2 drafted2) (λ e w2 seen2. seen2))
          (λ e w1 seen1. seen1))
