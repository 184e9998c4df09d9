-- ===== src/App/Stores.antt =====
-- What the services rely on of their storages holds of those that `New` of internal/app/app.go gives
-- them, the storages of internal/storage/mysql.
use team_tasks.Base.{Option, none, some, String, List, [], ◌∷◌, ◌≡◌, refl, ◌∙◌, sym, subst, All, ℕ}
use team_tasks.Domain.{Time, TaskFilter, Comment}
use team_tasks.Domain.Ids.{Uuid}
use team_tasks.Domain.Errors.{Result, ok, err, wrapped}
use team_tasks.Action.{⊤, Action, pure, lift, on_error, ◌>>=◌}
use team_tasks.Action.Rules.{after_checked}
use team_tasks.Store.{Tables, Keeps}
use team_tasks.Auth.Service.Contract.{IsUserStore}
use team_tasks.Team.Service.Contract.{IsTeamStore}
use team_tasks.Task.Service.Contract.{IsTaskStore}
use team_tasks.Comment.Service.Discussion.{IsCommentStore, OfTask, Saved}
use team_tasks.Notifier.{send_invite-Keeps}
use team_tasks.Mysql.Rows.{uuid_to_bytes, bytes_to_uuid, CommentRow, to_comment, convert_rows}
use team_tasks.Mysql.Conversions.{parse_ok, collected_ok, bytes_to_uuid_ok}
use team_tasks.Mysql.Contract.{IsMysql, Inserted}
use team_tasks.Mysql.Reads.{
  get_by_email-LooksUp, get_by_id-LooksUp, get_team_by_id-LooksUp, get_task_by_id-LooksUp,
  get_member_role-LooksUp, list_history-Lists, get_teams_by_user-Lists,
}
use team_tasks.Mysql.Storage.Tasks as Tasks
use team_tasks.Mysql.Storage.Comments as Comments
use team_tasks.Mysql.Transactions.{
  save_user-Writes, save_member-Writes, save_task-Writes, create_team_with_owner-Writes,
  update_task_with_history-Writes,
}
use team_tasks.Action.Effects.{IsEffect, then-Does, lifted-Does}
use team_tasks.Redis.TaskCache.{invalidate}
use team_tasks.Redis.Effects.{Left, get_entry-Does, invalidate-Left}
use team_tasks.App.{
  Parts, ended, cache_invalidate, auth_service, team_service, task_service, comment_service,
}

-- The parts beside the database change none of its tables.
pub record IsApart {W : Type 0} (p : Parts W) (view : W → Tables) : Type 0 where
  pub new_uuid : Keeps view p.platform.new_uuid
  pub now : (w : W) → view (p.platform.now w).1 ≡ view w
  pub redis_get : (key : String) → Keeps view (p.redis.get key)
  pub redis_del : (keys : List String) → Keeps view (p.redis.del keys)
  pub redis_scan : (cursor : ℕ) (pattern : String) → Keeps view (p.redis.scan cursor pattern 100)
  -- The circuit breaker calls what it is given, or nothing.
  pub execute : (m : Action W ⊤) → Keeps view m → Keeps view (p.email_client.execute m)
  pub send : (request : List ℕ) → Keeps view (p.email_client.send request)
  pub generate_from_password : (password : String) → Keeps view (p.generate_from_password password)

-- The worlds with the same tables.
Keeps-IsEffect : {W : Type 0} (view : W → Tables) → IsEffect (λ w v. view v ≡ view w)
Keeps-IsEffect view = record { stays = λ w. refl; chain = λ u v w first second. second ∙ first }

module _ {W : Type 0} (p : Parts W) (view draft : W → Tables) (laws : IsMysql p.db view draft)
    (apart : IsApart p view) where
  -- The auth service has the storage that its theorems are about: emails are looked up in the table
  -- of users, and a user is saved as one row or not at all.
  auth_service-IsUserStore : IsUserStore (auth_service p) view
  unfolding auth_service
  auth_service-IsUserStore = record {
    save_user = save_user-Writes p.db view draft laws;
    get_by_email = get_by_email-LooksUp p.db view draft laws;
    generate_from_password = apart.generate_from_password;
    new_uuid = apart.new_uuid;
    now = apart.now;
  }

  -- The team service has the storages that its theorems are about: a team is created with its owner
  -- or not at all; a lookup of a team, a user or a role finds what the tables hold, and the teams
  -- that are listed are those of the user, in some order.
  pub team_service-IsTeamStore : IsTeamStore (team_service p) view
  unfolding team_service
  team_service-IsTeamStore = record {
    create_team_with_owner = create_team_with_owner-Writes p.db view draft laws;
    save_member = save_member-Writes p.db view draft laws;
    get_team_by_id = get_team_by_id-LooksUp p.db view draft laws;
    get_member_role = get_member_role-LooksUp p.db view draft laws;
    get_user_by_id = get_by_id-LooksUp p.db view draft laws;
    get_teams_by_user = get_teams_by_user-Lists p.db view draft laws;
    send_invite = send_invite-Keeps p.email_client view apart.execute apart.send;
    new_uuid = apart.new_uuid;
    now = apart.now;
  }

  list_tasks-Keeps : (f : TaskFilter) → Keeps view (Tasks.list_tasks p.db f)
  unfolding Tasks.list_tasks
  list_tasks-Keeps f = then-Does _ (Keeps-IsEffect view) _ _ _ (laws.get_keeps _ _ _) (λ total.
      then-Does _ (Keeps-IsEffect view) _ _ _ (laws.select_keeps _ _ _)
        (λ rows. lifted-Does _ (Keeps-IsEffect view) _ _))

  ended-Keeps :
      (w : W) (o : Option (Result ⊤ × W))
      → Left p.redis (λ w v. view v ≡ view w) (Keeps-IsEffect view) w o
      → view (ended p w o).1 ≡ view w
  ended-Keeps w none left = refl
  ended-Keeps w (some (r, v)) left = left

  cache_invalidate-Keeps : (pattern : String) → Keeps view (cache_invalidate p pattern)
  unfolding cache_invalidate
  cache_invalidate-Keeps pattern w = ended-Keeps w (invalidate p.redis p.turns pattern w) (
      invalidate-Left p.redis _ (Keeps-IsEffect view) apart.redis_del apart.redis_scan p.turns
        pattern w)

  -- The task service has the storages that its theorems are about: a task, and an update with all of
  -- its history entries, is written or nothing is; a lookup of a task or of a role finds what the
  -- tables hold, and a history that is listed is that of the task, in some order.
  pub task_service-IsTaskStore : IsTaskStore (task_service p) view
  unfolding task_service
  task_service-IsTaskStore = record {
    save_task = save_task-Writes p.db view draft laws;
    get_task_by_id = get_task_by_id-LooksUp p.db view draft laws;
    update_task_with_history = update_task_with_history-Writes p.db view draft laws;
    get_member_role = get_member_role-LooksUp p.db view draft laws;
    list_history = list_history-Lists p.db view draft laws;
    list_tasks = list_tasks-Keeps;
    cache_get = λ key. get_entry-Does p.redis _ (Keeps-IsEffect view) key (apart.redis_get key);
    cache_invalidate = cache_invalidate-Keeps;
    new_uuid = apart.new_uuid;
    now = apart.now;
  }

  -- The comment is returned with the number of its row.
  numbered :
      (c : Comment) (w : W) (id : ℕ) (at : Time) {w1 : W}
      → view w1
        ≡ record (view w) { comments = record c { id = id; created_at = at } ∷ (view w).comments }
      → let (r, v) =
          (on_error (wrapped "mysql: last insert id") (lift (ok id)) >>= λ (n : ℕ).
          pure (record c { id = n }))
            w1 in
        Saved c (view w) r (view v)
  unfolding ◌>>=◌ on_error
  numbered c w id at done = (refl, (at, done))

  save_comment-Saved :
      (c : Comment) (w : W)
      → let (r, v) = Comments.save_comment p.db c w in Saved c (view w) r (view v)
  unfolding Comments.save_comment
  save_comment-Saved c w =
      let w1 = (p.db.exec Comments.insert_comment (Comments.comment_args c) w).1 in
      let inserted = λ (r : Result (Result ℕ)). Inserted c (view w) r (view w1) in
      after_checked (λ (r : Result Comment) (v : W). Saved c (view w) r (view v)) _ _ _ w
        (λ res e.
          let (id, at, number, done) = subst inserted e (laws.insert_comment c w) in
          rw number (numbered c w id at done))
        (λ e h. subst inserted h (laws.insert_comment c w))

  to_comment-task_id :
      (id : Uuid) (r : CommentRow) (c : Comment)
      → r.task_id ≡ uuid_to_bytes id
      → to_comment r ≡ ok c
      → c.task_id ≡ id
  unfolding to_comment
  to_comment-task_id id r c own e =
      let (task, task_ok, rest) = parse_ok _ (bytes_to_uuid r.task_id) _ c e in
      let (user, user_ok, whole) = parse_ok _ (bytes_to_uuid r.user_id) _ c rest in
      let same = (bytes_to_uuid_ok r.task_id task task_ok).0 ∙ own in
      let task_is : task ≡ id = λ i. record { bytes = same i } in
      let field : task ≡ c.task_id = cc in sym field ∙ task_is

  comment_of_task :
      (id : Uuid) (rows : List CommentRow) (cs : List Comment)
      → All (λ (r : CommentRow). r.task_id ≡ uuid_to_bytes id) rows
      → convert_rows to_comment rows ≡ ok cs
      → All (λ (c : Comment). c.task_id ≡ id) cs
  unfolding convert_rows
  comment_of_task id [] [] own e = tt
  comment_of_task id [] (c ∷ cs) own e = cc
  comment_of_task id (r ∷ rows) cs (own, others) e =
      let (c, ds, one, rest, is) =
        collected_ok (to_comment r) (convert_rows to_comment rows) cs e in
      subst (All (λ (d : Comment). d.task_id ≡ id)) is
        (to_comment-task_id id r c own one, comment_of_task id rows ds others rest)

  converted :
      (id : Uuid) (rows : List CommentRow) {r : Result (List Comment)}
      → All (λ (row : CommentRow). row.task_id ≡ uuid_to_bytes id) rows
      → convert_rows to_comment rows ≡ r
      → OfTask id r
  converted id rows {r = ok cs} own e = comment_of_task id rows cs own e
  converted id rows {r = err x} own e = tt

  list_comments-OfTask :
      (id : Uuid) (w : W)
      → let (r, v) = Comments.list_comments p.db id w in (view v ≡ view w) × OfTask id r
  unfolding Comments.list_comments
  list_comments-OfTask id w =
      after_checked (λ (r : Result (List Comment)) (v : W). (view v ≡ view w) × OfTask id r) _ _ _ w
        (λ rows e.
          (laws.select_keeps _ _ _ w, converted id rows (laws.comments_of id w rows e) refl))
        (λ e h. (laws.select_keeps _ _ _ w, tt))

  -- The comment service has the storages that its theorems are about: a comment is saved as one row
  -- or not at all, and the comments that are listed are those of the task.
  comment_service-IsCommentStore : IsCommentStore (comment_service p) view
  unfolding comment_service
  comment_service-IsCommentStore = record {
    save_comment = save_comment-Saved;
    list_comments = list_comments-OfTask;
    get_task_by_id = get_task_by_id-LooksUp p.db view draft laws;
    get_member_role = get_member_role-LooksUp p.db view draft laws;
  }
