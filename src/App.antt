-- ===== src/App.antt =====
-- `New` of internal/app/app.go: how the storages, the cache and the notifier are handed to the
-- services, and the order of what a request passes through.
pub mod Stores
pub mod Caching
pub mod Pages
pub mod Signup
pub mod Life
mod Tests
use team_tasks.Base.{ℕ, String, Option, none, some, List}
use team_tasks.Domain.Errors.{Result, err, plain}
use team_tasks.Action.{⊤, Action}
use team_tasks.Platform.{Platform}
use team_tasks.Auth.Service as Auth
use team_tasks.Team.Service as Team
use team_tasks.Task.Service as Task
use team_tasks.Comment.Service as Comment
use team_tasks.Handler.Reports as Reports
use team_tasks.Notifier.{EmailClient, send_invite}
use team_tasks.Redis.TaskCache.{Client, get_entry, put_entry, invalidate}
use team_tasks.Mysql.Driver.{Db}
use team_tasks.Mysql.Storage.Users as Users
use team_tasks.Mysql.Storage.Teams as Teams
use team_tasks.Mysql.Storage.Tasks as Tasks
use team_tasks.Mysql.Storage.Comments as Comments
use team_tasks.Mysql.Storage.Analytics as Analytics

-- What the services are made of: the driver of the database, the client of Redis, the
-- notifier, the configuration and the library functions.
pub record Parts (W : Type 0) : Type 0 where
  pub platform : Platform W
  pub db : Db W
  pub redis : Client W
  -- a bound on the turns of a scan loop
  pub turns : ℕ
  pub email_client : EmailClient W
  pub jwt_secret : String
  pub jwt_expiry : ℕ
  pub task_list_ttl : ℕ
  pub generate_from_password : String → Action W String
  pub compare_hash_and_password : String → String → Result ⊤
  pub signed_string : String → Auth.Claims → Result String
  pub marshal : Task.CachedList → Result (List ℕ)
  pub unmarshal : List ℕ → Result Task.CachedList

module _ {W : Type 0} (p : Parts W) where
  -- `authsvc.New(userStorage, userStorage, cfg.Auth.JWTSecret, cfg.Auth.JWTExpiry)`
  unfoldable pub auth_service : Auth.Deps W
  auth_service = record {
    platform = p.platform;
    save_user = Users.save_user p.db;
    get_by_email = Users.get_by_email p.db;
    secret = p.jwt_secret;
    expiry = p.jwt_expiry;
    generate_from_password = p.generate_from_password;
    compare_hash_and_password = p.compare_hash_and_password;
    signed_string = p.signed_string;
  }

  -- `teamsvc.New(teamStorage, teamStorage, userStorage, emailClient)`
  unfoldable pub team_service : Team.Deps W
  team_service = record {
    platform = p.platform;
    create_team_with_owner = Teams.create_team_with_owner p.db;
    save_member = Teams.save_member p.db;
    get_teams_by_user = Teams.get_teams_by_user p.db;
    get_team_by_id = Teams.get_team_by_id p.db;
    get_member_role = Teams.get_member_role p.db;
    get_user_by_id = Users.get_by_id p.db;
    send_invite = send_invite p.email_client;
  }

  -- A loop that has not ended within the bound counts as failed.
  abbrev pub ended : W → Option (Result ⊤ × W) → Result ⊤ × W
  ended w (some done) = done
  ended w none = (err (plain "out of turns"), w)

  -- `TaskCache.Invalidate`
  unfoldable pub cache_invalidate : String → Action W ⊤
  cache_invalidate pattern w = ended w (invalidate p.redis p.turns pattern w)

  -- `tasksvc.New(…, teamStorage, taskCache, cfg.Redis.TaskListTTL)`
  unfoldable pub task_service : Task.Deps W
  task_service = record {
    platform = p.platform;
    save_task = Tasks.save_task p.db;
    get_task_by_id = Tasks.get_task_by_id p.db;
    list_tasks = Tasks.list_tasks p.db;
    update_task_with_history = Tasks.update_task_with_history p.db;
    list_history = Tasks.list_history p.db;
    get_member_role = Teams.get_member_role p.db;
    cache_get = get_entry p.redis;
    cache_set = put_entry p.redis;
    cache_invalidate = cache_invalidate;
    ttl = p.task_list_ttl;
    marshal = p.marshal;
    unmarshal = p.unmarshal;
  }

  -- `commentsvc.New(commentStorage, commentStorage, taskStorage, teamStorage)`
  unfoldable pub comment_service : Comment.Deps W
  comment_service = record {
    save_comment = Comments.save_comment p.db;
    list_comments = Comments.list_comments p.db;
    get_task_by_id = Tasks.get_task_by_id p.db;
    get_member_role = Teams.get_member_role p.db;
  }

  -- `analyticsvc.New(analyticsStorage, analyticsStorage, analyticsStorage)`
  unfoldable pub analytics_service : Reports.Deps W
  analytics_service = record {
    read_summaries = Analytics.team_summaries p.db;
    read_contributors = Analytics.top_contributors p.db;
    read_orphans = Analytics.orphan_tasks p.db;
  }
