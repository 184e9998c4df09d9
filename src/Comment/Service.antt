-- ===== src/Comment/Service.antt =====
-- `Service` of internal/service/comment/comment.go, without its log lines.
pub mod Discussion
use team_tasks.Base.{String, List}
use team_tasks.Domain.{Task, Comment, Role, time_zero}
use team_tasks.Domain.Ids.{Uuid}
use team_tasks.Domain.Errors.{wrapped, membership_error}
use team_tasks.Action.{Action, on_error, ◌>>=◌, ◌>>◌}

-- The fields of `Service`, by the methods of their interfaces.
pub record Deps (W : Type 0) : Type 0 where
  pub save_comment : Comment → Action W Comment
  pub list_comments : Uuid → Action W (List Comment)
  pub get_task_by_id : Uuid → Action W Task
  pub get_member_role : Uuid → Uuid → Action W Role

-- `domain.Comment{TaskID: …, UserID: …, Body: …}`
abbrev pub new_comment : Uuid → Uuid → String → Comment
new_comment caller_id task_id body = record {
  id = 0;
  task_id = task_id;
  user_id = caller_id;
  body = body;
  created_at = time_zero;
}

module _ {W : Type 0} (s : Deps W) where
  unfoldable pub add : Uuid → Uuid → String → Action W Comment
  add caller_id task_id body = do
    task ← on_error (wrapped "comment.Service.Add: get task") (s.get_task_by_id task_id)
    on_error (membership_error "comment.Service.Add: get member role")
        (s.get_member_role task.team_id caller_id)
    on_error (wrapped "comment.Service.Add: save comment")
        (s.save_comment (new_comment caller_id task_id body))

  unfoldable pub list : Uuid → Uuid → Action W (List Comment)
  list caller_id task_id = do
    task ← on_error (wrapped "comment.Service.List: get task") (s.get_task_by_id task_id)
    on_error (membership_error "comment.Service.List: get member role")
        (s.get_member_role task.team_id caller_id)
    on_error (wrapped "comment.Service.List: list comments") (s.list_comments task_id)
