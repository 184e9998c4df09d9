-- ===== src/Handler/Comments.antt =====
-- `ListTaskComments` and `AddTaskComment` of internal/handler/comment.go.
use team_tasks.Base.{ℕ, String, Option, none, some, List, [], ◌∷◌, map, str_eq, if◌then◌else◌}
use team_tasks.Domain.{Comment, Time}
use team_tasks.Domain.Ids.{Uuid}
use team_tasks.Domain.Errors.{forbidden, not_found}
use team_tasks.Action.{Action, pure}
use team_tasks.Handler.Response.{
  Response, refused, Case, authorized, answer, msg_forbidden, msg_task_not_found,
}

-- `CommentService`
pub record CommentService (W : Type 0) : Type 0 where
  pub add : Uuid → Uuid → String → Action W Comment
  pub list : Uuid → Uuid → Action W (List Comment)

pub record ApiComment : Type 0 where
  pub id : ℕ
  pub task_id : Uuid
  pub user_id : Uuid
  pub body : String
  pub created_at : Time

abbrev pub to_api_comment : Comment → ApiComment
to_api_comment c = record {
  id = c.id;
  task_id = c.task_id;
  user_id = c.user_id;
  body = c.body;
  created_at = c.created_at;
}

abbrev pub task_cases : List Case
task_cases =
    record { target = not_found; status = 404; message = msg_task_not_found }
    ∷ record { target = forbidden; status = 403; message = msg_forbidden }
    ∷ []

module _ {W : Type 0} (comments : CommentService W) where
  unfoldable pub list_task_comments : Option Uuid → Uuid → Action W (Response (List ApiComment))
  list_task_comments user id =
      authorized user
        λ caller_id. answer 200 (map to_api_comment) task_cases (comments.list caller_id id)

  -- `if req.Body == nil || req.Body.Body == ""`
  unfoldable pub add_text : Uuid → Uuid → Option String → Action W (Response ApiComment)
  add_text caller_id id none = pure (refused 400 "body is required")
  add_text caller_id id (some text) =
      if str_eq text ""
      then pure (refused 400 "body is required")
      else answer 201 to_api_comment task_cases (comments.add caller_id id text)

  unfoldable pub add_task_comment :
      Option Uuid → Uuid → Option String → Action W (Response ApiComment)
  add_task_comment user id body = authorized user λ caller_id. add_text caller_id id body
