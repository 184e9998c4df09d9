-- ===== src/Mysql/Storage/Comments.antt =====
-- `CommentStorage` of internal/storage/mysql/comment.go.
use team_tasks.Base.{String, List, [], ◌∷◌}
use team_tasks.Domain.{Comment}
use team_tasks.Domain.Ids.{Uuid}
use team_tasks.Domain.Errors.{wrapped}
use team_tasks.Action.{Action, pure, lift, on_error, ◌>>=◌}
use team_tasks.Mysql.Rows.{uuid_to_bytes, to_comment, convert_rows}
use team_tasks.Mysql.Driver.{Db, Value, bytes, text, Scan}

abbrev pub insert_comment : String
insert_comment = "INSERT INTO task_comments (task_id, user_id, body) VALUES (?, ?, ?)"

abbrev pub select_comments : String
select_comments =
    "SELECT id, task_id, user_id, body, created_at FROM task_comments WHERE task_id = ? ORDER BY created_at ASC"

abbrev pub comment_args : Comment → List Value
comment_args c =
    bytes (uuid_to_bytes c.task_id) ∷ bytes (uuid_to_bytes c.user_id) ∷ text c.body ∷ []

module _ {W : Type 0} (db : Db W) where
  unfoldable pub save_comment : Comment → Action W Comment
  save_comment c = do
    res ← on_error (wrapped "mysql: save comment") (db.exec insert_comment (comment_args c))
    id ← on_error (wrapped "mysql: last insert id") (lift res)
    pure (record c { id = id })

  unfoldable pub list_comments : Uuid → Action W (List Comment)
  list_comments task_id = do
    rows ←
        on_error (wrapped "mysql: list comments")
          (db.select Scan.comment_rows select_comments (bytes (uuid_to_bytes task_id) ∷ []))
    lift (convert_rows to_comment rows)
