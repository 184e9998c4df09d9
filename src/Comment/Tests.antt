-- ===== src/Comment/Tests.antt =====
-- Runs of the comment service in memory, and its theorems at concrete inputs.
use team_tasks.Base.{◌≡◌, refl}
use team_tasks.Domain.Errors.{err, sentinel, forbidden}
use team_tasks.Domain.Ids.{uuid_eq}
use team_tasks.Action.{◌>>=◌, on_error}
use team_tasks.Store.{role_of, find_task}
use team_tasks.Comment.Service.{add}
use team_tasks.Comment.Service.Discussion.{Commented, add-Commented}
use team_tasks.Memory.{World}
use team_tasks.Memory.Comments.{service, service-IsCommentStore}
use team_tasks.Memory.Fixtures.{member, stranger, task_id, world}

-- A stranger to the team may not comment.
add_by_stranger : add service stranger task_id "hi" world ≡ (err (sentinel forbidden), world)
unfolding add ◌>>=◌ on_error role_of find_task uuid_eq
add_by_stranger = refl

add-Commented_example :
    let (r, w) = add service member task_id "hi" world in
    Commented member task_id "hi" world.tables r w.tables
add-Commented_example =
    add-Commented service (λ (w : World). w.tables) service-IsCommentStore member task_id "hi" world
