-- ===== src/Memory/Comments.antt =====
-- The comment service in memory.
use team_tasks.Base.{
  suc, List, [], ◌∷◌, ◌≡◌, refl, All, length, Bool-cases, inl, inr, if◌then◌else◌,
}
use team_tasks.Domain.{Comment}
use team_tasks.Domain.Ids.{Uuid, uuid_eq, uuid_eq_iff}
use team_tasks.Domain.Errors.{ok}
use team_tasks.Store.{role_of, find_task}
use team_tasks.Comment.Service.{Deps}
use team_tasks.Comment.Service.Discussion.{IsCommentStore}
use team_tasks.Memory.{World, or_not_found-Found, look}

abbrev on_task : Uuid → List Comment → List Comment
on_task id [] = []
on_task id (c ∷ cs) = let rest = on_task id cs in if uuid_eq c.task_id id then c ∷ rest else rest

on_task-All :
    (id : Uuid) (cs : List Comment) → All (λ (c : Comment). c.task_id ≡ id) (on_task id cs)
on_task-All id [] = tt
on_task-All id (c ∷ cs) =
    let rest = on_task-All id cs in
    elim (Bool-cases (uuid_eq c.task_id id)) [
      | inl same ↦ rw same ((uuid_eq_iff c.task_id id).0 same, rest)
      | inr other ↦ rw other rest
    ]

abbrev pub service : Deps World
service = record {
  save_comment = λ c w.
      let r = record c { id = suc (length w.tables.comments) } in
      let row = record r { created_at = w.ticks } in
      let tables = record (w.tables) { comments = row ∷ w.tables.comments } in
      (ok r, record w { tables = tables });
  list_comments = λ id w. (ok (on_task id w.tables.comments), w);
  get_task_by_id = λ id. look (λ b. find_task id b.tasks);
  get_member_role = λ team_id user_id. look (λ b. role_of team_id user_id b.members);
}

pub service-IsCommentStore : IsCommentStore service (λ w. w.tables)
service-IsCommentStore = record {
  save_comment = λ c w. (refl, (w.ticks, refl));
  list_comments = λ id w. (refl, on_task-All id w.tables.comments);
  get_task_by_id = λ id w. (refl, or_not_found-Found _);
  get_member_role = λ team_id user_id w. (refl, or_not_found-Found _);
}
