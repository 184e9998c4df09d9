-- ===== src/Comment/Service/Discussion.antt =====
-- What `Service.Add` and `Service.List` of internal/service/comment/comment.go do, and for whom.
use team_tasks.Base.{String, none, some, List, ◌∷◌, ◌≡◌, ◌≢◌, ◌∙◌, ap, subst, All}
use team_tasks.Domain.{Time, Task, Comment, time_zero}
use team_tasks.Domain.Ids.{Uuid}
use team_tasks.Domain.Errors.{Result, ok, err}
use team_tasks.Action.Rules.{last_checked}
use team_tasks.Store.{Tables, role_of, find_task, LooksUp}
use team_tasks.Store.Rules.{after_lookup}
use team_tasks.Comment.Service.{Deps, new_comment, add, list}

-- The saving of a comment: the table numbers and dates the row, and the call returns the comment
-- with the number only.
abbrev pub Saved : Comment → Tables → Result Comment → Tables → Type 0
Saved c before (ok r) after =
    (r ≡ record c { id = r.id })
    × ((at : Time) × (after
          ≡ record before { comments = record r { created_at = at } ∷ before.comments }))
Saved c before (err e) after = after ≡ before

abbrev pub OfTask : Uuid → Result (List Comment) → Type 0
OfTask task_id (ok cs) = All (λ (c : Comment). c.task_id ≡ task_id) cs
OfTask task_id (err e) = Unit

-- What the service relies on, in a run in which no other request writes between its calls.
pub record IsCommentStore {W : Type 0} (s : Deps W) (view : W → Tables) : Type 0 where
  pub save_comment :
      (c : Comment) (w : W) → Saved c (view w) (s.save_comment c w).0 (view (s.save_comment c w).1)
  pub list_comments :
      (id : Uuid) (w : W)
      → (view (s.list_comments id w).1 ≡ view w) × OfTask id (s.list_comments id w).0
  pub get_task_by_id : (id : Uuid) → LooksUp view (s.get_task_by_id id) (λ b. find_task id b.tasks)
  pub get_member_role :
      (team_id user_id : Uuid)
      → LooksUp view (s.get_member_role team_id user_id) (λ b. role_of team_id user_id b.members)

-- The task is stored, and the caller is a member of its team.
abbrev pub MayDiscuss : Uuid → Uuid → Tables → Type 0
MayDiscuss caller_id task_id b =
    (task : Task) × (find_task task_id b.tasks ≡ some task)
    × (role_of task.team_id caller_id b.members ≢ none)

-- What a call that has ended with a result has done. With a comment: the caller could discuss the
-- task, one row is added, and it is the comment but for its date, which the result does not have.
-- With an error: nothing.
abbrev pub Commented : Uuid → Uuid → String → Tables → Result Comment → Tables → Type 0
Commented caller_id task_id body before (ok c) after =
    MayDiscuss caller_id task_id before
    × ((at : Time) × (after
          ≡ record before { comments = record c { created_at = at } ∷ before.comments }))
    × (c.task_id ≡ task_id)
    × (c.user_id ≡ caller_id)
    × (c.body ≡ body)
    × (c.created_at ≡ time_zero)
Commented caller_id task_id body before (err e) after = after ≡ before

-- A list is shown only to those who could discuss the task, and has comments on it only.
abbrev pub Shown : Uuid → Uuid → Tables → Result (List Comment) → Tables → Type 0
Shown caller_id task_id before (ok cs) after =
    MayDiscuss caller_id task_id before × OfTask task_id (ok cs) × (after ≡ before)
Shown caller_id task_id before (err e) after = after ≡ before

module _ {W : Type 0} (s : Deps W) (view : W → Tables) (laws : IsCommentStore s view) where
  may_discuss :
      (caller_id task_id : Uuid) (w w1 : W) (task : Task)
      → find_task task_id (view w).tasks ≡ some task
      → role_of task.team_id caller_id (view w1).members ≢ none
      → view w1 ≡ view w
      → MayDiscuss caller_id task_id (view w)
  may_discuss caller_id task_id w w1 task found member same = (
    task,
    found,
    subst (λ (b : Tables). role_of task.team_id caller_id b.members ≢ none) same member,
  )

  commented :
      (caller_id task_id : Uuid) (body : String) (before middle after : Tables) (r : Comment)
      → MayDiscuss caller_id task_id before
      → middle ≡ before
      → Saved (new_comment caller_id task_id body) middle (ok r) after
      → Commented caller_id task_id body before (ok r) after
  commented caller_id task_id body before middle after r may same (is, (at, done)) = (
    may,
    (
      at,
      done
          ∙ ap (λ (b : Tables). record b { comments = record r { created_at = at } ∷ b.comments })
              same,
    ),
    ap (λ (c : Comment). c.task_id) is,
    ap (λ (c : Comment). c.user_id) is,
    ap (λ (c : Comment). c.body) is,
    ap (λ (c : Comment). c.created_at) is,
  )

  -- A comment is added only to a stored task by a member of its team; then one row is added, of
  -- which the result has every field but the date, which it leaves at the zero time; otherwise,
  -- whatever fails, the tables stay as they are.
  pub add-Commented :
      (caller_id task_id : Uuid) (body : String) (w : W)
      → let (r, w') = add s caller_id task_id body w in
        Commented caller_id task_id body (view w) r (view w')
  unfolding add
  add-Commented caller_id task_id body w =
      let P =
        λ (r : Result Comment) (v : W). Commented caller_id task_id body (view w) r (view v) in
      let c = new_comment caller_id task_id body in
      after_lookup view P (λ b. find_task task_id b.tasks) _ _ _ w (laws.get_task_by_id task_id)
        (λ task w1 found same1.
          after_lookup view P (λ b. role_of task.team_id caller_id b.members) _ _ _ w1
            (laws.get_member_role task.team_id caller_id)
            (λ role w2 member same2.
              let saved = laws.save_comment c w2 in
              let after = view (s.save_comment c w2).1 in
              let may = may_discuss caller_id task_id w w1 task found (λ absent. cc) same1 in
              last_checked P _ (s.save_comment c) w2
                (λ r e.
                  commented caller_id task_id body (view w) (view w2) after r may (same2 ∙ same1)
                    (subst (λ x. Saved c (view w2) x after) e saved))
                (λ x e. subst (λ x. Saved c (view w2) x after) e saved ∙ same2 ∙ same1))
            (λ e w2 missing same2. same2 ∙ same1))
        (λ e w1 missing same. same)

  -- A list of comments is given only to a member of the team of a stored task, has comments on that
  -- task only, and changes no table.
  list-Shown :
      (caller_id task_id : Uuid) (w : W)
      → let (r, w') = list s caller_id task_id w in Shown caller_id task_id (view w) r (view w')
  unfolding list
  list-Shown caller_id task_id w =
      let P = λ (r : Result (List Comment)) (v : W). Shown caller_id task_id (view w) r (view v) in
      after_lookup view P (λ b. find_task task_id b.tasks) _ _ _ w (laws.get_task_by_id task_id)
        (λ task w1 found same1.
          after_lookup view P (λ b. role_of task.team_id caller_id b.members) _ _ _ w1
            (laws.get_member_role task.team_id caller_id)
            (λ role w2 member same2.
              let (kept, of_task) = laws.list_comments task_id w2 in
              let may = may_discuss caller_id task_id w w1 task found (λ absent. cc) same1 in
              last_checked P _ (s.list_comments task_id) w2
                (λ cs e. (may, subst (OfTask task_id) e of_task, kept ∙ same2 ∙ same1))
                (λ x e. kept ∙ same2 ∙ same1))
            (λ e w2 missing same2. same2 ∙ same1))
        (λ e w1 missing same. same)
