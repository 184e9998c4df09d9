-- ===== src/Task/Service/Contract.antt =====
-- What the task service relies on of its storages, and the step over its check of an assignee.
use team_tasks.Base.{Option, none, some, List, ◌++◌, ◌∷◌, ◌≡◌, ◌≢◌, refl, String}
use team_tasks.Domain.{Task, TaskHistory, TaskFilter}
use team_tasks.Domain.Ids.{Uuid}
use team_tasks.Domain.Errors.{Error, Result, err}
use team_tasks.Action.{⊤, Action, pure, ◌>>=◌}
use team_tasks.Action.Rules.{>>=_assoc, pure->>=}
use team_tasks.Store.Rules.{after_lookup}
use team_tasks.Store.{
  Tables, role_of, find_task, update_task, Keeps, LooksUp, Writes, Lists, IsHistoryOf,
}
use team_tasks.Task.Diff.Laws.{Unnumbered}
use team_tasks.Task.Service.{Deps, check_assignee, assignee_error}

-- What the service relies on, in a run in which no other request writes between its calls.
pub record IsTaskStore {W : Type 0} (s : Deps W) (view : W → Tables) : Type 0 where
  pub save_task : (t : Task) → Writes view (s.save_task t) (λ b. record b { tasks = t ∷ b.tasks })
  pub get_task_by_id : (id : Uuid) → LooksUp view (s.get_task_by_id id) (λ b. find_task id b.tasks)
  pub update_task_with_history :
      (t : Task) (hs : List TaskHistory)
      → Unnumbered hs
      → Writes view
          (s.update_task_with_history t hs)
          (λ b. record b { tasks = update_task t b.tasks; history = b.history ++ hs })
  pub get_member_role :
      (team_id user_id : Uuid)
      → LooksUp view (s.get_member_role team_id user_id) (λ b. role_of team_id user_id b.members)
  pub list_history :
      (id : Uuid) (w : W)
      → let (r, v) = s.list_history id w in (view v ≡ view w) × Lists (IsHistoryOf id (view w)) r
  pub list_tasks : (f : TaskFilter) → Keeps view (s.list_tasks f)
  pub cache_get : (key : String) → Keeps view (s.cache_get key)
  pub cache_invalidate : (pattern : String) → Keeps view (s.cache_invalidate pattern)
  pub new_uuid : Keeps view s.platform.new_uuid
  pub now : (w : W) → view (s.platform.now w).1 ≡ view w

-- A given assignee is a member of the team.
abbrev pub AssigneeIsMember : Uuid → Option Uuid → Tables → Type 0
AssigneeIsMember team_id none b = Unit
AssigneeIsMember team_id (some id) b = role_of team_id id b.members ≢ none

module _ {W : Type 0} (s : Deps W) (view : W → Tables) (laws : IsTaskStore s view) where
  -- The check of an assignee: either it passes, and a given assignee is a member, or it fails; it
  -- leaves the tables as they are.
  pub after_assignee :
      {B : Type 0} (P : Result B → W → Type 0) (label : String) (team_id : Uuid) (o : Option Uuid)
      (f : ⊤ → Action W B) (w : W)
      → ((w1 : W)
          → AssigneeIsMember team_id o (view w)
          → view w1 ≡ view w
          → P (f tt w1).0 (f tt w1).1)
      → ((e : Error) (w1 : W) → view w1 ≡ view w → P (err e) w1)
      → P
          ((check_assignee s label team_id o >>= f) w).0
          ((check_assignee s label team_id o >>= f) w).1
  unfolding check_assignee
  after_assignee P label team_id none f w good bad = rw pure->>= (good w tt refl)
  after_assignee P label team_id (some id) f w good bad = rw >>=_assoc (
      after_lookup view P (λ b. role_of team_id id b.members) (assignee_error label)
        (s.get_member_role team_id id) (λ role. pure tt >>= f) w (laws.get_member_role team_id id)
        (λ role w1 member same. rw pure->>= (good w1 (λ absent. cc) same))
        (λ e w1 missing same. bad _ w1 same))
