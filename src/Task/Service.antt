-- ===== src/Task/Service.antt =====
-- `Service` of internal/service/task/task.go. Log lines are left out; what is only logged when it
-- fails is `ignore`.
pub mod Contract
pub mod Creation
pub mod Updating
pub mod Caching
pub mod Listing
pub mod Freshness
pub mod Requests
pub mod Logged
pub mod History
pub mod Availability
pub mod Permission
use team_tasks.Base.{
  ℕ, ℤ, pos, leb_ℤ, String, Bool, true, false, not, ◌&&◌, Option, none, some, List, map, str_eq,
  if◌then◌else◌,
}
use team_tasks.Domain.{
  Time, Task, TaskHistory, TaskFilter, CreateTaskInput, UpdateTaskInput, Role, TaskPriority,
  status_todo, priority_medium,
}
use team_tasks.Domain.Ids.{Uuid}
use team_tasks.Domain.Errors.{
  Error, Result, ok, err, sentinel, wrapped, errors_is, not_found, forbidden, membership_error,
}
use team_tasks.Action.{⊤, Action, pure, throw, attempt, on_error, ignore, ◌>>=◌, ◌>>◌}
use team_tasks.Platform.{Platform, read_clock}
use team_tasks.Task.Diff.{Edit, build_history_entries, uuid_ptr_equal}
use team_tasks.Task.Key.{cache_key, cache_pattern}

-- `cachedList`: the tasks and the total.
abbrev pub CachedList : Type 0
CachedList = List Task × ℤ

-- The fields of `Service`, by the methods of their interfaces; `marshal` and `unmarshal` are
-- encoding/json at `cachedList`.
pub record Deps (W : Type 0) : Type 0 where
  pub platform : Platform W
  pub save_task : Task → Action W ⊤
  pub get_task_by_id : Uuid → Action W Task
  pub list_tasks : TaskFilter → Action W (List Task × ℤ)
  pub update_task_with_history : Task → List TaskHistory → Action W ⊤
  pub list_history : Uuid → Action W (List TaskHistory)
  pub get_member_role : Uuid → Uuid → Action W Role
  pub cache_get : String → Action W (List ℕ)
  pub cache_set : String → List ℕ → ℕ → Action W ⊤
  pub cache_invalidate : String → Action W ⊤
  pub ttl : ℕ
  pub marshal : CachedList → Result (List ℕ)
  pub unmarshal : List ℕ → Result CachedList

-- The two returns behind `GetMemberRole` of the assignee.
abbrev pub assignee_error : String → Error → Error
assignee_error label e =
    if errors_is not_found e
    then wrapped "assignee is not a team member" (sentinel forbidden)
    else wrapped label e

-- `if filter.Page <= 0 { filter.Page = 1 }`
unfoldable pub default_page : ℤ → ℤ
default_page page = if leb_ℤ page (pos 0) then pos 1 else page

-- `if filter.Limit <= 0 …`, then `if filter.Limit > 100 …`
unfoldable pub clamp_limit : ℤ → ℤ
clamp_limit limit =
    let given = if leb_ℤ limit (pos 0) then pos 20 else limit in
    if leb_ℤ given (pos 100) then given else pos 100

abbrev pub normalize_paging : TaskFilter → TaskFilter
normalize_paging f = record f { page = default_page f.page; limit = clamp_limit f.limit }

module _ {W : Type 0} (s : Deps W) where
  abbrev pub uuid_string : Uuid → String
  uuid_string = s.platform.formats.uuid_string

  -- `if input.AssigneeID != nil { … }`
  unfoldable pub check_assignee : String → Uuid → Option Uuid → Action W ⊤
  check_assignee label team_id none = pure tt
  check_assignee label team_id (some id) =
      on_error (assignee_error label) (s.get_member_role team_id id) >> pure tt

  abbrev pub new_task : Uuid → Uuid → CreateTaskInput → Time → Task
  new_task id creator_id input now = record {
    id = id;
    team_id = input.team_id;
    created_by = creator_id;
    assignee_id = input.assignee_id;
    title = input.title;
    description = input.description;
    status = status_todo;
    priority = if str_eq input.priority "" then priority_medium else input.priority;
    due_date = input.due_date;
    created_at = now;
    updated_at = now;
  }

  unfoldable pub create : Uuid → CreateTaskInput → Action W Task
  create creator_id input = do
    on_error (membership_error "task.Service.Create: get member role")
        (s.get_member_role input.team_id creator_id)
    check_assignee "task.Service.Create: check assignee membership" input.team_id input.assignee_id
    id ← on_error (wrapped "task.Service.Create: generate task id") s.platform.new_uuid
    now ← read_clock s.platform
    let task = new_task id creator_id input now
    on_error (wrapped "task.Service.Create: save task") (s.save_task task)
    ignore (s.cache_invalidate (cache_pattern uuid_string input.team_id))
    pure task

  -- `if data, err := json.Marshal(…); err == nil { … }`
  unfoldable pub populate : String → Result (List ℕ) → Action W ⊤
  populate key (ok bytes) = ignore (s.cache_set key bytes s.ttl)
  populate key (err e) = pure tt

  unfoldable pub fetch : TaskFilter → String → Action W CachedList
  fetch filter key = do
    found ← on_error (wrapped "task.Service.List: list tasks") (s.list_tasks filter)
    populate key (s.marshal found)
    pure found

  -- The two tests on the cached bytes; each failure goes on to the database.
  unfoldable pub decode : TaskFilter → String → Result CachedList → Action W CachedList
  decode filter key (ok cached) = pure cached
  decode filter key (err e) = fetch filter key

  unfoldable pub use_cached : TaskFilter → String → Result (List ℕ) → Action W CachedList
  use_cached filter key (ok bytes) = decode filter key (s.unmarshal bytes)
  use_cached filter key (err e) = fetch filter key

  unfoldable pub list_team : Uuid → TaskFilter → Uuid → Action W CachedList
  list_team caller_id filter team_id = do
    on_error (membership_error "task.Service.List: get member role")
        (s.get_member_role team_id caller_id)
    let f = normalize_paging filter
    let key = cache_key uuid_string f
    attempt (s.cache_get key) (use_cached f key)

  -- `if filter.TeamID == nil { return nil, 0, domain.ErrForbidden }`
  unfoldable pub list_for : Uuid → TaskFilter → Option Uuid → Action W CachedList
  list_for caller_id filter none = throw (sentinel forbidden)
  list_for caller_id filter (some team_id) = list_team caller_id filter team_id

  unfoldable pub list : Uuid → TaskFilter → Action W CachedList
  list caller_id filter = list_for caller_id filter filter.team_id

  -- The assignee is checked only if one is given and it is another than the task's.
  unfoldable pub check_new_assignee : Task → Option Uuid → Action W ⊤
  check_new_assignee task none = pure tt
  check_new_assignee task (some id) =
      if uuid_ptr_equal task.assignee_id (some id)
      then pure tt
      else check_assignee "task.Service.Update: check assignee membership" task.team_id (some id)

  abbrev pub stamp : Time → TaskHistory → TaskHistory
  stamp now h = record h { changed_at = now }

  -- `Update` from the clock on.
  unfoldable pub save_edit : Edit → Action W Task
  save_edit edit = do
    now ← read_clock s.platform
    let task = record (edit.task) { updated_at = now }
    on_error (wrapped "task.Service.Update: update task")
        (s.update_task_with_history task (map (stamp now) edit.entries))
    ignore (s.cache_invalidate (cache_pattern uuid_string task.team_id))
    pure task

  unfoldable pub update : Uuid → Uuid → UpdateTaskInput → Action W Task
  update caller_id task_id input = do
    stored ← on_error (wrapped "task.Service.Update: get task") (s.get_task_by_id task_id)
    on_error (membership_error "task.Service.Update: get member role")
        (s.get_member_role stored.team_id caller_id)
    check_new_assignee stored input.assignee_id
    save_edit (build_history_entries s.platform.formats task_id caller_id stored input)

  unfoldable pub history : Uuid → Uuid → Action W (List TaskHistory)
  history caller_id task_id = do
    task ← on_error (wrapped "task.Service.History: get task") (s.get_task_by_id task_id)
    on_error (membership_error "task.Service.History: get member role")
        (s.get_member_role task.team_id caller_id)
    on_error (wrapped "task.Service.History: list history") (s.list_history task_id)
