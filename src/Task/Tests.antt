-- ===== src/Task/Tests.antt =====
-- Runs of the task service in memory, and its theorems at concrete inputs.
use team_tasks.Base.{none, some, [], ◌∷◌, ◌≡◌, refl, pos, inr, All, Option}
use team_tasks.Domain.Errors.{ok, err, sentinel, forbidden, cache_miss, plain, mysql_error}
use team_tasks.Domain.{Task}
use team_tasks.Domain.Ids.{uuid_eq}
use team_tasks.Action.{⊤, Action, ◌>>=◌, on_error, attempt, ignore}
use team_tasks.Platform.{read_clock}
use team_tasks.Store.{role_of, find_task, update_task, Written}
use team_tasks.Task.Diff.{build_history_entries}
use team_tasks.Task.Diff.Laws.{overlay}
use team_tasks.Task.Diff.Audit.{NamesChanges, Records, build_history_entries-audits}
use team_tasks.Task.Key.{cache_key, cache_pattern}
use team_tasks.Task.Service.{
  create, list, list_for, list_team, use_cached, decode, fetch, populate, update, save_edit,
  history, Deps, check_assignee, check_new_assignee, default_page, clamp_limit,
}
use team_tasks.Task.Service.Caching.{IsFresh, Same-refl, of_team}
use team_tasks.Task.Service.Creation.{Created, create-Created}
use team_tasks.Task.Service.Updating.{Updated, update-Updated}
use team_tasks.Task.Service.Listing.{Listed}
use team_tasks.Task.Service.Requests.{creates, updates, idle, then, Requests-Listed}
use team_tasks.Task.Service.Contract.{IsTaskStore}
use team_tasks.Task.Service.Logged.{Logged}
use team_tasks.Task.Service.History as History
use team_tasks.Task.Service.Availability.{Succeeds, list-Succeeds}
use team_tasks.Memory.{World, formats, write}
use team_tasks.Memory.Tasks.{
  query, cached, service, service-IsTaskStore, service-IsTaskCache, formats-IsUuidText,
}
use team_tasks.Memory.Fixtures.{
  owner, member, stranger, task_id, team_id, stored_task, world, new_input, done_input, team_filter,
}

-- What a run computes with.
service_runs : Unit {0}
unfolding create list list_for list_team use_cached decode fetch populate update save_edit history
    check_assignee check_new_assignee default_page clamp_limit ◌>>=◌ on_error attempt ignore
    read_clock role_of find_task update_task of_team build_history_entries cache_key cache_pattern
    uuid_eq
service_runs = tt

-- A stranger to the team may create nothing.
create-stranger : create service stranger new_input world ≡ (err (sentinel forbidden), world)
unfolding service_runs
create-stranger = refl

-- An update of three fields leaves three entries.
update_entries :
    All
      (λ h. h.changed_by ≡ member)
      (update service member task_id done_input world).1.tables.history
unfolding service_runs
update_entries = (refl, (refl, (refl, tt)))

-- A second list call is answered by the cache.
list_twice :
    let once = list service owner team_filter world in
    (once.0 ≡ ok ([], pos 0)) × (list service owner team_filter once.1 ≡ once)
unfolding service_runs
list_twice = (refl, refl)

build_history_entries-audits_example :
    let r = build_history_entries formats task_id member stored_task done_input in
    (r.task ≡ overlay stored_task done_input)
    × NamesChanges stored_task r.task r.entries
    × All (Records formats task_id member stored_task r.task) r.entries
build_history_entries-audits_example =
    build_history_entries-audits formats task_id member stored_task done_input

create-Created_example :
    let (r, w) = create service owner new_input world in
    Created owner new_input world.tables r w.tables
create-Created_example =
    create-Created service (λ (w : World). w.tables) service-IsTaskStore owner new_input world

update-Updated_example :
    let (r, w) = update service member task_id done_input world in
    Updated formats member task_id done_input world.tables r w.tables
update-Updated_example =
    update-Updated service (λ (w : World). w.tables) service-IsTaskStore member task_id done_input
      world

-- An empty cache is fresh.
world-IsFresh : IsFresh service (λ (w : World). w.tables) cached query world
world-IsFresh team f bytes found given status hit decoded = cc

-- An owner creates a task, and a member updates another.
abbrev created : World
created = (create service owner new_input world).1

Requests-Listed_example :
    let w = (update service member task_id done_input created).1 in
    IsFresh service (λ (v : World). v.tables) cached query w
    × Listed query team_filter w.tables (list service owner team_filter w).0
Requests-Listed_example =
    Requests-Listed service (λ (w : World). w.tables) cached query service-IsTaskCache
      service-IsTaskStore formats-IsUuidText (λ pattern w. refl)
      (λ task_id w. Same-refl service (λ (v : World). v.tables) cached query w) world-IsFresh
      (then (creates owner new_input world) (then (updates member task_id done_input created) idle))
      owner team_filter (inr (inr refl))

-- The cache refuses every call.
abbrev cacheless : Deps World
cacheless = record service {
  cache_get = λ key w. (err cache_miss, w);
  cache_set = λ key bytes ttl w. (err (plain "down"), w);
  cache_invalidate = λ pattern w. (err (plain "down"), w);
}

list-Succeeds_example : Succeeds (list cacheless owner team_filter world).0
list-Succeeds_example =
    list-Succeeds cacheless (λ f w e failed. cc) owner team_id team_filter world refl
      (unfold role_of uuid_eq in λ e failed. cc)

-- The service over a table that refuses a second row under one identifier.
abbrev insert : Option Task → Task → Action World ⊤
insert none t w = write (λ b. record b { tasks = t ∷ b.tasks }) w
insert (some old) t w = (err (mysql_error 1062), w)

abbrev strict : Deps World
strict = record service { save_task = λ t w. insert (find_task t.id w.tables.tasks) t w }

insert-Written :
    (o : Option Task) (t : Task) (w : World)
    → Written w.tables
        (record (w.tables) { tasks = t ∷ w.tables.tasks })
        (insert o t w).0
        (insert o t w).1.tables
insert-Written none t w = refl
insert-Written (some old) t w = refl

strict-IsTaskStore : IsTaskStore strict (λ (w : World). w.tables)
strict-IsTaskStore = record {
  save_task = λ t w. insert-Written (find_task t.id w.tables.tasks) t w;
  get_task_by_id = service-IsTaskStore.get_task_by_id;
  update_task_with_history = service-IsTaskStore.update_task_with_history;
  get_member_role = service-IsTaskStore.get_member_role;
  list_history = service-IsTaskStore.list_history;
  list_tasks = service-IsTaskStore.list_tasks;
  cache_get = service-IsTaskStore.cache_get;
  cache_invalidate = service-IsTaskStore.cache_invalidate;
  new_uuid = service-IsTaskStore.new_uuid;
  now = service-IsTaskStore.now;
}

inserted-new : (o : Option Task) (t : Task) (w : World) (u : ⊤) → (insert o t w).0 ≡ ok u → o ≡ none
inserted-new none t w u e = refl
inserted-new (some old) t w u e = cc

Changes-Logged_example :
    let once = (create strict owner new_input world).1 in
    Logged formats world.tables (update strict member task_id done_input once).1.tables
Changes-Logged_example =
    let once = (create strict owner new_input world).1 in
    History.Changes-Logged strict (λ (w : World). w.tables) strict-IsTaskStore
      (λ t w u e. inserted-new (find_task t.id w.tables.tasks) t w u e)
      (History.follows (History.creates owner new_input world)
        (History.follows (History.updates member task_id done_input once) History.idle))
