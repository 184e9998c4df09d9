-- ===== src/App/Tests/Paging.antt =====
-- Two pages of one task each, listed by the wired task service in memory.
use team_tasks.Base.{ℕ, zero, suc, ◌<◌, pos, none, some, [], ◌∷◌, ◌≡◌, refl, arith}
use team_tasks.Base.Int.{wrap64, ◌-ℤ◌, ◌*ℤ◌}
use team_tasks.Domain.{Task, TaskFilter, role_owner}
use team_tasks.Domain.Ids.{Uuid, uuid_eq}
use team_tasks.Domain.Errors.{ok}
use team_tasks.Action.{attempt, on_error, ignore, ◌>>=◌}
use team_tasks.Store.{role_of}
use team_tasks.Task.Key.{cache_key}
use team_tasks.Task.Service.{
  CachedList, list, list_for, list_team, use_cached, fetch, populate, default_page, clamp_limit,
}
use team_tasks.Task.Service.Caching.{IsFresh}
use team_tasks.Mysql.Rows.{bytes_to_uuid, bytes_to_uuid_ptr, to_task, convert_rows}
use team_tasks.Mysql.Storage.Teams as Teams
use team_tasks.Mysql.Storage.Tasks as Tasks
use team_tasks.Mysql.Storage.Tasks.{build_task_filter, join_and, offset}
use team_tasks.Mysql.Query.{chosen, selected}
use team_tasks.Mysql.Pages.{pages_from}
use team_tasks.Redis.TaskCache.{get_entry, put_entry}
use team_tasks.Memory.Order.{latest_first, insert_task, latest_first-IsOrder}
use team_tasks.Memory.Fixtures.{stored_task, tables}
use team_tasks.Memory.Tasks.{formats-IsUuidText}
use team_tasks.Memory.Database.{World}
use team_tasks.App.{task_service}
use team_tasks.App.Caching.{task_service-IsTaskCache}
use team_tasks.App.Pages.{page_at, list-pages}
use team_tasks.App.Tests.{parts}
use team_tasks.App.Tests.Queries.{query, database-IsTaskQuery}
use team_tasks.App.Tests.Caching.{cached, Matches, Pending, rank, redis-IsRedis, parts-IsCache}
use mathlib.Core.List.{Permᴰ}

-- Two tasks of one team, with identifiers of sixteen bytes.
abbrev wide : ℕ → Uuid
wide n = record { bytes = n ∷ 0 ∷ 0 ∷ 0 ∷ 0 ∷ 0 ∷ 0 ∷ 0 ∷ 0 ∷ 0 ∷ 0 ∷ 0 ∷ 0 ∷ 0 ∷ 0 ∷ 0 ∷ [] }

abbrev task_at : ℕ → Task
task_at at = record stored_task {
  id = wide at;
  team_id = wide 1;
  created_by = wide 2;
  created_at = at;
}

abbrev two_tasks : World
two_tasks = record {
  tables = record tables {
    members = record { team_id = wide 1; user_id = wide 2; role = role_owner } ∷ [];
    tasks = task_at 7 ∷ task_at 9 ∷ [];
  };
  draft = tables;
  cache = [];
  ticks = 0;
}

abbrev of_team_1 : TaskFilter
of_team_1 = record {
  team_id = some (wide 1);
  status = none;
  assignee_id = none;
  page = pos 0;
  limit = pos 0;
}

-- The later task is on the first page.
abbrev found : ℕ → CachedList
found zero = (task_at 9 ∷ [], pos 2)
found (suc k) = (task_at 7 ∷ [], pos 2)

pages_found :
    (k : ℕ)
    → k < 2
    → (list (task_service parts) (wide 2) (page_at of_team_1 1 k) two_tasks).0 ≡ ok (found k)
unfolding list list_for list_team use_cached fetch populate default_page clamp_limit attempt
    on_error ignore ◌>>=◌ task_service Teams.get_member_role Tasks.list_tasks get_entry put_entry
    role_of uuid_eq build_task_filter join_and offset wrap64 ◌-ℤ◌ ◌*ℤ◌ chosen latest_first
    insert_task cache_key bytes_to_uuid bytes_to_uuid_ptr to_task convert_rows
pages_found zero h = refl
pages_found (suc zero) h = refl
pages_found (suc (suc k)) h = absurd (omega arith)

two_tasks-IsFresh : IsFresh (task_service parts) (λ (w : World). w.tables) cached query two_tasks
unfolding task_service
two_tasks-IsFresh team f bytes found given status hit decoded = cc

list-pages_example :
    Permᴰ (pages_from found 0 2) (selected of_team_1 two_tasks.tables.tasks)
    × ((k : ℕ) → k < 2 → (found k).1 ≡ pos 2)
unfolding task_service build_task_filter chosen uuid_eq
list-pages_example =
    list-pages (task_service parts) (λ (w : World). w.tables) cached (λ f. latest_first)
      latest_first-IsOrder
      (task_service-IsTaskCache parts (λ (w : World). w.tables) cached query Matches Pending rank
        database-IsTaskQuery redis-IsRedis parts-IsCache)
      formats-IsUuidText (wide 2) of_team_1 1 2 two_tasks.tables (λ k. two_tasks) found
      (omega arith) (omega arith) (omega arith) tt (λ k. two_tasks-IsFresh) (λ k. refl) pages_found
      ((omega arith, tt), (tt, tt)) (omega arith)
