-- ===== src/App/Tests/Queries.antt =====
-- The database in memory answers the statements for a list of tasks as their documented meaning
-- asks.
use team_tasks.Base.{
  ◌++◌, ℤ, pos, String, true, Option, none, some, List, [], ◌∷◌, map, ◌≡◌, refl, sym, ◌∙◌, length,
  Bool-cases, and_true, inl, inr, All,
}
use team_tasks.Domain.{Task, TaskFilter}
use team_tasks.Domain.Ids.{Uuid}
use team_tasks.Domain.Errors.{ok}
use team_tasks.Task.Service.{CachedList}
use team_tasks.Mysql.Rows.{task_row, TaskRow}
use team_tasks.Mysql.Conversions.{HasUuids}
use team_tasks.Mysql.Driver.{int}
use team_tasks.Mysql.Storage.Tasks.{
  build_task_filter, join_and, count_statement, page_statement, offset,
}
use team_tasks.Mysql.Query.{selected, task_query, task_query-of_team}
use team_tasks.Memory.Order.{latest_first}
use team_tasks.Memory.Database.{
  database, counted, conditions_of, paged, task_rows, all_good, task_is_good,
}
use team_tasks.Memory.Database.Laws.{task_is_good-HasUuids}
use team_tasks.App.Caching.{IsTaskQuery}

abbrev pub query : TaskFilter → List Task → CachedList
query = task_query (λ f. latest_first)

counted_lem :
    (team_id : Option Uuid) (status : Option String) (assignee_id : Option Uuid) (page limit : ℤ)
    (ts : List Task)
    → let f : TaskFilter = record {
      team_id = team_id;
      status = status;
      assignee_id = assignee_id;
      page = page;
      limit = limit;
    } in
      let c = build_task_filter f in
      counted (conditions_of count_statement (count_statement c.conds)) ts c.args
      ≡ ok (pos (length (selected f ts)))
unfolding build_task_filter join_and
counted_lem none none none page limit ts = refl
counted_lem none none (some a) page limit ts = refl
counted_lem none (some s) none page limit ts = refl
counted_lem none (some s) (some a) page limit ts = refl
counted_lem (some id) none none page limit ts = refl
counted_lem (some id) none (some a) page limit ts = refl
counted_lem (some id) (some s) none page limit ts = refl
counted_lem (some id) (some s) (some a) page limit ts = refl

paged_lem :
    (team_id : Option Uuid) (status : Option String) (assignee_id : Option Uuid) (page limit : ℤ)
    (ts : List Task)
    → let f : TaskFilter = record {
      team_id = team_id;
      status = status;
      assignee_id = assignee_id;
      page = page;
      limit = limit;
    } in
      let c = build_task_filter f in
      paged
        (conditions_of page_statement (page_statement c.conds))
        ts
        (c.args ++ int f.limit ∷ int (offset f.page f.limit) ∷ [])
      ≡ task_rows (query f ts).0
unfolding build_task_filter join_and task_query
paged_lem none none none page limit ts = refl
paged_lem none none (some a) page limit ts = refl
paged_lem none (some s) none page limit ts = refl
paged_lem none (some s) (some a) page limit ts = refl
paged_lem (some id) none none page limit ts = refl
paged_lem (some id) none (some a) page limit ts = refl
paged_lem (some id) (some s) none page limit ts = refl
paged_lem (some id) (some s) (some a) page limit ts = refl

all_good-HasUuids : (ts : List Task) → all_good ts ≡ true → All HasUuids ts
all_good-HasUuids [] e = tt
all_good-HasUuids (t ∷ ts) e =
    let (good, rest) = and_true (task_is_good t) _ e in
    (task_is_good-HasUuids t good, all_good-HasUuids ts rest)

read_rows :
    (ts : List Task) (rows : List TaskRow)
    → task_rows ts ≡ ok rows
    → (rows ≡ map task_row ts) × All HasUuids ts
read_rows ts rows e = elim (Bool-cases (all_good ts)) [
  | inl good ↦
      (let whole : ok (map task_row ts) ≡ ok rows = rw good at e in cc, all_good-HasUuids ts good)
  | inr bad ↦ cc
]

pub database-IsTaskQuery : IsTaskQuery database (λ w. w.tables) query
unfolding task_query
database-IsTaskQuery = record {
  count_ok = λ f w n e.
      let told : ok n ≡ ok (pos (length (selected f w.tables.tasks))) =
        sym e ∙ counted_lem f.team_id f.status f.assignee_id f.page f.limit w.tables.tasks in
      cc;
  page_ok = λ f w rows e.
      read_rows _ rows
        (sym (paged_lem f.team_id f.status f.assignee_id f.page f.limit w.tables.tasks) ∙ e);
  local = task_query-of_team (λ f. latest_first);
}
