-- ===== src/App/Caching.antt =====
-- What the task service relies on of its cache and of its query holds of the Redis cache and the
-- MySQL storages that `New` of internal/app/app.go gives it.
use Prim.Native.String.{◌++◌ as append}
use team_tasks.Base.{
  ℕ, ℤ, ◌<◌, String, true, Option, none, some, List, [], ◌∷◌, ◌++◌, map, ◌≡◌, ◌⊎◌, inl, inr, refl,
  sym, ◌∙◌, All, Option-cases,
}
use team_tasks.Domain.{Task, TaskHistory, TaskFilter}
use team_tasks.Domain.Ids.{Uuid}
use team_tasks.Domain.Errors.{Result, ok, err}
use team_tasks.Action.{⊤, Action, pure, lift, ◌>>=◌}
use team_tasks.Action.Rules.{after_checked, last_checked}
use team_tasks.Action.Effects.{IsEffect, Does, then-Does, last-Does, lifted-Does, bind-Does}
use team_tasks.Store.{Tables}
use team_tasks.Task.Service.{CachedList}
use team_tasks.Task.Service.Caching.{of_team, IsTaskCache}
use team_tasks.Mysql.Rows.{task_row, TaskRow, to_task, convert_rows}
use team_tasks.Mysql.Conversions.{HasUuids, convert_rows-task_row}
use team_tasks.Mysql.Driver.{Db, Value, int, Scan, with_deferred}
use team_tasks.Mysql.Storage.Teams as Teams
use team_tasks.Mysql.Storage.Tasks as Tasks
use team_tasks.Redis.TaskCache.{get_entry, put_entry, invalidate}
use team_tasks.Redis.Effects.{Left, get_entry-Does, invalidate-Left}
use team_tasks.Redis.Invalidation.{IsRedis, Cleared, invalidate-Cleared}
use team_tasks.App.{Parts, ended, cache_invalidate, task_service}

-- `query` is what the two queries for a list of tasks select: the page and the total.
pub record IsTaskQuery {W : Type 0} (db : Db W) (view : W → Tables)
    (query : TaskFilter → List Task → CachedList) : Type 0 where
  pub count_ok :
      (f : TaskFilter) (w : W) (n : ℤ)
      → (let c = Tasks.build_task_filter f in
          db.get Scan.counts (Tasks.count_statement c.conds) c.args w).0
        ≡ ok n
      → n ≡ (query f (view w).tasks).1
  pub page_ok :
      (f : TaskFilter) (w : W) (rows : List TaskRow)
      → (let c = Tasks.build_task_filter f in
          db.select Scan.task_rows
            (Tasks.page_statement c.conds)
            (c.args ++ int f.limit ∷ int (Tasks.offset f.page f.limit) ∷ [])
            w).0
        ≡ ok rows
      → (rows ≡ map task_row (query f (view w).tasks).0) × All HasUuids (query f (view w).tasks).0
  -- `WHERE team_id = ?` reads no row of another team.
  pub local :
      (f : TaskFilter) (team_id : Uuid) (ts us : List Task)
      → f.team_id ≡ some team_id
      → of_team team_id ts ≡ of_team team_id us
      → query f ts ≡ query f us

module _ {W : Type 0} (cached : W → String → Option (List ℕ)) where
  -- No entry has come into the cache: it may have expired.
  abbrev pub Fewer : W → W → Type 0
  Fewer w v =
      (key : String) (bytes : List ℕ) → cached v key ≡ some bytes → cached w key ≡ some bytes

  abbrev pub Has : W → String → Type 0
  Has w key = (bytes : List ℕ) × (cached w key ≡ some bytes)

  Fewer-IsEffect : IsEffect Fewer
  Fewer-IsEffect = record {
    stays = λ w key bytes e. e;
    chain = λ u v w first second key bytes e. first key bytes (second key bytes e);
  }

  -- Nor has a table changed.
  abbrev pub Rests : (W → Tables) → W → W → Type 0
  Rests view w v = (view v ≡ view w) × Fewer w v

  Rests-IsEffect : (view : W → Tables) → IsEffect (Rests view)
  Rests-IsEffect view = record {
    stays = λ w. (refl, λ key bytes e. e);
    chain = λ u v w first second.
        (second.0 ∙ first.0, λ key bytes e. first.1 key bytes (second.1 key bytes e));
  }

-- What is relied on beside that: MySQL and Redis are apart, and the cache is a map that loses entries
-- by itself only. `Matches`, `Pending` and `rank` are those of `IsRedis`.
pub record IsCache {W : Type 0} (p : Parts W) (view : W → Tables)
    (cached : W → String → Option (List ℕ)) (Matches : String → String → Type 0)
    (rank : String → ℕ → W → ℕ) : Type 0 where
  pub db_get :
      (r : Scan) (statement : String) (args : List Value)
      → Does (Rests cached view) (p.db.get r statement args)
  pub db_select :
      (r : Scan) (statement : String) (args : List Value)
      → Does (Rests cached view) (p.db.select r statement args)
  pub db_exec :
      (statement : String) (args : List Value) → Does (Fewer cached) (p.db.exec statement args)
  pub db_begin : Does (Fewer cached) p.db.begin
  pub db_tx_exec :
      (statement : String) (args : List Value) → Does (Fewer cached) (p.db.tx_exec statement args)
  pub db_commit : Does (Fewer cached) p.db.commit
  pub db_rollback : Does (Fewer cached) p.db.rollback
  pub new_uuid : Does (Rests cached view) p.platform.new_uuid
  pub now : (w : W) → Rests cached view w (p.platform.now w).1
  pub get : (key : String) → Does (Rests cached view) (p.redis.get key)
  pub get_ok :
      (key : String) (w : W) (bytes : List ℕ)
      → (p.redis.get key w).0 ≡ ok bytes
      → cached w key ≡ some bytes
  -- A write of the cache changes one entry at most.
  pub set :
      (key : String) (bytes : List ℕ) (ttl : ℕ) (w : W)
      → let w' = (p.redis.set key bytes ttl w).1 in
        (view w' ≡ view w)
        × ((k : String) (b : List ℕ)
            → cached w' k ≡ some b
            → ((k ≡ key) × (b ≡ bytes)) ⊎ (cached w k ≡ some b))
  pub del : (keys : List String) → Does (Rests cached view) (p.redis.del keys)
  pub scan :
      (cursor : ℕ) (pattern : String) → Does (Rests cached view) (p.redis.scan cursor pattern 100)
  pub star : (prefix : String) → p.redis.has_suffix (append prefix "*") "*" ≡ true
  pub matches : (prefix rest : String) → Matches (append prefix "*") (append prefix rest)
  -- The bound on the turns is enough.
  pub enough : (pattern : String) (w : W) → rank pattern 0 w < p.turns
  -- `json.Unmarshal` reads back what `json.Marshal` wrote.
  pub round_trip :
      (found : CachedList) (bytes : List ℕ)
      → p.marshal found ≡ ok bytes
      → p.unmarshal bytes ≡ ok found

module _ {W : Type 0} (p : Parts W) (view : W → Tables) (cached : W → String → Option (List ℕ))
    (query : TaskFilter → List Task → CachedList) (Matches : String → String → Type 0)
    (Pending : String → ℕ → W → String → Type 0) (rank : String → ℕ → W → ℕ)
    (queried : IsTaskQuery p.db view query)
    (redis : IsRedis p.redis (Has cached) Matches Pending rank)
    (laws : IsCache p view cached Matches rank) where
  get_member_role-Does :
      (team_id user_id : Uuid)
      → Does (Rests cached view) (Teams.get_member_role p.db team_id user_id)
  unfolding Teams.get_member_role
  get_member_role-Does team_id user_id =
      last-Does _ (Rests-IsEffect cached view) _ _ (laws.db_get _ _ _)

  get_task_by_id-Does : (id : Uuid) → Does (Rests cached view) (Tasks.get_task_by_id p.db id)
  unfolding Tasks.get_task_by_id
  get_task_by_id-Does id =
      then-Does _ (Rests-IsEffect cached view) _ _ _ (laws.db_get _ _ _)
        (λ row w. (refl, λ key bytes e. e))

  list_tasks-Does : (f : TaskFilter) → Does (Rests cached view) (Tasks.list_tasks p.db f)
  unfolding Tasks.list_tasks
  list_tasks-Does f =
      let effect = Rests-IsEffect cached view in
      then-Does _ effect _ _ _ (laws.db_get _ _ _) (λ total.
        then-Does _ effect _ _ _ (laws.db_select _ _ _) (λ rows. lifted-Does _ effect _ _))

  abbrev paired : ℤ → List Task → Action W CachedList
  paired total tasks = pure (tasks, total)

  ok_injective : (a b : CachedList) → ok a ≡ ok b → a ≡ b
  ok_injective a b e = cc

  read_page :
      (rows : List TaskRow) (ts : List Task) (total : ℤ)
      → convert_rows to_task rows ≡ ok ts
      → (w : W) → ((lift (convert_rows to_task rows) >>= paired total) w).0 ≡ ok (ts, total)
  unfolding ◌>>=◌
  read_page rows ts total e w = rw e refl

  list_tasks-query :
      (f : TaskFilter) (w : W) (found : CachedList)
      → (Tasks.list_tasks p.db f w).0 ≡ ok found
      → found ≡ query f (view w).tasks
  unfolding Tasks.list_tasks
  list_tasks-query f w =
      let P = λ (r : Result CachedList) (v : W).
        (found : CachedList) → r ≡ ok found → found ≡ query f (view w).tasks in
      after_checked P _ _ _ w
        (λ total counted.
          let same = (laws.db_get _ _ _ w).0 in
          after_checked P _ _ _ _
            (λ rows paged found is.
              let (page, valid) = queried.page_ok f _ rows paged in
              let read = (convert_rows-task_row rows _).1 (page, valid) in
              let whole = sym (read_page rows _ total read _) ∙ is in
              sym (ok_injective _ found whole)
              ∙ (λ i. ((query f (same i).tasks).0, (queried.count_ok f w total counted) i)))
            (λ e h found is. cc))
        (λ e h found is. cc)

  save_task-Does : (t : Task) → Does (Fewer cached) (Tasks.save_task p.db t)
  unfolding Tasks.save_task
  save_task-Does t =
      then-Does _ (Fewer-IsEffect cached) _ _ _ (laws.db_exec _ _) (λ a w key bytes e. e)

  insert_entries-Does : (hs : List TaskHistory) → Does (Fewer cached) (Tasks.insert_entries p.db hs)
  unfolding Tasks.insert_entries
  insert_entries-Does [] = λ w key bytes e. e
  insert_entries-Does (h ∷ hs) =
      then-Does _ (Fewer-IsEffect cached) _ _ _ (laws.db_tx_exec _ _) (λ a. insert_entries-Does hs)

  update_task_with_history-Does :
      (t : Task) (hs : List TaskHistory)
      → Does (Fewer cached) (Tasks.update_task_with_history p.db t hs)
  unfolding Tasks.update_task_with_history with_deferred
  update_task_with_history-Does t hs =
      let effect = Fewer-IsEffect cached in
      let body = then-Does (Fewer cached) effect _ _ _ (laws.db_tx_exec _ _) (λ a.
        bind-Does (Fewer cached) effect _ _ (insert_entries-Does hs)
          (λ b. then-Does (Fewer cached) effect _ _ _ laws.db_commit (λ c w key bytes e. e))) in
      then-Does (Fewer cached) effect _ _ _ laws.db_begin
        (λ a w. effect.chain w _ _ (body w) (laws.db_rollback _))

  get_entry-ok :
      (key : String) (w : W) (bytes : List ℕ)
      → (get_entry p.redis key w).0 ≡ ok bytes
      → cached w key ≡ some bytes
  unfolding get_entry
  get_entry-ok key w =
      last_checked
        (λ (r : Result (List ℕ)) (v : W). (b : List ℕ) → r ≡ ok b → cached w key ≡ some b) _
        (p.redis.get key) w (λ a e b is. laws.get_ok key w b (e ∙ is)) (λ e h b is. cc)

  put_entry-sets :
      (key : String) (bytes : List ℕ) (ttl : ℕ) (w : W)
      → let w' = (put_entry p.redis key bytes ttl w).1 in
        (view w' ≡ view w)
        × ((k : String) (b : List ℕ)
            → cached w' k ≡ some b
            → ((k ≡ key) × (b ≡ bytes)) ⊎ (cached w k ≡ some b))
  unfolding put_entry
  put_entry-sets key bytes ttl w =
      last_checked
        (λ (r : Result ⊤) (v : W).
          (view v ≡ view w)
          × ((k : String) (b : List ℕ)
              → cached v k ≡ some b
              → ((k ≡ key) × (b ≡ bytes)) ⊎ (cached w k ≡ some b)))
        _ (p.redis.set key bytes ttl) w (λ a e. laws.set key bytes ttl w)
        (λ e h. laws.set key bytes ttl w)

  ended-Rests :
      (w : W) (o : Option (Result ⊤ × W))
      → Left p.redis (Rests cached view) (Rests-IsEffect cached view) w o
      → Rests cached view w (ended p w o).1
  ended-Rests w none left = (refl, λ key bytes e. e)
  ended-Rests w (some (r, v)) left = left

  cache_invalidate-Does : (pattern : String) → Does (Rests cached view) (cache_invalidate p pattern)
  unfolding cache_invalidate
  cache_invalidate-Does pattern w = ended-Rests w (invalidate p.redis p.turns pattern w) (
      invalidate-Left p.redis (Rests cached view) (Rests-IsEffect cached view) laws.del laws.scan
        p.turns pattern w)

  ended-Cleared :
      (prefix rest : String) (w : W) (o : Option (Result ⊤ × W))
      → Cleared p.redis (Has cached) Matches Pending rank redis (append prefix "*") o
      → (ended p w o).0 ≡ ok tt
      → cached (ended p w o).1 (append prefix rest) ≡ none
  ended-Cleared prefix rest w none cleared e = absurd cleared
  ended-Cleared prefix rest w (some (ok a, v)) cleared e =
      elim (Option-cases (cached v (append prefix rest))) [
        | inl gone ↦ gone
        | inr (b, there) ↦
            absurd (cleared (append prefix rest) (laws.matches prefix rest) (b, there))
      ]
  ended-Cleared prefix rest w (some (err x, v)) cleared e = cc

  cache_invalidate-ok :
      (prefix rest : String) (w : W)
      → (cache_invalidate p (append prefix "*") w).0 ≡ ok tt
      → cached (cache_invalidate p (append prefix "*") w).1 (append prefix rest) ≡ none
  unfolding cache_invalidate
  cache_invalidate-ok prefix rest w =
      let pattern = append prefix "*" in
      ended-Cleared prefix rest w (invalidate p.redis p.turns pattern w) (
        invalidate-Cleared p.redis (Has cached) Matches Pending rank redis p.turns pattern w
          (laws.star prefix) (laws.enough pattern w))

  pub task_service-IsTaskCache : IsTaskCache (task_service p) view cached query
  unfolding task_service
  task_service-IsTaskCache = record {
    get_member_role = get_member_role-Does;
    get_task_by_id = get_task_by_id-Does;
    new_uuid = laws.new_uuid;
    now = laws.now;
    list_tasks = list_tasks-Does;
    list_tasks_ok = λ f w {found} e. list_tasks-query f w found e;
    query_local = queried.local;
    cache_get = λ key. get_entry-Does p.redis _ (Rests-IsEffect cached view) key (laws.get key);
    cache_get_ok = λ key w {bytes} e. get_entry-ok key w bytes e;
    cache_set = put_entry-sets;
    round_trip = laws.round_trip;
    save_task = save_task-Does;
    update_task_with_history = update_task_with_history-Does;
    cache_invalidate = cache_invalidate-Does;
    cache_invalidate_ok = cache_invalidate-ok;
  }
