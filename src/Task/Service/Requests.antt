-- ===== src/Task/Service/Requests.antt =====
-- Sequences of requests to the `Service` of internal/service/task/task.go, one after the other, with
-- entries of the cache that expire in between.
use team_tasks.Base.{ℕ, String, Option, some, List, ◌≡◌}
use team_tasks.Domain.{Task, TaskFilter, CreateTaskInput, UpdateTaskInput}
use team_tasks.Domain.Ids.{Uuid}
use team_tasks.Domain.Errors.{ok}
use team_tasks.Store.{Tables}
use team_tasks.Action.Effects.{IsEffect, then-Does, last-Does}
use team_tasks.Task.Key.Laws.{HasStatus, IsUuidText}
use team_tasks.Task.Service.{Deps, CachedList, uuid_string, create, list, update, history}
use team_tasks.Task.Service.Contract.{IsTaskStore}
use team_tasks.Task.Service.Caching.{
  Same, Quiet, IsTaskCache, IsFresh, IsFresh-Same, Same-refl, Same-trans,
}
use team_tasks.Task.Service.Freshness.{create-IsFresh, update-IsFresh}
use team_tasks.Task.Service.Listing.{Listed, list-Listed}

module _ {W : Type 0} (s : Deps W) (view : W → Tables) (cached : W → String → Option (List ℕ)) where
  -- The methods of the service; a list is asked for with a status of the domain or none.
  pub data Request : W → W → Type 0 where
    creates :
        (creator_id : Uuid) (input : CreateTaskInput) (w : W)
        → Request w (create s creator_id input w).1
    lists :
        (caller_id : Uuid) (filter : TaskFilter) (w : W)
        → HasStatus filter.status
        → Request w (list s caller_id filter w).1
    updates :
        (caller_id task_id : Uuid) (input : UpdateTaskInput) (w : W)
        → Request w (update s caller_id task_id input w).1
    shows_history : (caller_id task_id : Uuid) (w : W) → Request w (history s caller_id task_id w).1
    -- The tables stay, and entries leave the cache.
    expires :
        {w w' : W}
        → ((key : String) (bytes : List ℕ) → cached w' key ≡ some bytes → cached w key ≡ some bytes)
        → view w' ≡ view w
        → Request w w'

  pub data Requests : W → W → Type 0 where
    idle : {w : W} → Requests w w
    then : {u v w : W} → Request u v → Requests v w → Requests u w

  module _ (query : TaskFilter → List Task → CachedList) (laws : IsTaskCache s view cached query)
      (store : IsTaskStore s view) (form : IsUuidText (uuid_string s))
      (up : (pattern : String) (w : W) → (s.cache_invalidate pattern w).0 ≡ ok tt)
      (reads : (task_id : Uuid) → Quiet s view cached query (s.list_history task_id)) where
    Same-IsEffect : IsEffect (Same s view cached query)
    Same-IsEffect = record {
      stays = Same-refl s view cached query;
      chain = λ u v w. Same-trans s view cached query {u = u} {v = v} {w = w};
    }

    history-Quiet :
        (caller_id task_id : Uuid) → Quiet s view cached query (history s caller_id task_id)
    unfolding history
    history-Quiet caller_id task_id =
        let R = Same s view cached query in
        then-Does R Same-IsEffect _ _ _ (laws.get_task_by_id task_id) (λ task.
          then-Does R Same-IsEffect _ _ _ (laws.get_member_role task.team_id caller_id)
            (λ role. last-Does R Same-IsEffect _ _ (reads task_id)))

    Request-IsFresh :
        {w w' : W} → Request w w' → IsFresh s view cached query w → IsFresh s view cached query w'
    Request-IsFresh (creates creator_id input w) fresh =
        create-IsFresh s view cached query laws store form up creator_id input w fresh
    Request-IsFresh (lists caller_id filter w status) fresh =
        (list-Listed s view cached query laws form caller_id filter w fresh status).0
    Request-IsFresh (updates caller_id task_id input w) fresh =
        update-IsFresh s view cached query laws store form up caller_id task_id input w fresh
    Request-IsFresh (shows_history caller_id task_id w) fresh =
        IsFresh-Same s view cached query fresh (history-Quiet caller_id task_id w)
    Request-IsFresh (expires entries tables) fresh =
        IsFresh-Same s view cached query fresh (tables, entries)

    Requests-IsFresh :
        {w w' : W} → Requests w w' → IsFresh s view cached query w → IsFresh s view cached query w'
    Requests-IsFresh idle fresh = fresh
    Requests-IsFresh (then r rs) fresh = Requests-IsFresh rs (Request-IsFresh r fresh)

    -- After any sequence of creations, lists, updates and readings of histories that began with a
    -- fresh cache, its lists for a status of the domain or none, if its invalidations succeed and
    -- whatever else fails or expires, the cache is fresh, and a list for such a status, if it is
    -- returned, is what the query gives on the present tables for the filter with its page and limit
    -- put in range.
    pub Requests-Listed :
        {w w' : W}
        → IsFresh s view cached query w
        → Requests w w'
        → (caller_id : Uuid) (filter : TaskFilter) → HasStatus filter.status
        → IsFresh s view cached query w'
          × Listed query filter (view w') (list s caller_id filter w').0
    Requests-Listed {w} {w'} fresh requests caller_id filter status =
        let fresh' = Requests-IsFresh requests fresh in
        (fresh', (list-Listed s view cached query laws form caller_id filter w' fresh' status).1)
