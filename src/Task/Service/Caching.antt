-- ===== src/Task/Service/Caching.antt =====
-- What the task service relies on of its cache and of the task query, and when a cache is fresh.
use Prim.Native.String.{◌++◌ as append}
use team_tasks.Base.{
  ℕ, String, Option, none, some, List, [], ◌∷◌, ◌≡◌, ◌≢◌, ◌⊎◌, refl, sym, ap, ◌∙◌, arith,
  if◌then◌else◌,
}
use team_tasks.Domain.{Task, TaskHistory, TaskFilter}
use team_tasks.Domain.Ids.{Uuid, uuid_eq, uuid_eq_iff}
use team_tasks.Domain.Errors.{ok}
use team_tasks.Action.{Action}
use team_tasks.Store.{Tables, find_task, update_task}
use team_tasks.Task.Key.{cache_key}
use team_tasks.Task.Key.Laws.{HasStatus}
use team_tasks.Task.Service.{Deps, CachedList, uuid_string}

-- The rows of one team, in their order.
unfoldable pub of_team : Uuid → List Task → List Task
of_team team_id [] = []
of_team team_id (t ∷ ts) =
    if uuid_eq t.team_id team_id then t ∷ of_team team_id ts else of_team team_id ts

-- A row of another team makes no difference.
pub of_team-cons :
    (team_id : Uuid) (t : Task) (ts : List Task)
    → t.team_id ≢ team_id
    → of_team team_id (t ∷ ts) ≡ of_team team_id ts
unfolding of_team
of_team-cons team_id t ts h = ground (arith, uuid_eq_iff t.team_id team_id)

-- Nor does an update of a row of another team.
pub of_team-update_task :
    (team_id : Uuid) (new : Task) (ts : List Task) {old : Task}
    → find_task new.id ts ≡ some old
    → old.team_id ≢ team_id
    → of_team team_id (update_task new ts) ≡ of_team team_id ts
unfolding of_team update_task find_task
of_team-update_task team_id new [] e h = cc
of_team-update_task team_id new (t ∷ ts) {old} e h =
    ground (arith, uuid_eq_iff t.team_id team_id, of_team-update_task team_id new ts {old = old})

module _ {W : Type 0} (s : Deps W) (view : W → Tables) (cached : W → String → Option (List ℕ))
    (query : TaskFilter → List Task → CachedList) where
  -- From one world to the other no table has changed, and no entry has come into the cache: it may
  -- have expired.
  abbrev pub Same : W → W → Type 0
  Same w w' =
      (view w' ≡ view w)
      × ((key : String) (bytes : List ℕ) → cached w' key ≡ some bytes → cached w key ≡ some bytes)

  abbrev pub Quiet : {A : Type 0} → Action W A → Type 0
  Quiet m = (w : W) → Same w (m w).1

  -- `query` is what the task query selects from the rows: the page and the total.
  pub record IsTaskCache : Type 0 where
    pub get_member_role : (team_id user_id : Uuid) → Quiet (s.get_member_role team_id user_id)
    pub get_task_by_id : (id : Uuid) → Quiet (s.get_task_by_id id)
    pub new_uuid : Quiet s.platform.new_uuid
    pub now : (w : W) → Same w (s.platform.now w).1
    pub list_tasks : (f : TaskFilter) → Quiet (s.list_tasks f)
    pub list_tasks_ok :
        (f : TaskFilter) (w : W) {found : CachedList}
        → (s.list_tasks f w).0 ≡ ok found
        → found ≡ query f (view w).tasks
    -- `WHERE team_id = ?` reads no row of another team.
    pub query_local :
        (f : TaskFilter) (team_id : Uuid) (ts us : List Task)
        → f.team_id ≡ some team_id
        → of_team team_id ts ≡ of_team team_id us
        → query f ts ≡ query f us
    pub cache_get : (key : String) → Quiet (s.cache_get key)
    pub cache_get_ok :
        (key : String) (w : W) {bytes : List ℕ}
        → (s.cache_get key w).0 ≡ ok bytes
        → cached w key ≡ some bytes
    -- A write of the cache changes one entry at most.
    pub cache_set :
        (key : String) (bytes : List ℕ) (ttl : ℕ) (w : W)
        → let w' = (s.cache_set key bytes ttl w).1 in
          (view w' ≡ view w)
          × ((k : String) (b : List ℕ)
              → cached w' k ≡ some b
              → ((k ≡ key) × (b ≡ bytes)) ⊎ (cached w k ≡ some b))
    -- `json.Unmarshal` reads back what `json.Marshal` wrote.
    pub round_trip :
        (found : CachedList) (bytes : List ℕ)
        → s.marshal found ≡ ok bytes
        → s.unmarshal bytes ≡ ok found
    pub save_task :
        (t : Task) (w : W) (key : String) (bytes : List ℕ)
        → cached (s.save_task t w).1 key ≡ some bytes
        → cached w key ≡ some bytes
    pub update_task_with_history :
        (t : Task) (hs : List TaskHistory) (w : W) (key : String) (bytes : List ℕ)
        → cached (s.update_task_with_history t hs w).1 key ≡ some bytes
        → cached w key ≡ some bytes
    pub cache_invalidate : (pattern : String) → Quiet (s.cache_invalidate pattern)
    -- Where it succeeds, no key that begins with the pattern's prefix is left.
    pub cache_invalidate_ok :
        (prefix rest : String) (w : W)
        → (s.cache_invalidate (append prefix "*") w).0 ≡ ok tt
        → cached (s.cache_invalidate (append prefix "*") w).1 (append prefix rest) ≡ none

  -- Every list that the cache holds for a filter is what the query would give now.
  abbrev pub IsFresh : W → Type 0
  IsFresh w =
      (team_id : Uuid) (f : TaskFilter) (bytes : List ℕ) (found : CachedList)
      → f.team_id ≡ some team_id
      → HasStatus f.status
      → cached w (cache_key (uuid_string s) f) ≡ some bytes
      → s.unmarshal bytes ≡ ok found
      → found ≡ query f (view w).tasks

  pub IsFresh-Same : {w w' : W} → IsFresh w → Same w w' → IsFresh w'
  IsFresh-Same fresh (tables, entries) team_id f bytes found team status hit decoded =
      fresh team_id f bytes found team status (entries _ bytes hit) decoded
      ∙ ap (λ (b : Tables). query f b.tasks) (sym tables)

  pub Same-refl : (w : W) → Same w w
  Same-refl w = (refl, λ key bytes e. e)

  pub Same-trans : {u v w : W} → Same u v → Same v w → Same u w
  Same-trans (e, f) (e', f') = (e' ∙ e, λ key bytes h. f key bytes (f' key bytes h))
