-- ===== src/Task/Service/Availability.antt =====
-- `Service.List` and `Service.Create` do not depend on the cache being up.
use mathlib.Core.Option.{some-injective}
use team_tasks.Base.{ℕ, String, Option, none, some, List, ◌≡◌, ◌≢◌, refl, sym, ap, ◌∙◌}
use team_tasks.Domain.{TaskFilter}
use team_tasks.Domain.Ids.{Uuid}
use team_tasks.Domain.Errors.{Error, Result, ok, err}
use team_tasks.Action.{pure, ◌>>=◌}
use team_tasks.Action.Rules.{after_checked, after_attempt, after_ignore, pure->>=}
use team_tasks.Task.Key.{cache_key}
use team_tasks.Task.Service.{
  Deps, CachedList, uuid_string, normalize_paging, list, list_for, list_team, use_cached, decode,
  fetch, populate,
}

abbrev pub Succeeds : {A : Type 0} → Result A → Type 0
Succeeds {A} r = (a : A) × (r ≡ ok a)

module _ {W : Type 0} (s : Deps W)
    (query_up : (f : TaskFilter) (w : W) (e : Error) → (s.list_tasks f w).0 ≢ err e) where
  abbrev Listing : Result CachedList → W → Type 0
  Listing r w = Succeeds r

  populate-Succeeds :
      (key : String) (found : CachedList) (r : Result (List ℕ)) (w : W)
      → Succeeds ((populate s key r >>= λ _. pure found) w).0
  unfolding populate
  populate-Succeeds key found (ok bytes) w =
      after_ignore Listing _ (λ _. pure found) w (found, refl)
  populate-Succeeds key found (err e) w = rw pure->>= (found, refl)

  fetch-Succeeds : (f : TaskFilter) (key : String) (w : W) → Succeeds (fetch s f key w).0
  unfolding fetch
  fetch-Succeeds f key w =
      after_checked Listing _ _ _ w (λ found e. populate-Succeeds key found (s.marshal found) _)
        (λ e failed. absurd (query_up f w e failed))

  decode-Succeeds :
      (f : TaskFilter) (key : String) (r : Result CachedList) (w : W)
      → Succeeds (decode s f key r w).0
  unfolding decode
  decode-Succeeds f key (ok found) w = (found, refl)
  decode-Succeeds f key (err e) w = fetch-Succeeds f key w

  list_for-Succeeds :
      (caller_id team_id : Uuid) (filter : TaskFilter) (o : Option Uuid) (w : W)
      → o ≡ some team_id
      → ((e : Error) → (s.get_member_role team_id caller_id w).0 ≢ err e)
      → Succeeds (list_for s caller_id filter o w).0
  unfolding list_for list_team use_cached
  list_for-Succeeds caller_id team_id filter none w e member = cc
  list_for-Succeeds caller_id team_id filter (some id) w e member =
      let f = normalize_paging filter in
      let key = cache_key (uuid_string s) f in
      after_checked Listing _ _ _ w
        (λ role known.
          after_attempt Listing _ _ _ (λ bytes hit. decode-Succeeds f key (s.unmarshal bytes) _)
            (λ x missed. fetch-Succeeds f key _))
        (λ x failed.
          let same = some-injective id team_id e in
          let role = λ (t : Uuid). (s.get_member_role t caller_id w).0 in
          absurd (member x (sym (ap role same) ∙ failed)))

  -- Where the task query does not fail, a list call for a caller whose role in the team is found
  -- returns a list, whatever the cache answers: a miss, an error, or bytes that do not decode.
  pub list-Succeeds :
      (caller_id team_id : Uuid) (filter : TaskFilter) (w : W)
      → filter.team_id ≡ some team_id
      → ((e : Error) → (s.get_member_role team_id caller_id w).0 ≢ err e)
      → Succeeds (list s caller_id filter w).0
  unfolding list
  list-Succeeds caller_id team_id filter w given member =
      list_for-Succeeds caller_id team_id filter filter.team_id w given member
