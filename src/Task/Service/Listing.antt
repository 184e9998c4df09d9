-- ===== src/Task/Service/Listing.antt =====
-- `Service.List` of internal/service/task/task.go: the cache cannot be told from the database.
use team_tasks.Base.{
  ℕ, ℤ, pos, negsuc, ◌≤ℤ◌, String, Option, none, some, List, ◌≡◌, inl, inr, refl, sym, ap, ◌∙◌,
  arith,
}
use team_tasks.Domain.{TaskFilter}
use team_tasks.Domain.Ids.{Uuid}
use team_tasks.Domain.Errors.{Result, ok, err}
use team_tasks.Action.{pure, ◌>>=◌}
use team_tasks.Action.Rules.{after_checked, after_attempt, after_ignore, pure->>=}
use team_tasks.Store.{Tables}
use team_tasks.Task.Key.{cache_key}
use team_tasks.Task.Key.Laws.{HasStatus, IsUuidText, cache_key-injective}
use team_tasks.Task.Service.{
  Deps, CachedList, uuid_string, default_page, clamp_limit, normalize_paging, list, list_for,
  list_team, use_cached, decode, fetch, populate,
}
use team_tasks.Task.Service.Caching.{IsTaskCache, IsFresh, IsFresh-Same}
use team_tasks.Domain.{Task}

default_page_bounds : (n : ℤ) → (pos 1 ≤ℤ default_page n) × (pos 1 ≤ℤ n → default_page n ≡ n)
unfolding default_page
default_page_bounds (pos n) = ground arith
default_page_bounds (negsuc n) = ground arith

clamp_limit_bounds :
    (n : ℤ)
    → (pos 1 ≤ℤ clamp_limit n)
      × (clamp_limit n ≤ℤ pos 100)
      × (pos 1 ≤ℤ n → n ≤ℤ pos 100 → clamp_limit n ≡ n)
unfolding clamp_limit
clamp_limit_bounds (pos n) = ground arith
clamp_limit_bounds (negsuc n) = ground arith

-- Whatever page and limit are asked for, those that reach the cache key and the query are in range,
-- one that is in range is kept, and a second pass changes nothing.
normalize_paging_bounds :
    (f : TaskFilter)
    → let g = normalize_paging f in
      (pos 1 ≤ℤ g.page)
      × (pos 1 ≤ℤ g.limit)
      × (g.limit ≤ℤ pos 100)
      × (normalize_paging g ≡ g)
      × (pos 1 ≤ℤ f.page → g.page ≡ f.page)
      × (pos 1 ≤ℤ f.limit → f.limit ≤ℤ pos 100 → g.limit ≡ f.limit)
normalize_paging_bounds f =
    let (page, page_kept) = default_page_bounds f.page in
    let (low, high, limit_kept) = clamp_limit_bounds f.limit in
    let page_again = (default_page_bounds (default_page f.page)).1 page in
    let limit_again = (clamp_limit_bounds (clamp_limit f.limit)).2 low high in
    let again : normalize_paging (normalize_paging f) ≡ normalize_paging f =
      λ i. record f { page = page_again i; limit = limit_again i } in
    (page, low, high, again, page_kept, limit_kept)

ok_injective : {A : Type 0} {a b : A} → ok a ≡ ok b → a ≡ b
ok_injective e = cc

-- The result of a list call that began with the tables `b`.
abbrev pub Listed :
    (TaskFilter → List Task → CachedList) → TaskFilter → Tables → Result CachedList → Type 0
Listed query f b (ok found) = found ≡ query (normalize_paging f) b.tasks
Listed query f b (err e) = Unit

module _ {W : Type 0} (s : Deps W) (view : W → Tables) (cached : W → String → Option (List ℕ))
    (query : TaskFilter → List Task → CachedList) (laws : IsTaskCache s view cached query)
    (form : IsUuidText (uuid_string s)) where
  abbrev Fresh : W → Type 0
  Fresh = IsFresh s view cached query

  set-IsFresh :
      (f : TaskFilter) (found : CachedList) (bytes : List ℕ) (w : W)
      → Fresh w
      → HasStatus f.status
      → found ≡ query f (view w).tasks
      → s.marshal found ≡ ok bytes
      → Fresh (s.cache_set (cache_key (uuid_string s) f) bytes s.ttl w).1
  set-IsFresh f found bytes w fresh status right e team_id g b x team status' hit decoded =
      let (tables, entries) = laws.cache_set (cache_key (uuid_string s) f) bytes s.ttl w in
      let now = ap (λ (t : Tables). query g t.tasks) (sym tables) in
      elim (entries _ b hit) [
        | inl (same_key, same_bytes) ↦
            let same = cache_key-injective (uuid_string s) form g f status' status same_key in
            let read : ok x ≡ ok found =
              sym decoded ∙ ap s.unmarshal same_bytes ∙ laws.round_trip found bytes e in
            ok_injective read
            ∙ right
            ∙ ap (λ (h : TaskFilter). query h (view w).tasks) (sym same)
            ∙ now
        | inr old ↦ fresh team_id g b x team status' old decoded ∙ now
      ]

  -- The postcondition of the calls below: the cache is fresh, and the result is right.
  abbrev Post : TaskFilter → Tables → Result CachedList → W → Type 0
  Post f b r w = Fresh w × Listed query f b r

  populate-Post :
      (f : TaskFilter) (b : Tables) (found : CachedList) (r : Result (List ℕ)) (w : W)
      → s.marshal found ≡ r
      → Fresh w
      → HasStatus f.status
      → view w ≡ b
      → found ≡ query (normalize_paging f) b.tasks
      → let m = populate s (cache_key (uuid_string s) (normalize_paging f)) r >>= λ _. pure found in
        Post f b (m w).0 (m w).1
  unfolding populate
  populate-Post f b found (ok bytes) w e fresh status same right =
      after_ignore (Post f b) _ (λ _. pure found) w
        (
          set-IsFresh (normalize_paging f) found bytes w fresh status
              (right ∙ ap (λ (t : Tables). query (normalize_paging f) t.tasks) (sym same)) e,
          right,
        )
  populate-Post f b found (err x) w e fresh status same right = rw pure->>= (fresh, right)

  fetch-Post :
      (f : TaskFilter) (b : Tables) (w : W)
      → Fresh w
      → HasStatus f.status
      → view w ≡ b
      → let m = fetch s (normalize_paging f) (cache_key (uuid_string s) (normalize_paging f)) in
        Post f b (m w).0 (m w).1
  unfolding fetch
  fetch-Post f b w fresh status same =
      let f' = normalize_paging f in
      let w1 = (s.list_tasks f' w).1 in
      let quiet = laws.list_tasks f' w in
      let fresh1 : Fresh w1 = IsFresh-Same s view cached query fresh quiet in
      after_checked (Post f b) _ _ _ w
        (λ found e.
          populate-Post f b found (s.marshal found) w1 refl fresh1 status (quiet.0 ∙ same)
            (laws.list_tasks_ok f' w e ∙ ap (λ (t : Tables). query f' t.tasks) same))
        (λ x e. (fresh1, tt))

  decode-Post :
      (f : TaskFilter) (b : Tables) (w : W) (r : Result CachedList)
      → ((found : CachedList) → r ≡ ok found → found ≡ query (normalize_paging f) b.tasks)
      → Fresh w
      → HasStatus f.status
      → view w ≡ b
      → let m = decode s (normalize_paging f) (cache_key (uuid_string s) (normalize_paging f)) r in
        Post f b (m w).0 (m w).1
  unfolding decode
  decode-Post f b w (ok found) hit fresh status same = (fresh, hit found refl)
  decode-Post f b w (err e) hit fresh status same = fetch-Post f b w fresh status same

  list_team-Post :
      (caller_id : Uuid) (filter : TaskFilter) (team_id : Uuid) (w : W)
      → filter.team_id ≡ some team_id
      → Fresh w
      → HasStatus filter.status
      → let m = list_team s caller_id filter team_id in Post filter (view w) (m w).0 (m w).1
  unfolding list_team use_cached
  list_team-Post caller_id filter team_id w given fresh status =
      let f' = normalize_paging filter in
      let key = cache_key (uuid_string s) f' in
      let P = Post filter (view w) in
      let member = laws.get_member_role team_id caller_id w in
      let w1 = (s.get_member_role team_id caller_id w).1 in
      let fresh1 : Fresh w1 = IsFresh-Same s view cached query fresh member in
      let got = laws.cache_get key w1 in
      let fresh2 = IsFresh-Same s view cached query fresh1 got in
      after_checked P _ _ _ w
        (λ role e.
          after_attempt P _ _ w1
            (λ bytes hit.
              decode-Post filter (view w) _ (s.unmarshal bytes)
                (λ found decoded.
                  fresh1 team_id f' bytes found given status (laws.cache_get_ok key w1 hit) decoded
                  ∙ ap (λ (t : Tables). query f' t.tasks) member.0)
                fresh2 status (got.0 ∙ member.0))
            (λ x missed. fetch-Post filter (view w) _ fresh2 status (got.0 ∙ member.0)))
        (λ x e. (fresh1, tt))

  list_for-Post :
      (caller_id : Uuid) (filter : TaskFilter) (o : Option Uuid) (w : W)
      → filter.team_id ≡ o
      → Fresh w
      → HasStatus filter.status
      → let m = list_for s caller_id filter o in Post filter (view w) (m w).0 (m w).1
  unfolding list_for
  list_for-Post caller_id filter none w given fresh status = (fresh, tt)
  list_for-Post caller_id filter (some team_id) w given fresh status =
      list_team-Post caller_id filter team_id w given fresh status

  -- A list call on a fresh cache, with a status of the domain or none, returns what the query gives
  -- on the present tables for the filter with its page and limit put in range, whether from the
  -- cache or not, if it returns a list at all; and it leaves the cache fresh.
  pub list-Listed :
      (caller_id : Uuid) (filter : TaskFilter) (w : W)
      → IsFresh s view cached query w
      → HasStatus filter.status
      → let (r, w') = list s caller_id filter w in
        IsFresh s view cached query w' × Listed query filter (view w) r
  unfolding list
  list-Listed caller_id filter w fresh status =
      list_for-Post caller_id filter filter.team_id w refl fresh status
