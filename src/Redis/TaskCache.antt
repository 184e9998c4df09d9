-- ===== src/Redis/TaskCache.antt =====
-- `TaskCache` of internal/storage/redis/taskcache.go, without its log lines and its count of deleted
-- keys, over a Redis client that is a parameter. The key that an error message quotes is left out of
-- the message.
use team_tasks.Base.{
  ℕ, zero, suc, String, Bool, true, false, Option, none, some, List, [], ◌∷◌, if◌then◌else◌,
}
use team_tasks.Domain.Errors.{Error, Result, ok, err, wrapped, redis_nil, cache_miss}
use team_tasks.Action.{⊤, Action, pure, on_error, ◌>>=◌, ◌>>◌}

-- The calls of the client; `scan` gives keys and the next cursor.
pub record Client (W : Type 0) : Type 0 where
  pub get : String → Action W (List ℕ)
  pub set : String → List ℕ → ℕ → Action W ⊤
  pub del : List String → Action W ⊤
  pub scan : ℕ → String → ℕ → Action W (List String × ℕ)
  -- `strings.HasSuffix`
  pub has_suffix : String → String → Bool

-- `errors.Is(err, redis.Nil)`
abbrev pub is_redis_nil : Error → Bool
is_redis_nil redis_nil = true
is_redis_nil (wrapped label e) = is_redis_nil e
is_redis_nil _ = false

module _ {W : Type 0} (c : Client W) where
  abbrev pub get_error : Error → Error
  get_error e = if is_redis_nil e then cache_miss else wrapped "redis: get" e

  unfoldable pub get_entry : String → Action W (List ℕ)
  get_entry key = on_error get_error (c.get key)

  unfoldable pub put_entry : String → List ℕ → ℕ → Action W ⊤
  put_entry key bytes ttl = on_error (wrapped "redis: set") (c.set key bytes ttl)

  -- `if len(keys) > 0 { … }`
  unfoldable pub delete_keys : List String → Action W ⊤
  delete_keys [] = pure tt
  delete_keys (key ∷ keys) = on_error (wrapped "redis: del keys") (c.del (key ∷ keys))

  -- One turn of the loop, with the next cursor.
  unfoldable pub scan_turn : String → ℕ → Action W ℕ
  scan_turn pattern cursor = do
    (keys, next) ← on_error (wrapped "redis: scan") (c.scan cursor pattern 100)
    delete_keys keys
    pure next

  -- The loop for as many turns as there is fuel: nothing, if that is not enough.
  unfoldable pub scan_loop : ℕ → String → ℕ → W → Option (Result ⊤ × W)
  scan_loop zero pattern cursor w = none
  scan_loop (suc fuel) pattern cursor w =
      let (r, v) = scan_turn pattern cursor w in
      elim r [
        | err e ↦ some (err e, v)
        | ok next ↦ elim next [ zero ↦ some (ok tt, v) | suc n ↦ scan_loop fuel pattern (suc n) v ]
      ]

  unfoldable pub invalidate : ℕ → String → W → Option (Result ⊤ × W)
  invalidate fuel pattern w =
      if c.has_suffix pattern "*"
      then scan_loop fuel pattern 0 w
      else some (on_error (wrapped "redis: del") (c.del (pattern ∷ [])) w)
