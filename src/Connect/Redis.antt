-- ===== src/Connect/Redis.antt =====
-- `New` of internal/storage/redis/client.go, over the package `go-redis` as a parameter.
use team_tasks.Base.{ℤ, String, none}
use team_tasks.Domain.Errors.{Result, ok, err}
use team_tasks.Action.{Action, ⊤}
use team_tasks.Connect.{Outcome, ready, not_ready, max_retries, retry_interval, retries}

-- `redis.Options`, from the fields of `config.Redis`.
pub record Options : Type 0 where
  pub addr : String
  pub password : String
  pub db : ℤ
  pub pool_size : ℤ

-- `redis.NewClient`, the methods of `*redis.Client`, `Ping` with a timeout of two seconds, and
-- `time.Sleep`.
pub record Dialer (W C : Type 0) : Type 0 where
  pub new_client : Options → W → C × W
  pub ping : C → Action W ⊤
  pub close : C → Action W ⊤
  pub sleep : ℤ → W → W

module _ {W C : Type 0} (x : Dialer W C) where
  unfoldable pub answered : C → Result ⊤ → W → Outcome C × W
  answered c (ok _) w = (ready c, w)
  answered c (err e) w = (not_ready e, x.sleep retry_interval w)

  -- The body of the loop.
  unfoldable pub ping_once : C → W → Outcome C × W
  ping_once c w = let (r, v) = x.ping c w in answered c r v

  -- After the loop.
  unfoldable pub finish : C → Result C × W → Result C × W
  finish c (ok d, w) = (ok d, w)
  finish c (err e, w) = let (r, v) = x.close c w in (err e, v)

  -- `New`
  unfoldable pub dial : Options → Action W C
  dial o w =
      let (c, v) = x.new_client o w in finish c (retries "redis" (ping_once c) max_retries none v)
