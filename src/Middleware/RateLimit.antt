-- ===== src/Middleware/RateLimit.antt =====
-- `RateLimit` of internal/middleware/ratelimit.go: its map of limiters, the cleanup of the map, and
-- the key of a request. A limiter of golang.org/x/time/rate is a parameter. The two parts of a
-- request that lock the map and ask the limiter are one step, at one reading of the clock.
pub mod Cleanup
use Prim.Native.String.{◌++◌}
use team_tasks.Base.{
  ℕ, ◌+◌, ◌-◌, ltb, String, Bool, true, false, Option, none, some, List, [], ◌∷◌, str_eq,
  if◌then◌else◌,
}
use team_tasks.Domain.{Time}
use team_tasks.Domain.Ids.{Uuid}
use team_tasks.Domain.Errors.{Result, ok, err}

-- What the code uses of `rate.Limiter`, at the limit and the burst that `RateLimit` computes from
-- the requests per minute.
pub record Limiters (L : Type 0) : Type 0 where
  -- `rate.NewLimiter(r, burst)`
  pub new_limiter : L
  -- `Allow`, at a time
  pub allow : Time → L → Bool × L

-- `userLimiter`
pub record UserLimiter (L : Type 0) : Type 0 where
  pub limiter : L
  pub last_seen : Time

-- Ten minutes, in nanoseconds.
abbrev pub idle_time : ℕ
idle_time = 600_000_000_000

-- The map: the entry of each key, if it has one.
abbrev pub LimiterMap : Type 0 → Type 0
LimiterMap L = String → Option (UserLimiter L)

module _ {L : Type 0} (lib : Limiters L) where
  -- `ul, ok := limiters[key]; if !ok { … }`
  abbrev pub limiter_of : Option (UserLimiter L) → L
  limiter_of none = lib.new_limiter
  limiter_of (some ul) = ul.limiter

  abbrev pub set_limiter : String → UserLimiter L → LimiterMap L → LimiterMap L
  set_limiter key ul limiters other = if str_eq other key then some ul else limiters other

  -- `getLimiter(key).Allow()`
  unfoldable pub ask : String → Time → LimiterMap L → Bool × LimiterMap L
  ask key now limiters =
      let (allowed, limiter) = lib.allow now (limiter_of (limiters key)) in
      (allowed, set_limiter key (record { limiter = limiter; last_seen = now }) limiters)

-- `time.Since(ul.lastSeen) > 10*time.Minute`
abbrev pub retained : {L : Type 0} → Time → Option (UserLimiter L) → Option (UserLimiter L)
retained now none = none
retained now (some ul) = if ltb idle_time (now - ul.last_seen) then none else some ul

-- One tick of the cleanup.
unfoldable pub sweep : {L : Type 0} → Time → LimiterMap L → LimiterMap L
sweep now limiters key = retained now (limiters key)

-- The key of a request: its user, or the host of its address, which is a parameter together with the
-- text of an identifier.
pub record Addresses : Type 0 where
  -- `net.SplitHostPort`
  pub split_host_port : String → Result String
  pub uuid_string : Uuid → String

abbrev pub host_of : Addresses → String → String
host_of lib remote = elim (lib.split_host_port remote) [ ok host ↦ host | err e ↦ remote ]

unfoldable pub limiter_key : Addresses → Option Uuid → String → String
limiter_key lib (some id) remote = "u:" ++ lib.uuid_string id
limiter_key lib none remote = "ip:" ++ host_of lib remote
