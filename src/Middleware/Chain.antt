-- ===== src/Middleware/Chain.antt =====
-- What a request passes through before its route, in the order of internal/app/app.go: `RequestID`,
-- then `JWT`, then `RateLimit`. The metrics between them and the recovery from panics around them
-- answer nothing.
use team_tasks.Base.{String, Option, if◌then◌else◌}
use team_tasks.Domain.{Time}
use team_tasks.Domain.Ids.{Uuid}
use team_tasks.Domain.Errors.{Result, ok, err}
use team_tasks.Platform.{Platform}
use team_tasks.Middleware.Jwt.{Libraries, Passage, passed, denied, jwt}
use team_tasks.Middleware.RateLimit.{Limiters, LimiterMap, Addresses, ask, limiter_key}
use team_tasks.Middleware.RequestId.{request_id}

pub record Gate (W L : Type 0) : Type 0 where
  pub platform : Platform W
  pub jwt_libraries : Libraries
  pub secret : String
  pub addresses : Addresses
  pub limiters : Limiters L

-- The headers `X-Request-ID` and `Authorization`, and the remote address.
pub record Request : Type 0 where
  pub request_id : String
  pub authorization : String
  pub remote : String

-- The route is served under an identifier, for a user or nobody; or the response is a status 500,
-- 401 with a message, or 429.
pub data Verdict : Type 0 where
  served : String → Option Uuid → Verdict
  failed : Verdict
  unauthorized : String → Verdict
  too_many_requests : Verdict

module _ {W L : Type 0} (g : Gate W L) where
  unfoldable pub limited :
      String → Option Uuid → String → Time → LimiterMap L → Verdict × LimiterMap L
  limited id user remote now limiters =
      let (allowed, after) = ask g.limiters (limiter_key g.addresses user remote) now limiters in
      (if allowed then served id user else too_many_requests, after)

  unfoldable pub authenticated :
      String → Passage → String → Time → LimiterMap L → Verdict × LimiterMap L
  authenticated id (passed user) remote now limiters = limited id user remote now limiters
  authenticated id (denied message) remote now limiters = (unauthorized message, limiters)

  unfoldable pub identified : Request → Result String → Time → LimiterMap L → Verdict × LimiterMap L
  identified r (ok id) now limiters =
      authenticated id (jwt g.jwt_libraries g.secret now r.authorization) r.remote now limiters
  identified r (err e) now limiters = (failed, limiters)

  unfoldable pub admit : Request → Time → LimiterMap L → W → (Verdict × LimiterMap L) × W
  admit r now limiters w =
      let (id, v) = request_id g.platform r.request_id w in (identified r id now limiters, v)
