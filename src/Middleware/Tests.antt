-- ===== src/Middleware/Tests.antt =====
-- Requests at the middleware, and its theorems at concrete inputs.
use Prim.Native.String.{◌++◌}
use team_tasks.Base.{
  String, Bool, true, false, Option, none, some, List, [], ◌∷◌, ◌≡◌, ◌↔◌, refl, ◌+◌, ◌≤◌, leb,
  arith, Bool-cases, inl, inr, if◌then◌else◌,
}
use team_tasks.Domain.{User, Time}
use team_tasks.Domain.Errors.{ok}
use team_tasks.Action.{◌>>=◌, on_error, attempt, refuse_if}
use team_tasks.Platform.{read_clock}
use team_tasks.Store.{find_email}
use team_tasks.Auth.Service.{register, register_found, login}
use team_tasks.Auth.Service.Session.{admitted}
use team_tasks.Middleware.Jwt.{passed, denied, cut_prefix, jwt}
use team_tasks.Middleware.Jwt.Accepts.{IsTokenOf, jwt_iff}
use team_tasks.Middleware.RateLimit.{Limiters, idle_time}
use team_tasks.Middleware.RateLimit.Cleanup.{
  Refills, Event, asked, swept, answers, answers_forever, answers-cleanup,
}
use team_tasks.Middleware.Sessions.{Opens, login-jwt}
use team_tasks.Memory.{World}
use team_tasks.Memory.Users.{service, service-IsUserStore, service-IsUp}
use team_tasks.Memory.Sessions.{libraries, parser, service-Agree}
use team_tasks.Memory.Fixtures.{owner, world}

-- No header is no user, and another scheme is refused.
headers :
    (jwt libraries "s" 0 "" ≡ passed none)
    × (jwt libraries "s" 0 "Basic x" ≡ denied "invalid authorization header")
unfolding jwt cut_prefix
headers = (refl, refl)

jwt_iff_example : (jwt libraries "s" 0 "Bearer xx-" ≡ passed (some owner)) ↔ (
    (raw : String) × ("Bearer xx-" ≡ "Bearer " ++ raw) × IsTokenOf libraries parser "s" 0 owner raw)
jwt_iff_example = jwt_iff libraries parser "s" 0 "Bearer xx-" owner

-- The world after a registration.
abbrev registered : World
registered = (register service "n@x" "new" "pw" world).1

login_ok : (login service "n@x" "pw" registered).0 ≡ ok "xxxxxxxxxx-"
unfolding register register_found login ◌>>=◌ on_error attempt refuse_if read_clock find_email
login_ok = refl

login-jwt_example :
    (user : User) × (admitted service "n@x" "pw" registered.tables ≡ some user)
    × Opens service
        (λ (w : World). w.tables)
        service-IsUserStore
        service-IsUp
        libraries
        parser
        service-Agree
        0
        user
        "xxxxxxxxxx-"
login-jwt_example =
    login-jwt service (λ (w : World). w.tables) service-IsUserStore service-IsUp libraries parser
      service-Agree "n@x" "pw" "xxxxxxxxxx-" 0 registered login_ok

-- A limiter of one request per minute: the time of its last use, if it has one.
abbrev allowed_at : Time → Option Time → Bool × Option Time
allowed_at t none = (true, some t)
allowed_at t (some s) = if leb (s + 60_000_000_000) t then (true, some t) else (false, some s)

abbrev limiters : Limiters (Option Time)
limiters = record { new_limiter = none; allow = allowed_at }

abbrev last_use : Option Time → Time
last_use none = 0
last_use (some t) = t

last_use-allowed : (t : Time) (l : Option Time) → last_use l ≤ t → last_use (allowed_at t l).1 ≤ t
last_use-allowed t none h = omega arith
last_use-allowed t (some s) h = elim (Bool-cases (leb (s + 60_000_000_000) t)) [
  | inl later ↦ rw later (omega arith)
  | inr early ↦ rw early h
]

allowed_after :
    (t : Time) (l : Option Time) → last_use l + idle_time ≤ t → allowed_at t l ≡ allowed_at t none
allowed_after t none h = refl
allowed_after t (some s) h =
    let later : leb (s + 60_000_000_000) t ≡ true = ground (arith, h) in rw later refl

limiters-Refills : Refills limiters last_use
limiters-Refills = record {
  last_new = λ t. omega arith;
  last_allow = last_use-allowed;
  refilled = allowed_after;
}

-- Two requests in a minute, a cleanup after eleven, and a third.
abbrev events : List Event
events = asked "ip:h" 0 ∷ asked "ip:h" 1 ∷ swept 660_000_000_001 ∷ asked "ip:h" 660_000_000_002 ∷ []

answers-cleanup_example :
    answers limiters (λ key. none) events ≡ answers_forever limiters (λ key. none) events
answers-cleanup_example =
    answers-cleanup limiters last_use limiters-Refills 0 events
      (omega arith, (omega arith, (omega arith, (omega arith, tt))))
