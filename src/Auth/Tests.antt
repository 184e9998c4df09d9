-- ===== src/Auth/Tests.antt =====
-- Runs of the auth service in memory, and its theorems at concrete inputs.
use team_tasks.Base.{some, ◌≡◌, refl}
use team_tasks.Domain.{User}
use team_tasks.Domain.Errors.{ok, err, sentinel, wrapped, conflict, unauthorized}
use team_tasks.Action.{◌>>=◌, on_error, attempt, refuse_if}
use team_tasks.Platform.{read_clock}
use team_tasks.Store.{find_email}
use team_tasks.Auth.Service.{register, register_found, login}
use team_tasks.Auth.Service.Registration.{Registered, register-Registered}
use team_tasks.Auth.Service.Session.{admitted, Decides, login-Decides, register-login}
use team_tasks.Memory.{World}
use team_tasks.Memory.Users.{service, service-IsUserStore, service-HashesMatch, service-IsUp}
use team_tasks.Memory.Fixtures.{world}

-- What a run computes with.
service_runs : Unit {0}
unfolding register register_found login ◌>>=◌ on_error attempt refuse_if read_clock find_email
service_runs = tt

-- A known email is refused.
register_twice :
    register service "o@x" "other" "pw" world
    ≡ (err (wrapped "email already registered" (sentinel conflict)), world)
unfolding service_runs
register_twice = refl

-- A wrong password is refused.
login_wrong : (login service "o@x" "wrong" world).0 ≡ err (sentinel unauthorized)
unfolding service_runs
login_wrong = refl

register_new : (register service "n@x" "new" "pw" world).0 ≡ ok tt
unfolding service_runs
register_new = refl

register-Registered_example :
    let (r, w) = register service "n@x" "new" "pw" world in
    Registered service "n@x" "new" "pw" world.tables r w.tables
register-Registered_example =
    register-Registered service (λ (w : World). w.tables) service-IsUserStore service-HashesMatch
      "n@x" "new" "pw" world

login-Decides_example :
    Decides service
      (admitted service "o@x" "wrong" world.tables)
      (login service "o@x" "wrong" world).0
login-Decides_example =
    login-Decides service (λ (w : World). w.tables) service-IsUserStore service-IsUp "o@x" "wrong"
      world

register-login_example :
    let (r, v) = register service "n@x" "new" "pw" world in
    (user : User) × (user.email ≡ "n@x")
    × (user.name ≡ "new")
    × Decides service (some user) (login service "n@x" "pw" v).0
register-login_example =
    register-login service (λ (w : World). w.tables) service-IsUserStore service-IsUp
      service-HashesMatch "n@x" "new" "pw" world register_new
