-- ===== src/Config.antt =====
-- internal/config/config.go: the configuration of the service. A duration that the services use is a
-- natural number of nanoseconds.
use Prim.Native.String.{◌++◌}
use team_tasks.Base.{ℕ, ℤ, String}
use team_tasks.Base.Decimal.{decimal}
use team_tasks.Domain.Errors.{Error, Result, ok, err}
use team_tasks.Connect.Mysql.{Database}

pub record Server : Type 0 where
  pub port : ℤ
  pub read_timeout : ℤ
  pub write_timeout : ℤ
  pub shutdown_timeout : ℤ

-- `Server.Addr`
unfoldable pub server_addr : Server → String
server_addr s = ":" ++ decimal s.port

pub record Redis : Type 0 where
  pub addr : String
  pub password : String
  pub db : ℤ
  pub pool_size : ℤ
  pub task_list_ttl : ℕ

pub record Auth : Type 0 where
  pub jwt_secret : String
  pub jwt_expiry : ℕ

pub record RateLimit : Type 0 where
  pub requests_per_minute : ℤ

pub record CircuitBreaker : Type 0 where
  pub max_requests : ℕ
  pub interval : ℤ
  pub timeout : ℤ

pub record EmailService : Type 0 where
  pub base_url : String

pub record Config : Type 0 where
  pub env : String
  pub server : Server
  pub database : Database
  pub redis : Redis
  pub auth : Auth
  pub rate_limit : RateLimit
  pub circuit_breaker : CircuitBreaker
  pub email_service : EmailService

-- What `MustLoad` comes to.
pub data Loaded : Type 0 where
  loaded : Config → Loaded
  panicked : Error → Loaded

-- `MustLoad`, over `cleanenv.ReadConfig`.
unfoldable pub must_load : {P : Type 0} → (P → Result Config) → P → Loaded
must_load read_config path = elim (read_config path) [ ok cfg ↦ loaded cfg | err e ↦ panicked e ]
