-- ===== src/App/Life.antt =====
-- The life of the service: `New` and `Shutdown` of internal/app/app.go, and `main` of
-- cmd/teamtasks/main.go. Log lines are left out; what the signals and the goroutine of the server
-- send first is an argument of `main`.
pub mod Handles
use team_tasks.Base.{ℕ, ℤ, String, Bool, true, false, Option, none, some, List, if◌then◌else◌}
use team_tasks.Domain.Errors.{Error, Result, ok, err}
use team_tasks.Action.{⊤, Action}
use team_tasks.Platform.{Platform}
use team_tasks.Auth.Service as Auth
use team_tasks.Task.Service as Task
use team_tasks.Notifier.{EmailClient}
use team_tasks.Redis.TaskCache.{Client}
use team_tasks.Mysql.Driver.{Db}
use team_tasks.Config.{
  Config, server_addr, Loaded, loaded, panicked, must_load, EmailService, CircuitBreaker,
}
use team_tasks.Connect.Mysql.{Sqlx, connect}
use team_tasks.Connect.Redis.{Options, Dialer, dial}
use team_tasks.App.{Parts}

-- The libraries: the drivers and what they make of a connection, the server and its end, and what
-- the services are made of beside them.
pub record Runtime (W D C : Type 0) : Type 0 where
  pub sqlx : Sqlx W D
  pub dialer : Dialer W C
  pub mysql : D → Db W
  pub redis : C → Client W
  -- `circuitbreaker.NewEmailClient`
  pub new_email_client : EmailService → CircuitBreaker → EmailClient W
  -- the `cancel` of `context.WithCancel`
  pub cancel : W → W
  -- `http.Server.Shutdown` with a timeout
  pub shut_server : ℤ → Action W ⊤
  -- `errors.Is(err, http.ErrServerClosed)`
  pub is_server_closed : Error → Bool
  pub platform : Platform W
  pub turns : ℕ
  pub generate_from_password : String → Action W String
  pub compare_hash_and_password : String → String → Result ⊤
  pub signed_string : String → Auth.Claims → Result String
  pub marshal : Task.CachedList → Result (List ℕ)
  pub unmarshal : List ℕ → Result Task.CachedList

-- `App`, with the fields of its server that `New` sets, and the parts of its handler.
pub record App (W D C : Type 0) : Type 0 where
  pub addr : String
  pub read_timeout : ℤ
  pub write_timeout : ℤ
  pub handler : Parts W
  pub db : D
  pub rdb : C

-- What `main` ends with: a panic, or a status for the system.
pub data Exit : Type 0 where
  panic : Error → Exit
  status : ℕ → Exit

-- What `main` waits for.
pub data Event : Type 0 where
  signal : Event
  server_error : Error → Event

module _ {W D C : Type 0} (r : Runtime W D C) where
  abbrev pub options : Config → Options
  options cfg = record {
    addr = cfg.redis.addr;
    password = cfg.redis.password;
    db = cfg.redis.db;
    pool_size = cfg.redis.pool_size;
  }

  abbrev pub parts_of : Config → D → C → Parts W
  parts_of cfg db rdb = record {
    platform = r.platform;
    db = r.mysql db;
    redis = r.redis rdb;
    turns = r.turns;
    email_client = r.new_email_client cfg.email_service cfg.circuit_breaker;
    jwt_secret = cfg.auth.jwt_secret;
    jwt_expiry = cfg.auth.jwt_expiry;
    task_list_ttl = cfg.redis.task_list_ttl;
    generate_from_password = r.generate_from_password;
    compare_hash_and_password = r.compare_hash_and_password;
    signed_string = r.signed_string;
    marshal = r.marshal;
    unmarshal = r.unmarshal;
  }

  abbrev pub app_of : Config → D → C → App W D C
  app_of cfg db rdb = record {
    addr = server_addr cfg.server;
    read_timeout = cfg.server.read_timeout;
    write_timeout = cfg.server.write_timeout;
    handler = parts_of cfg db rdb;
    db = db;
    rdb = rdb;
  }

  -- After `redisstore.New`.
  unfoldable pub dialled : Config → D → Result C → W → Result (App W D C) × W
  dialled cfg db (ok rdb) w = (ok (app_of cfg db rdb), w)
  dialled cfg db (err e) w = (err e, (r.sqlx.close db (r.cancel w)).1)

  -- After `mysqlstore.New`.
  unfoldable pub connected : Config → Result D → W → Result (App W D C) × W
  connected cfg (ok db) w = let (c, v) = dial r.dialer (options cfg) w in dialled cfg db c v
  connected cfg (err e) w = (err e, r.cancel w)

  -- `New`
  unfoldable pub new : Config → Action W (App W D C)
  new cfg w = let (d, v) = connect r.sqlx cfg.database w in connected cfg d v

  -- `App.Shutdown`
  unfoldable pub shutdown : App W D C → ℤ → Action W ⊤
  shutdown a timeout w =
      let (e, w1) = r.shut_server timeout (r.cancel w) in
      let w2 = (r.sqlx.close a.db w1).1 in (e, (r.dialer.close a.rdb w2).1)

  -- What the goroutine of the server sends when `ListenAndServe` has come back with an error.
  unfoldable pub reported : Error → Option Error
  reported e = if r.is_server_closed e then none else some e

  -- After the `select`: the rest of `main`.
  unfoldable pub stop : App W D C → ℤ → Event → W → Exit × W
  stop a timeout (server_error e) w = (status 1, w)
  stop a timeout signal w =
      let (e, v) = shutdown a timeout w in (elim e [ ok _ ↦ status 0 | err _ ↦ status 1 ], v)

  -- `run` is what happens while the server runs.
  unfoldable pub started : Config → (App W D C → W → Event × W) → Result (App W D C) → W → Exit × W
  started cfg run (err e) w = (status 1, w)
  started cfg run (ok a) w = let (event, v) = run a w in stop a cfg.server.shutdown_timeout event v

  unfoldable pub start : (App W D C → W → Event × W) → Loaded → W → Exit × W
  start run (panicked e) w = (panic e, w)
  start run (loaded cfg) w = let (a, v) = new cfg w in started cfg run a v

  unfoldable pub main :
      {P : Type 0} → (P → Result Config) → P → (App W D C → W → Event × W) → W → Exit × W
  main read_config path run w = start run (must_load read_config path) w
