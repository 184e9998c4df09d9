-- ===== src/Connect/Mysql.antt =====
-- `New` and `buildDSN` of internal/storage/mysql/db.go, over the package `sqlx` as a parameter.
use team_tasks.Base.{ℤ, String, none}
use team_tasks.Base.Decimal.{decimal}
use team_tasks.Domain.Errors.{wrapped, Result, ok, err}
use team_tasks.Action.{Action, ⊤}
use team_tasks.Connect.{
  Outcome, ready, rejected, not_ready, max_retries, retry_interval, retries, Ends, retries-Ends,
}
use Prim.Native.String.{◌++◌}

-- `config.Database`
pub record Database : Type 0 where
  pub host : String
  pub port : ℤ
  pub name : String
  pub user : String
  pub password : String
  pub max_open_conns : ℤ
  pub max_idle_conns : ℤ
  pub conn_max_lifetime : ℤ

-- `sqlx.Open("mysql", dsn)`, the methods of `*sqlx.DB`, and `time.Sleep`.
pub record Sqlx (W D : Type 0) : Type 0 where
  pub open_db : String → Action W D
  pub ping : D → Action W ⊤
  pub set_max_open_conns : D → ℤ → W → W
  pub set_max_idle_conns : D → ℤ → W → W
  pub set_conn_max_lifetime : D → ℤ → W → W
  pub close : D → Action W ⊤
  pub sleep : ℤ → W → W

unfoldable pub build_dsn : Database → String
build_dsn cfg =
    cfg.user
    ++ ":"
    ++ cfg.password
    ++ "@tcp("
    ++ cfg.host
    ++ ":"
    ++ decimal cfg.port
    ++ ")/"
    ++ cfg.name
    ++ "?parseTime=true&loc=UTC"

module _ {W D : Type 0} (x : Sqlx W D) (cfg : Database) where
  unfoldable pub pinged : D → Result ⊤ → W → Outcome D × W
  pinged d (ok _) w =
      let w1 = x.set_max_open_conns d cfg.max_open_conns w in
      let w2 = x.set_max_idle_conns d cfg.max_idle_conns w1 in
      (ready d, x.set_conn_max_lifetime d cfg.conn_max_lifetime w2)
  pinged d (err e) w = let (r, v) = x.close d w in (not_ready e, x.sleep retry_interval v)

  unfoldable pub opened : Result D → W → Outcome D × W
  opened (ok d) w = let (r, v) = x.ping d w in pinged d r v
  opened (err e) w = (rejected (wrapped "mysql: invalid dsn" e), w)

  -- The body of the loop.
  unfoldable pub attempt_once : W → Outcome D × W
  attempt_once w = let (r, v) = x.open_db (build_dsn cfg) w in opened r v

  -- `New`
  unfoldable pub connect : Action W D
  connect w = retries "mysql" attempt_once max_retries none w

  -- The connection to MySQL comes back after at most ten attempts: with the database of the first
  -- that is pinged, with the error of the first that finds the data source invalid, or, if all ten
  -- pings fail, with the last error.
  connect-Ends : (w : W) → Ends "mysql" attempt_once max_retries none w (connect w)
  unfolding connect
  connect-Ends w = retries-Ends "mysql" attempt_once max_retries none w
