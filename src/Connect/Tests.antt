-- ===== src/Connect/Tests.antt =====
-- Databases that answer from their third ping on, in a world that counts the pauses.
use team_tasks.Base.{ℕ, suc, pos, String, ltb, if◌then◌else◌, ◌≡◌, refl}
use team_tasks.Domain.Errors.{plain, wrapped, ok, err}
use team_tasks.Action.{Action, ⊤}
use team_tasks.Connect.{retries, resume, unavailable}
use team_tasks.Connect.Mysql.{Database, Sqlx, pinged, opened, attempt_once, connect, build_dsn}
use team_tasks.Connect.Redis.{Dialer, answered, ping_once, finish, dial}
use team_tasks.Base.Decimal.{decimal}

abbrev config : Database
config = record {
  host = "db";
  port = pos 3306;
  name = "tasks";
  user = "app";
  password = "pw";
  max_open_conns = pos 25;
  max_idle_conns = pos 5;
  conn_max_lifetime = pos 300000000000;
}

-- The first answer comes after that many pauses.
abbrev answer : ℕ → Action ℕ ⊤
answer n w = if ltb w n then (err (plain "refused"), w) else (ok tt, w)

abbrev sqlx : ℕ → Sqlx ℕ String
sqlx n = record {
  open_db = λ dsn w. (ok dsn, w);
  ping = λ d w. answer n w;
  set_max_open_conns = λ d c w. w;
  set_max_idle_conns = λ d c w. w;
  set_conn_max_lifetime = λ d c w. w;
  close = λ d w. (ok tt, w);
  sleep = λ t w. suc w;
}

abbrev dialer : ℕ → Dialer ℕ String
dialer n = record {
  new_client = λ o w. (o.addr, w);
  ping = λ c w. answer n w;
  close = λ c w. (ok tt, w);
  sleep = λ t w. suc w;
}

connect_third :
    connect (sqlx 2) config 0 ≡ (ok "app:pw@tcp(db:3306)/tasks?parseTime=true&loc=UTC", 2)
unfolding connect retries resume attempt_once opened pinged build_dsn decimal
connect_third = refl

connect_never :
    connect (sqlx 11) config 0
    ≡ (err (wrapped "mysql: unavailable after 10 attempts" (plain "refused")), 10)
unfolding connect retries resume attempt_once opened pinged build_dsn decimal unavailable
connect_never = refl

dial_third :
    dial
      (dialer 2)
      (record { addr = "cache:6379"; password = ""; db = pos 0; pool_size = pos 10 })
      0
    ≡ (ok "cache:6379", 2)
unfolding dial finish retries resume ping_once answered
dial_third = refl
