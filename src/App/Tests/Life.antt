-- ===== src/App/Tests/Life.antt =====
-- A start against databases that answer, in a world that counts the open connections.
use team_tasks.Base.{ℕ, suc, pos, ◌-◌, String, [], ◌≡◌, refl, true, false}
use team_tasks.Domain.Errors.{Result, ok, err, plain}
use team_tasks.Action.{⊤, Action}
use team_tasks.Platform.{Platform}
use team_tasks.Notifier.{EmailClient}
use team_tasks.Redis.TaskCache.{Client}
use team_tasks.Mysql.Driver.{Db}
use team_tasks.Memory.{formats}
use team_tasks.Config.{Config, must_load}
use team_tasks.Connect.{retries, resume}
use team_tasks.Connect.Mysql.{attempt_once, opened, pinged, connect}
use team_tasks.Connect.Redis.{dial, ping_once, answered, finish}
use team_tasks.App.Life.{
  Runtime, status, signal, new, connected, dialled, shutdown, stop, started, start, main,
}
use team_tasks.App.Life.Handles.{Leaves, IsCounted, Closes, new-Leaves, main-Closes}

abbrev Counts : Type 0
Counts = ℕ × ℕ

abbrev down : {A : Type 0} → Action Counts A
down w = (err (plain "down"), w)

abbrev platform : Platform Counts
platform = record { new_uuid = down; now = λ w. (0, w); formats = formats }

abbrev tables_down : Db Counts
tables_down = record {
  exec = λ statement args. down;
  get = λ r statement args. down;
  select = λ r statement args. down;
  begin = down;
  tx_exec = λ statement args. down;
  commit = down;
  rollback = down;
}

abbrev cache_down : Client Counts
cache_down = record {
  get = λ key. down;
  set = λ key bytes ttl. down;
  del = λ keys. down;
  scan = λ cursor pattern count. down;
  has_suffix = λ text suffix. true;
}

abbrev mail_down : EmailClient Counts
mail_down = record {
  base_url = "";
  execute = λ m. m;
  marshal = λ to team_name. ok [];
  new_request = λ url payload. ok payload;
  send = λ request. down;
}

-- Redis answers or it does not.
abbrev runtime : Result ⊤ → Runtime Counts ⊤ ⊤
runtime redis_answer = record {
  sqlx = record {
    open_db = λ dsn w. (ok tt, (suc w.0, w.1));
    ping = λ d w. (ok tt, w);
    set_max_open_conns = λ d n w. w;
    set_max_idle_conns = λ d n w. w;
    set_conn_max_lifetime = λ d n w. w;
    close = λ d w. (ok tt, (w.0 - 1, w.1));
    sleep = λ t w. w;
  };
  dialer = record {
    new_client = λ o w. (tt, (w.0, suc w.1));
    ping = λ c w. (redis_answer, w);
    close = λ c w. (ok tt, (w.0, w.1 - 1));
    sleep = λ t w. w;
  };
  mysql = λ d. tables_down;
  redis = λ c. cache_down;
  new_email_client = λ service breaker. mail_down;
  cancel = λ w. w;
  shut_server = λ t w. (ok tt, w);
  is_server_closed = λ e. false;
  platform = platform;
  turns = 1;
  generate_from_password = λ password. down;
  compare_hash_and_password = λ hash password. ok tt;
  signed_string = λ secret c. ok "";
  marshal = λ found. err (plain "unsupported");
  unmarshal = λ bytes. err (plain "malformed");
}

runtime-IsCounted : (a : Result ⊤) → IsCounted (runtime a) (λ w. w)
runtime-IsCounted a = record {
  open_db = λ dsn w. refl;
  ping = λ d w. refl;
  set_max_open_conns = λ d n w. refl;
  set_max_idle_conns = λ d n w. refl;
  set_conn_max_lifetime = λ d n w. refl;
  close = λ d w. refl;
  sleep = λ t w. refl;
  new_client = λ o w. refl;
  redis_ping = λ c w. refl;
  redis_close = λ c w. refl;
  redis_sleep = λ t w. refl;
  cancel = λ w. refl;
  shut_server = λ t w. refl;
}

abbrev config : Config
config = record {
  env = "local";
  server = record {
    port = pos 8080;
    read_timeout = pos 5;
    write_timeout = pos 10;
    shutdown_timeout = pos 15;
  };
  database = record {
    host = "db";
    port = pos 3306;
    name = "tasks";
    user = "app";
    password = "pw";
    max_open_conns = pos 25;
    max_idle_conns = pos 5;
    conn_max_lifetime = pos 300;
  };
  redis = record {
    addr = "cache:6379";
    password = "";
    db = pos 0;
    pool_size = pos 10;
    task_list_ttl = 30;
  };
  auth = record { jwt_secret = "secret"; jwt_expiry = 3600 };
  rate_limit = record { requests_per_minute = pos 100 };
  circuit_breaker = record { max_requests = 3; interval = pos 60; timeout = pos 30 };
  email_service = record { base_url = "" };
}

-- Where Redis stays away, the connection to MySQL is closed again.
new_alone : (new (runtime (err (plain "refused"))) config (3, 4)).1 ≡ (3, 4)
unfolding new connected dialled connect dial finish retries resume attempt_once opened pinged
    ping_once answered
new_alone = refl

-- A signal ends the service with status 0.
main_signal :
    main (runtime (ok tt)) (λ (path : String). ok config) "config.yaml" (λ a w. (signal, w)) (3, 4)
    ≡ (status 0, (3, 4))
unfolding main start started stop shutdown must_load new connected dialled connect dial finish
    retries resume attempt_once opened pinged ping_once answered
main_signal = refl

new-Leaves_example :
    Leaves (λ (w : Counts). w ≡ (3, 4)) (λ w. w ≡ (4, 5)) (new (runtime (ok tt)) config (3, 4))
new-Leaves_example =
    new-Leaves (runtime (ok tt)) (λ w. w) (runtime-IsCounted (ok tt)) 3 4 config (3, 4) refl

main-Closes_example :
    Closes
      (runtime (ok tt))
      (λ w. w)
      (runtime-IsCounted (ok tt))
      3
      4
      (main
        (runtime (ok tt))
        (λ (path : String). ok config)
        "config.yaml"
        (λ a w. (signal, w))
        (3, 4))
main-Closes_example =
    main-Closes (runtime (ok tt)) (λ w. w) (runtime-IsCounted (ok tt)) 3 4 (λ a w. (signal, w))
      (λ a w. refl) (λ (path : String). ok config) "config.yaml" (3, 4) refl
