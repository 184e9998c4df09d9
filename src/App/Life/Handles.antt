-- ===== src/App/Life/Handles.antt =====
-- The connections that are open: none is left behind by a start that fails or by a clean end.
use team_tasks.Base.{
  ℕ, zero, suc, ◌-◌, ℤ, String, Option, none, some, ◌≡◌, ap, ◌∙◌, arith, ◌⊎◌, inl, inr,
}
use team_tasks.Domain.Errors.{Error, Result, ok, err}
use team_tasks.Action.{⊤}
use team_tasks.Config.{Config, Loaded, loaded, panicked, must_load}
use team_tasks.Connect.{Outcome, ready, rejected, not_ready, max_retries, retries, resume}
use team_tasks.Connect.Mysql.{Database, pinged, opened, attempt_once, build_dsn, connect}
use team_tasks.Connect.Redis.{Options, answered, ping_once, finish, dial}
use team_tasks.App.Life.{
  Runtime, App, Exit, panic, status, Event, signal, server_error, options, dialled, connected, new,
  shutdown, stop, started, start, main,
}

-- A call leaves one condition behind, or another if it ends in an error.
abbrev pub Leaves : {W A : Type 0} → (W → Type 0) → (W → Type 0) → Result A × W → Type 0
Leaves Before After (ok a, w) = After w
Leaves Before After (err e, w) = Before w

module _ {W D : Type 0} (Before After : W → Type 0) where
  abbrev Tried : Outcome D × W → Type 0
  Tried (ready d, w) = After w
  Tried (rejected e, w) = Before w
  Tried (not_ready e, w) = Before w

  resume-Leaves :
      (again : Option Error → W → Result D × W)
      → ((e : Option Error) (w : W) → Before w → Leaves Before After (again e w))
      → (o : Outcome D) (w : W) (name : String) (attempt : W → Outcome D × W) → Tried (o, w)
      → Leaves Before After (resume name attempt again o w)
  unfolding resume
  resume-Leaves again ih (ready d) w name attempt h = h
  resume-Leaves again ih (rejected e) w name attempt h = h
  resume-Leaves again ih (not_ready e) w name attempt h = ih (some e) w h

  retries-Leaves :
      (name : String) (attempt : W → Outcome D × W)
      → ((w : W) → Before w → Tried (attempt w))
      → (n : ℕ) (last : Option Error) (w : W) → Before w
      → Leaves Before After (retries name attempt n last w)
  unfolding retries
  retries-Leaves name attempt law zero last w h = h
  retries-Leaves name attempt law (suc n) last w h =
      resume-Leaves (λ e u. retries name attempt n e u)
        (λ e u. retries-Leaves name attempt law n e u) (attempt w).0 (attempt w).1 name attempt
        (law w h)

-- What is relied on: `at` counts the open handles of MySQL and of Redis.
pub record IsCounted {W D C : Type 0} (r : Runtime W D C) (at : W → ℕ × ℕ) : Type 0 where
  pub open_db :
      (dsn : String) (w : W)
      → Leaves (λ v. at v ≡ at w) (λ v. at v ≡ (suc (at w).0, (at w).1)) (r.sqlx.open_db dsn w)
  pub ping : (d : D) (w : W) → at (r.sqlx.ping d w).1 ≡ at w
  pub set_max_open_conns : (d : D) (n : ℤ) (w : W) → at (r.sqlx.set_max_open_conns d n w) ≡ at w
  pub set_max_idle_conns : (d : D) (n : ℤ) (w : W) → at (r.sqlx.set_max_idle_conns d n w) ≡ at w
  pub set_conn_max_lifetime :
      (d : D) (n : ℤ) (w : W) → at (r.sqlx.set_conn_max_lifetime d n w) ≡ at w
  pub close : (d : D) (w : W) → at (r.sqlx.close d w).1 ≡ ((at w).0 - 1, (at w).1)
  pub sleep : (t : ℤ) (w : W) → at (r.sqlx.sleep t w) ≡ at w
  pub new_client : (o : Options) (w : W) → at (r.dialer.new_client o w).1 ≡ ((at w).0, suc (at w).1)
  pub redis_ping : (c : C) (w : W) → at (r.dialer.ping c w).1 ≡ at w
  pub redis_close : (c : C) (w : W) → at (r.dialer.close c w).1 ≡ ((at w).0, (at w).1 - 1)
  pub redis_sleep : (t : ℤ) (w : W) → at (r.dialer.sleep t w) ≡ at w
  pub cancel : (w : W) → at (r.cancel w) ≡ at w
  pub shut_server : (t : ℤ) (w : W) → at (r.shut_server t w).1 ≡ at w

module _ {W D C : Type 0} (r : Runtime W D C) (at : W → ℕ × ℕ) (laws : IsCounted r at)
    (n m : ℕ) where
  abbrev None : W → Type 0
  None w = at w ≡ (n, m)

  abbrev Db : W → Type 0
  Db w = at w ≡ (suc n, m)

  abbrev pub Both : W → Type 0
  Both w = at w ≡ (suc n, suc m)

  closed_db : (k : ℕ) (d : D) (w : W) → at w ≡ (suc n, k) → at (r.sqlx.close d w).1 ≡ (n, k)
  closed_db k d w h = laws.close d w ∙ ap (λ (p : ℕ × ℕ). (p.0 - 1, p.1)) h ∙ λ i. (one_less i, k)
    where
      one_less : suc n - 1 ≡ n
      one_less = omega arith

  closed_rdb : (k : ℕ) (c : C) (w : W) → at w ≡ (k, suc m) → at (r.dialer.close c w).1 ≡ (k, m)
  closed_rdb k c w h =
      laws.redis_close c w ∙ ap (λ (p : ℕ × ℕ). (p.0, p.1 - 1)) h ∙ λ i. (k, one_less i)
    where
      one_less : suc m - 1 ≡ m
      one_less = omega arith

  pinged-Tried :
      (cfg : Database) (d : D) (e : Result ⊤) (w : W)
      → Db w
      → Tried None Db (pinged r.sqlx cfg d e w)
  unfolding pinged
  pinged-Tried cfg d (ok _) w h =
      laws.set_conn_max_lifetime d _ _
      ∙ laws.set_max_idle_conns d _ _
      ∙ laws.set_max_open_conns d _ w
      ∙ h
  pinged-Tried cfg d (err e) w h = laws.sleep _ _ ∙ closed_db m d w h

  opened-Tried :
      (cfg : Database) (a : Result D) (w : W)
      → Leaves None Db (a, w)
      → Tried None Db (opened r.sqlx cfg a w)
  unfolding opened
  opened-Tried cfg (ok d) w h =
      pinged-Tried cfg d (r.sqlx.ping d w).0 (r.sqlx.ping d w).1 (laws.ping d w ∙ h)
  opened-Tried cfg (err e) w h = h

  counted_from :
      (w : W) (o : Result D × W)
      → None w
      → Leaves (λ v. at v ≡ at w) (λ v. at v ≡ (suc (at w).0, (at w).1)) o
      → Leaves None Db o
  counted_from w (ok d, v) h law = law ∙ ap (λ (p : ℕ × ℕ). (suc p.0, p.1)) h
  counted_from w (err e, v) h law = law ∙ h

  connect-Leaves : (cfg : Database) (w : W) → None w → Leaves None Db (connect r.sqlx cfg w)
  unfolding connect attempt_once
  connect-Leaves cfg w h =
      retries-Leaves None Db "mysql" (attempt_once r.sqlx cfg)
        (λ v at_v.
          opened-Tried cfg (r.sqlx.open_db (build_dsn cfg) v).0 (r.sqlx.open_db (build_dsn cfg) v).1
            (counted_from v (r.sqlx.open_db (build_dsn cfg) v) at_v
              (laws.open_db (build_dsn cfg) v)))
        max_retries none w h

  answered-Tried :
      (c : C) (e : Result ⊤) (w : W) → Both w → Tried Both Both (answered r.dialer c e w)
  unfolding answered
  answered-Tried c (ok _) w h = h
  answered-Tried c (err e) w h = laws.redis_sleep _ w ∙ h

  finish-Leaves :
      (c : C) (o : Result C × W) → Leaves Both Both o → Leaves Db Both (finish r.dialer c o)
  unfolding finish
  finish-Leaves c (ok d, w) h = h
  finish-Leaves c (err e, w) h = closed_rdb (suc n) c w h

  dial-Leaves : (o : Options) (w : W) → Db w → Leaves Db Both (dial r.dialer o w)
  unfolding dial ping_once
  dial-Leaves o w h =
      let (c, v) = r.dialer.new_client o w in
      let opened = laws.new_client o w ∙ ap (λ (p : ℕ × ℕ). (p.0, suc p.1)) h in
      finish-Leaves c _ (
        retries-Leaves Both Both "redis" (ping_once r.dialer c)
          (λ u at_u.
            answered-Tried c (r.dialer.ping c u).0 (r.dialer.ping c u).1
              (laws.redis_ping c u ∙ at_u))
          max_retries none v opened)

  dialled-Leaves :
      (cfg : Config) (db : D) (o : Result C) (w : W)
      → Leaves Db Both (o, w)
      → Leaves None Both (dialled r cfg db o w)
  unfolding dialled
  dialled-Leaves cfg db (ok rdb) w h = h
  dialled-Leaves cfg db (err e) w h = closed_db m db (r.cancel w) (laws.cancel w ∙ h)

  connected-Leaves :
      (cfg : Config) (o : Result D) (w : W)
      → Leaves None Db (o, w)
      → Leaves None Both (connected r cfg o w)
  unfolding connected
  connected-Leaves cfg (ok db) w h =
      let (c, v) = dial r.dialer (options r cfg) w in
      dialled-Leaves cfg db c v (dial-Leaves (options r cfg) w h)
  connected-Leaves cfg (err e) w h = laws.cancel w ∙ h

  -- `New` returns with one more connection to each database, or with an error and none: what it has
  -- opened before the failure it has closed again.
  pub new-Leaves : (cfg : Config) (w : W) → at w ≡ (n, m) → Leaves None Both (new r cfg w)
  unfolding new
  new-Leaves cfg w h =
      let (d, v) = connect r.sqlx cfg.database w in
      connected-Leaves cfg d v (connect-Leaves cfg.database w h)

  shutdown-None : (a : App W D C) (t : ℤ) (w : W) → Both w → None (shutdown r a t w).1
  unfolding shutdown
  shutdown-None a t w h =
      let w1 = (r.shut_server t (r.cancel w)).1 in
      closed_rdb n a.rdb _
        (closed_db (suc m) a.db w1 (laws.shut_server t (r.cancel w) ∙ laws.cancel w ∙ h))

  -- How `main` may end: with status 1 it may leave a connection to each database to the system.
  abbrev pub Closes : Exit × W → Type 0
  Closes (panic e, w) = at w ≡ (n, m)
  Closes (status zero, w) = at w ≡ (n, m)
  Closes (status (suc k), w) = (at w ≡ (n, m)) ⊎ (at w ≡ (suc n, suc m))

  exit_of : Result ⊤ → Exit
  exit_of e = elim e [ ok _ ↦ status 0 | err _ ↦ status 1 ]

  ended_None : (e : Result ⊤) (w : W) → None w → Closes (exit_of e, w)
  unfolding exit_of
  ended_None (ok _) w h = h
  ended_None (err e) w h = inl h

  stop-Closes : (a : App W D C) (t : ℤ) (e : Event) (w : W) → Both w → Closes (stop r a t e w)
  unfolding stop exit_of
  stop-Closes a t signal w h =
      ended_None (shutdown r a t w).0 (shutdown r a t w).1 (shutdown-None a t w h)
  stop-Closes a t (server_error e) w h = inr h

  module _ (run : App W D C → W → Event × W)
      (kept : (a : App W D C) (w : W) → at (run a w).1 ≡ at w) where
    started-Closes :
        (cfg : Config) (o : Result (App W D C)) (w : W)
        → Leaves None Both (o, w)
        → Closes (started r cfg run o w)
    unfolding started
    started-Closes cfg (ok a) w h =
        stop-Closes a cfg.server.shutdown_timeout (run a w).0 (run a w).1 (kept a w ∙ h)
    started-Closes cfg (err e) w h = inl h

    start-Closes : (l : Loaded) (w : W) → None w → Closes (start r run l w)
    unfolding start
    start-Closes (loaded cfg) w h =
        started-Closes cfg (new r cfg w).0 (new r cfg w).1 (new-Leaves cfg w h)
    start-Closes (panicked e) w h = h

    -- `main` ends with status 0 or a panic only with every connection closed that it has opened, and
    -- with status 1 either so or with one to each database, if no other connection is opened or
    -- closed while the server runs.
    pub main-Closes :
        {P : Type 0} (read_config : P → Result Config) (path : P) (w : W)
        → at w ≡ (n, m)
        → Closes (main r read_config path run w)
    unfolding main
    main-Closes read_config path w h = start-Closes (must_load read_config path) w h
