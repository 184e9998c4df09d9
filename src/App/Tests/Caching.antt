-- ===== src/App/Tests/Caching.antt =====
-- The cache of the wired task service in memory.
use team_tasks.Base.{
  ℕ, String, List, Option, none, inl, inr, Bool-cases, str_eq, str_eq_iff, sym, ap, subst, arith,
  [], suc, some, ◌∷◌, ◌≡◌, refl,
}
use team_tasks.Domain.Errors.{Result, ok, err}
use team_tasks.Memory.{entry_of}
use team_tasks.Memory.Tasks.{set_entry}
use team_tasks.Memory.Database.{World, database}
use team_tasks.Redis.Invalidation.{Listed, IsRedis}
use team_tasks.App.Caching.{IsCache, Has}
use team_tasks.Store.{Tables}
use team_tasks.Mysql.Driver.{Value}
use team_tasks.App.Caching.{Fewer}
use team_tasks.Memory.Database.{run, effect}
use team_tasks.App.Tests.{parts, redis, keys_of, looked_up}

-- The cache of a world.
abbrev pub cached : World → String → Option (List ℕ)
cached w key = entry_of key w.cache

listed :
    (key : String) (c : List (String × List ℕ)) (b : List ℕ)
    → entry_of key c ≡ some b
    → Listed key (keys_of c)
listed key [] b e = cc
listed key ((k, bytes) ∷ c) b e = elim (Bool-cases (str_eq key k)) [
  | inl same ↦ inl ((str_eq_iff key k).0 same)
  | inr other ↦ inr (listed key c b (rw other at e))
]

found_entry : (o : Option (List ℕ)) (b : List ℕ) → looked_up o ≡ ok b → o ≡ some b
found_entry none b e = cc
found_entry (some a) b e = cc

abbrev pub Matches : String → String → Type 0
Matches pattern key = Unit

abbrev pub Pending : String → ℕ → World → String → Type 0
Pending pattern cursor w key = Unit

abbrev pub rank : String → ℕ → World → ℕ
rank pattern cursor w = 0

nothing : {b : List ℕ} → none ≡ some b → ⊥
nothing e = cc

abbrev page_of : Result (List String × ℕ) → List String × ℕ
page_of (ok p) = p
page_of (err e) = ([], 0)

page_keys :
    (w : World) (keys : List String) (next : ℕ)
    → (redis.scan 0 "" 100 w).0 ≡ ok (keys, next)
    → (keys_of w.cache ≡ keys) × (0 ≡ next)
page_keys w keys next e =
    let same = ap page_of e in
    (ap (λ (p : List String × ℕ). p.0) same, ap (λ (p : List String × ℕ). p.1) same)

pub redis-IsRedis : IsRedis redis (Has cached) Matches Pending rank
redis-IsRedis = record {
  start = λ pattern w key matches has. tt;
  scan_has = λ pattern cursor w key has. has;
  scan_ok = λ pattern cursor w keys next key e has pending.
      inl (subst (Listed key) (page_keys w keys next e).0 (listed key w.cache has.0 has.1));
  scan_rank = λ pattern cursor w keys next e. inl (sym (page_keys w keys next e).1);
  del_has = λ keys w key (bytes, e). absurd (nothing e);
  del_ok = λ keys w key e listed (bytes, there). nothing there;
  del_pending = λ keys pattern cursor w key pending. tt;
  del_rank = λ keys pattern cursor w. omega arith;
}

run_keeps :
    (statement : String) (args : List Value) (w : World)
    → Fewer cached w (database.exec statement args w).1
run_keeps statement args w = ran (effect w.ticks statement args)
  where
    ran :
        (o : Option (Tables → Tables))
        → Fewer cached w (run (λ v f. record v { tables = f v.tables; ticks = suc v.ticks }) w o).1
    ran none = λ key bytes e. e
    ran (some f) = λ key bytes e. e

tx_run_keeps :
    (statement : String) (args : List Value) (w : World)
    → Fewer cached w (database.tx_exec statement args w).1
tx_run_keeps statement args w = ran (effect w.ticks statement args)
  where
    ran :
        (o : Option (Tables → Tables))
        → Fewer cached w (run (λ v f. record v { draft = f v.draft }) w o).1
    ran none = λ key bytes e. e
    ran (some f) = λ key bytes e. e

pub parts-IsCache : IsCache parts (λ w. w.tables) cached Matches rank
parts-IsCache = record {
  db_get = λ r statement args w. (refl, λ key bytes e. e);
  db_select = λ r statement args w. (refl, λ key bytes e. e);
  db_exec = λ statement args w. run_keeps statement args w;
  db_begin = λ w key bytes e. e;
  db_tx_exec = λ statement args w. tx_run_keeps statement args w;
  db_commit = λ w key bytes e. e;
  db_rollback = λ w key bytes e. e;
  new_uuid = λ w. (refl, λ key bytes e. e);
  now = λ w. (refl, λ key bytes e. e);
  get = λ key w. (refl, λ k bytes e. e);
  get_ok = λ key w bytes e. found_entry (entry_of key w.cache) bytes e;
  set = λ key bytes ttl w. (refl, set_entry key bytes w.cache);
  del = λ keys w. (refl, λ key bytes e. cc);
  scan = λ cursor pattern w. (refl, λ key bytes e. e);
  star = λ prefix. refl;
  matches = λ prefix rest. tt;
  enough = λ pattern w. omega arith;
  round_trip = λ found bytes e. cc;
}
