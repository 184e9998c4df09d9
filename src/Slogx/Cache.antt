-- ===== src/Slogx/Cache.antt =====
-- The cache of `getOrBuildCachedHandler` of pkg/slogx/handler.go and `UpdateConfig` of logger.go, as
-- steps between the loads and stores of atomic pointers. A configuration is known by its address;
-- goroutines are the calls of `Handle` and of `UpdateConfig` that are under way.
use team_tasks.Base.{ℕ, suc, Bool, Option, none, some, ◌==◌, if◌then◌else◌}
use team_tasks.Slogx.Handler.{Slog, Texts, Derived, build}
use team_tasks.Slogx.Config.{Config}

-- The configurations by their addresses, `h.cfg`, the next free address, `h.cachedHandler` and
-- `h.cachedConfigVersion`.
pub record Memory (H : Type 0) : Type 0 where
  pub configs : ℕ → Config
  pub current : ℕ
  pub free : ℕ
  pub cached_handler : Option H
  pub cached_version : Option ℕ

-- Where a call of `Handle` stands, with the address that it has loaded and the handler that it has.
pub data Call (H : Type 0) : Type 0 where
  waiting : Call H
  -- behind `cfg := h.cfg.Load()`
  loaded : ℕ → Call H
  -- behind `h.cachedConfigVersion.Load() == cfg`
  matched : ℕ → Call H
  -- before `h.cachedHandler.Store(&base)`, and before `h.cachedConfigVersion.Store(cfg)`
  built : ℕ → H → Call H
  stored : ℕ → H → Call H
  -- with the handler that the record goes to
  using : ℕ → H → Call H

-- `h.cachedConfigVersion.Load() == cfg`
abbrev pub same_version : Option ℕ → ℕ → Bool
same_version none v = Bool.false
same_version (some u) v = u == v

module _ {H : Type 0} (slog : Slog H) (lib : Texts) (d : Derived) where
  abbrev pub cached_or_built : Memory H → ℕ → Option H → Call H
  cached_or_built m v (some h) = using v h
  cached_or_built m v none = built v (build slog lib (m.configs v) d)

  -- The next load or store of a call.
  unfoldable pub advance : Memory H → Call H → Memory H × Call H
  advance m waiting = (m, loaded m.current)
  advance m (loaded v) = (
    m,
    if same_version m.cached_version v then matched v else built v (build slog lib (m.configs v) d),
  )
  advance m (matched v) = (m, cached_or_built m v m.cached_handler)
  advance m (built v h) = (record m { cached_handler = some h }, stored v h)
  advance m (stored v h) = (record m { cached_version = some v }, using v h)
  advance m (using v h) = (m, using v h)

-- `cfgPtr.Load().Clone()`, the function on the copy, and `cfgPtr.Store(newCfg)`, when no other update
-- comes in between.
unfoldable pub store_config : {H : Type 0} → (Config → Config) → Memory H → Memory H
store_config f m = record m {
  configs = λ v. if v == m.free then f (m.configs m.current) else m.configs v;
  current = m.free;
  free = suc m.free;
}

-- A new handler at a configuration.
abbrev pub fresh_memory : {H : Type 0} → Config → Memory H
fresh_memory cfg = record {
  configs = λ v. cfg;
  current = 0;
  free = 1;
  cached_handler = none;
  cached_version = none;
}
