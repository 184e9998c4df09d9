-- ===== src/Slogx/Alone.antt =====
-- The cache of `DynamicHandler` where one goroutine logs, while others update the configuration at
-- any moment.
use team_tasks.Base.{
  ℕ, ◌<◌, true, false, Option, none, some, List, [], ◌∷◌, ◌≡◌, refl, arith, ap, sym, subst, ◌∙◌,
  ◌==◌, Bool-cases, inl, inr,
}
use team_tasks.Slogx.Handler.{Slog, Texts, Derived, build}
use team_tasks.Slogx.Config.{Config}
use team_tasks.Slogx.Cache.{
  Memory, Call, waiting, loaded, matched, built, stored, using, same_version, cached_or_built,
  advance, store_config, fresh_memory,
}

-- What happens next: a step of the call, the next record, or an update.
pub data Move : Type 0 where
  step again : Move
  updates : (Config → Config) → Move

module _ {H : Type 0} (slog : Slog H) (lib : Texts) (d : Derived) where
  abbrev pub next : Call H → Call H
  next (using v h) = waiting
  next c = c

  abbrev pub move : Move → Memory H × Call H → Memory H × Call H
  move step (m, c) = advance slog lib d m c
  move again (m, c) = (m, next c)
  move (updates f) (m, c) = (store_config f m, c)

  abbrev pub moves : List Move → Memory H × Call H → Memory H × Call H
  moves [] s = s
  moves (x ∷ xs) s = moves xs (move x s)

  abbrev handler_of : Memory H → ℕ → H
  handler_of m v = build slog lib (m.configs v) d

  -- The cached handler is the one of the cached version.
  Cached : Memory H → Option ℕ → Type 0
  Cached m none = Unit
  Cached m (some v) = (v < m.free) × (m.cached_handler ≡ some (handler_of m v))

  -- Where a call stands: between its two stores the cache is not in step.
  InStep : Memory H → Call H → Type 0
  InStep m waiting = Cached m m.cached_version
  InStep m (loaded v) = (v < m.free) × Cached m m.cached_version
  InStep m (matched v) = (v < m.free) × Cached m m.cached_version × (m.cached_version ≡ some v)
  InStep m (built v h) = (v < m.free) × Cached m m.cached_version × (h ≡ handler_of m v)
  InStep m (stored v h) = (v < m.free) × (h ≡ handler_of m v) × (m.cached_handler ≡ some h)
  InStep m (using v h) = (v < m.free) × Cached m m.cached_version × (h ≡ handler_of m v)

  Steady : Memory H × Call H → Type 0
  Steady (m, c) = (m.current < m.free) × InStep m c

  same_version-some : (o : Option ℕ) (v : ℕ) → same_version o v ≡ true → o ≡ some v
  same_version-some none v e = cc
  same_version-some (some u) v e = let same : u ≡ v = ground (arith, e) in ap (λ n. some n) same

  some_injective : {A : Type 0} {a b : A} → some a ≡ some b → a ≡ b
  some_injective e = cc

  matched_next :
      (m : Memory H) (v : ℕ) (o : Option H)
      → m.cached_handler ≡ o
      → v < m.free
      → Cached m m.cached_version
      → m.cached_version ≡ some v
      → InStep m (cached_or_built slog lib d m v o)
  unfolding Cached InStep
  matched_next m v none is fresh cached version = (fresh, cached, refl)
  matched_next m v (some h) is fresh cached version =
      let (below, held) = subst (Cached m) version cached in
      (fresh, cached, some_injective (sym is ∙ held))

  advance-Steady : (m : Memory H) (c : Call H) → Steady (m, c) → Steady (advance slog lib d m c)
  unfolding advance Steady InStep Cached
  advance-Steady m waiting (now, cached) = (now, (now, cached))
  advance-Steady m (loaded v) (now, (fresh, cached)) =
      elim (Bool-cases (same_version m.cached_version v)) [
        | inl same ↦ rw same (now, (fresh, cached, same_version-some m.cached_version v same))
        | inr other ↦ rw other (now, (fresh, cached, refl))
      ]
  advance-Steady m (matched v) (now, (fresh, cached, version)) =
      (now, matched_next m v m.cached_handler refl fresh cached version)
  advance-Steady m (built v h) (now, (fresh, cached, is)) = (now, (fresh, is, refl))
  advance-Steady m (stored v h) (now, (fresh, is, held)) =
      (now, (fresh, (fresh, held ∙ ap (λ k. some k) is), is))
  advance-Steady m (using v h) s = s

  -- An address in use keeps its configuration.
  kept_config :
      (f : Config → Config) (m : Memory H) (v : ℕ)
      → v < m.free
      → handler_of (store_config f m) v ≡ handler_of m v
  unfolding store_config
  kept_config f m v h = let other : (v == m.free) ≡ false = ground (arith, h) in rw other refl

  kept-Cached :
      (f : Config → Config) (m : Memory H) (o : Option ℕ) → Cached m o → Cached (store_config f m) o
  unfolding Cached store_config
  kept-Cached f m none cached = tt
  kept-Cached f m (some v) (below, held) =
      (omega (arith, below), held ∙ ap (λ k. some k) (sym (kept_config f m v below)))

  kept-InStep :
      (f : Config → Config) (m : Memory H) (c : Call H) → InStep m c → InStep (store_config f m) c
  unfolding InStep store_config
  kept-InStep f m waiting s = kept-Cached f m m.cached_version s
  kept-InStep f m (loaded v) (below, cached) = (omega (arith, below), kept-Cached f m _ cached)
  kept-InStep f m (matched v) (below, cached, version) =
      (omega (arith, below), kept-Cached f m _ cached, version)
  kept-InStep f m (built v h) (below, cached, is) =
      (omega (arith, below), kept-Cached f m _ cached, is ∙ sym (kept_config f m v below))
  kept-InStep f m (stored v h) (below, is, held) =
      (omega (arith, below), is ∙ sym (kept_config f m v below), held)
  kept-InStep f m (using v h) (below, cached, is) =
      (omega (arith, below), kept-Cached f m _ cached, is ∙ sym (kept_config f m v below))

  kept_address :
      (f : Config → Config) (m : Memory H) → (store_config f m).current < (store_config f m).free
  unfolding store_config
  kept_address f m = omega arith

  next-InStep : (m : Memory H) (c : Call H) → InStep m c → InStep m (next c)
  unfolding InStep
  next-InStep m (using v h) (below, cached, is) = cached
  next-InStep m waiting s = s
  next-InStep m (loaded v) s = s
  next-InStep m (matched v) s = s
  next-InStep m (built v h) s = s
  next-InStep m (stored v h) s = s

  moves-Steady : (xs : List Move) (s : Memory H × Call H) → Steady s → Steady (moves xs s)
  unfolding Steady
  moves-Steady [] s steady = steady
  moves-Steady (step ∷ xs) (m, c) steady =
      moves-Steady xs (advance slog lib d m c) (advance-Steady m c steady)
  moves-Steady (again ∷ xs) (m, c) (now, s) = moves-Steady xs (m, next c) (now, next-InStep m c s)
  moves-Steady (updates f ∷ xs) (m, c) (now, s) =
      moves-Steady xs (store_config f m, c) (kept_address f m, kept-InStep f m c s)

  using-current :
      (s : Memory H × Call H) (v : ℕ) (h : H) → Steady s → s.1 ≡ using v h → h ≡ handler_of s.0 v
  unfolding Steady InStep
  using-current (m, c) v h (now, s) is = (subst (InStep m) is s).2

  -- Where one goroutine logs, however updates fall between its loads and stores, each record goes
  -- to the handler of the configuration that its call has loaded, cached or not.
  pub moves-current :
      (cfg : Config) (xs : List Move) (v : ℕ) (h : H)
      → (moves xs (fresh_memory cfg, waiting)).1 ≡ using v h
      → h ≡ build slog lib ((moves xs (fresh_memory cfg, waiting)).0.configs v) d
  unfolding Steady InStep Cached
  moves-current cfg xs v h is =
      using-current (moves xs (fresh_memory cfg, waiting)) v h
        (moves-Steady xs (fresh_memory cfg, waiting) (omega arith, tt)) is
