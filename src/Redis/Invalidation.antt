-- ===== src/Redis/Invalidation.antt =====
-- `TaskCache.Invalidate` of internal/storage/redis/taskcache.go: it ends, and leaves no key behind.
use team_tasks.Base.{
  ℕ, zero, suc, ◌<◌, ◌≤◌, String, true, Option, none, some, List, [], ◌∷◌, ◌≡◌, ◌≢◌, ◌⊎◌, inl, inr,
  refl, arith,
}
use team_tasks.Domain.Errors.{Result, ok, err}
use team_tasks.Action.{⊤, pure, ◌>>=◌}
use team_tasks.Action.Rules.{after_checked, pure->>=}
use team_tasks.Redis.TaskCache.{Client, delete_keys, scan_turn, scan_loop, invalidate}

abbrev pub Listed : String → List String → Type 0
Listed key [] = ⊥
Listed key (k ∷ ks) = (key ≡ k) ⊎ Listed key ks

-- What is relied on of Redis, while no other client sets a key: `Has w key` is that the key is
-- there, and `Pending pattern cursor w key` that an iteration at that cursor has yet to report it.
-- A full iteration reports every key that is there from its start to its end, and it ends: `rank`
-- bounds the turns that are left.
pub record IsRedis {W : Type 0} (c : Client W) (Has : W → String → Type 0)
    (Matches : String → String → Type 0) (Pending : String → ℕ → W → String → Type 0)
    (rank : String → ℕ → W → ℕ) : Type 0 where
  pub start :
      (pattern : String) (w : W) (key : String)
      → Matches pattern key
      → Has w key
      → Pending pattern 0 w key
  pub scan_has :
      (pattern : String) (cursor : ℕ) (w : W) (key : String)
      → Has (c.scan cursor pattern 100 w).1 key
      → Has w key
  pub scan_ok :
      (pattern : String) (cursor : ℕ) (w : W) (keys : List String) (next : ℕ) (key : String)
      → (c.scan cursor pattern 100 w).0 ≡ ok (keys, next)
      → Has (c.scan cursor pattern 100 w).1 key
      → Pending pattern cursor w key
      → Listed key keys ⊎ ((next ≢ 0) × Pending pattern next (c.scan cursor pattern 100 w).1 key)
  pub scan_rank :
      (pattern : String) (cursor : ℕ) (w : W) (keys : List String) (next : ℕ)
      → (c.scan cursor pattern 100 w).0 ≡ ok (keys, next)
      → (next ≡ 0) ⊎ (rank pattern next (c.scan cursor pattern 100 w).1 < rank pattern cursor w)
  pub del_has : (keys : List String) (w : W) (key : String) → Has (c.del keys w).1 key → Has w key
  pub del_ok :
      (keys : List String) (w : W) (key : String)
      → (c.del keys w).0 ≡ ok tt
      → Listed key keys
      → ¬ Has (c.del keys w).1 key
  pub del_pending :
      (keys : List String) (pattern : String) (cursor : ℕ) (w : W) (key : String)
      → Pending pattern cursor w key
      → Pending pattern cursor (c.del keys w).1 key
  pub del_rank :
      (keys : List String) (pattern : String) (cursor : ℕ) (w : W)
      → rank pattern cursor (c.del keys w).1 ≤ rank pattern cursor w

module _ {W : Type 0} (c : Client W) (Has : W → String → Type 0)
    (Matches : String → String → Type 0) (Pending : String → ℕ → W → String → Type 0)
    (rank : String → ℕ → W → ℕ) (laws : IsRedis c Has Matches Pending rank) where
  -- What a turn has done: keys are only deleted, those that stay are pending at the next cursor, and
  -- fewer turns are left unless the iteration is over.
  abbrev Turned : String → ℕ → W → Result ℕ → W → Type 0
  Turned pattern cursor w (ok next) v =
      ((key : String)
        → Has v key
        → Has w key × (Pending pattern cursor w key → (next ≢ 0) × Pending pattern next v key))
      × ((next ≡ 0) ⊎ (rank pattern next v < rank pattern cursor w))
  Turned pattern cursor w (err e) v = Unit

  still_pending :
      (keys : List String) (key : String) (next : ℕ) {B : Type 0}
      → ¬ Listed key keys
      → Listed key keys ⊎ ((next ≢ 0) × B)
      → (next ≢ 0) × B
  still_pending keys key next absent (inl there) = absurd (absent there)
  still_pending keys key next absent (inr rest) = rest

  rank_kept :
      (pattern : String) (cursor : ℕ) (w : W) (keys : List String) (next : ℕ)
      → (c.scan cursor pattern 100 w).0 ≡ ok (keys, next)
      → (next ≡ 0)
        ⊎ (rank pattern next (c.del keys (c.scan cursor pattern 100 w).1).1 < rank pattern cursor w)
  rank_kept pattern cursor w keys next e =
      let v = (c.scan cursor pattern 100 w).1 in
      let kept = laws.del_rank keys pattern next v in
      elim (laws.scan_rank pattern cursor w keys next e) [
        | inl over ↦ inl over
        | inr fewer ↦ inr (omega (arith, kept, fewer))
      ]

  turn_done :
      (pattern : String) (cursor : ℕ) (w : W) (keys : List String) (next : ℕ)
      → (c.scan cursor pattern 100 w).0 ≡ ok (keys, next)
      → let v = (c.scan cursor pattern 100 w).1 in
        let (r, u) = (delete_keys c keys >>= λ _. pure next) v in Turned pattern cursor w r u
  unfolding delete_keys
  turn_done pattern cursor w [] next e = rw pure->>= (
    (λ key has. (
      laws.scan_has pattern cursor w key has,
      λ pending.
          still_pending [] key next (λ h. h)
            (laws.scan_ok pattern cursor w [] next key e has pending),
    )),
    laws.scan_rank pattern cursor w [] next e,
  )
  turn_done pattern cursor w (k ∷ ks) next e =
      let v = (c.scan cursor pattern 100 w).1 in
      let keys = k ∷ ks in
      after_checked (Turned pattern cursor w) _ (c.del keys) (λ _. pure next) v
        (λ done deleted. (
          λ key has. (
            laws.scan_has pattern cursor w key (laws.del_has keys v key has),
            λ pending.
                let (more, left) =
                  still_pending keys key next (λ listed. laws.del_ok keys v key deleted listed has)
                    (laws.scan_ok pattern cursor w keys next key e (laws.del_has keys v key has)
                      pending) in
                (more, laws.del_pending keys pattern next v key left),
          ),
          rank_kept pattern cursor w keys next e,
        ))
        (λ x failed. tt)

  turn-Turned :
      (pattern : String) (cursor : ℕ) (w : W)
      → let (r, v) = scan_turn c pattern cursor w in Turned pattern cursor w r v
  unfolding scan_turn
  turn-Turned pattern cursor w =
      after_checked (Turned pattern cursor w) _ (c.scan cursor pattern 100) _ w
        (λ found e. turn_done pattern cursor w found.0 found.1 e) (λ x failed. tt)

  -- What an invalidation that has come back has left: without an error, no matching key.
  abbrev pub Cleared : String → Option (Result ⊤ × W) → Type 0
  Cleared pattern none = ⊥
  Cleared pattern (some (ok a, v)) = (key : String) → Matches pattern key → ¬ Has v key
  Cleared pattern (some (err e, v)) = Unit

  loop-Cleared :
      (fuel : ℕ) (pattern : String) (cursor : ℕ) (w : W)
      → rank pattern cursor w < fuel
      → ((key : String) → Matches pattern key → Has w key → Pending pattern cursor w key)
      → Cleared pattern (scan_loop c fuel pattern cursor w)
  unfolding scan_loop
  loop-Cleared zero pattern cursor w enough pending = absurd (omega (arith, enough))
  loop-Cleared (suc fuel) pattern cursor w enough pending =
      turned (scan_turn c pattern cursor w).0 (scan_turn c pattern cursor w).1
        (λ n v. loop-Cleared fuel pattern (suc n) v) (turn-Turned pattern cursor w)
    where
      turned :
          (r : Result ℕ) (v : W)
          → ((n : ℕ) (u : W)
              → rank pattern (suc n) u < fuel
              → ((key : String) → Matches pattern key → Has u key → Pending pattern (suc n) u key)
              → Cleared pattern (scan_loop c fuel pattern (suc n) u))
          → Turned pattern cursor w r v
          → Cleared pattern (elim r [
            | err e ↦ some (err e, v)
            | ok next ↦ elim next [
              | zero ↦ some (ok tt, v)
              | suc n ↦ scan_loop c fuel pattern (suc n) v
            ]
          ])
      turned (err e) v again h = tt
      turned (ok zero) v again (kept, fewer) = λ key matches has.
          let (before, moved) = kept key has in (moved (pending key matches before)).0 refl
      turned (ok (suc n)) v again (kept, fewer) = again n v (ground arith) (λ key matches has.
          let (before, moved) = kept key has in (moved (pending key matches before)).1)

  -- With more fuel than the turns that Redis needs, an invalidation by a pattern that ends in a star
  -- comes back, and if it comes back without an error no key that the pattern matches is left.
  pub invalidate-Cleared :
      (fuel : ℕ) (pattern : String) (w : W)
      → c.has_suffix pattern "*" ≡ true
      → rank pattern 0 w < fuel
      → Cleared pattern (invalidate c fuel pattern w)
  unfolding invalidate
  invalidate-Cleared fuel pattern w star enough =
      rw star (loop-Cleared fuel pattern 0 w enough (laws.start pattern w))
