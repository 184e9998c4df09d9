-- ===== src/Redis/Effects.antt =====
-- What the methods of `TaskCache` do to the world, by a relation of worlds that each call of the
-- client keeps.
use team_tasks.Base.{ℕ, zero, suc, String, Option, none, some, List, [], ◌∷◌, Bool-cases, inl, inr}
use team_tasks.Domain.Errors.{Result, ok, err, wrapped}
use team_tasks.Action.{⊤, pure, ◌>>=◌}
use team_tasks.Action.Rules.{pure->>=}
use team_tasks.Action.Effects.{IsEffect, Does, then-Does, last-Does}
use team_tasks.Redis.TaskCache.{
  Client, get_entry, put_entry, delete_keys, scan_turn, scan_loop, invalidate,
}

module _ {W : Type 0} (c : Client W) (R : W → W → Type 0) (effect : IsEffect R) where
  pub get_entry-Does : (key : String) → Does R (c.get key) → Does R (get_entry c key)
  unfolding get_entry
  get_entry-Does key law = last-Does R effect _ (c.get key) law

  pub put_entry-Does :
      (key : String) (bytes : List ℕ) (ttl : ℕ)
      → Does R (c.set key bytes ttl)
      → Does R (put_entry c key bytes ttl)
  unfolding put_entry
  put_entry-Does key bytes ttl law = last-Does R effect _ (c.set key bytes ttl) law

  -- The world that a loop has left, if it has ended.
  abbrev pub Left : W → Option (Result ⊤ × W) → Type 0
  Left w none = Unit
  Left w (some (r, v)) = R w v

  module _ (dels : (keys : List String) → Does R (c.del keys))
      (scans : (cursor : ℕ) (pattern : String) → Does R (c.scan cursor pattern 100)) where
    delete_keys-Does :
        (keys : List String) (next : ℕ) → Does R (delete_keys c keys >>= λ _. pure next)
    unfolding delete_keys
    delete_keys-Does [] next = λ w. rw pure->>= (effect.stays w)
    delete_keys-Does (k ∷ ks) next =
        then-Does R effect _ (c.del (k ∷ ks)) (λ _. pure next) (dels (k ∷ ks))
          (λ a w. effect.stays w)

    scan_turn-Does : (pattern : String) (cursor : ℕ) → Does R (scan_turn c pattern cursor)
    unfolding scan_turn
    scan_turn-Does pattern cursor =
        then-Does R effect _ (c.scan cursor pattern 100) _ (scans cursor pattern)
          (λ found. delete_keys-Does found.0 found.1)

    scan_loop-Left :
        (fuel : ℕ) (pattern : String) (cursor : ℕ) (w : W)
        → Left w (scan_loop c fuel pattern cursor w)
    unfolding scan_loop
    scan_loop-Left zero pattern cursor w = tt
    scan_loop-Left (suc fuel) pattern cursor w =
        turned (scan_turn c pattern cursor w).0 (scan_turn c pattern cursor w).1
          (scan_turn-Does pattern cursor w) (λ n v. scan_loop-Left fuel pattern (suc n) v)
      where
        farther : {u v : W} (o : Option (Result ⊤ × W)) → R u v → Left v o → Left u o
        farther none h g = tt
        farther (some (r, x)) h g = effect.chain _ _ _ h g

        turned :
            (r : Result ℕ) (v : W)
            → R w v
            → ((n : ℕ) (u : W) → Left u (scan_loop c fuel pattern (suc n) u))
            → Left w (elim r [
              | err e ↦ some (err e, v)
              | ok next ↦ elim next [
                | zero ↦ some (ok tt, v)
                | suc n ↦ scan_loop c fuel pattern (suc n) v
              ]
            ])
        turned (err e) v h again = h
        turned (ok zero) v h again = h
        turned (ok (suc n)) v h again = farther (scan_loop c fuel pattern (suc n) v) h (again n v)

    pub invalidate-Left :
        (fuel : ℕ) (pattern : String) (w : W) → Left w (invalidate c fuel pattern w)
    unfolding invalidate
    invalidate-Left fuel pattern w = elim (Bool-cases (c.has_suffix pattern "*")) [
      | inl star ↦ rw star (scan_loop-Left fuel pattern 0 w)
      | inr plain ↦
          rw plain (
            last-Does R effect (wrapped "redis: del") (c.del (pattern ∷ [])) (dels (pattern ∷ []))
              w)
    ]
