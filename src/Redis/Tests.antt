-- ===== src/Redis/Tests.antt =====
-- A Redis of one page in memory, an invalidation of it, and the theorem on invalidations there.
use team_tasks.Base.{ℕ, String, true, some, List, [], ◌∷◌, ◌≡◌, refl, arith, inl, subst, sym, ap}
use team_tasks.Domain.Errors.{Result, ok, err}
use team_tasks.Action.{◌>>=◌, on_error}
use team_tasks.Redis.TaskCache.{Client, delete_keys, scan_turn, scan_loop, invalidate}
use team_tasks.Redis.Invalidation.{Listed, IsRedis, Cleared, invalidate-Cleared}

-- The world is the list of the keys, and a deletion takes all of them.
abbrev client : Client (List String)
client = record {
  get = λ key w. (ok [], w);
  set = λ key bytes ttl w. (ok tt, key ∷ w);
  del = λ keys w. (ok tt, []);
  scan = λ cursor pattern count w. (ok (w, 0), w);
  has_suffix = λ text suffix. true;
}

abbrev Has : List String → String → Type 0
Has w key = Listed key w

abbrev Matches : String → String → Type 0
Matches pattern key = Unit

abbrev Pending : String → ℕ → List String → String → Type 0
Pending pattern cursor w key = Unit

abbrev rank : String → ℕ → List String → ℕ
rank pattern cursor w = 0

abbrev page_of : Result (List String × ℕ) → List String × ℕ
page_of (ok p) = p
page_of (err e) = ([], 0)

page :
    (w keys : List String) (next : ℕ)
    → (client.scan 0 "" 100 w).0 ≡ ok (keys, next)
    → (w ≡ keys) × (next ≡ 0)
page w keys next e =
    let same = ap page_of e in
    (ap (λ (p : List String × ℕ). p.0) same, sym (ap (λ (p : List String × ℕ). p.1) same))

client-IsRedis : IsRedis client Has Matches Pending rank
client-IsRedis = record {
  start = λ pattern w key matches has. tt;
  scan_has = λ pattern cursor w key has. has;
  scan_ok = λ pattern cursor w keys next key e has pending.
      inl (subst (λ (ks : List String). Listed key ks) (page w keys next e).0 has);
  scan_rank = λ pattern cursor w keys next e. inl (page w keys next e).1;
  del_has = λ keys w key has. absurd has;
  del_ok = λ keys w key e listed has. has;
  del_pending = λ keys pattern cursor w key pending. tt;
  del_rank = λ keys pattern cursor w. omega arith;
}

-- Two keys are deleted.
cleared : invalidate client 1 "tasks:*" ("tasks:a" ∷ "tasks:b" ∷ []) ≡ some (ok tt, [])
unfolding invalidate scan_loop scan_turn delete_keys ◌>>=◌ on_error
cleared = refl

invalidate-Cleared_example :
    Cleared client Has Matches Pending rank client-IsRedis "tasks:*"
      (invalidate client 1 "tasks:*" ("tasks:a" ∷ "tasks:b" ∷ []))
invalidate-Cleared_example =
    invalidate-Cleared client Has Matches Pending rank client-IsRedis 1 "tasks:*"
      ("tasks:a" ∷ "tasks:b" ∷ []) refl (omega arith)
