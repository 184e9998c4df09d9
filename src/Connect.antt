-- ===== src/Connect.antt =====
-- The loop by which internal/storage/mysql/db.go and internal/storage/redis/client.go wait for a
-- database that starts after the service: `for attempt := 1; attempt <= maxRetries; attempt++`.
-- The warning that it logs before each pause is not modelled.
pub mod Mysql
pub mod Redis
mod Tests
use team_tasks.Base.{ℕ, zero, suc, ℤ, pos, String, Option, none, some, ◌<◌, ◌≡◌, refl, arith}
use team_tasks.Domain.Errors.{Error, plain, wrapped, Result, ok, err}
use Prim.Native.String.{◌++◌}

-- What one attempt comes to. After `rejected` no other is made.
pub data Outcome (D : Type 0) : Type 0 where
  ready : D → Outcome D
  rejected : Error → Outcome D
  not_ready : Error → Outcome D

abbrev pub max_retries : ℕ
max_retries = 10

-- `3 * time.Second`, in nanoseconds.
abbrev pub retry_interval : ℤ
retry_interval = pos 3000000000

-- `fmt.Errorf("%s: unavailable after %d attempts: %w", maxRetries, lastErr)` for the name of the
-- database, also of a nil error.
unfoldable pub unavailable : String → Option Error → Error
unavailable name none = plain (name ++ ": unavailable after 10 attempts: %!w(<nil>)")
unavailable name (some e) = wrapped (name ++ ": unavailable after 10 attempts") e

module _ {W D : Type 0} (name : String) (attempt_once : W → Outcome D × W) where
  unfoldable pub resume : (Option Error → W → Result D × W) → Outcome D → W → Result D × W
  resume again (ready d) w = (ok d, w)
  resume again (rejected e) w = (err e, w)
  resume again (not_ready e) w = again (some e) w

  -- The attempts that are left, and `lastErr`.
  unfoldable pub retries : ℕ → Option Error → W → Result D × W
  retries zero last w = (err (unavailable name last), w)
  retries (suc n) last w = let (o, v) = attempt_once w in resume (λ e u. retries n e u) o v

  -- A number of attempts that all find the database not ready: the last error and the world before
  -- them, and after them.
  pub data Waits : ℕ → Option Error → W → Option Error → W → Type 0 where
    started : {e : Option Error} {w : W} → Waits zero e w e w
    waited :
        {n : ℕ} {last e : Option Error} {f : Error} {w u v : W}
        → attempt_once w ≡ (not_ready f, u)
        → Waits n (some f) u e v
        → Waits (suc n) last w e v

  -- How a loop of at most that many attempts ends, from the last error and the world before it.
  pub data Ends : ℕ → Option Error → W → Result D × W → Type 0 where
    connects :
        {k n : ℕ} {last e : Option Error} {w u v : W} {d : D}
        → k < n
        → Waits k last w e u
        → attempt_once u ≡ (ready d, v)
        → Ends n last w (ok d, v)
    rejects :
        {k n : ℕ} {last e : Option Error} {w u v : W} {f : Error}
        → k < n
        → Waits k last w e u
        → attempt_once u ≡ (rejected f, v)
        → Ends n last w (err f, v)
    gives_up :
        {n : ℕ} {last e : Option Error} {w v : W}
        → Waits n last w e v
        → Ends n last w (err (unavailable name e), v)

  -- An attempt that finds the database not ready comes before the others.
  waited-Ends :
      {n : ℕ} {last : Option Error} {f : Error} {w u : W} {r : Result D × W}
      → attempt_once w ≡ (not_ready f, u)
      → Ends n (some f) u r
      → Ends (suc n) last w r
  waited-Ends p (connects h ws q) = connects (omega arith) (waited p ws) q
  waited-Ends p (rejects h ws q) = rejects (omega arith) (waited p ws) q
  waited-Ends p (gives_up ws) = gives_up (waited p ws)

  resume-Ends :
      {n : ℕ} {last : Option Error} {w : W}
      → ((e : Option Error) (u : W) → Ends n e u (retries n e u))
      → (o : Outcome D) (v : W) → attempt_once w ≡ (o, v)
      → Ends (suc n) last w (resume (λ e u. retries n e u) o v)
  unfolding resume
  resume-Ends ih (ready d) v p = connects (omega arith) started p
  resume-Ends ih (rejected e) v p = rejects (omega arith) started p
  resume-Ends ih (not_ready e) v p = waited-Ends p (ih (some e) v)

  -- The loop makes no more than its number of attempts; it ends with the first that succeeds or is
  -- rejected, or with the last error if none does.
  pub retries-Ends : (n : ℕ) (last : Option Error) (w : W) → Ends n last w (retries n last w)
  unfolding retries
  retries-Ends zero last w = gives_up started
  retries-Ends (suc n) last w =
      resume-Ends (retries-Ends n) (attempt_once w).0 (attempt_once w).1 refl
