-- ===== src/Platform.antt =====
-- What the services take from outside the repository: identifiers, the clock, text formats.
use team_tasks.Domain.{Time}
use team_tasks.Domain.Ids.{Uuid}
use team_tasks.Domain.Errors.{Result, ok}
use team_tasks.Action.{Action, ◌>>=◌}
use team_tasks.Task.Diff.{Formats}

pub record Platform (W : Type 0) : Type 0 where
  -- `uuid.NewV7`, which fails if the random source does
  pub new_uuid : Action W Uuid
  -- `time.Now().UTC()`
  pub now : W → Time × W
  pub formats : Formats

-- The clock as a call that does not fail.
unfoldable pub read_clock : {W : Type 0} → Platform W → Action W Time
read_clock p w = let (t, w') = p.now w in (ok t, w')

-- The rule of Action/Rules for the clock.
pub after_clock :
    {W B : Type 0} (P : Result B → W → Type 0) (p : Platform W) (f : Time → Action W B) (w : W)
    → P (f (p.now w).0 (p.now w).1).0 (f (p.now w).0 (p.now w).1).1
    → P ((read_clock p >>= f) w).0 ((read_clock p >>= f) w).1
unfolding ◌>>=◌ read_clock
after_clock P p f w h = h
