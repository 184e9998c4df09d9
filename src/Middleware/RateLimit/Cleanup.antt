-- ===== src/Middleware/RateLimit/Cleanup.antt =====
-- The cleanup of idle limiters changes no answer of `RateLimit`.
use team_tasks.Base.{
  ◌+◌, ◌-◌, ◌≤◌, ltb, String, Bool, Option, none, some, List, [], ◌∷◌, ◌≡◌, refl, ap, sym, subst,
  arith, str_eq, if◌then◌else◌, Bool-cases, inl, inr,
}
use team_tasks.Domain.{Time}
use team_tasks.Middleware.RateLimit.{
  Limiters, UserLimiter, LimiterMap, idle_time, limiter_of, set_limiter, ask, retained, sweep,
}

-- A limiter refills within ten minutes, in fact within one: when it has not been used for that
-- long it answers like a new one, and is left like a new one. `last` is the time of its last use
-- that it remembers.
pub record Refills {L : Type 0} (lib : Limiters L) (last : L → Time) : Type 0 where
  pub last_new : (t : Time) → last lib.new_limiter ≤ t
  pub last_allow : (t : Time) (l : L) → last l ≤ t → last (lib.allow t l).1 ≤ t
  pub refilled :
      (t : Time) (l : L) → last l + idle_time ≤ t → lib.allow t l ≡ lib.allow t lib.new_limiter

-- What happens to the map, each at its time.
pub data Event : Type 0 where
  asked : String → Time → Event
  swept : Time → Event

abbrev time_of : Event → Time
time_of (asked key t) = t
time_of (swept t) = t

-- The times never run back from a first one.
abbrev pub IsTimely : Time → List Event → Type 0
IsTimely now [] = Unit
IsTimely now (e ∷ es) = (now ≤ time_of e) × IsTimely (time_of e) es

module _ {L : Type 0} (lib : Limiters L) where
  -- The answers of the map with its cleanup.
  abbrev pub answers : LimiterMap L → List Event → List Bool
  answers limiters [] = []
  answers limiters (asked key t ∷ es) =
      let (allowed, after) = ask lib key t limiters in allowed ∷ answers after es
  answers limiters (swept t ∷ es) = answers (sweep t limiters) es

  -- One limiter for each key, forever.
  abbrev pub set_at : String → L → (String → L) → String → L
  set_at key l kept other = if str_eq other key then l else kept other

  abbrev pub answers_forever : (String → L) → List Event → List Bool
  answers_forever kept [] = []
  answers_forever kept (asked key t ∷ es) =
      let (allowed, after) = lib.allow t (kept key) in
      allowed ∷ answers_forever (set_at key after kept) es
  answers_forever kept (swept t ∷ es) = answers_forever kept es

module _ {L : Type 0} (lib : Limiters L) (last : L → Time) (laws : Refills lib last) where
  -- The entry of a key stands for the limiter that would have been kept: it is that limiter, or there
  -- is none and the limiter would answer like a new one from now on.
  StandsFor : Time → Option (UserLimiter L) → L → Type 0
  StandsFor now none l = (t : Time) → now ≤ t → lib.allow t l ≡ lib.allow t lib.new_limiter
  StandsFor now (some ul) l = (ul.limiter ≡ l) × (last l ≤ ul.last_seen) × (ul.last_seen ≤ now)

  later :
      (now t : Time) (o : Option (UserLimiter L)) (l : L)
      → now ≤ t
      → StandsFor now o l
      → StandsFor t o l
  unfolding StandsFor
  later now t none l h same = λ u g. same u (omega (arith, h, g))
  later now t (some ul) l h (is, used, seen) = (is, used, omega (arith, h, seen))

  sweep_keeps :
      (now : Time) (o : Option (UserLimiter L)) (l : L)
      → StandsFor now o l
      → StandsFor now (retained now o) l
  unfolding StandsFor
  sweep_keeps now none l same = same
  sweep_keeps now (some ul) l (is, used, seen) =
      elim (Bool-cases (ltb idle_time (now - ul.last_seen))) [
        | inl idle ↦ rw idle (λ t h. laws.refilled t l (ground (arith, idle, used, h)))
        | inr busy ↦ rw busy (is, used, seen)
      ]

  -- The same answer, and an entry for what is left.
  ask_keeps :
      (now : Time) (o : Option (UserLimiter L)) (l : L)
      → StandsFor now o l
      → (lib.allow now (limiter_of lib o) ≡ lib.allow now l)
        × StandsFor now
            (some (record { limiter = (lib.allow now (limiter_of lib o)).1; last_seen = now }))
            (lib.allow now l).1
  unfolding StandsFor
  ask_keeps now none l same =
      let equal = sym (same now (omega arith)) in
      (
        equal,
        (
          ap (λ p. p.1) equal,
          subst (λ (p : Bool × L). last p.1 ≤ now) equal
              (laws.last_allow now lib.new_limiter (laws.last_new now)),
          omega arith,
        ),
      )
  ask_keeps now (some ul) l (is, used, seen) =
      let equal = ap (lib.allow now) is in
      (equal, (ap (λ p. p.1) equal, laws.last_allow now l (omega (arith, used, seen)), omega arith))

  answers_lem :
      (now : Time) (es : List Event) (limiters : LimiterMap L) (kept : String → L)
      → IsTimely now es
      → ((key : String) → StandsFor now (limiters key) (kept key))
      → answers lib limiters es ≡ answers_forever lib kept es
  unfolding ask sweep
  answers_lem now [] limiters kept timely stands = refl
  answers_lem now (asked key t ∷ es) limiters kept (h, timely) stands =
      let (same, left) = ask_keeps t (limiters key) (kept key) (later now t _ _ h (stands key)) in
      let used = lib.allow t (limiter_of lib (limiters key)) in
      let next = set_limiter lib key (record { limiter = used.1; last_seen = t }) limiters in
      let kept_next = set_at lib key (lib.allow t (kept key)).1 kept in
      let rest = answers_lem t es next kept_next timely (λ other.
        elim (Bool-cases (str_eq other key)) [
          | inl it ↦ rw it left
          | inr another ↦ rw another (later now t _ _ h (stands other))
        ]) in
      λ i. (same i).0 ∷ rest i
  answers_lem now (swept t ∷ es) limiters kept (h, timely) stands =
      answers_lem t es (sweep t limiters) kept timely
        (λ key. sweep_keeps t (limiters key) (kept key) (later now t _ _ h (stands key)))

  none_yet : (t : Time) (l : L) → l ≡ lib.new_limiter → StandsFor t none l
  unfolding StandsFor
  none_yet t l is u h = ap (lib.allow u) is

  -- Whatever requests and cleanups happen, in the order of their times, each request is let through
  -- or refused as if every key had kept its one limiter from the start: the cleanup lets no one
  -- through who would be refused, and the other way round.
  pub answers-cleanup :
      (start : Time) (es : List Event)
      → IsTimely start es
      → answers lib (λ key. none) es ≡ answers_forever lib (λ key. lib.new_limiter) es
  answers-cleanup start es timely =
      answers_lem start es (λ key. none) (λ key. lib.new_limiter) timely
        (λ key. none_yet start lib.new_limiter refl)
