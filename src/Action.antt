-- ===== src/Action.antt =====
-- A call that may fail, over the world that it reads and changes: the databases, the clock, the
-- random source, and whatever other requests do while it waits. The combinators are shut, so that a
-- proof steps through a sequence by the rules of Action/Rules.
pub mod Rules
pub mod Effects
use team_tasks.Base.{Bool, if◌then◌else◌}
use team_tasks.Domain.Errors.{Error, Result, ok, err}

abbrev pub ⊤ : Type 0
⊤ = Unit

abbrev pub Action : Type 0 → Type 0 → Type 0
Action W A = W → Result A × W

module _ {W A : Type 0} where
  abbrev pub pure : A → Action W A
  pure a w = (ok a, w)

  abbrev pub throw : Error → Action W A
  throw e w = (err e, w)

  -- A function that may fail and changes nothing.
  abbrev pub lift : Result A → Action W A
  lift r w = (r, w)

  -- The caller inspects the result, error or not.
  unfoldable pub attempt : {B : Type 0} → Action W A → (Result A → Action W B) → Action W B
  attempt m k w = let (r, w') = m w in k r w'

  -- `if err != nil { return f(err) }`
  unfoldable pub on_error : (Error → Error) → Action W A → Action W A
  on_error f m w = let (r, w') = m w in elim r [ ok a ↦ (ok a, w') | err e ↦ (err (f e), w') ]

  -- A failure that is only logged.
  unfoldable pub ignore : Action W A → Action W ⊤
  ignore m w = let (r, w') = m w in (ok tt, w')

-- `if b { return e }`
unfoldable pub refuse_if : {W : Type 0} → Bool → Error → Action W ⊤
refuse_if b e w = if b then (err e, w) else (ok tt, w)

infixl 5 ◌>>=◌ ◌>>◌
unfoldable pub ◌>>=◌ : {W A B : Type 0} → Action W A → (A → Action W B) → Action W B
◌>>=◌ m f w = let (r, w') = m w in elim r [ ok a ↦ f a w' | err e ↦ (err e, w') ]

abbrev pub ◌>>◌ : {W A B : Type 0} → Action W A → Action W B → Action W B
m >> k = m >>= λ _. k
