-- ===== src/Action/Rules.antt =====
-- How a postcondition of a sequence of calls follows from the results of its first call.
use team_tasks.Base.{◌≡◌, refl, Bool, true, false}
use team_tasks.Domain.Errors.{Error, Result, ok, err}
use team_tasks.Action.{⊤, Action, pure, on_error, attempt, ignore, refuse_if, ◌>>=◌}

module _ {W A B : Type 0} (P : Result B → W → Type 0) where
  -- A call that has ended with the result `r` in the world `w`.
  abbrev ended : Result A → W → Action W A
  ended r w v = (r, w)

  after_ended :
      (g : Error → Error) (r : Result A) (w : W) (f : A → Action W B)
      → ((a : A) → r ≡ ok a → P (f a w).0 (f a w).1)
      → ((e : Error) → r ≡ err e → P (err (g e)) w)
      → P ((on_error g (ended r w) >>= f) w).0 ((on_error g (ended r w) >>= f) w).1
  unfolding ◌>>=◌ on_error
  after_ended g (ok a) w f good bad = good a refl
  after_ended g (err e) w f good bad = bad e refl

  -- The next call is one whose error is returned through `g`.
  pub after_checked :
      (g : Error → Error) (m : Action W A) (f : A → Action W B) (w : W)
      → ((a : A) → (m w).0 ≡ ok a → P (f a (m w).1).0 (f a (m w).1).1)
      → ((e : Error) → (m w).0 ≡ err e → P (err (g e)) (m w).1)
      → P ((on_error g m >>= f) w).0 ((on_error g m >>= f) w).1
  unfolding ◌>>=◌ on_error
  after_checked g m f w = after_ended g (m w).0 (m w).1 f

  finish_ended :
      (r : Result A) (w : W) (k : Result A → Action W B)
      → ((a : A) → r ≡ ok a → P (k (ok a) w).0 (k (ok a) w).1)
      → ((e : Error) → r ≡ err e → P (k (err e) w).0 (k (err e) w).1)
      → P (k r w).0 (k r w).1
  finish_ended (ok a) w k good bad = good a refl
  finish_ended (err e) w k good bad = bad e refl

  -- The next call is one whose result is looked at.
  pub after_attempt :
      (m : Action W A) (k : Result A → Action W B) (w : W)
      → ((a : A) → (m w).0 ≡ ok a → P (k (ok a) (m w).1).0 (k (ok a) (m w).1).1)
      → ((e : Error) → (m w).0 ≡ err e → P (k (err e) (m w).1).0 (k (err e) (m w).1).1)
      → P (attempt m k w).0 (attempt m k w).1
  unfolding attempt
  after_attempt m k w = finish_ended (m w).0 (m w).1 k

  -- The next call is one whose failure is only logged.
  pub after_ignore :
      (m : Action W A) (f : ⊤ → Action W B) (w : W)
      → P (f tt (m w).1).0 (f tt (m w).1).1
      → P ((ignore m >>= f) w).0 ((ignore m >>= f) w).1
  unfolding ◌>>=◌ ignore
  after_ignore m f w h = h

module _ {W A : Type 0} (P : Result A → W → Type 0) where
  -- The last call of a sequence, whose error is returned through `g`.
  pub last_checked :
      (g : Error → Error) (m : Action W A) (w : W)
      → ((a : A) → (m w).0 ≡ ok a → P (ok a) (m w).1)
      → ((e : Error) → (m w).0 ≡ err e → P (err (g e)) (m w).1)
      → P (on_error g m w).0 (on_error g m w).1
  unfolding on_error
  last_checked g m w = ended_cases (m w).0 (m w).1
    where
      ended_cases :
          (r : Result A) (v : W)
          → ((a : A) → r ≡ ok a → P (ok a) v)
          → ((e : Error) → r ≡ err e → P (err (g e)) v)
          → P (on_error g (λ (u : W). (r, v)) w).0 (on_error g (λ (u : W). (r, v)) w).1
      ended_cases (ok a) v good bad = good a refl
      ended_cases (err e) v good bad = bad e refl

>>=-assoc_cases :
    {W A B C : Type 0} (r : Result A) (v : W) (f : A → Action W B) (g : B → Action W C) (w : W)
    → (((λ (u : W). (r, v)) >>= f) >>= g) w ≡ ((λ (u : W). (r, v)) >>= (λ a. f a >>= g)) w
unfolding ◌>>=◌
>>=-assoc_cases (ok a) v f g w = refl
>>=-assoc_cases (err e) v f g w = refl

pub >>=_assoc :
    {W A B C : Type 0} (m : Action W A) (f : A → Action W B) (g : B → Action W C) (w : W)
    → ((m >>= f) >>= g) w ≡ (m >>= (λ a. f a >>= g)) w
unfolding ◌>>=◌
>>=_assoc m f g w = >>=-assoc_cases (m w).0 (m w).1 f g w

pub pure->>= : {W A B : Type 0} (a : A) (f : A → Action W B) (w : W) → (pure a >>= f) w ≡ f a w
unfolding ◌>>=◌
pure->>= a f w = refl

-- The next step is a guard.
pub after_guard :
    {W B : Type 0} (P : Result B → W → Type 0) (b : Bool) (e : Error) (f : ⊤ → Action W B) (w : W)
    → (b ≡ false → P (f tt w).0 (f tt w).1)
    → (b ≡ true → P (err e) w)
    → P ((refuse_if b e >>= f) w).0 ((refuse_if b e >>= f) w).1
unfolding ◌>>=◌ refuse_if
after_guard P true e f w good bad = bad refl
after_guard P false e f w good bad = good refl
