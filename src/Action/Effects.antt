-- ===== src/Action/Effects.antt =====
-- What a sequence of calls does to the world, by a relation of worlds that each of its calls keeps.
use team_tasks.Domain.Errors.{Error, Result, ok, err}
use team_tasks.Action.{Action, lift, pure, on_error, ◌>>=◌}
use team_tasks.Action.Rules.{after_checked, last_checked}

pub record IsEffect {W : Type 0} (R : W → W → Type 0) : Type 0 where
  pub stays : (w : W) → R w w
  pub chain : (u v w : W) → R u v → R v w → R u w

abbrev pub Does : {W A : Type 0} → (W → W → Type 0) → Action W A → Type 0
Does {W} R m = (w : W) → R w (m w).1

module _ {W : Type 0} (R : W → W → Type 0) (effect : IsEffect R) where
  pub then-Does :
      {A B : Type 0} (g : Error → Error) (m : Action W A) (f : A → Action W B)
      → Does R m
      → ((a : A) → Does R (f a))
      → Does R (on_error g m >>= f)
  then-Does {A} {B} g m f first rest w =
      after_checked (λ (r : Result B) (v : W). R w v) g m f w
        (λ a e. effect.chain w _ _ (first w) (rest a (m w).1)) (λ e h. first w)

  pub last-Does :
      {A : Type 0} (g : Error → Error) (m : Action W A) → Does R m → Does R (on_error g m)
  last-Does {A} g m law w =
      last_checked (λ (r : Result A) (v : W). R w v) g m w (λ a e. law w) (λ e h. law w)

  pub lifted-Does : {A B : Type 0} (r : Result A) (f : A → B) → Does R (lift r >>= λ a. pure (f a))
  unfolding ◌>>=◌
  lifted-Does (ok a) f w = effect.stays w
  lifted-Does (err e) f w = effect.stays w

  bind_ended :
      {A B : Type 0} (r : Result A) (v w : W) (f : A → Action W B)
      → R w v
      → ((a : A) → Does R (f a))
      → R w (((λ (u : W). (r, v)) >>= f) w).1
  unfolding ◌>>=◌
  bind_ended (ok a) v w f first rest = effect.chain w v _ first (rest a v)
  bind_ended (err e) v w f first rest = first

  pub bind-Does :
      {A B : Type 0} (m : Action W A) (f : A → Action W B)
      → Does R m
      → ((a : A) → Does R (f a))
      → Does R (m >>= f)
  unfolding ◌>>=◌
  bind-Does m f first rest w = bind_ended (m w).0 (m w).1 w f (first w) rest
