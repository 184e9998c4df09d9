-- ===== src/Store/Rules.antt =====
-- The rules of Action/Rules where the next call looks something up, writes, or leaves the tables.
use team_tasks.Base.{true, Option, none, some, ◌≡◌, subst}
use team_tasks.Domain.Errors.{Error, Result, err, errors_is, not_found}
use team_tasks.Action.{Action, on_error, ◌>>=◌}
use team_tasks.Action.Rules.{after_checked}
use team_tasks.Store.{Tables, Found, Written, Keeps, LooksUp, Writes, Answered, Answers}

module _ {W A B : Type 0} (view : W → Tables) (P : Result B → W → Type 0) where
  pub after_lookup :
      (find : Tables → Option A) (g : Error → Error) (m : Action W A) (f : A → Action W B) (w : W)
      → LooksUp view m find
      → ((a : A) (w1 : W) → find (view w) ≡ some a → view w1 ≡ view w → P (f a w1).0 (f a w1).1)
      → ((e : Error) (w1 : W)
          → (errors_is not_found e ≡ true → find (view w) ≡ none)
          → view w1 ≡ view w
          → P (err (g e)) w1)
      → P ((on_error g m >>= f) w).0 ((on_error g m >>= f) w).1
  after_lookup find g m f w law good bad =
      after_checked P g m f w
        (λ a e. good a (m w).1 (subst (Found (find (view w))) e (law w).1) (law w).0)
        (λ x e. bad x (m w).1 (subst (Found (find (view w))) e (law w).1) (law w).0)

  pub after_write :
      (change : Tables → Tables) (g : Error → Error) (m : Action W A) (f : A → Action W B) (w : W)
      → Writes view m change
      → ((a : A) (w1 : W) → view w1 ≡ change (view w) → P (f a w1).0 (f a w1).1)
      → ((e : Error) (w1 : W) → view w1 ≡ view w → P (err (g e)) w1)
      → P ((on_error g m >>= f) w).0 ((on_error g m >>= f) w).1
  after_write change g m f w law good bad =
      let result = λ (r : Result A). Written (view w) (change (view w)) r (view (m w).1) in
      after_checked P g m f w (λ a e. good a (m w).1 (subst result e (law w)))
        (λ x e. bad x (m w).1 (subst result e (law w)))

  pub after_keep :
      (g : Error → Error) (m : Action W A) (f : A → Action W B) (w : W)
      → Keeps view m
      → ((a : A) (w1 : W) → view w1 ≡ view w → P (f a w1).0 (f a w1).1)
      → ((e : Error) (w1 : W) → view w1 ≡ view w → P (err (g e)) w1)
      → P ((on_error g m >>= f) w).0 ((on_error g m >>= f) w).1
  after_keep g m f w law good bad =
      after_checked P g m f w (λ a e. good a (m w).1 (law w)) (λ x e. bad x (m w).1 (law w))

  -- The next call looks something up in a store that fails in no other way.
  pub after_answer :
      (find : Tables → Option A) (g : Error → Error) (m : Action W A) (f : A → Action W B) (w : W)
      → LooksUp view m find
      → Answers m
      → ((a : A) (w1 : W) → find (view w) ≡ some a → view w1 ≡ view w → P (f a w1).0 (f a w1).1)
      → ((e : Error) (w1 : W)
          → errors_is not_found e ≡ true
          → find (view w) ≡ none
          → P (err (g e)) w1)
      → P ((on_error g m >>= f) w).0 ((on_error g m >>= f) w).1
  after_answer find g m f w law answers good bad =
      after_checked P g m f w
        (λ a e. good a (m w).1 (subst (Found (find (view w))) e (law w).1) (law w).0)
        (λ x e.
          let missing = subst Answered e (answers w) in
          bad x (m w).1 missing (subst (Found (find (view w))) e (law w).1 missing))
