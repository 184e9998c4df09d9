-- ===== src/Notifier.antt =====
-- `EmailClient` of internal/circuitbreaker/email.go. The circuit breaker of sony/gobreaker, the HTTP
-- client and the encoding of the payload are parameters.
use Prim.Native.String.{◌++◌}
use team_tasks.Base.{
  ℕ, pos, leb, String, Bool, List, ◌≡◌, refl, str_eq, if◌then◌else◌, Bool-cases, inl, inr,
}
use team_tasks.Base.Decimal.{decimal}
use team_tasks.Domain.Errors.{Result, plain, wrapped}
use team_tasks.Action.{⊤, Action, pure, lift, on_error, refuse_if, ◌>>=◌, ◌>>◌}
use team_tasks.Action.Rules.{after_checked, after_guard}
use team_tasks.Store.{Tables, Keeps}

pub record EmailClient (W : Type 0) : Type 0 where
  pub base_url : String
  -- `gobreaker.CircuitBreaker.Execute`
  pub execute : Action W ⊤ → Action W ⊤
  -- `json.Marshal` of the map of `to` and `team_name`
  pub marshal : String → String → Result (List ℕ)
  -- `http.NewRequestWithContext` with the method POST, and `Client.Do`, with the status of its response
  pub new_request : String → List ℕ → Result (List ℕ)
  pub send : List ℕ → Action W ℕ

-- `ReadyToTrip`, by the consecutive failures.
unfoldable pub ready_to_trip : ℕ → Bool
ready_to_trip failures = leb 3 failures

module _ {W : Type 0} (c : EmailClient W) where
  -- The function that `Execute` is given.
  unfoldable pub post_invite : String → String → Action W ⊤
  post_invite to team_name = do
    payload ← on_error (wrapped "marshal payload") (lift (c.marshal to team_name))
    request ←
        on_error (wrapped "build request") (lift (c.new_request (c.base_url ++ "/send") payload))
    status ← on_error (wrapped "email service unreachable") (c.send request)
    refuse_if (leb 500 status) (plain ("email service: status " ++ decimal (pos status)))
    pure tt

  unfoldable pub send_invite : String → String → Action W ⊤
  send_invite to team_name =
      if str_eq c.base_url "" then pure tt else c.execute (post_invite to team_name)

  post_invite-Keeps :
      (view : W → Tables)
      → ((request : List ℕ) → Keeps view (c.send request))
      → (to team_name : String) → Keeps view (post_invite to team_name)
  unfolding post_invite
  post_invite-Keeps view sends to team_name w =
      let P = λ (r : Result ⊤) (v : W). view v ≡ view w in
      after_checked P _ _ _ w
        (λ payload e.
          after_checked P _ _ _ w
            (λ request e1.
              after_checked P _ (c.send request) _ w
                (λ status e2.
                  after_guard P _ _ _ (c.send request w).1 (λ small. sends request w)
                    (λ large. sends request w))
                (λ x e2. sends request w))
            (λ x e1. refl))
        (λ x e. refl)

  -- An invitation changes no table where the client changes none.
  pub send_invite-Keeps :
      (view : W → Tables)
      → ((m : Action W ⊤) → Keeps view m → Keeps view (c.execute m))
      → ((request : List ℕ) → Keeps view (c.send request))
      → (to team_name : String) → Keeps view (send_invite to team_name)
  unfolding send_invite
  send_invite-Keeps view executes sends to team_name = elim (Bool-cases (str_eq c.base_url "")) [
    | inl unset ↦ rw unset (λ w. refl)
    | inr known ↦
        rw known (executes (post_invite to team_name) (post_invite-Keeps view sends to team_name))
  ]
