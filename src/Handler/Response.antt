-- ===== src/Handler/Response.antt =====
-- What the handlers of internal/handler have in common: the responses, by status and body, and the
-- ways in which they refuse a request. The response types of the generated server each fix a status
-- and a body; a handler's `(nil, err)` is an error, which the generated server makes a status 500.
use team_tasks.Base.{ℕ, String, Option, none, some, List, [], ◌∷◌, if◌then◌else◌}
use team_tasks.Domain.Ids.{Uuid}
use team_tasks.Domain.Errors.{Sentinel, Error, Result, ok, err, errors_is}
use team_tasks.Action.{Action, pure, lift, attempt}

pub data Response (B : Type 0) : Type 0 where
  reply : ℕ → B → Response B
  refused : ℕ → String → Response B

abbrev pub msg_unauthorized : String
msg_unauthorized = "unauthorized"

abbrev pub msg_empty_body : String
msg_empty_body = "empty body"

abbrev pub msg_forbidden : String
msg_forbidden = "forbidden"

abbrev pub msg_task_not_found : String
msg_task_not_found = "task not found"

-- One `case errors.Is(err, …)` of a switch.
pub record Case : Type 0 where
  pub target : Sentinel
  pub status : ℕ
  pub message : String

-- The cases of a switch behind `err == nil`, in their order, and its default.
abbrev pub refusal_of : {B : Type 0} → List Case → Error → Result (Response B)
refusal_of [] e = err e
refusal_of (c ∷ cs) e =
    if errors_is c.target e then ok (refused c.status c.message) else refusal_of cs e

-- The user whom the middleware has put into the context, if any.
unfoldable pub authorized :
    {W B : Type 0} → Option Uuid → (Uuid → Action W (Response B)) → Action W (Response B)
authorized none f = pure (refused 401 msg_unauthorized)
authorized (some user_id) f = f user_id

-- The response to a result of a service.
abbrev pub answered : {A B : Type 0} → ℕ → (A → B) → List Case → Result A → Result (Response B)
answered status f cases (ok a) = ok (reply status (f a))
answered status f cases (err e) = refusal_of cases e

module _ {W A B : Type 0} where
  -- `if req.Body == nil { … }`
  unfoldable pub with_body : Option A → (A → Action W (Response B)) → Action W (Response B)
  with_body none f = pure (refused 400 msg_empty_body)
  with_body (some body) f = f body

  -- The call of a service and the switch on its error.
  unfoldable pub answer : ℕ → (A → B) → List Case → Action W A → Action W (Response B)
  answer status f cases m = attempt m (λ r. lift (answered status f cases r))
