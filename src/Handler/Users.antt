-- ===== src/Handler/Users.antt =====
-- `Register` and `Login` of internal/handler/auth.go.
use team_tasks.Base.{String, Option, List, [], ◌∷◌}
use team_tasks.Domain.Errors.{conflict, unauthorized}
use team_tasks.Action.{⊤, Action}
use team_tasks.Handler.Response.{Response, Case, with_body, answer}

-- `AuthService`
pub record AuthService (W : Type 0) : Type 0 where
  pub register : String → String → String → Action W ⊤
  pub login : String → String → Action W String

pub record RegisterRequest : Type 0 where
  pub email : String
  pub name : String
  pub password : String

pub record LoginRequest : Type 0 where
  pub email : String
  pub password : String

abbrev pub login_cases : List Case
login_cases = record { target = unauthorized; status = 401; message = "invalid credentials" } ∷ []

module _ {W : Type 0} (auth : AuthService W) where
  unfoldable pub register_user : Option RegisterRequest → Action W (Response ⊤)
  register_user body = with_body body λ b.
      answer 201 (λ a. a)
        (record { target = conflict; status = 409; message = "email already registered" } ∷ [])
        (auth.register b.email b.name b.password)

  unfoldable pub login_user : Option LoginRequest → Action W (Response String)
  login_user body =
      with_body body λ b. answer 200 (λ token. token) login_cases (auth.login b.email b.password)
