-- ===== src/Auth/Service.antt =====
-- `Service` of internal/service/auth/auth.go, without its log lines. The functions of bcrypt and of
-- the JWT library are parameters. A negative `expiry` is not modelled.
pub mod Contract
pub mod Registration
pub mod Session
use team_tasks.Base.{ℕ, ◌+◌, ◌/◌, String, not}
use team_tasks.Domain.{Time, User}
use team_tasks.Domain.Ids.{Uuid}
use team_tasks.Domain.Errors.{
  Error, Result, ok, err, sentinel, wrapped, errors_is, not_found, conflict, unauthorized,
}
use team_tasks.Base.{if◌then◌else◌}
use team_tasks.Action.{⊤, Action, pure, throw, lift, attempt, on_error, refuse_if, ◌>>=◌, ◌>>◌}
use team_tasks.Platform.{Platform, read_clock}

-- `jwt.MapClaims{"sub": …, "exp": …}`
pub record Claims : Type 0 where
  pub sub : String
  pub exp : ℕ

-- The fields of `Service`, by the methods of their interfaces, and the library functions.
pub record Deps (W : Type 0) : Type 0 where
  pub platform : Platform W
  pub save_user : User → Action W ⊤
  pub get_by_email : String → Action W User
  pub secret : String
  pub expiry : ℕ
  -- `bcrypt.GenerateFromPassword(…, bcrypt.DefaultCost)`, which draws a salt
  pub generate_from_password : String → Action W String
  -- `bcrypt.CompareHashAndPassword`
  pub compare_hash_and_password : String → String → Result ⊤
  -- `SignedString` of a token with HS256, by the secret
  pub signed_string : String → Claims → Result String

-- `Unix()` of an instant.
abbrev pub unix : Time → ℕ
unix t = t / 1000000000

-- The two returns behind `GetByEmail`.
abbrev pub unknown_error : String → Error → Error
unknown_error label e = if errors_is not_found e then sentinel unauthorized else wrapped label e

module _ {W : Type 0} (s : Deps W) where
  abbrev pub new_user : Uuid → String → String → String → Time → User
  new_user id email name hash now = record {
    id = id;
    email = email;
    name = name;
    password = hash;
    created_at = now;
  }

  -- `Register` behind its lookup of the email.
  unfoldable pub register_found : String → String → String → Result User → Action W ⊤
  register_found email name password (ok user) =
      throw (wrapped "email already registered" (sentinel conflict))
  register_found email name password (err e) = do
    refuse_if (not (errors_is not_found e)) (wrapped "auth.Service.Register: get by email" e)
    hash ←
        on_error (wrapped "auth.Service.Register: hash password")
          (s.generate_from_password password)
    id ← on_error (wrapped "auth.Service.Register: generate user id") s.platform.new_uuid
    now ← read_clock s.platform
    on_error (wrapped "auth.Service.Register: save user")
        (s.save_user (new_user id email name hash now))

  unfoldable pub register : String → String → String → Action W ⊤
  register email name password = attempt (s.get_by_email email) (register_found email name password)

  abbrev pub claims : User → Time → Claims
  claims user now = record {
    sub = s.platform.formats.uuid_string user.id;
    exp = unix (now + s.expiry);
  }

  unfoldable pub login : String → String → Action W String
  login email password = do
    user ← on_error (unknown_error "auth.Service.Login: get by email") (s.get_by_email email)
    on_error (λ _. sentinel unauthorized)
        (lift (s.compare_hash_and_password user.password password))
    now ← read_clock s.platform
    on_error (wrapped "auth.Service.Login: sign token")
        (lift (s.signed_string s.secret (claims user now)))
