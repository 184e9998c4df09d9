-- ===== src/Middleware/Jwt.antt =====
-- `JWT` of internal/middleware/jwt.go: what becomes of a request by its header `Authorization`. The
-- JWT and UUID libraries are parameters.
pub mod Accepts
use Prim.Native.Char.{Char, code}
use Prim.Native.String.{String, [], ◌∷◌}
use team_tasks.Base.{Bool, true, false, Option, none, some, ◌==◌, str_eq, if◌then◌else◌}
use team_tasks.Domain.{Time}
use team_tasks.Domain.Ids.{Uuid}
use team_tasks.Domain.Errors.{Error, Result, ok, err, plain}

-- What `jwt.Parse` gives back: `Valid`, and the result of `Claims.GetSubject()`.
pub record Token : Type 0 where
  pub valid : Bool
  pub subject : Result String

-- The library functions. A key function is given whether the method of the token is an HMAC.
pub record Libraries : Type 0 where
  pub jwt_parse : String → (Bool → Result String) → Time → Result Token
  pub uuid_parse : String → Result Uuid

-- The next handler runs with a user in its context or with none, or the response is a status 401 with
-- a message.
pub data Passage : Type 0 where
  passed : Option Uuid → Passage
  denied : String → Passage

-- `strings.CutPrefix`
unfoldable pub cut_prefix : String → String → Option String
cut_prefix [] s = some s
cut_prefix (c ∷ p) [] = none
cut_prefix (c ∷ p) (d ∷ s) = if code c == code d then cut_prefix p s else none

-- The key function: the secret, for an HMAC only.
abbrev pub key_for : String → Bool → Result String
key_for secret true = ok secret
key_for secret false = err (plain "signature is invalid")

module _ (lib : Libraries) where
  abbrev pub check_id : Result Uuid → Passage
  check_id (ok id) = passed (some id)
  check_id (err e) = denied "invalid token subject"

  abbrev pub check_subject : Result String → Passage
  check_subject (ok sub) = check_id (lib.uuid_parse sub)
  check_subject (err e) = denied "invalid token claims"

  abbrev pub check_token : Result Token → Passage
  check_token (ok token) =
      if token.valid then check_subject token.subject else denied "invalid token"
  check_token (err e) = denied "invalid token"

  abbrev pub check_bearer : String → Time → Option String → Passage
  check_bearer secret now (some raw) = check_token (lib.jwt_parse raw (key_for secret) now)
  check_bearer secret now none = denied "invalid authorization header"

  unfoldable pub jwt : String → Time → String → Passage
  jwt secret now auth =
      if str_eq auth "" then passed none else check_bearer secret now (cut_prefix "Bearer " auth)
