-- ===== src/Middleware/Sessions.antt =====
-- A token of `Service.Login` of internal/service/auth/auth.go at `JWT` of internal/middleware/jwt.go.
use Prim.Native.String.{◌++◌}
use team_tasks.Base.{
  String, true, Option, none, some, ◌≡◌, ◌<◌, ◌≤◌, ◌+◌, ◌⊎◌, inl, inr, leb, arith, Bool-cases, refl,
  subst,
}
use team_tasks.Domain.{Time, User}
use team_tasks.Domain.Ids.{Uuid}
use team_tasks.Domain.Errors.{Result, ok}
use team_tasks.Store.{Tables}
use team_tasks.Auth.Service.{Deps, Claims, claims, login, unix}
use team_tasks.Auth.Service.Contract.{IsUserStore, IsUp}
use team_tasks.Auth.Service.Session.{admitted, Decides, login-Decides}
use team_tasks.Middleware.Jwt.{Libraries, passed, jwt}
use team_tasks.Middleware.Jwt.Accepts.{TokenParser, jwt_iff}

-- What is relied on of the libraries: a token that is signed with a secret is by an HMAC, as
-- `SigningMethodHS256` is, and good with that secret before it expires, with the subject it was given, and the text of an identifier is parsed back.
pub record Agree {W : Type 0} (s : Deps W) (lib : Libraries) (parser : TokenParser lib)
    : Type 0 where
  pub accepted :
      (secret token : String) (c : Claims) (now : Time)
      → s.signed_string secret c ≡ ok token
      → unix now < c.exp
      → (parser.is_hmac token ≡ true)
        × (parser.checked token secret now ≡ ok (record { valid = true; subject = ok c.sub }))
  pub parsed : (id : Uuid) → lib.uuid_parse (s.platform.formats.uuid_string id) ≡ ok id

module _ {W : Type 0} (s : Deps W) (view : W → Tables) (laws : IsUserStore s view) (up : IsUp s)
    (lib : Libraries) (parser : TokenParser lib) (agree : Agree s lib parser) where
  -- What a token is at a moment: signed for the user at a time of issue, and either expired or good
  -- for a request of that user.
  abbrev pub Opens : Time → User → String → Type 0
  Opens now user token =
      (issued : Time) × (s.signed_string s.secret (claims s user issued) ≡ ok token)
      × ((unix (issued + s.expiry) ≤ unix now)
          ⊎ (jwt lib s.secret now ("Bearer " ++ token) ≡ passed (some user.id)))

  good_until_expiry :
      (now issued : Time) (user : User) (token : String)
      → s.signed_string s.secret (claims s user issued) ≡ ok token
      → (unix (issued + s.expiry) ≤ unix now)
        ⊎ (jwt lib s.secret now ("Bearer " ++ token) ≡ passed (some user.id))
  good_until_expiry now issued user token signed =
      elim (Bool-cases (leb (unix (issued + s.expiry)) (unix now))) [
        | inl late ↦ inl (ground arith)
        | inr early ↦
            let (hmac, checked) =
              agree.accepted s.secret token (claims s user issued) now signed (ground arith) in
            inr (
              (jwt_iff lib parser s.secret now ("Bearer " ++ token) user.id).1 (
                token,
                refl,
                (
                  record { valid = true; subject = ok (claims s user issued).sub },
                  (claims s user issued).sub,
                  hmac,
                  checked,
                  refl,
                  refl,
                  agree.parsed user.id,
                ),
              ))
      ]

  opens :
      (now : Time) (o : Option User) (r : Result String) (token : String)
      → Decides s o r
      → r ≡ ok token
      → (user : User) × (o ≡ some user) × Opens now user token
  opens now none r token h e = cc
  opens now (some user) r token (issued, t, signed, is) e =
      let same : t ≡ token = cc in
      let given =
        subst (λ (x : String). s.signed_string s.secret (claims s user issued) ≡ ok x) same
          signed in
      (user, refl, (issued, given, good_until_expiry now issued user token given))

  -- Where the storage is up, the token of a login is signed for the user with the email and the
  -- password of the login, and at any moment it either has expired or makes the request that shows
  -- it a request of that user.
  pub login-jwt :
      (email password token : String) (now : Time) (w : W)
      → (login s email password w).0 ≡ ok token
      → (user : User) × (admitted s email password (view w) ≡ some user) × Opens now user token
  login-jwt email password token now w done =
      opens now (admitted s email password (view w)) (login s email password w).0 token
        (login-Decides s view laws up email password w) done
