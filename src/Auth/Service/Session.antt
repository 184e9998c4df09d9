-- ===== src/Auth/Service/Session.antt =====
-- `Service.Login` of internal/service/auth/auth.go: who is let in, and how refusals look.
use team_tasks.Base.{String, true, Option, none, some, ◌≡◌, refl, ◌∙◌, ap, subst, str_eq_iff}
use team_tasks.Domain.{Time, User}
use team_tasks.Domain.Errors.{Error, Result, ok, err, sentinel, errors_is, not_found, unauthorized}
use team_tasks.Action.{⊤, lift}
use team_tasks.Action.Rules.{after_checked, last_checked}
use team_tasks.Platform.{after_clock}
use team_tasks.Store.{Tables, find_email}
use team_tasks.Store.Rules.{after_answer}
use team_tasks.Auth.Service.{Deps, register, login, claims, unknown_error}
use team_tasks.Auth.Service.Contract.{IsUserStore, HashesMatch, IsUp, add_user}
use team_tasks.Auth.Service.Registration.{register-Registered, Registered}

module _ {W : Type 0} (s : Deps W) where
  abbrev admit_checked : User → Result ⊤ → Option User
  admit_checked user (ok a) = some user
  admit_checked user (err e) = none

  abbrev admit : String → Option User → Option User
  admit password none = none
  admit password (some user) =
      admit_checked user (s.compare_hash_and_password user.password password)

  -- The user whose email and password these are.
  abbrev pub admitted : String → String → Tables → Option User
  admitted email password b = admit password (find_email email b.users)

  -- The result for a user that is let in, a token for it, or for none.
  abbrev pub Decides : Option User → Result String → Type 0
  Decides none r = r ≡ err (sentinel unauthorized)
  Decides (some user) r =
      (now : Time) × (token : String) × (s.signed_string s.secret (claims s user now) ≡ ok token)
      × (r ≡ ok token)

  unknown_refused :
      (label password : String) (e : Error)
      → errors_is not_found e ≡ true
      → Decides (admit password none) (err (unknown_error label e))
  unknown_refused label password e missing = rw missing refl

  mismatch_refused :
      (user : User) (password : String) (e : Error)
      → s.compare_hash_and_password user.password password ≡ err e
      → Decides (admit password (some user)) (err (sentinel unauthorized))
  mismatch_refused user password e differs = rw differs refl

  let_in :
      (user : User) (password : String) (now : Time) (token : String)
      → s.compare_hash_and_password user.password password ≡ ok tt
      → s.signed_string s.secret (claims s user now) ≡ ok token
      → Decides (admit password (some user)) (ok token)
  let_in user password now token matches signed = rw matches (now, token, signed, refl)

module _ {W : Type 0} (s : Deps W) (view : W → Tables) (laws : IsUserStore s view)
    (up : IsUp s) where
  -- Where the storage is up, a login with the email and the password of a user gives a token for
  -- that user, and any other login the same error, whether it is the email or the password that is
  -- wrong.
  pub login-Decides :
      (email password : String) (w : W)
      → Decides s (admitted s email password (view w)) (login s email password w).0
  unfolding login
  login-Decides email password w =
      let P = λ (r : Result String) (v : W). Decides s (admitted s email password (view w)) r in
      after_answer view P (λ b. find_email email b.users) _ _ _ w (laws.get_by_email email)
        (up.get_by_email email)
        (λ user w1 found same1.
          after_checked P _ (lift (s.compare_hash_and_password user.password password)) _ w1
            (λ a matches. after_clock P _ _ w1 (
              let now = (s.platform.now w1).0 in
              last_checked P _ (lift (s.signed_string s.secret (claims s user now))) _
                (λ token signed. rw found (let_in s user password now token matches signed))
                (λ e failed. let (token, signed) = up.signed_string (claims s user now) in cc)))
            (λ e differs. rw found (mismatch_refused s user password e differs)))
        (λ e w1 missing absent. rw absent (unknown_refused s _ password e missing))

  first_admitted :
      (email password : String) (user : User) (before : Tables)
      → user.email ≡ email
      → s.compare_hash_and_password user.password password ≡ ok tt
      → admitted s email password (add_user user before) ≡ some user
  unfolding find_email
  first_admitted email password user before is matches =
      rw (is, (str_eq_iff email email).1 refl, matches) refl

  -- Where the storage is up, whoever has registered can log in with the same email and password,
  -- and gets a token for a user of that email and name.
  pub register-login :
      HashesMatch s
      → (email name password : String) (w : W) → (register s email name password w).0 ≡ ok tt
      → let (r, v) = register s email name password w in
        (user : User) × (user.email ≡ email)
        × (user.name ≡ name)
        × Decides s (some user) (login s email password v).0
  register-login match email name password w done =
      let (r, v) = register s email name password w in
      let (fresh, (user, added, is, named, matches)) =
        subst (λ (x : Result ⊤). Registered s email name password (view w) x (view v)) done
          (register-Registered s view laws match email name password w) in
      (
        user,
        is,
        named,
        subst (λ (o : Option User). Decides s o (login s email password v).0)
            (ap (admitted s email password) added
              ∙ first_admitted email password user (view w) is matches)
            (login-Decides email password v),
      )
