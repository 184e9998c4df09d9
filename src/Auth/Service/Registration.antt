-- ===== src/Auth/Service/Registration.antt =====
-- What `Service.Register` of internal/service/auth/auth.go does to the table of users.
use team_tasks.Base.{String, true, not, none, List, [], ◌∷◌, ◌≡◌, refl, arith, ◌∙◌, ap, subst, sym}
use team_tasks.Domain.{User}
use team_tasks.Domain.Errors.{Error, Result, ok, err, errors_is, not_found}
use team_tasks.Action.{⊤}
use team_tasks.Action.Rules.{after_attempt, after_guard, after_checked, last_checked}
use team_tasks.Platform.{after_clock}
use team_tasks.Store.{Tables, find_email, Found, Written}
use team_tasks.Store.Rules.{after_keep}
use team_tasks.Auth.Service.{Deps, register, register_found, new_user}
use team_tasks.Auth.Service.Contract.{IsUserStore, HashesMatch, add_user}

-- What a call that has ended with a result has done. Without an error: nobody had the email, and
-- the one new row is a user of that email and name whose hash the password matches. With an
-- error: nothing.
abbrev pub Registered :
    {W : Type 0} → Deps W → String → String → String → Tables → Result ⊤ → Tables → Type 0
Registered s email name password before (ok a) after =
    (find_email email before.users ≡ none)
    × ((user : User) × (after ≡ add_user user before)
        × (user.email ≡ email)
        × (user.name ≡ name)
        × (s.compare_hash_and_password user.password password ≡ ok tt))
Registered s email name password before (err e) after = after ≡ before

-- No two users have the same email.
abbrev pub UniqueEmails : List User → Type 0
UniqueEmails [] = Unit
UniqueEmails (u ∷ us) = (find_email u.email us ≡ none) × UniqueEmails us

Registered-UniqueEmails :
    {W : Type 0} (s : Deps W) (email name password : String) (before : Tables) (r : Result ⊤)
    (after : Tables)
    → Registered s email name password before r after
    → UniqueEmails before.users
    → UniqueEmails after.users
Registered-UniqueEmails s email name password before (ok a) after
      (fresh, (user, done, is, named, hashed)) unique =
    subst (λ (b : Tables). UniqueEmails b.users) (sym done)
      (subst (λ e. find_email e before.users ≡ none) (sym is) fresh, unique)
Registered-UniqueEmails s email name password before (err e) after kept unique =
    subst (λ (b : Tables). UniqueEmails b.users) (sym kept) unique

module _ {W : Type 0} (s : Deps W) (view : W → Tables) (laws : IsUserStore s view)
    (match : HashesMatch s) where
  new-Registered :
      (email name password : String) (before : Tables) (e : Error) (w : W)
      → (errors_is not_found e ≡ true → find_email email before.users ≡ none)
      → view w ≡ before
      → let (r, w') = register_found s email name password (err e) w in
        Registered s email name password before r (view w')
  unfolding register_found
  new-Registered email name password before e w missing same =
      let P = λ (r : Result ⊤) (v : W). Registered s email name password before r (view v) in
      after_guard P (not (errors_is not_found e)) _ _ w
        (λ absent.
          let fresh = missing (ground arith) in
          after_checked P _ (s.generate_from_password password) _ w
            (λ hash hashed.
              after_keep view P _ _ _ _ laws.new_uuid
                (λ id w2 same2. after_clock P _ _ w2 (
                  let w3 = (s.platform.now w2).1 in
                  let user = new_user s id email name hash (s.platform.now w2).0 in
                  let same3 = laws.now w2 ∙ same2 ∙ laws.generate_from_password password w ∙ same in
                  let saved = laws.save_user user w3 in
                  let after = view (s.save_user user w3).1 in
                  let result =
                    λ (r : Result ⊤). Written (view w3) (add_user user (view w3)) r after in
                  last_checked P _ (s.save_user user) w3
                    (λ a done. (
                      fresh,
                      (
                        user,
                        subst result done saved ∙ ap (add_user user) same3,
                        refl,
                        refl,
                        match password hash w hashed,
                      ),
                    ))
                    (λ x failed. subst result failed saved ∙ same3)))
                (λ x w2 same2. same2 ∙ laws.generate_from_password password w ∙ same))
            (λ x failed. laws.generate_from_password password w ∙ same))
        (λ other. same)

  -- A registration succeeds only for an email that no user has; then one user is added, with that
  -- email and name and a hash that the password matches; otherwise, whatever fails, the tables stay
  -- as they are.
  pub register-Registered :
      (email name password : String) (w : W)
      → let (r, w') = register s email name password w in
        Registered s email name password (view w) r (view w')
  unfolding register register_found
  register-Registered email name password w =
      let P = λ (r : Result ⊤) (v : W). Registered s email name password (view w) r (view v) in
      let (same, found) = laws.get_by_email email w in
      after_attempt P (s.get_by_email email) _ w (λ user e. same)
        (λ x e.
          new-Registered email name password (view w) x _
            (subst (Found (find_email email (view w).users)) e found) same)

  -- Registration keeps the emails of the users different, however it ends.
  register-UniqueEmails :
      (email name password : String) (w : W)
      → UniqueEmails (view w).users
      → UniqueEmails (view (register s email name password w).1).users
  register-UniqueEmails email name password w =
      let (r, v) = register s email name password w in
      Registered-UniqueEmails s email name password (view w) r (view v)
        (register-Registered email name password w)
