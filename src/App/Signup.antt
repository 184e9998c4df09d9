-- ===== src/App/Signup.antt =====
-- Two registrations of one email at once: what `Register` of internal/handler/auth.go answers when
-- the unique key of the table of users refuses the row.
use team_tasks.Base.{
  subst, sym, ◌∙◌, ◌≢◌, none, String, true, some, [], ◌∷◌, ◌≡◌, refl, ◌⊎◌, inl, inr, arith,
}
use team_tasks.Domain.{User}
use team_tasks.Domain.Ids.{Uuid}
use team_tasks.Domain.Errors.{Error, Result, ok, err, errors_is, conflict, not_found, sentinel}
use team_tasks.Action.{⊤}
use team_tasks.Action.Rules.{after_attempt, after_checked, last_checked, after_guard}
use team_tasks.Platform.{after_clock}
use team_tasks.Auth.Service.{register, register_found}
use team_tasks.Mysql.Rows.{is_duplicate_entry, to_user}
use team_tasks.Mysql.Driver.{Scan, text, is_no_rows}
use team_tasks.Mysql.Storage.Users.{get_by_email, save_user, save_user_error}
use team_tasks.Store.{Tables, find_email, Keeps}
use team_tasks.Mysql.Statements.{insert_into, select_where, user_columns, user_names, values}
use team_tasks.Handler.Response.{Response, refused, with_body, answer}
use team_tasks.Handler.Users.{register_user}
use team_tasks.Handler.Outcomes as Outcomes
use team_tasks.App.{Parts, auth_service}

-- A call that has been refused as a conflict.
abbrev IsConflict : {A : Type 0} → Result A → Type 0
IsConflict (ok a) = ⊥
IsConflict (err e) = errors_is conflict e ≡ true

ok_ne_err : {A : Type 0} {r : Result A} {a : A} {e : Error} → r ≡ ok a → r ≡ err e → ⊥
ok_ne_err h g = cc

-- The lookup of the email has found a user that can be read, or no row; the password is hashed and
-- identifiers are drawn; by the time the password has been hashed another request has saved a user of
-- that email; and the unique key of the table refuses a row of that email, with that name, where
-- the table holds one.
pub record IsTaken {W : Type 0} (p : Parts W) (view : W → Tables) (email name password : String)
    (w : W) : Type 0 where
  pub lookup :
      ((row : _) × (user : User) × ((p.db.get Scan.user_rows
            (select_where user_names "users" "email = ?")
            (text email ∷ [])
            w).0
          ≡ ok row)
        × (to_user row ≡ ok user))
      ⊎ ((e : Error) × ((p.db.get Scan.user_rows
              (select_where user_names "users" "email = ?")
              (text email ∷ [])
              w).0
            ≡ err e)
          × (is_no_rows e ≡ true))
  pub hashes : (v : W) → (hash : String) × ((p.generate_from_password password v).0 ≡ ok hash)
  pub meanwhile :
      let v = (get_by_email p.db email w).1 in
      find_email email (view (p.generate_from_password password v).1).users ≢ none
  pub draws : (v : W) → (id : Uuid) × ((p.platform.new_uuid v).0 ≡ ok id)
  pub new_uuid_keeps : Keeps view p.platform.new_uuid
  pub now_keeps : (v : W) → view (p.platform.now v).1 ≡ view v
  pub unique_key :
      (user : User) (v : W)
      → user.email ≡ email
      → user.name ≡ name
      → find_email user.email (view v).users ≢ none
      → (e : Error) × ((p.db.exec
            (insert_into "users" (user_columns user))
            (values (user_columns user))
            v).0
          ≡ err e)
        × (is_duplicate_entry e ≡ true)

module _ {W : Type 0} (p : Parts W) (view : W → Tables) where
  save_user-IsConflict :
      (email name password : String) (w : W) (taken : IsTaken p view email name password w)
      (user : User) (v : W)
      → user.email ≡ email
      → user.name ≡ name
      → find_email user.email (view v).users ≢ none
      → IsConflict (save_user p.db user v).0
  unfolding save_user
  save_user-IsConflict email name password w taken user v is_email is_name held =
      let (d, refused_by, duplicate) = taken.unique_key user v is_email is_name held in
      after_checked (λ r u. IsConflict r) save_user_error _ _ v (λ n e. cc)
        (λ e h.
          let same : d ≡ e = cc in
          let known = subst (λ (x : Error). is_duplicate_entry x ≡ true) same duplicate in
          rw known refl)

  -- A user who is not found is hashed, numbered, and refused.
  register_new-IsConflict :
      (email name password : String) (w : W) (taken : IsTaken p view email name password w)
      (e : Error)
      → errors_is not_found e ≡ true
      → let v = (get_by_email p.db email w).1 in
        IsConflict (register_found (auth_service p) email name password (err e) v).0
  unfolding register_found auth_service
  register_new-IsConflict email name password w taken e missing =
      let P = λ (r : Result ⊤) (u : W). IsConflict r in
      let v = (get_by_email p.db email w).1 in
      let v1 = (p.generate_from_password password v).1 in
      let v2 = (p.platform.new_uuid v1).1 in
      let v3 = (p.platform.now v2).1 in
      let held : find_email email (view v3).users ≢ none =
        subst (λ b. find_email email b.users ≢ none)
          (sym (taken.now_keeps v2 ∙ taken.new_uuid_keeps v1)) taken.meanwhile in
      after_guard P _ _ _ v
        (λ h.
          after_checked P _ _ _ v
            (λ hash h1.
              after_checked P _ _ _ v1
                (λ id h2. after_clock P _ _ v2 (
                  last_checked P _ _ v3
                    (λ a h3.
                      subst IsConflict h3
                        (save_user-IsConflict email name password w taken _ v3 refl refl held))
                    (λ x h3.
                      subst IsConflict h3
                        (save_user-IsConflict email name password w taken _ v3 refl refl held))))
                (λ x h2. absurd (ok_ne_err (taken.draws v1).1 h2)))
            (λ x h1. absurd (ok_ne_err (taken.hashes v).1 h1)))
        (λ h. ground arith)

  missing_only :
      (email name password : String) (w : W) (taken : IsTaken p view email name password w)
      (e : Error)
      → (get_by_email p.db email w).0 ≡ err e
      → errors_is not_found e ≡ true
  unfolding get_by_email
  missing_only email name password w taken =
      let P = λ (r : Result User) (v : W). (e : Error) → r ≡ err e → errors_is not_found e ≡ true in
      after_checked P _ _ _ w
        (λ row h. elim taken.lookup [
          | inl (other, user, got, read) ↦ λ x failed.
              let same : other ≡ row = cc in
              let reads = subst (λ r. to_user r ≡ ok user) same read in
              absurd (ok_ne_err reads failed)
          | inr (x, failed, none_there) ↦ absurd (ok_ne_err h failed)
        ])
        (λ d h. elim taken.lookup [
          | inl (other, user, got, read) ↦ absurd (ok_ne_err got h)
          | inr (x, failed, none_there) ↦ λ y is.
              let same : x ≡ d = cc in
              let known = subst (λ (z : Error). is_no_rows z ≡ true) same none_there in
              let is_known : err (sentinel not_found) ≡ err y = rw known at is in
              let shown : sentinel not_found ≡ y = cc in
              subst (λ (z : Error). errors_is not_found z ≡ true) shown refl
        ])

  register-IsConflict :
      (email name password : String) (w : W)
      → IsTaken p view email name password w
      → IsConflict (register (auth_service p) email name password w).0
  unfolding register register_found auth_service
  register-IsConflict email name password w taken =
      after_attempt (λ (r : Result ⊤) (v : W). IsConflict r) _ _ w (λ user e. refl)
        (λ e h.
          register_new-IsConflict email name password w taken e
            (missing_only email name password w taken e h))

  -- A registration of an email that somebody else has registered, or registers between the lookup
  -- and the insertion, ends in a conflict, status 409: if the lookup has not seen the other user, the
  -- unique key refuses the row. The user that is found can be read, the password can be hashed
  -- and identifiers drawn.
  pub register_user-refused :
      (email name password : String) (w : W)
      → IsTaken p view email name password w
      → (register_user
          (Outcomes.auth_service (auth_service p))
          (some (record { email = email; name = name; password = password }))
          w).0
        ≡ ok (refused 409 "email already registered")
  unfolding register_user with_body answer
  register_user-refused email name password w taken =
      let conflicts = register-IsConflict email name password w taken in
      after_attempt
        (λ (r : Result (Response ⊤)) (u : W). r ≡ ok (refused 409 "email already registered")) _ _ w
        (λ a e. absurd (subst IsConflict e conflicts))
        (λ x e. let known = subst IsConflict e conflicts in rw known refl)
