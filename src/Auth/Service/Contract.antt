-- ===== src/Auth/Service/Contract.antt =====
-- What the auth service relies on of its storage, of bcrypt and of the JWT library.
use team_tasks.Base.{String, ◌∷◌, ◌≡◌}
use team_tasks.Domain.{User}
use team_tasks.Domain.Errors.{ok}
use team_tasks.Store.{Tables, find_email, Keeps, LooksUp, Writes, Answers}
use team_tasks.Auth.Service.{Deps, Claims}

abbrev pub add_user : User → Tables → Tables
add_user user b = record b { users = user ∷ b.users }

-- What the service relies on, in a run in which no other request writes between its calls.
pub record IsUserStore {W : Type 0} (s : Deps W) (view : W → Tables) : Type 0 where
  pub save_user : (user : User) → Writes view (s.save_user user) (add_user user)
  pub get_by_email :
      (email : String) → LooksUp view (s.get_by_email email) (λ b. find_email email b.users)
  pub generate_from_password : (password : String) → Keeps view (s.generate_from_password password)
  pub new_uuid : Keeps view s.platform.new_uuid
  pub now : (w : W) → view (s.platform.now w).1 ≡ view w

-- A password matches a hash made of it.
abbrev pub HashesMatch : {W : Type 0} → Deps W → Type 0
HashesMatch {W} s =
    (password hash : String) (w : W)
    → (s.generate_from_password password w).0 ≡ ok hash
    → s.compare_hash_and_password hash password ≡ ok tt

-- The lookups fail only on an unknown email, and tokens can be signed.
pub record IsUp {W : Type 0} (s : Deps W) : Type 0 where
  pub get_by_email : (email : String) → Answers (s.get_by_email email)
  pub signed_string : (c : Claims) → (token : String) × (s.signed_string s.secret c ≡ ok token)
