-- ===== src/Memory/Users.antt =====
-- The auth service in memory; a hash is the password behind a mark.
use Prim.Native.String.{◌++◌}
use team_tasks.Base.{Bool, true, false, ◌≡◌, refl, str_eq, str_eq_iff}
use team_tasks.Domain.Errors.{Result, ok, err, plain}
use team_tasks.Action.{⊤}
use team_tasks.Store.{find_email}
use team_tasks.Auth.Service.{Deps}
use team_tasks.Auth.Service.Contract.{IsUserStore, HashesMatch, IsUp, add_user}
use team_tasks.Memory.{World, platform, or_not_found-Found, or_not_found-Answered, look, write}

abbrev compared : Bool → Result ⊤
compared true = ok tt
compared false = err (plain "hashedPassword is not the hash of the given password")

abbrev pub service : Deps World
service = record {
  platform = platform;
  save_user = λ user. write (add_user user);
  get_by_email = λ email. look (λ b. find_email email b.users);
  secret = "secret";
  expiry = 3600;
  generate_from_password = λ password w. (ok ("#" ++ password), w);
  compare_hash_and_password = λ hash password. compared (str_eq hash ("#" ++ password));
  signed_string = λ secret c. ok c.sub;
}

pub service-IsUserStore : IsUserStore service (λ w. w.tables)
service-IsUserStore = record {
  save_user = λ user w. refl;
  get_by_email = λ email w. (refl, or_not_found-Found _);
  generate_from_password = λ password w. refl;
  new_uuid = λ w. refl;
  now = λ w. refl;
}

pub service-HashesMatch : HashesMatch service
service-HashesMatch password hash w e =
    let same : hash ≡ "#" ++ password = cc in
    let known = (str_eq_iff ("#" ++ password) ("#" ++ password)).1 refl in rw same (rw known refl)

pub service-IsUp : IsUp service
service-IsUp = record {
  get_by_email = λ email w. or_not_found-Answered _;
  signed_string = λ c. (c.sub, refl);
}
