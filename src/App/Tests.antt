-- ===== src/App/Tests.antt =====
-- The services wired to a database in memory, and the theorems on them at that instance.
mod Caching
mod Queries
mod Paging
mod Life
use Prim.Native.String.{◌++◌}
use team_tasks.Base.{
  ◌≢◌, str_eq, if◌then◌else◌, ℕ, String, List, Option, none, inr, true, [], suc, some, ◌∷◌, ◌≡◌,
  refl,
}
use team_tasks.Domain.Errors.{Result, ok, err, no_rows, mysql_error, redis_nil, plain}
use team_tasks.Domain.{User}
use team_tasks.Domain.Errors.{Error}
use team_tasks.Action.{Action}
use team_tasks.Mysql.Driver.{Value, bytes, text}
use team_tasks.Mysql.Rows.{is_duplicate_entry}
use team_tasks.Mysql.Storage.Users.{insert_user}
use team_tasks.Auth.Service.Contract.{add_user}
use team_tasks.Platform.{Platform}
use team_tasks.Store.{find_email}
use team_tasks.Auth.Service.Contract.{IsUserStore}
use team_tasks.Team.Service.Contract.{IsTeamStore}
use team_tasks.Task.Service.Contract.{IsTaskStore}
use team_tasks.Comment.Service.Discussion.{IsCommentStore}
use team_tasks.Handler.Response.{refused}
use team_tasks.Handler.Users.{register_user}
use team_tasks.Handler.Outcomes as Outcomes
use team_tasks.Notifier.{EmailClient}
use team_tasks.Redis.TaskCache.{Client}
use team_tasks.Memory.{formats, entry_of}
use team_tasks.Memory.Fixtures.{tables}
use team_tasks.Memory.Database.{World, database}
use team_tasks.Memory.Database.Laws.{database-IsMysql}
use team_tasks.App.{Parts, auth_service, team_service, task_service, comment_service}
use team_tasks.App.Stores.{IsApart, team_service-IsTeamStore, task_service-IsTaskStore}
use team_tasks.App.Signup.{IsTaken, register_user-refused}

abbrev platform : Platform World
platform = record {
  new_uuid = λ w. (ok (record { bytes = suc w.ticks ∷ [] }), record w { ticks = suc w.ticks });
  now = λ w. (w.ticks, w);
  formats = formats;
}

-- A closed circuit breaker, and a service that is not there.
abbrev email_client : EmailClient World
email_client = record {
  base_url = "http://mail";
  execute = λ m. m;
  marshal = λ to team_name. ok [];
  new_request = λ url payload. ok payload;
  send = λ request w. (err (plain "no such host"), w);
}

-- A cache of one page, of which a deletion takes all.
abbrev pub keys_of : List (String × List ℕ) → List String
keys_of [] = []
keys_of ((key, stored) ∷ c) = key ∷ keys_of c

abbrev pub looked_up : Option (List ℕ) → Result (List ℕ)
looked_up none = err redis_nil
looked_up (some stored) = ok stored

abbrev pub redis : Client World
redis = record {
  get = λ key w. (looked_up (entry_of key w.cache), w);
  set = λ key stored ttl w. (ok tt, record w { cache = (key, stored) ∷ w.cache });
  del = λ keys w. (ok tt, record w { cache = [] });
  scan = λ cursor pattern count w. (ok (keys_of w.cache, 0), w);
  has_suffix = λ text suffix. true;
}

abbrev pub parts : Parts World
parts = record {
  platform = platform;
  db = database;
  redis = redis;
  turns = 1;
  email_client = email_client;
  jwt_secret = "secret";
  jwt_expiry = 3600;
  task_list_ttl = 30;
  generate_from_password = λ password w. (ok ("#" ++ password), w);
  compare_hash_and_password = λ hash password. ok tt;
  signed_string = λ secret c. ok c.sub;
  marshal = λ found. err (plain "unsupported");
  unmarshal = λ bytes. err (plain "malformed");
}

abbrev world : World
world = record { tables = tables; draft = record tables { tasks = [] }; cache = []; ticks = 9 }

parts-IsApart : IsApart parts (λ w. w.tables)
parts-IsApart = record {
  new_uuid = λ w. refl;
  now = λ w. refl;
  redis_get = λ key w. refl;
  redis_del = λ keys w. refl;
  redis_scan = λ cursor pattern w. refl;
  execute = λ m keeps w. keeps w;
  send = λ request w. refl;
  generate_from_password = λ password w. refl;
}

team_service-IsTeamStore_example : IsTeamStore (team_service parts) (λ (w : World). w.tables)
team_service-IsTeamStore_example =
    team_service-IsTeamStore parts (λ (w : World). w.tables) (λ (w : World). w.draft)
      database-IsMysql parts-IsApart

task_service-IsTaskStore_example : IsTaskStore (task_service parts) (λ (w : World). w.tables)
task_service-IsTaskStore_example =
    task_service-IsTaskStore parts (λ (w : World). w.tables) (λ (w : World). w.draft)
      database-IsMysql parts-IsApart

-- A database with the unique key of the table of users, and another request that saves a user of the
-- same email while the password is hashed.
abbrev duplicate : Option User → String → List Value → Action World (Result ℕ)
duplicate none statement args w = database.exec statement args w
duplicate (some other) statement args w = (err (mysql_error 1062), w)

abbrev keyed : String → List Value → Action World (Result ℕ)
keyed statement (id ∷ text email ∷ args) w =
    duplicate (if str_eq statement insert_user then find_email email w.tables.users else none)
      statement (id ∷ text email ∷ args) w
keyed statement args w = database.exec statement args w

abbrev rival : User
rival = record {
  id = record { bytes = 7 ∷ [] };
  email = "new@x";
  name = "rival";
  password = "#";
  created_at = 0;
}

abbrev crowded : Parts World
crowded = record parts {
  db = record database { exec = keyed };
  generate_from_password =
      λ password w. (ok ("#" ++ password), record w { tables = add_user rival w.tables });
}

refused_by_key :
    (o : Option User) (statement : String) (args : List Value) (w : World)
    → o ≢ none
    → (e : Error) × ((duplicate o statement args w).0 ≡ err e) × (is_duplicate_entry e ≡ true)
refused_by_key none statement args w held = absurd (held refl)
refused_by_key (some other) statement args w held = (mysql_error 1062, refl, refl)

taken : IsTaken crowded (λ (w : World). w.tables) "new@x" "new" "pw" world
unfolding find_email
taken = record {
  lookup = inr (no_rows, refl, refl);
  hashes = λ v. ("#" ++ "pw", refl);
  meanwhile = λ e. cc;
  draws = λ v. (record { bytes = suc v.ticks ∷ [] }, refl);
  new_uuid_keeps = λ v. refl;
  now_keeps = λ v. refl;
  unique_key = λ user v is_email is_name held.
      refused_by_key (find_email user.email v.tables.users) _ _ v held;
}

register_user-refused_example :
    (register_user
      (Outcomes.auth_service (auth_service crowded))
      (some (record { email = "new@x"; name = "new"; password = "pw" }))
      world).0
    ≡ ok (refused 409 "email already registered")
register_user-refused_example =
    register_user-refused crowded (λ (w : World). w.tables) "new@x" "new" "pw" world taken
