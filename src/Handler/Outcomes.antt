-- ===== src/Handler/Outcomes.antt =====
-- The handlers of internal/handler on top of the services of internal/service: which response a
-- request gets, and what it has changed.
use team_tasks.Base.{
  String, Bool, true, false, Option, none, some, ◌≡◌, refl, ap, str_eq, if◌then◌else◌,
}
use team_tasks.Domain.{Time, Team, User, Role, role_member}
use team_tasks.Handler.Comments.{CommentService}
use team_tasks.Domain.Ids.{Uuid}
use team_tasks.Domain.Errors.{
  Sentinel, not_found, forbidden, conflict, unauthorized, Error, sentinel, wrapped, Result, ok, err,
  errors_is, no_rows, mysql_error, redis_nil, cache_miss, plain,
}
use team_tasks.Action.{⊤, attempt}
use team_tasks.Store.{Tables, find_team, find_user, role_of}
use team_tasks.Handler.Response.{Response, reply, refused, authorized, with_body, answered, answer}
use team_tasks.Handler.Users.{AuthService, login_cases, login_user}
use team_tasks.Handler.Teams.{TeamService, invite_cases, invite_to_team}
use team_tasks.Handler.Tasks.{TaskService}
use team_tasks.Team.Service as Team
use team_tasks.Team.Service.Contract.{IsTeamStore, IsUp}
use team_tasks.Team.Service.Permission.{refusal, refuse_team, refuse_target, Obeys, invite-Obeys}
use team_tasks.Auth.Service as Auth
use team_tasks.Auth.Service.Contract as Auth_contract
use team_tasks.Auth.Service.Session.{admitted, Decides, login-Decides}
use team_tasks.Comment.Service as Comments
use team_tasks.Task.Service as Tasks

-- The services as the handlers' interfaces.
abbrev pub team_service : {W : Type 0} → Team.Deps W → TeamService W
team_service s = record {
  create = Team.create s;
  list_for_user = Team.list_for_user s;
  invite = Team.invite s;
}

abbrev pub auth_service : {W : Type 0} → Auth.Deps W → AuthService W
auth_service s = record { register = Auth.register s; login = Auth.login s }

abbrev pub comment_service : {W : Type 0} → Comments.Deps W → CommentService W
comment_service s = record { add = Comments.add s; list = Comments.list s }

abbrev pub task_service : {W : Type 0} → Tasks.Deps W → TaskService W
task_service s = record {
  create = Tasks.create s;
  list = Tasks.list s;
  update = Tasks.update s;
  history = Tasks.history s;
}

-- The response to a login of a user, or of nobody.
abbrev pub Admits : {W : Type 0} → Auth.Deps W → Option User → Result (Response String) → Type 0
Admits s none r = r ≡ ok (refused 401 "invalid credentials")
Admits s (some user) r =
    (now : Time) × (token : String) × (s.signed_string s.secret (Auth.claims s user now) ≡ ok token)
    × (r ≡ ok (reply 200 token))

-- An error is of one sentinel only.
pub not_found-forbidden : (e : Error) → errors_is not_found e ≡ true → errors_is forbidden e ≡ false
not_found-forbidden (sentinel not_found) h = refl
not_found-forbidden (sentinel forbidden) h = cc
not_found-forbidden (sentinel conflict) h = cc
not_found-forbidden (sentinel unauthorized) h = cc
not_found-forbidden (wrapped l e) h = not_found-forbidden e h
not_found-forbidden no_rows h = cc
not_found-forbidden (mysql_error n) h = cc
not_found-forbidden redis_nil h = cc
not_found-forbidden cache_miss h = cc
not_found-forbidden (plain l) h = cc

-- The response to an invitation that is accepted, or refused by a sentinel.
abbrev pub outcome : Option Sentinel → Response ⊤
outcome none = reply 200 tt
outcome (some not_found) = refused 404 "not found"
outcome (some _) = refused 403 "forbidden"

abbrev invited_response : Result ⊤ → Result (Response ⊤)
invited_response = answered 200 (λ a. a) invite_cases

forbidden_response :
    (r : Result ⊤) → Obeys (some forbidden) r → invited_response r ≡ ok (outcome (some forbidden))
forbidden_response (ok a) h = absurd h
forbidden_response (err e) h = rw h refl

not_found_response :
    (r : Result ⊤) → Obeys (some not_found) r → invited_response r ≡ ok (outcome (some not_found))
not_found_response (ok a) h = absurd h
not_found_response (err e) h = rw (not_found-forbidden e h, h) refl

target_response :
    (target : Option User) (r : Result ⊤)
    → Obeys (refuse_target target) r
    → invited_response r ≡ ok (outcome (refuse_target target))
target_response none r h = not_found_response r h
target_response (some user) r h = ap invited_response h

role_response :
    (plain : Bool) (target : Option User) (r : Result ⊤)
    → let refusal = if plain then some forbidden else refuse_target target in
      Obeys refusal r → invited_response r ≡ ok (outcome refusal)
role_response true target r h = forbidden_response r h
role_response false target r h = target_response target r h

team_response :
    (team : Option Team) (role : Option Role) (target : Option User) (r : Result ⊤)
    → Obeys (refuse_team team role target) r
    → invited_response r ≡ ok (outcome (refuse_team team role target))
team_response none role target r h = not_found_response r h
team_response (some team) none target r h = forbidden_response r h
team_response (some team) (some role) target r h =
    role_response (str_eq role role_member) target r h

login_response :
    {W : Type 0} (s : Auth.Deps W) (user : Option User) (r : Result String)
    → Decides s user r
    → Admits s user (answered 200 (λ token. token) login_cases r)
login_response s none r h = ap (answered 200 (λ token. token) login_cases) h
login_response s (some user) r (now, token, signed, is) =
    (now, token, signed, ap (answered 200 (λ (t : String). t) login_cases) is)

-- Where the storage is up, an invitation by a user gets status 404 without the team or the invited
-- user, 403 if the caller is no member of the team or a plain one, and 200 otherwise: it never
-- ends in an internal error.
pub invite_to_team-outcome :
    {W : Type 0} (s : Team.Deps W) (view : W → Tables)
    → IsTeamStore s view
    → IsUp s
    → (user_id id target_id : Uuid) (w : W)
    → (invite_to_team (team_service s) (some user_id) id (some target_id) w).0
      ≡ ok (outcome (refusal user_id id target_id (view w)))
unfolding invite_to_team authorized with_body answer attempt
invite_to_team-outcome s view laws up user_id id target_id w =
    team_response (find_team id (view w).teams) (role_of id user_id (view w).members)
      (find_user target_id (view w).users) (Team.invite s user_id id target_id w).0
      (invite-Obeys s view laws up user_id id target_id w)

-- Where the storage is up, a login gets status 200 and a token for the user whose email and
-- password are given, and otherwise, whichever of them is wrong, one and the same response.
pub login_user-Admits :
    {W : Type 0} (s : Auth.Deps W) (view : W → Tables)
    → Auth_contract.IsUserStore s view
    → Auth_contract.IsUp s
    → (email password : String) (w : W)
    → Admits s
        (admitted s email password (view w))
        (login_user (auth_service s) (some (record { email = email; password = password })) w).0
unfolding login_user with_body answer attempt
login_user-Admits s view laws up email password w =
    login_response s _ _ (login-Decides s view laws up email password w)
