-- ===== src/Handler/Tests.antt =====
-- Requests to the handlers over the services in memory, and their theorems at concrete inputs.
use team_tasks.Base.{none, some, ◌≡◌, refl}
use team_tasks.Domain.{status_done}
use team_tasks.Domain.Ids.{uuid_eq}
use team_tasks.Domain.Errors.{ok}
use team_tasks.Action.{◌>>=◌, on_error, attempt, ignore, refuse_if}
use team_tasks.Store.{role_of, set_role, find_team, find_user}
use team_tasks.Team.Service.{invite}
use team_tasks.Team.Service.Permission.{refusal}
use team_tasks.Auth.Service.Session.{admitted}
use team_tasks.Handler.Response.{refused, authorized, with_body, answer}
use team_tasks.Handler.Users.{login_user}
use team_tasks.Handler.Teams.{invite_to_team}
use team_tasks.Handler.Tasks.{UpdateTaskRequest}
use team_tasks.Handler.Outcomes.{
  team_service, auth_service, outcome, Admits, invite_to_team-outcome, login_user-Admits,
}
use team_tasks.Memory.{World}
use team_tasks.Memory.Tasks as Tasks
use team_tasks.Memory.Teams as Teams
use team_tasks.Memory.Users as Users
use team_tasks.Memory.Fixtures.{member, stranger, team_id, world}

abbrev done_request : UpdateTaskRequest
done_request = record {
  title = none;
  description = none;
  status = some status_done;
  assignee_id = some member;
  priority = none;
  due_date = none;
}

-- A member may not invite.
invite_by_member :
    (invite_to_team (team_service Teams.service) (some member) team_id (some stranger) world).0
    ≡ ok (refused 403 "forbidden")
unfolding invite_to_team authorized with_body answer invite ◌>>=◌ on_error attempt ignore refuse_if
    role_of set_role find_team find_user uuid_eq
invite_by_member = refl

invite_to_team-outcome_example :
    (invite_to_team (team_service Teams.service) (some member) team_id (some stranger) world).0
    ≡ ok (outcome (refusal member team_id stranger world.tables))
invite_to_team-outcome_example =
    invite_to_team-outcome Teams.service (λ (w : World). w.tables) Teams.service-IsTeamStore
      Teams.service-IsUp member team_id stranger world

login_user-Admits_example :
    Admits Users.service
      (admitted Users.service "o@x" "wrong" world.tables)
      (login_user
        (auth_service Users.service)
        (some (record { email = "o@x"; password = "wrong" }))
        world).0
login_user-Admits_example =
    login_user-Admits Users.service (λ (w : World). w.tables) Users.service-IsUserStore
      Users.service-IsUp "o@x" "wrong" world
