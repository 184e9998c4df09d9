-- ===== src/Handler/Teams.antt =====
-- `ListTeams`, `CreateTeam` and `InviteToTeam` of internal/handler/team.go. The type `Team` of the
-- API has the fields of the domain's.
use team_tasks.Base.{String, Option, List, [], ◌∷◌, map}
use team_tasks.Domain.{Team, Time}
use team_tasks.Domain.Ids.{Uuid}
use team_tasks.Domain.Errors.{forbidden, not_found}
use team_tasks.Action.{⊤, Action}
use team_tasks.Handler.Response.{Response, Case, authorized, with_body, answer, msg_forbidden}

-- `TeamService`
pub record TeamService (W : Type 0) : Type 0 where
  pub create : Uuid → String → Action W Team
  pub list_for_user : Uuid → Action W (List Team)
  pub invite : Uuid → Uuid → Uuid → Action W ⊤

pub record ApiTeam : Type 0 where
  pub id : Uuid
  pub name : String
  pub created_by : Uuid
  pub created_at : Time

abbrev pub to_api_team : Team → ApiTeam
to_api_team t = record {
  id = t.id;
  name = t.name;
  created_by = t.created_by;
  created_at = t.created_at;
}

abbrev pub invite_cases : List Case
invite_cases =
    record { target = forbidden; status = 403; message = msg_forbidden }
    ∷ record { target = not_found; status = 404; message = "not found" }
    ∷ []

module _ {W : Type 0} (teams : TeamService W) where
  unfoldable pub list_teams : Option Uuid → Action W (Response (List ApiTeam))
  list_teams user =
      authorized user λ user_id. answer 200 (map to_api_team) [] (teams.list_for_user user_id)

  -- The body is the name.
  unfoldable pub create_team : Option Uuid → Option String → Action W (Response ApiTeam)
  create_team user body =
      authorized user
        λ user_id. with_body body λ name. answer 201 to_api_team [] (teams.create user_id name)

  -- The body is the invited user.
  unfoldable pub invite_to_team : Option Uuid → Uuid → Option Uuid → Action W (Response ⊤)
  invite_to_team user id body = authorized user λ user_id.
      with_body body
        λ target_id. answer 200 (λ a. a) invite_cases (teams.invite user_id id target_id)
