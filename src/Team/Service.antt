-- ===== src/Team/Service.antt =====
-- `Service` of internal/service/team/team.go, without its log lines.
pub mod Contract
pub mod Inviting
pub mod Permission
pub mod Founding
use team_tasks.Base.{String, List, str_eq}
use team_tasks.Domain.{Time, Team, User, Role, role_member}
use team_tasks.Domain.Ids.{Uuid}
use team_tasks.Domain.Errors.{sentinel, wrapped, forbidden, membership_error}
use team_tasks.Action.{⊤, Action, pure, on_error, ignore, refuse_if, ◌>>=◌, ◌>>◌}
use team_tasks.Platform.{Platform, read_clock}

-- The fields of `Service`, by the methods of their interfaces.
pub record Deps (W : Type 0) : Type 0 where
  pub platform : Platform W
  pub create_team_with_owner : Team → Uuid → Action W ⊤
  pub save_member : Uuid → Uuid → Role → Action W ⊤
  pub get_teams_by_user : Uuid → Action W (List Team)
  pub get_team_by_id : Uuid → Action W Team
  pub get_member_role : Uuid → Uuid → Action W Role
  pub get_user_by_id : Uuid → Action W User
  pub send_invite : String → String → Action W ⊤

module _ {W : Type 0} (s : Deps W) where
  abbrev pub new_team : Uuid → Uuid → String → Time → Team
  new_team id owner_id name now = record {
    id = id;
    name = name;
    created_by = owner_id;
    created_at = now;
  }

  unfoldable pub create : Uuid → String → Action W Team
  create owner_id name = do
    id ← on_error (wrapped "team.Service.Create: generate team id") s.platform.new_uuid
    now ← read_clock s.platform
    let team = new_team id owner_id name now
    on_error (wrapped "team.Service.Create: create team with owner")
        (s.create_team_with_owner team owner_id)
    pure team

  unfoldable pub list_for_user : Uuid → Action W (List Team)
  list_for_user user_id =
      on_error (wrapped "team.Service.ListForUser: get teams by user") (s.get_teams_by_user user_id)

  unfoldable pub invite : Uuid → Uuid → Uuid → Action W ⊤
  invite caller_id team_id target_user_id = do
    team ← on_error (wrapped "team.Service.Invite: get team") (s.get_team_by_id team_id)
    role ←
        on_error (membership_error "team.Service.Invite: get member role")
          (s.get_member_role team_id caller_id)
    refuse_if (str_eq role role_member) (sentinel forbidden)
    target ←
        on_error (wrapped "team.Service.Invite: get target user") (s.get_user_by_id target_user_id)
    on_error (wrapped "team.Service.Invite: save member")
        (s.save_member team_id target_user_id role_member)
    ignore (s.send_invite target.email team.name)
    pure tt
