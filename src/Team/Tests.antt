-- ===== src/Team/Tests.antt =====
-- Runs of the team service in memory, and its theorems at concrete inputs.
use team_tasks.Base.{some, ◌≡◌, refl}
use team_tasks.Domain.{role_member}
use team_tasks.Domain.Errors.{ok, err, sentinel, forbidden}
use team_tasks.Domain.Ids.{uuid_eq}
use team_tasks.Action.{◌>>=◌, on_error, ignore, refuse_if}
use team_tasks.Platform.{read_clock}
use team_tasks.Store.{role_of, set_role, find_team, find_user}
use team_tasks.Team.Service.{create, list_for_user, invite}
use team_tasks.Team.Service.Inviting.{Invited, invite-Invited}
use team_tasks.Team.Service.Permission.{refusal, Obeys, invite-Obeys}
use team_tasks.Team.Service.Founding.{Founded, create-Founded}
use team_tasks.Memory.{World}
use team_tasks.Memory.Teams.{service, service-IsTeamStore, service-IsUp}
use team_tasks.Memory.Fixtures.{owner, member, stranger, team_id, world}

-- What a run computes with.
service_runs : Unit {0}
unfolding create list_for_user invite ◌>>=◌ on_error ignore refuse_if read_clock role_of set_role
    find_team find_user uuid_eq
service_runs = tt

-- A plain member may not invite.
invite_by_member : invite service member team_id stranger world ≡ (err (sentinel forbidden), world)
unfolding service_runs
invite_by_member = refl

-- The owner invites itself, and the team has no owner any more.
invite-owner :
    let (r, w) = invite service owner team_id owner world in
    (r ≡ ok tt) × (role_of team_id owner w.tables.members ≡ some role_member)
unfolding service_runs
invite-owner = (refl, refl)

invite-Invited_example :
    let (r, w) = invite service owner team_id stranger world in
    Invited owner team_id stranger world.tables r w.tables
invite-Invited_example =
    invite-Invited service (λ (w : World). w.tables) service-IsTeamStore owner team_id stranger
      world

invite-Obeys_example :
    Obeys
      (refusal owner team_id stranger world.tables)
      (invite service owner team_id stranger world).0
invite-Obeys_example =
    invite-Obeys service (λ (w : World). w.tables) service-IsTeamStore service-IsUp owner team_id
      stranger world

create-Founded_example :
    let (r, w) = create service stranger "new" world in
    Founded stranger "new" world.tables r w.tables
create-Founded_example =
    create-Founded service (λ (w : World). w.tables) service-IsTeamStore stranger "new" world
