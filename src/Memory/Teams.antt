-- ===== src/Memory/Teams.antt =====
-- The team service in memory; its notifier never delivers anything.
use mathlib.Core.List.Permᴰ
use team_tasks.Base.{refl}
use team_tasks.Domain.Errors.{ok, err, plain}
use team_tasks.Store.{role_of, find_team, find_user, teams_of}
use team_tasks.Team.Service.{Deps}
use team_tasks.Team.Service.Contract.{IsTeamStore, IsUp, add_team, put_member}
use team_tasks.Memory.{World, platform, or_not_found-Found, or_not_found-Answered, look, write}

abbrev pub service : Deps World
service = record {
  platform = platform;
  create_team_with_owner = λ team owner_id. write (add_team team owner_id);
  save_member = λ team_id user_id role. write (put_member team_id user_id role);
  get_teams_by_user = λ id w. (ok (teams_of id w.tables.members w.tables.teams), w);
  get_team_by_id = λ id. look (λ b. find_team id b.teams);
  get_member_role = λ team_id user_id. look (λ b. role_of team_id user_id b.members);
  get_user_by_id = λ id. look (λ b. find_user id b.users);
  send_invite = λ email name w. (err (plain "circuit breaker is open"), w);
}

pub service-IsTeamStore : IsTeamStore service (λ w. w.tables)
service-IsTeamStore = record {
  create_team_with_owner = λ team owner_id w. refl;
  save_member = λ team_id user_id role w. refl;
  get_team_by_id = λ id w. (refl, or_not_found-Found _);
  get_member_role = λ team_id user_id w. (refl, or_not_found-Found _);
  get_user_by_id = λ id w. (refl, or_not_found-Found _);
  get_teams_by_user = λ id w. (refl, Permᴰ.refl _);
  send_invite = λ email name w. refl;
  new_uuid = λ w. refl;
  now = λ w. refl;
}

pub service-IsUp : IsUp service
service-IsUp = record {
  get_team_by_id = λ id w. or_not_found-Answered _;
  get_member_role = λ team_id user_id w. or_not_found-Answered _;
  get_user_by_id = λ id w. or_not_found-Answered _;
  save_member = λ team_id user_id role w. refl;
}
