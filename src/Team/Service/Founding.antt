-- ===== src/Team/Service/Founding.antt =====
-- What `Service.Create` of internal/service/team/team.go does to the tables.
use team_tasks.Base.{some, ◌≡◌, refl, arith, String, ◌∙◌, ap, ◌∷◌, List}
use team_tasks.Domain.{Team, Role, role_owner}
use team_tasks.Domain.Ids.{Uuid, uuid_eq_refl}
use team_tasks.Domain.Errors.{Result, ok, err}
use team_tasks.Platform.{after_clock}
use team_tasks.Store.{Tables, Membership, role_of}
use team_tasks.Store.Rules.{after_write, after_keep}
use team_tasks.Team.Service.{Deps, create, new_team}
use team_tasks.Team.Service.Contract.{IsTeamStore, add_team}

-- What a call that has ended with a result has done. With a team: its row and the membership of
-- its creator are there, who has the role of an owner. With an error: nothing.
abbrev pub Founded : Uuid → String → Tables → Result Team → Tables → Type 0
Founded owner_id name before (ok t) after =
    (t.name ≡ name)
    × (t.created_by ≡ owner_id)
    × (after ≡ add_team t owner_id before)
    × (role_of t.id owner_id after.members ≡ some role_owner)
Founded owner_id name before (err e) after = after ≡ before

role_of-first :
    (team_id user_id : Uuid) (role : Role) (ms : List Membership)
    → role_of team_id user_id (record { team_id = team_id; user_id = user_id; role = role } ∷ ms)
      ≡ some role
unfolding role_of
role_of-first team_id user_id role ms = ground (arith, uuid_eq_refl team_id, uuid_eq_refl user_id)

module _ {W : Type 0} (s : Deps W) (view : W → Tables) (laws : IsTeamStore s view) where
  -- A new team has the name asked for and its creator as owner, and both rows are added or, where
  -- anything fails, neither.
  pub create-Founded :
      (owner_id : Uuid) (name : String) (w : W)
      → let (r, w') = create s owner_id name w in Founded owner_id name (view w) r (view w')
  unfolding create
  create-Founded owner_id name w =
      let P = λ (r : Result Team) (v : W). Founded owner_id name (view w) r (view v) in
      after_keep view P _ _ _ w laws.new_uuid
        (λ id w1 same1. after_clock P _ _ w1 (
          let same = laws.now w1 ∙ same1 in
          let team = new_team s id owner_id name (s.platform.now w1).0 in
          after_write view P (add_team team owner_id) _ _ _ _
            (laws.create_team_with_owner team owner_id)
            (λ done w2 saved.
              let final = saved ∙ ap (add_team team owner_id) same in
              (
                refl,
                refl,
                final,
                ap (λ (b : Tables). role_of id owner_id b.members) final
                    ∙ role_of-first id owner_id role_owner (view w).members,
              ))
            (λ e w2 kept. kept ∙ same)))
        (λ e w1 same. same)
