-- ===== src/Team/Service/Inviting.antt =====
-- `Service.Invite` of internal/service/team/team.go: who may invite whom, and what it changes.
use team_tasks.Base.{false, none, some, ◌≡◌, ◌≢◌, ◌⊎◌, arith, ◌∙◌, ap, subst, str_eq, str_eq_iff}
use team_tasks.Domain.{Role, role_member}
use team_tasks.Domain.Ids.{Uuid}
use team_tasks.Domain.Errors.{Result, ok, err}
use team_tasks.Action.{⊤, pure}
use team_tasks.Action.Rules.{after_guard, after_ignore}
use team_tasks.Store.{Tables, role_of, find_team, find_user}
use team_tasks.Store.Rules.{after_lookup, after_write}
use team_tasks.Store.Roles.{role_of-set_role, role_of-set_role_other}
use team_tasks.Team.Service.{Deps, invite}
use team_tasks.Team.Service.Contract.{IsTeamStore, put_member}

-- What a call that has ended with a result has done. Without an error: the team exists, the caller
-- has a role in it that is not that of a plain member, the invited user exists and is now a member
-- of the team, and no other role in any team has changed. With an error: nothing.
abbrev pub Invited : Uuid → Uuid → Uuid → Tables → Result ⊤ → Tables → Type 0
Invited caller_id team_id target_id before (ok a) after =
    (find_team team_id before.teams ≢ none)
    × ((role : Role) × (role_of team_id caller_id before.members ≡ some role)
        × (role ≢ role_member))
    × (find_user target_id before.users ≢ none)
    × (after ≡ put_member team_id target_id role_member before)
    × (role_of team_id target_id after.members ≡ some role_member)
    × ((t u : Uuid)
        → (t ≢ team_id) ⊎ (u ≢ target_id)
        → role_of t u after.members ≡ role_of t u before.members)
Invited caller_id team_id target_id before (err e) after = after ≡ before

-- A role that passes the guard.
above_member : (role : Role) → str_eq role role_member ≡ false → role ≢ role_member
above_member role h same = ground (arith, str_eq_iff role role_member)

-- What has been established when the invitation is done.
invited :
    (caller_id team_id target_id : Uuid) (before after : Tables) (role : Role)
    → find_team team_id before.teams ≢ none
    → role_of team_id caller_id before.members ≡ some role
    → str_eq role role_member ≡ false
    → find_user target_id before.users ≢ none
    → after ≡ put_member team_id target_id role_member before
    → Invited caller_id team_id target_id before (ok tt) after
invited caller_id team_id target_id before after role known member above found done = (
  known,
  (role, member, above_member role above),
  found,
  done,
  ap (λ (b : Tables). role_of team_id target_id b.members) done
      ∙ role_of-set_role team_id target_id role_member before.members,
  λ t u other.
      ap (λ (b : Tables). role_of t u b.members) done
      ∙ role_of-set_role_other team_id target_id role_member t u before.members other,
)

module _ {W : Type 0} (s : Deps W) (view : W → Tables) (laws : IsTeamStore s view) where
  -- An invitation succeeds only if the team and the invited user exist and the caller has a role in
  -- the team above that of a member; then the invited user is a member, whatever its role was, no
  -- other role changes, and otherwise, whatever fails, the tables stay as they are.
  pub invite-Invited :
      (caller_id team_id target_id : Uuid) (w : W)
      → let (r, w') = invite s caller_id team_id target_id w in
        Invited caller_id team_id target_id (view w) r (view w')
  unfolding invite
  invite-Invited caller_id team_id target_id w =
      let P = λ (r : Result ⊤) (v : W). Invited caller_id team_id target_id (view w) r (view v) in
      let put = put_member team_id target_id role_member in
      after_lookup view P (λ b. find_team team_id b.teams) _ _ _ w (laws.get_team_by_id team_id)
        (λ team w1 known same1.
          after_lookup view P (λ b. role_of team_id caller_id b.members) _ _ _ w1
            (laws.get_member_role team_id caller_id)
            (λ role w2 member same2.
              let same12 = same2 ∙ same1 in
              after_guard P (str_eq role role_member) _ _ w2
                (λ above.
                  after_lookup view P (λ b. find_user target_id b.users) _ _ _ w2
                    (laws.get_user_by_id target_id)
                    (λ target w3 found same3.
                      let same = same3 ∙ same12 in
                      after_write view P put _ _ _ w3 (laws.save_member team_id target_id _)
                        (λ done w4 saved.
                          after_ignore P (s.send_invite target.email team.name) (λ _. pure tt) w4
                            (invited caller_id team_id target_id (view w) _ role (λ absent. cc)
                              (subst
                                (λ (b : Tables). role_of team_id caller_id b.members ≡ some role)
                                same1 member)
                              above
                              (subst (λ (b : Tables). find_user target_id b.users ≢ none) same12
                                (λ absent. cc))
                              (laws.send_invite _ _ w4 ∙ saved ∙ ap put same)))
                        (λ e w4 kept. kept ∙ same))
                    (λ e w3 missing same3. same3 ∙ same12))
                (λ plain. same12))
            (λ e w2 missing same2. same2 ∙ same1))
        (λ e w1 missing same. same)
