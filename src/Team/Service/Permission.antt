-- ===== src/Team/Service/Permission.antt =====
-- The outcome of `Service.Invite` of internal/service/team/team.go where its storage is up.
use team_tasks.Base.{
  String, true, false, Option, none, some, ◌≡◌, refl, ◌∙◌, ap, sym, str_eq, if◌then◌else◌,
}
use team_tasks.Domain.{Team, User, Role, role_member}
use team_tasks.Domain.Ids.{Uuid}
use team_tasks.Domain.Errors.{
  Sentinel, Error, Result, ok, err, errors_is, not_found, forbidden, membership_error,
}
use team_tasks.Action.{⊤, pure}
use team_tasks.Action.Rules.{after_guard, after_ignore, after_checked}
use team_tasks.Store.{Tables, role_of, find_team, find_user}
use team_tasks.Store.Rules.{after_answer}
use team_tasks.Team.Service.{Deps, invite}
use team_tasks.Team.Service.Contract.{IsTeamStore, IsUp}

abbrev pub refuse_target : Option User → Option Sentinel
refuse_target none = some not_found
refuse_target (some target) = none

abbrev pub refuse_role : Option Role → Option User → Option Sentinel
refuse_role none target = some forbidden
refuse_role (some role) target =
    if str_eq role role_member then some forbidden else refuse_target target

abbrev pub refuse_team : Option Team → Option Role → Option User → Option Sentinel
refuse_team none role target = some not_found
refuse_team (some team) role target = refuse_role role target

-- The rule: the error with which an invitation is refused, or none.
abbrev pub refusal : Uuid → Uuid → Uuid → Tables → Option Sentinel
refusal caller_id team_id target_id b =
    refuse_team (find_team team_id b.teams) (role_of team_id caller_id b.members)
      (find_user target_id b.users)

-- A result that is as the rule has it.
abbrev pub Obeys : Option Sentinel → Result ⊤ → Type 0
Obeys none r = r ≡ ok tt
Obeys (some s) (ok a) = ⊥
Obeys (some s) (err e) = errors_is s e ≡ true

stranger_refused :
    (label : String) (e : Error) (target : Option User)
    → errors_is not_found e ≡ true
    → Obeys (refuse_role none target) (err (membership_error label e))
stranger_refused label e target missing = rw missing refl

member_refused :
    (role : Role) (target : Option User)
    → str_eq role role_member ≡ true
    → (e : Error) → errors_is forbidden e ≡ true
    → Obeys (refuse_role (some role) target) (err e)
member_refused role target plain e is = rw plain is

target_refused :
    (role : Role) (e : Error)
    → str_eq role role_member ≡ false
    → errors_is not_found e ≡ true
    → Obeys (refuse_role (some role) none) (err e)
target_refused role e above missing = rw above missing

accepted :
    (role : Role) (target : User)
    → str_eq role role_member ≡ false
    → Obeys (refuse_role (some role) (some target)) (ok tt)
accepted role target above = rw above refl

module _ {W : Type 0} (s : Deps W) (view : W → Tables) (laws : IsTeamStore s view)
    (up : IsUp s) where
  -- Where the storage is up, whether or not the notifier is, an invitation ends as the rule has it:
  -- by `ErrNotFound` without the team, by `ErrForbidden` if the caller is no member or a plain one,
  -- by `ErrNotFound` without the invited user, and otherwise without an error.
  pub invite-Obeys :
      (caller_id team_id target_id : Uuid) (w : W)
      → Obeys
          (refusal caller_id team_id target_id (view w))
          (invite s caller_id team_id target_id w).0
  unfolding invite
  invite-Obeys caller_id team_id target_id w =
      let P = λ (r : Result ⊤) (v : W). Obeys (refusal caller_id team_id target_id (view w)) r in
      let role_at = λ (b : Tables). role_of team_id caller_id b.members in
      let user_at = λ (b : Tables). find_user target_id b.users in
      after_answer view P (λ b. find_team team_id b.teams) _ _ _ w (laws.get_team_by_id team_id)
        (up.get_team_by_id team_id)
        (λ team w1 known same1.
          after_answer view P role_at _ _ _ w1 (laws.get_member_role team_id caller_id)
            (up.get_member_role team_id caller_id)
            (λ role w2 member same2.
              let same12 = same2 ∙ same1 in
              let role_known = sym (ap role_at same1) ∙ member in
              after_guard P (str_eq role role_member) _ _ w2
                (λ above.
                  after_answer view P user_at _ _ _ w2 (laws.get_user_by_id target_id)
                    (up.get_user_by_id target_id)
                    (λ target w3 found same3.
                      after_checked P _ _ _ w3
                        (λ done saved.
                          after_ignore P _ (λ _. pure tt) _
                            (rw (known, role_known, sym (ap user_at same12) ∙ found)
                              (accepted role target above)))
                        (λ e failed.
                          let saves = up.save_member team_id target_id role_member w3 in cc))
                    (λ e w3 missing absent.
                      rw (known, role_known, sym (ap user_at same12) ∙ absent)
                        (target_refused role _ above missing)))
                (λ plain.
                  rw (known, role_known) (member_refused role (user_at (view w)) plain _ refl)))
            (λ e w2 missing absent.
              rw (known, sym (ap role_at same1) ∙ absent)
                (stranger_refused _ e (user_at (view w)) missing)))
        (λ e w1 missing absent. rw absent missing)
