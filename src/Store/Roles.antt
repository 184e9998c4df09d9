-- ===== src/Store/Roles.antt =====
-- How a role given to one user shows in the roles of a team.
use team_tasks.Base.{
  Bool, true, false, ◌&&◌, some, List, [], ◌∷◌, ◌≡◌, ◌≢◌, ◌⊎◌, refl, arith, if◌then◌else◌,
}
use team_tasks.Domain.{Role}
use team_tasks.Domain.Ids.{Uuid, uuid_eq, uuid_eq_iff, uuid_eq_refl}
use team_tasks.Store.{Membership, role_of, set_role}

role_of-if :
    (b : Bool) (t u : Uuid) (ms ns : List Membership)
    → role_of t u (if b then ms else ns) ≡ (if b then role_of t u ms else role_of t u ns)
role_of-if true t u ms ns = refl
role_of-if false t u ms ns = refl

-- The user has the role that it is given.
pub role_of-set_role :
    (team_id user_id : Uuid) (role : Role) (ms : List Membership)
    → role_of team_id user_id (set_role team_id user_id role ms) ≡ some role
unfolding role_of set_role
role_of-set_role team_id user_id role [] =
    ground (arith, uuid_eq_refl team_id, uuid_eq_refl user_id)
role_of-set_role team_id user_id role (m ∷ ms) =
    let rest = role_of-set_role team_id user_id role ms in
    rw (role_of-if (uuid_eq m.team_id team_id && uuid_eq m.user_id user_id) team_id user_id)
      (ground arith)

-- Two keys of which one is a row's and that differ.
other_key :
    (m : Membership) (team_id user_id t u : Uuid)
    → (t ≢ team_id) ⊎ (u ≢ user_id)
    → uuid_eq m.team_id team_id && uuid_eq m.user_id user_id ≡ true
    → uuid_eq m.team_id t && uuid_eq m.user_id u ≡ false
other_key m team_id user_id t u other same = grind (
  arith,
  uuid_eq_iff m.team_id team_id,
  uuid_eq_iff m.user_id user_id,
  uuid_eq_iff m.team_id t,
  uuid_eq_iff m.user_id u,
)

-- No other user's role changes, in any team.
pub role_of-set_role_other :
    (team_id user_id : Uuid) (role : Role) (t u : Uuid) (ms : List Membership)
    → (t ≢ team_id) ⊎ (u ≢ user_id)
    → role_of t u (set_role team_id user_id role ms) ≡ role_of t u ms
unfolding role_of set_role
role_of-set_role_other team_id user_id role t u [] other =
    let key =
      other_key (record { team_id = team_id; user_id = user_id; role = role }) team_id user_id t u
        other in
    ground (arith, uuid_eq_refl team_id, uuid_eq_refl user_id)
role_of-set_role_other team_id user_id role t u (m ∷ ms) other =
    let rest = role_of-set_role_other team_id user_id role t u ms other in
    let key = other_key m team_id user_id t u other in
    rw (role_of-if (uuid_eq m.team_id team_id && uuid_eq m.user_id user_id) t u) (ground arith)
