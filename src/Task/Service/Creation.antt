-- ===== src/Task/Service/Creation.antt =====
-- What `Service.Create` of internal/service/task/task.go does to the tables.
use team_tasks.Base.{
  none, ◌≡◌, ◌≢◌, refl, Bool-cases, inl, inr, String, ◌∙◌, ap, subst, ◌∷◌, str_eq, str_eq_iff,
  if◌then◌else◌,
}
use team_tasks.Domain.{Task, CreateTaskInput, status_todo, priority_medium}
use team_tasks.Domain.Ids.{Uuid}
use team_tasks.Domain.Errors.{Result, ok, err}
use team_tasks.Action.Rules.{after_ignore}
use team_tasks.Action.{pure}
use team_tasks.Platform.{after_clock}
use team_tasks.Store.{Tables, role_of}
use team_tasks.Store.Rules.{after_lookup, after_write, after_keep}
use team_tasks.Task.Service.{Deps, create, new_task}
use team_tasks.Task.Service.Contract.{IsTaskStore, AssigneeIsMember, after_assignee}

-- What a call that has ended with a result has done. With a task: the creator and any assignee were
-- members of the team, and the one new row is the task, which has the fields of the input, the
-- medium priority where none is given, and is to be done. With an error: nothing.
abbrev pub Created : Uuid → CreateTaskInput → Tables → Result Task → Tables → Type 0
Created creator_id input before (ok t) after =
    (role_of input.team_id creator_id before.members ≢ none)
    × AssigneeIsMember input.team_id input.assignee_id before
    × (after ≡ record before { tasks = t ∷ before.tasks })
    × (t.team_id ≡ input.team_id)
    × (t.created_by ≡ creator_id)
    × (t.assignee_id ≡ input.assignee_id)
    × (t.title ≡ input.title)
    × (t.description ≡ input.description)
    × (t.due_date ≡ input.due_date)
    × (t.status ≡ status_todo)
    × (t.updated_at ≡ t.created_at)
    × (input.priority ≡ "" → t.priority ≡ priority_medium)
    × (input.priority ≢ "" → t.priority ≡ input.priority)
Created creator_id input before (err e) after = after ≡ before

-- The priority of a new task.
no_priority : (p : String) → p ≡ "" → (if str_eq p "" then priority_medium else p) ≡ priority_medium
no_priority p e = rw ((str_eq_iff p "").1 e) refl

given_priority : (p : String) → p ≢ "" → (if str_eq p "" then priority_medium else p) ≡ p
given_priority p h = elim (Bool-cases (str_eq p "")) [
  | inl empty ↦ absurd (h ((str_eq_iff p "").0 empty))
  | inr given ↦ rw given refl
]

module _ {W : Type 0} (s : Deps W) (view : W → Tables) (laws : IsTaskStore s view) where
  -- A task is created only for a member of the team and assigned only to a member; then one row is
  -- added with the fields asked for, the medium priority where none is, and the status of a task that
  -- is to be done, and otherwise, whatever fails, the tables stay as they are.
  pub create-Created :
      (creator_id : Uuid) (input : CreateTaskInput) (w : W)
      → let (r, w') = create s creator_id input w in Created creator_id input (view w) r (view w')
  unfolding create
  create-Created creator_id input w =
      let P = λ (r : Result Task) (w' : W). Created creator_id input (view w) r (view w') in
      after_lookup view P (λ b. role_of input.team_id creator_id b.members) _ _ _ w
        (laws.get_member_role input.team_id creator_id)
        (λ role w1 member same1.
          after_assignee s view laws P _ input.team_id input.assignee_id _ w1
            (λ w2 assignee same2.
              after_keep view P _ _ _ w2 laws.new_uuid
                (λ id w3 same3. after_clock P _ _ w3 (
                  let same = laws.now w3 ∙ same3 ∙ same2 ∙ same1 in
                  let task = new_task s id creator_id input (s.platform.now w3).0 in
                  let add = λ (b : Tables). record b { tasks = task ∷ b.tasks } in
                  after_write view P add _ _ _ _ (laws.save_task task)
                    (λ done w5 saved.
                      after_ignore P (s.cache_invalidate _) (λ _. pure task) w5
                        (
                          (λ absent. cc),
                          subst (AssigneeIsMember input.team_id input.assignee_id) same1 assignee,
                          laws.cache_invalidate _ w5 ∙ saved ∙ ap add same,
                          refl,
                          refl,
                          refl,
                          refl,
                          refl,
                          refl,
                          refl,
                          refl,
                          no_priority input.priority,
                          given_priority input.priority,
                        ))
                    (λ e w5 kept. kept ∙ same)))
                (λ e w3 same3. same3 ∙ same2 ∙ same1))
            (λ e w2 same2. same2 ∙ same1))
        (λ e w1 missing same. same)
