-- ===== src/Task/Service/Updating.antt =====
-- What `Service.Update` of internal/service/task/task.go does to the tables.
use team_tasks.Base.{
  Option, none, some, map, ◌++◌, ◌≡◌, ◌≢◌, ◌⊎◌, inl, inr, refl, ◌∙◌, ap, subst, Bool-cases,
}
use team_tasks.Domain.{Task, TaskHistory, UpdateTaskInput}
use team_tasks.Domain.Ids.{Uuid}
use team_tasks.Domain.Errors.{Error, Result, ok, err}
use team_tasks.Action.{⊤, Action, pure, ◌>>=◌}
use team_tasks.Action.Rules.{after_ignore, pure->>=}
use team_tasks.Platform.{after_clock}
use team_tasks.Store.{Tables, role_of, find_task, update_task}
use team_tasks.Store.Rules.{after_lookup, after_write}
use team_tasks.Task.Diff.{Formats, Edit, build_history_entries, uuid_ptr_equal}
use team_tasks.Task.Diff.Laws.{
  overlay, diff, build_history_entries-diff, Unnumbered, diff-Unnumbered, stamped-Unnumbered,
}
use team_tasks.Task.Diff.Audit.{uuid_ptr_equal_iff}
use team_tasks.Task.Service.{Deps, update, save_edit, stamp, check_new_assignee}
use team_tasks.Task.Service.Contract.{IsTaskStore, after_assignee}

-- A given assignee is the task's own or a member of its team.
abbrev pub AssigneeAllowed : Task → Option Uuid → Tables → Type 0
AssigneeAllowed task none b = Unit
AssigneeAllowed task (some id) b =
    (task.assignee_id ≡ some id) ⊎ (role_of task.team_id id b.members ≢ none)

-- What a call that has ended with a result has done. With a task: the row was there, the caller was
-- a member of its team, and a given assignee was allowed; the task is the row with the given fields
-- put in, the row is updated to it, and the difference of the two is added to the history, in the
-- caller's name and at the time of the update. With an error: nothing.
abbrev pub Updated :
    Formats → Uuid → Uuid → UpdateTaskInput → Tables → Result Task → Tables → Type 0
Updated fmt caller_id task_id input before (ok t) after =
    (stored : Task) × (find_task task_id before.tasks ≡ some stored)
    × (role_of stored.team_id caller_id before.members ≢ none)
    × AssigneeAllowed stored input.assignee_id before
    × (t ≡ record (overlay stored input) { updated_at = t.updated_at })
    × (after ≡ record before {
      tasks = update_task t before.tasks;
      history =
          before.history
          ++ map (λ (h : TaskHistory). record h { changed_at = t.updated_at })
              (diff fmt task_id caller_id stored (overlay stored input));
    })
Updated fmt caller_id task_id input before (err e) after = after ≡ before

module _ {W : Type 0} (s : Deps W) (view : W → Tables) (laws : IsTaskStore s view) where
  after_new_assignee :
      {B : Type 0} (P : Result B → W → Type 0) (task : Task) (o : Option Uuid) (f : ⊤ → Action W B)
      (w : W)
      → ((w1 : W) → AssigneeAllowed task o (view w) → view w1 ≡ view w → P (f tt w1).0 (f tt w1).1)
      → ((e : Error) (w1 : W) → view w1 ≡ view w → P (err e) w1)
      → P ((check_new_assignee s task o >>= f) w).0 ((check_new_assignee s task o >>= f) w).1
  unfolding check_new_assignee
  after_new_assignee P task none f w good bad = rw pure->>= (good w tt refl)
  after_new_assignee P task (some id) f w good bad =
      elim (Bool-cases (uuid_ptr_equal task.assignee_id (some id))) [
        | inl same ↦
            rw (same, pure->>=)
              (good w (inl ((uuid_ptr_equal_iff task.assignee_id (some id)).0 same)) refl)
        | inr other ↦ rw other (
            after_assignee s view laws P _ task.team_id (some id) f w
              (λ w1 member. good w1 (inr member)) bad)
      ]

  -- What is saved is the edited task at the time of the save, and its stamped entries.
  abbrev Saved : Edit → Tables → Result Task → Tables → Type 0
  Saved edit before (ok t) after =
      (t ≡ record (edit.task) { updated_at = t.updated_at })
      × (after ≡ record before {
        tasks = update_task t before.tasks;
        history = before.history ++ map (stamp s t.updated_at) edit.entries;
      })
  Saved edit before (err e) after = after ≡ before

  save_edit-Saved :
      (edit : Edit) (w : W)
      → Unnumbered edit.entries
      → let (r, w') = save_edit s edit w in Saved edit (view w) r (view w')
  unfolding save_edit
  save_edit-Saved edit w new =
      let P = λ (r : Result Task) (w' : W). Saved edit (view w) r (view w') in
      let now = (s.platform.now w).0 in
      let task = record (edit.task) { updated_at = now } in
      let change = λ (b : Tables). record b {
        tasks = update_task task b.tasks;
        history = b.history ++ map (stamp s now) edit.entries;
      } in
      after_clock P _ _ w (
        after_write view P change _ _ _ _
          (laws.update_task_with_history task _ (stamped-Unnumbered now edit.entries new))
          (λ done w1 saved.
            after_ignore P (s.cache_invalidate _) (λ _. pure task) w1
              (refl, laws.cache_invalidate _ w1 ∙ saved ∙ ap change (laws.now w)))
          (λ e w1 kept. kept ∙ laws.now w))

  -- A saved edit of a stored task ends the update.
  Saved-Updated :
      (caller_id task_id : Uuid) (input : UpdateTaskInput) (stored : Task) (before : Tables)
      → find_task task_id before.tasks ≡ some stored
      → role_of stored.team_id caller_id before.members ≢ none
      → AssigneeAllowed stored input.assignee_id before
      → (r : Result Task) (after : Tables)
      → Saved
          (build_history_entries s.platform.formats task_id caller_id stored input)
          before
          r
          after
      → Updated s.platform.formats caller_id task_id input before r after
  Saved-Updated caller_id task_id input stored before found member allowed (ok t) after saved =
      let (same, done) =
        rw (build_history_entries-diff s.platform.formats task_id caller_id stored input) at
          saved in
      (stored, found, member, allowed, same, done)
  Saved-Updated caller_id task_id input stored before found member allowed (err e) after saved =
      saved

  -- An update succeeds only on a stored task, for a member of its team, with an assignee that is the
  -- task's own or a member; then the task returned is the stored one with the given fields put in,
  -- its row is updated and the difference is appended to the history. Otherwise, whatever fails, the
  -- tables stay as they are.
  pub update-Updated :
      (caller_id task_id : Uuid) (input : UpdateTaskInput) (w : W)
      → let (r, w') = update s caller_id task_id input w in
        Updated s.platform.formats caller_id task_id input (view w) r (view w')
  unfolding update
  update-Updated caller_id task_id input w =
      let P = λ (r : Result Task) (w' : W).
        Updated s.platform.formats caller_id task_id input (view w) r (view w') in
      after_lookup view P (λ b. find_task task_id b.tasks) _ _ _ w (laws.get_task_by_id task_id)
        (λ stored w1 found same1.
          after_lookup view P (λ b. role_of stored.team_id caller_id b.members) _ _ _ w1
            (laws.get_member_role stored.team_id caller_id)
            (λ role w2 member same2.
              after_new_assignee P stored input.assignee_id _ w2
                (λ w3 allowed same3.
                  let same = same3 ∙ same2 ∙ same1 in
                  let role_at =
                    λ (b : Tables). role_of stored.team_id caller_id b.members ≡ some role in
                  let here : role_at (view w) = subst role_at same1 member in
                  let edit =
                    build_history_entries s.platform.formats task_id caller_id stored input in
                  let (r, w') = save_edit s edit w3 in
                  Saved-Updated caller_id task_id input stored (view w) found (λ absent. cc)
                    (subst (AssigneeAllowed stored input.assignee_id) (same2 ∙ same1) allowed) r
                    (view w')
                    (subst (λ b. Saved edit b r (view w')) same
                      (save_edit-Saved edit w3 (
                        rw build_history_entries-diff (
                          diff-Unnumbered s.platform.formats task_id caller_id stored
                            (overlay stored input))))))
                (λ e w3 same3. same3 ∙ same2 ∙ same1))
            (λ e w2 missing same2. same2 ∙ same1))
        (λ e w1 missing same. same)
