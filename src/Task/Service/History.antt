-- ===== src/Task/Service/History.antt =====
-- What the history of a task tells after any sequence of requests to the `Service` of
-- internal/service/task/task.go.
use team_tasks.Base.{none, ◌∷◌, ◌≡◌, refl, subst, ◌∙◌}
use team_tasks.Domain.{Task, CreateTaskInput, UpdateTaskInput}
use team_tasks.Domain.Ids.{Uuid}
use team_tasks.Domain.Errors.{Result, ok}
use team_tasks.Action.{⊤, pure}
use team_tasks.Action.Rules.{after_ignore, after_checked}
use team_tasks.Platform.{after_clock}
use team_tasks.Store.{Tables, role_of, find_task, Written}
use team_tasks.Store.Rules.{after_lookup, after_keep}
use team_tasks.Task.Diff.{Formats}
use team_tasks.Task.Key.{cache_pattern}
use team_tasks.Task.Service.{Deps, create, update, new_task, uuid_string}
use team_tasks.Task.Service.Contract.{IsTaskStore, after_assignee}
use team_tasks.Task.Service.Updating.{update-Updated}
use team_tasks.Task.Service.Logged.{Logged, Logged-Same, Logged-trans, Updated-Logged, added-Logged}

module _ {W : Type 0} (s : Deps W) (view : W → Tables) (laws : IsTaskStore s view)
    (unique : (t : Task) (w : W) (u : ⊤)
      → (s.save_task t w).0 ≡ ok u
      → find_task t.id (view w).tasks ≡ none) where
  -- The format of the entries and the texts.
  abbrev fmt : Formats
  fmt = s.platform.formats

  create-Logged :
      (creator_id : Uuid) (input : CreateTaskInput) (w : W)
      → Logged fmt (view w) (view (create s creator_id input w).1)
  unfolding create
  create-Logged creator_id input w =
      let P = λ (r : Result Task) (w' : W). Logged fmt (view w) (view w') in
      let stays = λ (w' : W) (same : view w' ≡ view w). Logged-Same fmt (view w) (view w') same in
      after_lookup view P (λ b. role_of input.team_id creator_id b.members) _ _ _ w
        (laws.get_member_role input.team_id creator_id)
        (λ role w1 member same1.
          after_assignee s view laws P _ input.team_id input.assignee_id _ w1
            (λ w2 assignee same2.
              after_keep view P _ _ _ w2 laws.new_uuid
                (λ id w3 same3. after_clock P _ _ w3 (
                  let w4 = (s.platform.now w3).1 in
                  let same = laws.now w3 ∙ same3 ∙ same2 ∙ same1 in
                  let task = new_task s id creator_id input (s.platform.now w3).0 in
                  let m = s.save_task task in
                  let law = laws.save_task task w4 in
                  let add = λ (b : Tables). record b { tasks = task ∷ b.tasks } in
                  let result =
                    λ (r : Result ⊤). Written (view w4) (add (view w4)) r (view (m w4).1) in
                  let pattern = cache_pattern (uuid_string s) input.team_id in
                  let last = view (s.cache_invalidate pattern (m w4).1).1 in
                  after_checked P _ m _ w4
                    (λ u saved.
                      after_ignore P (s.cache_invalidate pattern) (λ _. pure task) (m w4).1
                        (subst (λ b. Logged fmt b last) same
                          (added-Logged fmt task (view w4) last (unique task w4 u saved)
                            (laws.cache_invalidate pattern (m w4).1 ∙ subst result saved law))))
                    (λ e failed. stays (m w4).1 (subst result failed law ∙ same))))
                (λ e w3 same3. stays w3 (same3 ∙ same2 ∙ same1)))
            (λ e w2 same2. stays w2 (same2 ∙ same1)))
        (λ e w1 missing same. stays w1 same)

  -- The methods of the service that write tasks, and anything that changes no table.
  pub data Change : W → W → Type 0 where
    creates :
        (creator_id : Uuid) (input : CreateTaskInput) (w : W)
        → Change w (create s creator_id input w).1
    updates :
        (caller_id task_id : Uuid) (input : UpdateTaskInput) (w : W)
        → Change w (update s caller_id task_id input w).1
    reads : {w w' : W} → view w' ≡ view w → Change w w'

  pub data Changes : W → W → Type 0 where
    idle : {w : W} → Changes w w
    follows : {u v w : W} → Change u v → Changes v w → Changes u w

  Change-Logged : {w w' : W} → Change w w' → Logged fmt (view w) (view w')
  Change-Logged (creates creator_id input w) = create-Logged creator_id input w
  Change-Logged (updates caller_id task_id input w) =
      let (r, w') = update s caller_id task_id input w in
      Updated-Logged fmt caller_id task_id input (view w) r (view w')
        (update-Updated s view laws caller_id task_id input w)
  Change-Logged {w} {w'} (reads same) = Logged-Same fmt (view w) (view w') same

  -- After any sequence of creations and updates, whatever of them fails, where the storage refuses a
  -- task under an identifier that is taken: the history has only grown, and every task that was
  -- there is there still, with the text of each field that its entries lead to from the text that it
  -- had.
  pub Changes-Logged : {w w' : W} → Changes w w' → Logged fmt (view w) (view w')
  Changes-Logged {w} idle = Logged-Same fmt (view w) (view w) refl
  Changes-Logged (follows {u} {v} {w} c cs) =
      Logged-trans fmt (view u) (view v) (view w) (Change-Logged c) (Changes-Logged cs)
