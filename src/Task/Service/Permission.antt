-- ===== src/Task/Service/Permission.antt =====
-- Which outcome `Service.Update` of internal/service/task/task.go has where its storage is up.
use team_tasks.Base.{
  true, Option, none, some, List, ◌≡◌, refl, ◌∙◌, ap, sym, Bool-cases, inl, inr, if◌then◌else◌,
}
use team_tasks.Domain.{Task, TaskHistory, Role, UpdateTaskInput}
use team_tasks.Domain.Ids.{Uuid}
use team_tasks.Domain.Errors.{Error, Result, ok, err, errors_is, not_found, forbidden, Sentinel}
use team_tasks.Action.{⊤, Action, pure, ◌>>=◌}
use team_tasks.Action.Rules.{after_ignore, after_checked, pure->>=, >>=_assoc}
use team_tasks.Platform.{after_clock}
use team_tasks.Store.{Tables, role_of, find_task, is_member, Answers}
use team_tasks.Store.Rules.{after_answer}
use team_tasks.Task.Diff.{Edit, uuid_ptr_equal}
use team_tasks.Task.Service.{Deps, check_assignee, check_new_assignee, save_edit, update}
use team_tasks.Task.Service.Contract.{IsTaskStore}

-- A storage that is up: its lookups fail only on what is not there, and it writes updates. Nothing
-- is said of the cache.
pub record IsUp {W : Type 0} (s : Deps W) : Type 0 where
  pub get_task_by_id : (id : Uuid) → Answers (s.get_task_by_id id)
  pub get_member_role : (team_id user_id : Uuid) → Answers (s.get_member_role team_id user_id)
  pub update_task_with_history :
      (t : Task) (hs : List TaskHistory) (w : W) → (s.update_task_with_history t hs w).0 ≡ ok tt

pub data Verdict : Type 0 where
  granted missing barred : Verdict

-- A given assignee has to be the task's own or a member of its team.
abbrev pub judge_assignee : Task → Option Uuid → Tables → Verdict
judge_assignee t none b = granted
judge_assignee t (some id) b =
    if uuid_ptr_equal t.assignee_id (some id)
    then granted
    else (if is_member (role_of t.team_id id b.members) then granted else barred)

abbrev pub judge_caller : Task → Option Role → Option Uuid → Tables → Verdict
judge_caller t none assignee b = barred
judge_caller t (some role) assignee b = judge_assignee t assignee b

abbrev pub judge_task : Option Task → Uuid → Option Uuid → Tables → Verdict
judge_task none caller_id assignee b = missing
judge_task (some t) caller_id assignee b =
    judge_caller t (role_of t.team_id caller_id b.members) assignee b

-- The rule of updates, by the caller, the task and the assignee that is given.
abbrev pub verdict : Uuid → Uuid → Option Uuid → Tables → Verdict
verdict caller_id task_id assignee b = judge_task (find_task task_id b.tasks) caller_id assignee b

abbrev pub FailsBy : {A : Type 0} → Sentinel → Result A → Type 0
FailsBy s (ok a) = ⊥
FailsBy s (err e) = errors_is s e ≡ true

abbrev pub Obeys : Verdict → Result Task → Type 0
Obeys granted r = (t : Task) × (r ≡ ok t)
Obeys missing r = FailsBy not_found r
Obeys barred r = FailsBy forbidden r

module _ {W : Type 0} (s : Deps W) (view : W → Tables) (laws : IsTaskStore s view)
    (up : IsUp s) where
  save_edit-ok : (edit : Edit) (w : W) → (t : Task) × ((save_edit s edit w).0 ≡ ok t)
  unfolding save_edit
  save_edit-ok edit w =
      let P = λ (r : Result Task) (v : W). (t : Task) × (r ≡ ok t) in
      after_clock P _ _ w (
        after_checked P _ _ _ _ (λ done saved. after_ignore P _ (λ _. pure _) _ (_, refl))
          (λ e failed.
            let clash : ok tt ≡ err e = sym (up.update_task_with_history _ _ _) ∙ failed in cc))

  after_judged :
      {B : Type 0} (P : Result B → W → Type 0) (task : Task) (o : Option Uuid) (f : ⊤ → Action W B)
      (w : W)
      → ((w1 : W) → judge_assignee task o (view w) ≡ granted → P (f tt w1).0 (f tt w1).1)
      → ((e : Error) (w1 : W)
          → judge_assignee task o (view w) ≡ barred
          → errors_is forbidden e ≡ true
          → P (err e) w1)
      → P ((check_new_assignee s task o >>= f) w).0 ((check_new_assignee s task o >>= f) w).1
  unfolding check_new_assignee check_assignee
  after_judged P task none f w good bad = rw pure->>= (good w refl)
  after_judged P task (some id) f w good bad =
      elim (Bool-cases (uuid_ptr_equal task.assignee_id (some id))) [
        | inl same ↦ rw (same, pure->>=) (good w (rw same refl))
        | inr other ↦
            rw (other, >>=_assoc)
              (after_answer view P (λ b. role_of task.team_id id b.members) _ _ _ w
                (laws.get_member_role task.team_id id) (up.get_member_role task.team_id id)
                (λ role w1 found same. rw pure->>= (good w1 (rw (other, found) refl)))
                (λ e w1 lost absent. rw lost (bad _ w1 (rw (other, absent) refl) refl)))
      ]

  -- Where the storage is up, whether or not the cache is, an update ends as the rule has it.
  pub update-Obeys :
      (caller_id task_id : Uuid) (input : UpdateTaskInput) (w : W)
      → Obeys
          (verdict caller_id task_id input.assignee_id (view w))
          (update s caller_id task_id input w).0
  unfolding update
  update-Obeys caller_id task_id input w =
      let P = λ (r : Result Task) (v : W).
        Obeys (verdict caller_id task_id input.assignee_id (view w)) r in
      after_answer view P (λ b. find_task task_id b.tasks) _ _ _ w (laws.get_task_by_id task_id)
        (up.get_task_by_id task_id)
        (λ stored w1 known same1.
          let role_at = λ (b : Tables). role_of stored.team_id caller_id b.members in
          after_answer view P role_at _ _ _ w1 (laws.get_member_role stored.team_id caller_id)
            (up.get_member_role stored.team_id caller_id)
            (λ role w2 member same2.
              let judged = ap (judge_assignee stored input.assignee_id) (sym (same2 ∙ same1)) in
              let role_known = sym (ap role_at same1) ∙ member in
              after_judged P stored input.assignee_id _ w2
                (λ w3 allowed. rw (known, role_known, judged ∙ allowed) (save_edit-ok _ w3))
                (λ e w3 refused is. rw (known, role_known, judged ∙ refused) is))
            (λ e w2 lost absent. rw (known, sym (ap role_at same1) ∙ absent, lost) refl))
        (λ e w1 lost absent. rw absent lost)
