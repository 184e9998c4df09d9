-- ===== src/Task/Service/Freshness.antt =====
-- Writes of the task service keep the cache fresh, where its invalidation succeeds.
use mathlib.Core.Option.{none-ne-some}
use team_tasks.Base.{
  ℕ, String, Option, none, some, List, map, ◌≡◌, ◌≢◌, inl, inr, refl, sym, ap, subst, ◌∙◌,
  Bool-cases,
}
use team_tasks.Domain.{Task, TaskFilter, CreateTaskInput, UpdateTaskInput}
use team_tasks.Domain.Ids.{Uuid, uuid_eq, uuid_eq_iff}
use team_tasks.Domain.Errors.{Error, Result, ok, err}
use team_tasks.Action.{⊤, Action, pure, on_error, ignore, ◌>>=◌}
use team_tasks.Action.Rules.{after_checked, after_ignore, pure->>=, >>=_assoc}
use team_tasks.Platform.{after_clock}
use team_tasks.Store.{Tables, Found, Written, find_task}
use team_tasks.Store.Tasks.{find_task-id}
use team_tasks.Task.Diff.{Edit, uuid_ptr_equal}
use team_tasks.Task.Diff.Laws.{
  overlay, build_history_entries-diff, Unnumbered, diff-Unnumbered, stamped-Unnumbered,
}
use team_tasks.Task.Key.{cache_key, cache_pattern}
use team_tasks.Task.Key.Laws.{IsUuidText, team_prefix, cache_pattern_covers}
use team_tasks.Task.Service.{
  Deps, CachedList, uuid_string, new_task, create, check_assignee, check_new_assignee, save_edit,
  update, stamp,
}
use team_tasks.Task.Service.Contract.{IsTaskStore}
use team_tasks.Task.Service.Caching.{
  Same, IsTaskCache, IsFresh, IsFresh-Same, of_team, of_team-cons, of_team-update_task,
}

module _ {W : Type 0} (s : Deps W) (view : W → Tables) (cached : W → String → Option (List ℕ))
    (query : TaskFilter → List Task → CachedList) (laws : IsTaskCache s view cached query)
    (store : IsTaskStore s view) (form : IsUuidText (uuid_string s))
    (up : (pattern : String) (w : W) → (s.cache_invalidate pattern w).0 ≡ ok tt) where
  abbrev Fresh : W → Type 0
  Fresh = IsFresh s view cached query

  dropped :
      (team_id : Uuid) (f : TaskFilter) (w : W)
      → f.team_id ≡ some team_id
      → cached
          (s.cache_invalidate (cache_pattern (uuid_string s) team_id) w).1
          (cache_key (uuid_string s) f)
        ≡ none
  dropped team_id f w team =
      let (pattern, covers) = cache_pattern_covers (uuid_string s) form team_id f in
      let (rest, key) = covers.1 team in
      rw (pattern, key)
        (laws.cache_invalidate_ok (team_prefix (uuid_string s) team_id) rest w (up _ w))

  -- Rows of one team have changed since the cache was fresh, and the team's keys are dropped.
  invalidate-IsFresh :
      (team_id : Uuid) (w w1 : W)
      → Fresh w
      → ((key : String) (bytes : List ℕ) → cached w1 key ≡ some bytes → cached w key ≡ some bytes)
      → ((other : Uuid)
          → team_id ≢ other
          → of_team other (view w1).tasks ≡ of_team other (view w).tasks)
      → Fresh (s.cache_invalidate (cache_pattern (uuid_string s) team_id) w1).1
  invalidate-IsFresh team_id w w1 fresh entries others other f bytes found team status hit decoded =
      let pattern = cache_pattern (uuid_string s) team_id in
      let (tables, kept) = laws.cache_invalidate pattern w1 in
      let now = ap (λ (t : Tables). query f t.tasks) (sym tables) in
      elim (Bool-cases (uuid_eq team_id other)) [
        | inl same ↦
            let own = team ∙ ap some (sym ((uuid_eq_iff team_id other).0 same)) in
            absurd (none-ne-some bytes (sym (dropped team_id f w1 own) ∙ hit))
        | inr differs ↦
            fresh other f bytes found team status (entries _ bytes (kept _ bytes hit)) decoded
            ∙ laws.query_local f other _ _ team
                (sym (others other (λ e. cc ((uuid_eq_iff team_id other).1 e))))
            ∙ now
      ]

  module _ {B : Type 0} (P : Result B → W → Type 0) where
    -- The rule of Action/Rules for a call that leaves tables and cache as they are.
    after_quiet :
        {A : Type 0} (g : Error → Error) (m : Action W A) (f : A → Action W B) (w : W)
        → Fresh w
        → ((v : W) → Same s view cached query v (m v).1)
        → ((a : A) (w1 : W) → Fresh w1 → view w1 ≡ view w → P (f a w1).0 (f a w1).1)
        → ((e : Error) (w1 : W) → Fresh w1 → P (err (g e)) w1)
        → P ((on_error g m >>= f) w).0 ((on_error g m >>= f) w).1
    after_quiet g m f w fresh quiet good bad =
        let fresh1 = IsFresh-Same s view cached query fresh (quiet w) in
        after_checked P g m f w (λ a e. good a (m w).1 fresh1 (quiet w).0)
          (λ x e. bad x (m w).1 fresh1)

    after_assignee_check :
        (label : String) (team_id : Uuid) (o : Option Uuid) (f : ⊤ → Action W B) (w : W)
        → Fresh w
        → ((w1 : W) → Fresh w1 → view w1 ≡ view w → P (f tt w1).0 (f tt w1).1)
        → ((e : Error) (w1 : W) → Fresh w1 → P (err e) w1)
        → P
            ((check_assignee s label team_id o >>= f) w).0
            ((check_assignee s label team_id o >>= f) w).1
    unfolding check_assignee
    after_assignee_check label team_id none f w fresh good bad = rw pure->>= (good w fresh refl)
    after_assignee_check label team_id (some id) f w fresh good bad = rw >>=_assoc (
        after_quiet _ (s.get_member_role team_id id) (λ role. pure tt >>= f) w fresh
          (laws.get_member_role team_id id)
          (λ role w1 fresh1 same. rw pure->>= (good w1 fresh1 same))
          (λ e w1 fresh1. bad _ w1 fresh1))

  -- A write of rows of one team, then the invalidation of the team's keys.
  write-IsFresh :
      {B : Type 0} (team_id : Uuid) (g : Error → Error) (m : Action W ⊤) (b : B) (w : W)
      (done : Tables)
      → Fresh w
      → ((key : String) (bytes : List ℕ)
          → cached (m w).1 key ≡ some bytes
          → cached w key ≡ some bytes)
      → Written (view w) done (m w).0 (view (m w).1)
      → ((other : Uuid) → team_id ≢ other → of_team other done.tasks ≡ of_team other (view w).tasks)
      → Fresh
          ((on_error g m >>= λ _.
              ignore (s.cache_invalidate (cache_pattern (uuid_string s) team_id)) >>= λ _. pure b)
            w).1
  write-IsFresh {B} team_id g m b w done fresh entries law others =
      let P = λ (r : Result B) (w' : W). Fresh w' in
      let left = λ (r : Result ⊤). Written (view w) done r (view (m w).1) in
      after_checked P g m _ w
        (λ a e.
          let written : view (m w).1 ≡ done = subst left e law in
          let rows = λ (other : Uuid) (ne : team_id ≢ other).
            ap (λ (t : Tables). of_team other t.tasks) written ∙ others other ne in
          after_ignore P _ (λ _. pure b) (m w).1
            (invalidate-IsFresh team_id w (m w).1 fresh entries rows))
        (λ x e. IsFresh-Same s view cached query fresh (subst left e law, entries))

  -- Creating a task keeps the cache fresh, whatever fails but the invalidation.
  pub create-IsFresh :
      (creator_id : Uuid) (input : CreateTaskInput) (w : W)
      → IsFresh s view cached query w
      → IsFresh s view cached query (create s creator_id input w).1
  unfolding create
  create-IsFresh creator_id input w fresh =
      let P = λ (r : Result Task) (w' : W). Fresh w' in
      after_quiet P _ _ _ w fresh (laws.get_member_role input.team_id creator_id)
        (λ role w1 fresh1 _.
          after_assignee_check P _ input.team_id input.assignee_id _ w1 fresh1
            (λ w2 fresh2 _.
              after_quiet P _ _ _ w2 fresh2 laws.new_uuid
                (λ id w3 fresh3 _. after_clock P _ _ w3 (
                  let w4 = (s.platform.now w3).1 in
                  let task = new_task s id creator_id input (s.platform.now w3).0 in
                  write-IsFresh input.team_id _ _ _ w4 _
                    (IsFresh-Same s view cached query fresh3 (laws.now w3)) (laws.save_task task w4)
                    (store.save_task task w4)
                    (λ other ne. of_team-cons other task (view w4).tasks ne)))
                (λ e w3 fresh3. fresh3))
            (λ e w2 fresh2. fresh2))
        (λ e w1 fresh1. fresh1)

  save_edit-IsFresh :
      (edit : Edit) (w : W) {stored : Task}
      → Fresh w
      → find_task edit.task.id (view w).tasks ≡ some stored
      → stored.team_id ≡ edit.task.team_id
      → Unnumbered edit.entries
      → Fresh (save_edit s edit w).1
  unfolding save_edit
  save_edit-IsFresh edit w {stored} fresh found team new =
      let P = λ (r : Result Task) (w' : W). Fresh w' in
      after_clock P _ _ w (
        let w1 = (s.platform.now w).1 in
        let task = record (edit.task) { updated_at = (s.platform.now w).0 } in
        let entries = map (stamp s (s.platform.now w).0) edit.entries in
        let here =
          subst (λ (b : Tables). find_task task.id b.tasks ≡ some stored) (sym (laws.now w).0)
            found in
        write-IsFresh task.team_id _ _ _ w1 _ (IsFresh-Same s view cached query fresh (laws.now w))
          (laws.update_task_with_history task entries w1)
          (store.update_task_with_history task entries
            (stamped-Unnumbered (s.platform.now w).0 edit.entries new) w1)
          (λ other ne.
            of_team-update_task other task (view w1).tasks here (λ e. ne (sym team ∙ e))))

  after_new_assignee_check :
      {B : Type 0} (P : Result B → W → Type 0) (task : Task) (o : Option Uuid) (f : ⊤ → Action W B)
      (w : W)
      → Fresh w
      → ((w1 : W) → Fresh w1 → view w1 ≡ view w → P (f tt w1).0 (f tt w1).1)
      → ((e : Error) (w1 : W) → Fresh w1 → P (err e) w1)
      → P ((check_new_assignee s task o >>= f) w).0 ((check_new_assignee s task o >>= f) w).1
  unfolding check_new_assignee
  after_new_assignee_check P task none f w fresh good bad = rw pure->>= (good w fresh refl)
  after_new_assignee_check P task (some id) f w fresh good bad =
      elim (Bool-cases (uuid_ptr_equal task.assignee_id (some id))) [
        | inl same ↦ rw (same, pure->>=) (good w fresh refl)
        | inr other ↦ rw other (after_assignee_check P _ task.team_id (some id) f w fresh good bad)
      ]

  -- An update of a task keeps the cache fresh, however it ends, where invalidation succeeds.
  pub update-IsFresh :
      (caller_id task_id : Uuid) (input : UpdateTaskInput) (w : W)
      → IsFresh s view cached query w
      → IsFresh s view cached query (update s caller_id task_id input w).1
  unfolding update
  update-IsFresh caller_id task_id input w fresh =
      let P = λ (r : Result Task) (w' : W). Fresh w' in
      let fresh1 = IsFresh-Same s view cached query fresh (laws.get_task_by_id task_id w) in
      let (same1, law) = store.get_task_by_id task_id w in
      after_checked P _ _ _ w
        (λ stored e.
          let found = subst (Found (find_task task_id (view w).tasks)) e law in
          after_quiet P _ _ _ _ fresh1 (laws.get_member_role stored.team_id caller_id)
            (λ role w2 fresh2 same2.
              after_new_assignee_check P stored input.assignee_id _ w2 fresh2
                (λ w3 fresh3 same3.
                  let tables = sym (same3 ∙ same2 ∙ same1) in
                  let id = find_task-id task_id (view w).tasks {t = stored} found in
                  let here =
                    subst (λ (b : Tables). find_task stored.id b.tasks ≡ some stored) tables
                      (ap (λ (x : Uuid). find_task x (view w).tasks) id ∙ found) in
                  rw build_history_entries-diff (
                    save_edit-IsFresh _ w3 {stored = stored} fresh3 here refl (
                      diff-Unnumbered s.platform.formats task_id caller_id stored
                        (overlay stored input))))
                (λ x w3 fresh3. fresh3))
            (λ x w2 fresh2. fresh2))
        (λ x e. fresh1)
