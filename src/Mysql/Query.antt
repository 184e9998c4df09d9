-- ===== src/Mysql/Query.antt =====
-- What the statements of `ListTasks` of internal/storage/mysql/task.go select, by the documented
-- meaning of `WHERE`, `ORDER BY … DESC`, `LIMIT` and `OFFSET`. The order of rows with the same
-- `created_at` is left open, also from one page to the next.
use team_tasks.Base.{
  ℕ, ℤ, pos, negsuc, zero, suc, String, Bool, true, false, ◌&&◌, Option, none, some, List, [], ◌∷◌,
  ◌≡◌, ◌↔◌, refl, str_eq, str_eq_iff, if◌then◌else◌, length, Bool-cases, inl, inr, sym, ap, subst,
  ◌∙◌,
}
use team_tasks.Base.Ordered.{IsFalling}
use mathlib.Core.List.{Permᴰ}
use mathlib.Core.Option.{some-injective}
use team_tasks.Domain.{Task, TaskFilter}
use team_tasks.Domain.Ids.{Uuid, uuid_eq, uuid_eq_iff}
use team_tasks.Task.Service.{CachedList}
use team_tasks.Task.Service.Caching.{of_team}
use team_tasks.Mysql.Rows.{uuid_to_bytes}
use team_tasks.Mysql.Driver.{Value, bytes, text}
use team_tasks.Mysql.Storage.Tasks.{build_task_filter, assignee_value, offset}

-- `a = b` of SQL, which is not true of NULL: on columns of bytes, and on the statuses of the domain
-- as they are written. The column of the status compares by utf8mb4_unicode_ci, to which other
-- spellings such as DONE are the same; a filter by one of these is not described here.
abbrev pub same_value : Value → Value → Bool
same_value (bytes a) (bytes b) = uuid_eq (record { bytes = a }) (record { bytes = b })
same_value (text a) (text b) = str_eq a b
same_value _ _ = false

abbrev pub condition_holds : String → Value → Task → Bool
condition_holds cond v t =
    if str_eq cond "team_id = ?"
    then same_value (bytes (uuid_to_bytes t.team_id)) v
    else (if str_eq cond "status = ?"
        then same_value (text t.status) v
        else (if str_eq cond "assignee_id = ?"
            then same_value (assignee_value t.assignee_id) v
            else false))

-- The conditions joined by AND, with the values for their question marks.
abbrev pub holds : List String → List Value → Task → Bool
holds (cond ∷ conds) (v ∷ vs) t = condition_holds cond v t && holds conds vs t
holds _ _ t = true

abbrev pub is_selected : TaskFilter → Task → Bool
is_selected f t = let c = build_task_filter f in holds c.conds c.args t

abbrev Given : {A : Type 0} → Option A → (A → Type 0) → Type 0
Given none P = Unit
Given (some a) P = P a

-- What a filter asks of a task.
abbrev pub Meets : TaskFilter → Task → Type 0
Meets f t =
    Given f.team_id (λ id. t.team_id ≡ id)
    × (Given f.status (λ status. t.status ≡ status)
        × Given f.assignee_id (λ id. t.assignee_id ≡ some id))

assignee_iff :
    (o : Option Uuid) (id : Uuid)
    → (same_value (assignee_value o) (bytes (uuid_to_bytes id)) ≡ true) ↔ (o ≡ some id)
assignee_iff none id = ((λ e. cc), λ e. cc)
assignee_iff (some a) id =
    (λ e. ap some ((uuid_eq_iff a id).0 e), λ e. (uuid_eq_iff a id).1 (some-injective a id e))

both_iff :
    (a b : Bool) {P Q : Type 0} → (a ≡ true) ↔ P → (b ≡ true) ↔ Q → ((a && b) ≡ true) ↔ (P × Q)
both_iff true b p q = ((λ e. (p.0 refl, q.0 e)), λ h. q.1 h.1)
both_iff false b p q = ((λ e. cc), λ h. p.1 h.0)

only_iff : (a : Bool) {P : Type 0} → (a ≡ true) ↔ P → ((a && true) ≡ true) ↔ P
only_iff true p = p
only_iff false p = p

skipped : {b : Bool} {Q : Type 0} → (b ≡ true) ↔ Q → (b ≡ true) ↔ (Unit {0} × Q)
skipped q = ((λ e. (tt, q.0 e)), λ h. q.1 h.1)

passed : ◌≡◌ {A = Bool} true true ↔ Unit {0}
passed = ((λ e. tt), λ h. refl)

selects_given :
    (team_id : Option Uuid) (status : Option String) (assignee_id : Option Uuid) (page limit : ℤ)
    (t : Task)
    → let f : TaskFilter = record {
      team_id = team_id;
      status = status;
      assignee_id = assignee_id;
      page = page;
      limit = limit;
    } in
      (is_selected f t ≡ true) ↔ Meets f t
unfolding build_task_filter
selects_given none none none page limit t = skipped (skipped passed)
selects_given none none (some a) page limit t =
    skipped (skipped (only_iff _ (assignee_iff t.assignee_id a)))
selects_given none (some s) none page limit t =
    skipped (both_iff _ _ (str_eq_iff t.status s) passed)
selects_given none (some s) (some a) page limit t =
    skipped (both_iff _ _ (str_eq_iff t.status s) (only_iff _ (assignee_iff t.assignee_id a)))
selects_given (some id) none none page limit t =
    both_iff _ _ (uuid_eq_iff t.team_id id) (skipped passed)
selects_given (some id) none (some a) page limit t =
    both_iff _ _ (uuid_eq_iff t.team_id id) (skipped (only_iff _ (assignee_iff t.assignee_id a)))
selects_given (some id) (some s) none page limit t =
    both_iff _ _ (uuid_eq_iff t.team_id id) (both_iff _ _ (str_eq_iff t.status s) passed)
selects_given (some id) (some s) (some a) page limit t =
    both_iff _ _ (uuid_eq_iff t.team_id id)
      (both_iff _ _ (str_eq_iff t.status s) (only_iff _ (assignee_iff t.assignee_id a)))

-- The conditions that a filter is turned into hold of a task exactly if the task meets the filter:
-- it has the team, the status and the assignee that the filter gives, whichever it gives.
is_selected_iff : (f : TaskFilter) (t : Task) → (is_selected f t ≡ true) ↔ Meets f t
is_selected_iff f t = selects_given f.team_id f.status f.assignee_id f.page f.limit t

unfoldable pub chosen : (Task → Bool) → List Task → List Task
chosen test [] = []
chosen test (t ∷ ts) = let rest = chosen test ts in if test t then t ∷ rest else rest

abbrev pub selected : TaskFilter → List Task → List Task
selected f = chosen (is_selected f)

-- Rows of other teams make no difference to a filter by a team.
selected-of_team :
    (f : TaskFilter) (team_id : Uuid) (ts : List Task)
    → f.team_id ≡ some team_id
    → selected f (of_team team_id ts) ≡ selected f ts
unfolding chosen of_team
selected-of_team f team_id [] e = refl
selected-of_team f team_id (t ∷ ts) e =
    let ih = selected-of_team f team_id ts e in
    elim (Bool-cases (uuid_eq t.team_id team_id)) [
      | inl own ↦ rw own (λ i. if is_selected f t then t ∷ ih i else ih i)
      | inr other ↦ elim (Bool-cases (is_selected f t)) [
        | inl chosen ↦
            let asked = ((is_selected_iff f t).0 chosen).0 in
            let team = subst (λ o. Given o (λ id. t.team_id ≡ id)) e asked in
            let same = (uuid_eq_iff t.team_id team_id).1 team in cc
        | inr left ↦ rw (other, left) ih
      ]
    ]

abbrev pub natural : ℤ → ℕ
natural (pos n) = n
natural (negsuc n) = 0

abbrev pub drop : {A : Type 0} → ℕ → List A → List A
drop zero xs = xs
drop (suc n) [] = []
drop (suc n) (x ∷ xs) = drop n xs

abbrev pub take : {A : Type 0} → ℕ → List A → List A
take zero xs = []
take (suc n) [] = []
take (suc n) (x ∷ xs) = x ∷ take n xs

-- How MySQL orders the rows that it has selected for a page.
pub record IsOrder (order : TaskFilter → List Task → List Task) : Type 0 where
  pub perm : (f : TaskFilter) (ts : List Task) → Permᴰ (order f ts) ts
  pub falling :
      (f : TaskFilter) (ts : List Task) → IsFalling (λ (t : Task). t.created_at) (order f ts)

-- The page and the total.
unfoldable pub task_query :
    (TaskFilter → List Task → List Task) → TaskFilter → List Task → CachedList
task_query order f ts =
    let found = selected f ts in
    (
      take (natural f.limit) (drop (natural (offset f.page f.limit)) (order f found)),
      pos (length found),
    )

pub task_query-of_team :
    (order : TaskFilter → List Task → List Task) (f : TaskFilter) (team_id : Uuid)
    (ts us : List Task)
    → f.team_id ≡ some team_id
    → of_team team_id ts ≡ of_team team_id us
    → task_query order f ts ≡ task_query order f us
unfolding task_query
task_query-of_team order f team_id ts us e same =
    let rows =
      sym (selected-of_team f team_id ts e)
      ∙ ap (selected f) same
      ∙ selected-of_team f team_id us e in
    ap
      (λ (found : List Task). (
        take (natural f.limit) (drop (natural (offset f.page f.limit)) (order f found)),
        pos (length found),
      ))
      rows
