-- ===== src/Mysql/Conversions.antt =====
-- The conversions of internal/storage/mysql lose nothing and make nothing up.
use team_tasks.Base.{
  ℕ, String, Bool, true, false, Option, none, some, List, [], ◌∷◌, ◌==◌, ◌≡◌, ◌↔◌, refl, arith, ap,
  map, sym, subst, ◌∙◌, length, All, if◌then◌else◌,
}
use team_tasks.Domain.{Task, User}
use team_tasks.Domain.Ids.{Uuid, IsUuid}
use team_tasks.Domain.Errors.{Error, Result, ok, err}
use team_tasks.Mysql.Rows.{
  bytes_to_uuid, bytes_to_uuid_ptr, TaskRow, UserRow, to_task, to_user, task_row, user_row,
  assignee_bytes, convert_rows, collected, optional, parse,
}

pub bytes_to_uuid-bytes : (id : Uuid) → IsUuid id → bytes_to_uuid id.bytes ≡ ok id
unfolding bytes_to_uuid
bytes_to_uuid-bytes id h = rw h refl

tested_length :
    (same : Bool) (x : Error) (b : List ℕ) (id : Uuid)
    → (length b == 16) ≡ same
    → (if same then ok (record { bytes = b }) else err x) ≡ ok id
    → (id.bytes ≡ b) × IsUuid id
tested_length true x b id h e =
    let is : record { bytes = b } ≡ id = cc in
    let bytes = ap (λ (u : Uuid). u.bytes) is in
    let long : length b ≡ 16 = ground arith in (sym bytes, ap length (sym bytes) ∙ long)
tested_length false x b id h e = cc

pub bytes_to_uuid_ok :
    (b : List ℕ) (id : Uuid) → bytes_to_uuid b ≡ ok id → (id.bytes ≡ b) × IsUuid id
unfolding bytes_to_uuid
bytes_to_uuid_ok b id e = tested_length (length b == 16) _ b id refl e

abbrev pub IsUuids : Option Uuid → Type 0
IsUuids none = Unit
IsUuids (some id) = IsUuid id

-- The identifiers of a task have sixteen bytes each, as `uuid.UUID` has.
abbrev pub HasUuids : Task → Type 0
HasUuids t = IsUuid t.id × IsUuid t.team_id × IsUuid t.created_by × IsUuids t.assignee_id

ptr_of : (b : List ℕ) → length b ≡ 16 → bytes_to_uuid_ptr b ≡ ok (some (record { bytes = b }))
unfolding bytes_to_uuid_ptr
ptr_of [] h = absurd (omega (arith, h))
ptr_of (x ∷ xs) h = ap optional (bytes_to_uuid-bytes (record { bytes = x ∷ xs }) h)

ptr_ok :
    (b : List ℕ) (o : Option Uuid) → bytes_to_uuid_ptr b ≡ ok o → (assignee_bytes o ≡ b) × IsUuids o
unfolding bytes_to_uuid_ptr
ptr_ok [] none e = (refl, tt)
ptr_ok [] (some id) e = cc
ptr_ok (x ∷ xs) o e = decided (bytes_to_uuid (x ∷ xs)) refl e
  where
    decided :
        (r : Result Uuid)
        → bytes_to_uuid (x ∷ xs) ≡ r
        → optional r ≡ ok o
        → (assignee_bytes o ≡ x ∷ xs) × IsUuids o
    decided (err f) h g = cc
    decided (ok id) h g =
        let is : some id ≡ o = cc in
        subst (λ (p : Option Uuid). (assignee_bytes p ≡ x ∷ xs) × IsUuids p) is
          (bytes_to_uuid_ok (x ∷ xs) id h)

assignee_back : (o : Option Uuid) → IsUuids o → bytes_to_uuid_ptr (assignee_bytes o) ≡ ok o
unfolding bytes_to_uuid_ptr
assignee_back none h = refl
assignee_back (some id) h = ptr_of id.bytes h

pub to_task-task_row : (t : Task) → HasUuids t → to_task (task_row t) ≡ ok t
unfolding to_task
to_task-task_row t (id, team, creator, assignee) =
    rw
      (
        bytes_to_uuid-bytes t.id id,
        bytes_to_uuid-bytes t.team_id team,
        bytes_to_uuid-bytes t.created_by creator,
        assignee_back t.assignee_id assignee,
      )
      refl

tasks_back : (ts : List Task) → All HasUuids ts → convert_rows to_task (map task_row ts) ≡ ok ts
unfolding convert_rows
tasks_back [] h = refl
tasks_back (t ∷ ts) (h, hs) = rw (to_task-task_row t h, tasks_back ts hs) refl

-- A step of a conversion that has succeeded.
pub parse_ok :
    {A B : Type 0} (label : String) (r : Result A) (f : A → Result B) (b : B)
    → parse label r f ≡ ok b
    → (a : A) × (r ≡ ok a) × (f a ≡ ok b)
parse_ok label (ok a) f b e = (a, refl, e)
parse_ok label (err x) f b e = cc

to_task_ok : (r : TaskRow) (t : Task) → to_task r ≡ ok t → (task_row t ≡ r) × HasUuids t
unfolding to_task
to_task_ok r t e =
    let (id, id_ok, rest1) = parse_ok _ (bytes_to_uuid r.id) _ t e in
    let (team, team_ok, rest2) = parse_ok _ (bytes_to_uuid r.team_id) _ t rest1 in
    let (creator, creator_ok, rest3) = parse_ok _ (bytes_to_uuid r.created_by) _ t rest2 in
    let (assignee, assignee_ok, rest4) = parse_ok _ (bytes_to_uuid_ptr r.assignee_id) _ t rest3 in
    let (id_is, id_uuid) = bytes_to_uuid_ok r.id id id_ok in
    let (team_is, team_uuid) = bytes_to_uuid_ok r.team_id team team_ok in
    let (creator_is, creator_uuid) = bytes_to_uuid_ok r.created_by creator creator_ok in
    let (assignee_is, assignee_uuid) = ptr_ok r.assignee_id assignee assignee_ok in
    let read : Uuid → Uuid → Uuid → Option Uuid → Task = λ u v w o. record {
      id = u;
      team_id = v;
      created_by = w;
      assignee_id = o;
      title = r.title;
      description = r.description;
      status = r.status;
      priority = r.priority;
      due_date = r.due_date;
      created_at = r.created_at;
      updated_at = r.updated_at;
    } in
    let is : read id team creator assignee ≡ t = cc in
    subst (λ (x : Task). (task_row x ≡ r) × HasUuids x) is
      (
        λ i. record r {
          id = id_is i;
          team_id = team_is i;
          created_by = creator_is i;
          assignee_id = assignee_is i;
        },
        (id_uuid, team_uuid, creator_uuid, assignee_uuid),
      )

pub collected_ok :
    {B : Type 0} (r : Result B) (rest : Result (List B)) (bs : List B)
    → collected r rest ≡ ok bs
    → (b : B) × (cs : List B) × (r ≡ ok b) × (rest ≡ ok cs) × (b ∷ cs ≡ bs)
collected_ok (ok b) (ok cs) bs e = (b, cs, refl, refl, cc)
collected_ok (ok b) (err x) bs e = cc
collected_ok (err x) rest bs e = cc

rows_of :
    (rows : List TaskRow) (ts : List Task)
    → convert_rows to_task rows ≡ ok ts
    → (rows ≡ map task_row ts) × All HasUuids ts
unfolding convert_rows
rows_of [] [] e = (refl, tt)
rows_of [] (t ∷ ts) e = cc
rows_of (r ∷ rs) ts e =
    let (t, us, one, others, is) = collected_ok (to_task r) (convert_rows to_task rs) ts e in
    let (row, valid) = to_task_ok r t one in
    let (rows, all_valid) = rows_of rs us others in
    subst (λ (vs : List Task). (r ∷ rs ≡ map task_row vs) × All HasUuids vs) is
      ((λ i. sym row i ∷ rows i), (valid, all_valid))

pub convert_rows-task_row :
    (rows : List TaskRow) (ts : List Task)
    → (convert_rows to_task rows ≡ ok ts) ↔ ((rows ≡ map task_row ts) × All HasUuids ts)
convert_rows-task_row rows ts =
    (rows_of rows ts, λ (is, valid). ap (convert_rows to_task) is ∙ tasks_back ts valid)

to_user-user_row : (u : User) → IsUuid u.id → to_user (user_row u) ≡ ok u
unfolding to_user
to_user-user_row u h = rw (bytes_to_uuid-bytes u.id h) refl

to_user_ok : (r : UserRow) (u : User) → to_user r ≡ ok u → (r ≡ user_row u) × IsUuid u.id
unfolding to_user
to_user_ok r u e =
    let (id, id_ok, rest) = parse_ok _ (bytes_to_uuid r.id) _ u e in
    let (is, uuid) = bytes_to_uuid_ok r.id id id_ok in
    let read : Uuid → User = λ v. record {
      id = v;
      email = r.email;
      name = r.name;
      password = r.password;
      created_at = r.created_at;
    } in
    let whole : read id ≡ u = cc in
    subst (λ (x : User). (r ≡ user_row x) × IsUuid x.id) whole
      ((λ i. record r { id = sym is i }), uuid)

-- A row is read as a user exactly if it is the row that the user is written as and its identifier
-- has sixteen bytes.
pub to_user_iff : (r : UserRow) (u : User) → (to_user r ≡ ok u) ↔ ((r ≡ user_row u) × IsUuid u.id)
to_user_iff r u = (to_user_ok r u, λ (is, valid). ap to_user is ∙ to_user-user_row u valid)
