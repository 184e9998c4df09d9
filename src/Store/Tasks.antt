-- ===== src/Store/Tasks.antt =====
-- A task is looked up after its row has been updated.
use team_tasks.Base.{
  false, some, List, [], ◌∷◌, ◌≡◌, ◌≢◌, refl, ap, arith, if◌then◌else◌, Bool-cases, inl, inr,
}
use mathlib.Core.Option.{some-injective}
use team_tasks.Domain.{Task}
use team_tasks.Domain.Ids.{Uuid, uuid_eq, uuid_eq_iff}
use team_tasks.Store.{find_task, update_task, set_columns}

pub find_task-id : (id : Uuid) (ts : List Task) {t : Task} → find_task id ts ≡ some t → t.id ≡ id
unfolding find_task
find_task-id id [] e = cc
find_task-id id (u ∷ ts) {t} e = ground (arith, uuid_eq_iff u.id id, find_task-id id ts {t = t})

pub find_task-update_task :
    (new t : Task) (ts : List Task)
    → find_task new.id ts ≡ some t
    → find_task new.id (update_task new ts) ≡ some (set_columns new t)
unfolding find_task update_task
find_task-update_task new t [] found = cc
find_task-update_task new t (u ∷ ts) found = elim (Bool-cases (uuid_eq u.id new.id)) [
  | inl here ↦
      let same : some u ≡ some t = rw here at found in
      rw (here, here) (ap (λ old. some (set_columns new old)) (some-injective u t same))
  | inr other ↦
      let later : find_task new.id ts ≡ some t = rw other at found in
      rw (other, other) (find_task-update_task new t ts later)
]

pub find_task-update_other :
    (id : Uuid) (new : Task) (ts : List Task)
    → new.id ≢ id
    → find_task id (update_task new ts) ≡ find_task id ts
unfolding find_task update_task
find_task-update_other id new [] apart = refl
find_task-update_other id new (u ∷ ts) apart = elim (Bool-cases (uuid_eq u.id new.id)) [
  | inl here ↦
      let absent : uuid_eq u.id id ≡ false =
        ground (arith, here, apart, uuid_eq_iff u.id new.id, uuid_eq_iff u.id id) in
      rw (here, absent) refl
  | inr other ↦ rw other (
      ap (λ rest. if uuid_eq u.id id then some u else rest)
        (find_task-update_other id new ts apart))
]
