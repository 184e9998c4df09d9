-- ===== src/Memory/Order.antt =====
-- Tasks sorted by insertion, the latest first: an order in which MySQL may list them.
use mathlib.Core.List.{Permᴰ}
use mathlib.Core.List.Permᴰ
use team_tasks.Base.{
  ℕ, ◌≤◌, List, [], ◌∷◌, refl, arith, leb, if◌then◌else◌, Bool-cases, inl, inr, All,
}
use team_tasks.Base.Ordered.{IsFalling, All-Perm}
use team_tasks.Domain.{Task}
use team_tasks.Mysql.Query.{IsOrder}

unfoldable pub insert_task : Task → List Task → List Task
insert_task t [] = t ∷ []
insert_task t (u ∷ us) =
    let rest = insert_task t us in if leb u.created_at t.created_at then t ∷ u ∷ us else u ∷ rest

unfoldable pub latest_first : List Task → List Task
latest_first [] = []
latest_first (t ∷ ts) = insert_task t (latest_first ts)

insert_task-Perm : (t : Task) (ts : List Task) → Permᴰ (insert_task t ts) (t ∷ ts)
unfolding insert_task
insert_task-Perm t [] = Permᴰ.refl _
insert_task-Perm t (u ∷ us) = elim (Bool-cases (leb u.created_at t.created_at)) [
  | inl small ↦ rw small (Permᴰ.refl _)
  | inr large ↦
      rw large (Permᴰ.trans (Permᴰ.cons refl (insert_task-Perm t us)) (Permᴰ.swap refl refl))
]

latest_first-Perm : (ts : List Task) → Permᴰ (latest_first ts) ts
unfolding latest_first
latest_first-Perm [] = Permᴰ.nil
latest_first-Perm (t ∷ ts) =
    Permᴰ.trans (insert_task-Perm t _) (Permᴰ.cons refl (latest_first-Perm ts))

abbrev created : Task → ℕ
created t = t.created_at

below_trans :
    (m n : ℕ) (ts : List Task) → m ≤ n → All (λ u. created u ≤ m) ts → All (λ u. created u ≤ n) ts
below_trans m n [] h below = tt
below_trans m n (t ∷ ts) h below = (omega arith, below_trans m n ts h below.1)

insert_task-IsFalling :
    (t : Task) (ts : List Task) → IsFalling created ts → IsFalling created (insert_task t ts)
unfolding insert_task
insert_task-IsFalling t [] falls = (tt, tt)
insert_task-IsFalling t (u ∷ us) falls = elim (Bool-cases (leb u.created_at t.created_at)) [
  | inl small ↦
      let low : u.created_at ≤ t.created_at = ground arith in
      rw small (((low, below_trans u.created_at t.created_at us low falls.0)), falls)
  | inr large ↦
      let high : t.created_at ≤ u.created_at = ground arith in
      let below =
        All-Perm (λ v. created v ≤ created u) (Permᴰ.symm (insert_task-Perm t us))
          (high, falls.0) in
      rw large (below, insert_task-IsFalling t us falls.1)
]

latest_first-IsFalling : (ts : List Task) → IsFalling created (latest_first ts)
unfolding latest_first
latest_first-IsFalling [] = tt
latest_first-IsFalling (t ∷ ts) = insert_task-IsFalling t _ (latest_first-IsFalling ts)

pub latest_first-IsOrder : IsOrder (λ f. latest_first)
latest_first-IsOrder = record {
  perm = λ f ts. latest_first-Perm ts;
  falling = λ f ts. latest_first-IsFalling ts;
}
