-- ===== src/Mysql/Paging.antt =====
-- The offset of a page in `ListTasks` of internal/storage/mysql/task.go, in Go's `int` of 64 bits.
use team_tasks.Base.{
  ℕ, suc, pos, negsuc, ◌-◌, ◌*◌, ◌≤◌, ◌<◌, ◌≡◌, refl, arith, ◌∙◌, if◌then◌else◌, ltb, Bool-cases,
  inl, inr,
}
use team_tasks.Base.Int.{half64, full64, wrap64, ◌-ℤ◌, ◌*ℤ◌}
use team_tasks.Mysql.Storage.Tasks.{offset}

wrap64-small : (n : ℕ) → n < half64 → wrap64 (pos n) ≡ pos n
unfolding wrap64
wrap64-small n h = ground (arith, h)

wrap64-large : (n : ℕ) → half64 ≤ n → n < full64 → wrap64 (pos n) ≡ negsuc (full64 - 1 - n)
unfolding wrap64
wrap64-large n h g = ground (arith, h, g)

pred_lem : (n : ℕ) → pos (suc n) -ℤ pos 1 ≡ pos n
unfolding ◌-ℤ◌
pred_lem n = ground arith

product_lem : (n l : ℕ) → pos n *ℤ pos l ≡ pos (n * l)
unfolding ◌*ℤ◌
product_lem n l = ground arith

offset_lem : (n l : ℕ) → n < half64 → offset (pos (suc n)) (pos l) ≡ wrap64 (pos (n * l))
unfolding offset
offset_lem n l h = rw (pred_lem n, wrap64-small n h, product_lem n l) refl

-- The offset of the page after `n` others of `l` rows is the number of their rows as long as that
-- is an `int` of 64 bits, and a negative number from there on, where the number has 64 bits.
pub offset-pages :
    (n l : ℕ)
    → n < half64
    → n * l < full64
    → offset (pos (suc n)) (pos l)
      ≡ (if ltb (n * l) half64 then pos (n * l) else negsuc (full64 - 1 - n * l))
offset-pages n l h fits = elim (Bool-cases (ltb (n * l) half64)) [
  | inl small ↦ rw small (offset_lem n l h ∙ wrap64-small (n * l) (ground (arith, small)))
  | inr large ↦ rw large (offset_lem n l h ∙ wrap64-large (n * l) (ground (arith, large)) fits)
]
