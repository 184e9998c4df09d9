-- ===== src/Mysql/Pages.antt =====
-- The pages of a list of tasks, one after the other.
use native.Mathlib.Nat.{zero-add, suc-add}
use team_tasks.Base.{
  ℕ, zero, suc, ◌+◌, ◌*◌, ◌≤◌, ◌<◌, List, [], ◌∷◌, ◌++◌, ◌≡◌, refl, sym, ap, subst, ◌∙◌, arith,
  length,
}
use team_tasks.Domain.{Task}
use team_tasks.Task.Service.{CachedList}
use team_tasks.Mysql.Query.{take, drop}

take-drop-append : (n : ℕ) (xs : List Task) → take n xs ++ drop n xs ≡ xs
take-drop-append zero xs = refl
take-drop-append (suc n) [] = refl
take-drop-append (suc n) (x ∷ xs) = ap (◌∷◌ x) (take-drop-append n xs)

drop_nil : (n : ℕ) → drop {A = Task} n [] ≡ []
drop_nil zero = refl
drop_nil (suc n) = refl

drop-drop : (m n : ℕ) (xs : List Task) → drop m (drop n xs) ≡ drop (n + m) xs
drop-drop m zero xs = rw zero-add refl
drop-drop m (suc n) [] = rw suc-add (drop_nil m)
drop-drop m (suc n) (x ∷ xs) = rw suc-add (drop-drop m n xs)

drop_all : (n : ℕ) (xs : List Task) → length xs ≤ n → drop n xs ≡ []
drop_all zero [] h = refl
drop_all zero (x ∷ xs) h = absurd (omega arith)
drop_all (suc n) [] h = refl
drop_all (suc n) (x ∷ xs) h = drop_all n xs (omega arith)

-- The pages from one on, as many as are asked for.
abbrev pub pages_from : (ℕ → CachedList) → ℕ → ℕ → List Task
pages_from found k zero = []
pages_from found k (suc n) = (found k).0 ++ pages_from found (suc k) n

pub pages_from-drop :
    (found : ℕ → CachedList) (l : ℕ) (xs : List Task) (n k m : ℕ)
    → m ≡ k + n
    → length xs ≤ m * l
    → ((i : ℕ) → i < m → (found i).0 ≡ take l (drop (i * l) xs))
    → pages_from found k n ≡ drop (k * l) xs
pages_from-drop found l xs zero k m e enough each = sym (
    let last : m ≡ k = omega arith in
    drop_all (k * l) xs (subst (λ (i : ℕ). length xs ≤ i * l) last enough))
pages_from-drop found l xs (suc n) k m e enough each =
    ap (λ (page : List Task). page ++ pages_from found (suc k) n) (each k (omega arith))
    ∙ ap (◌++◌ (take l (drop (k * l) xs))) (
        pages_from-drop found l xs n (suc k) m (omega arith) enough each
        ∙ ap (λ (i : ℕ). drop i xs) (omega arith)
        ∙ sym (drop-drop l (k * l) xs))
    ∙ take-drop-append l (drop (k * l) xs)
