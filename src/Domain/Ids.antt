-- ===== src/Domain/Ids.antt =====
-- `uuid.UUID`, an array of sixteen bytes, with Go's `==` on it. The array's size is the predicate
-- `IsUuid`, where a proof needs it.
use team_tasks.Base.{
  ℕ, ◌≡◌, refl, ◌↔◌, Bool, true, false, ◌&&◌, List, [], ◌∷◌, arith, length, ◌==◌, ap,
}

pub record Uuid : Type 0 where
  pub bytes : List ℕ

abbrev pub IsUuid : Uuid → Type 0
IsUuid id = length id.bytes ≡ 16

-- Go's `==` on arrays, byte by byte.
bytes_eq : List ℕ → List ℕ → Bool
bytes_eq [] [] = true
bytes_eq (x ∷ xs) (y ∷ ys) = x == y && bytes_eq xs ys
bytes_eq _ _ = false

unfoldable pub uuid_eq : Uuid → Uuid → Bool
unfolding bytes_eq
uuid_eq a b = bytes_eq a.bytes b.bytes

bytes_eq_iff : (xs ys : List ℕ) → (bytes_eq xs ys ≡ true) ↔ (xs ≡ ys)
unfolding bytes_eq
bytes_eq_iff [] [] = ground arith
bytes_eq_iff [] (y ∷ ys) = ground arith
bytes_eq_iff (x ∷ xs) [] = ground arith
bytes_eq_iff (x ∷ xs) (y ∷ ys) = ground (arith, bytes_eq_iff xs ys)

pub uuid_eq_iff : (a b : Uuid) → (uuid_eq a b ≡ true) ↔ (a ≡ b)
unfolding uuid_eq
uuid_eq_iff a b =
    let both = bytes_eq_iff a.bytes b.bytes in
    (λ h. ap (λ bs. record { bytes = bs }) (both.0 h), λ e. both.1 (ap (λ id. id.bytes) e))

pub uuid_eq_refl : (a : Uuid) → uuid_eq a a ≡ true
uuid_eq_refl a = (uuid_eq_iff a a).1 refl
