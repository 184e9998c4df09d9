-- ===== src/Base/Ordered.antt =====
-- Lists in falling order of a key: two of them with the same members are equal if no key occurs
-- twice.
use Prim.Native.Nat.{ℕ, suc, ◌≤◌, ◌<◌}
use mathlib.Core.Path.{◌≡◌, refl, sym, ap, subst, ◌∙◌}
use mathlib.Core.Logic.{◌≢◌, ◌↔◌, ◌⊎◌, inl, inr}
use mathlib.Core.List.{List, [], ◌∷◌, Memᴰ, Permᴰ}
use mathlib.Core.List.Memᴰ
use mathlib.Core.List.Permᴰ
use native.Mathlib.Omega.{arith}
use team_tasks.Base.Lists.{All, length}

module _ {ℓ κ} {A : Type ℓ} (P : A → Type κ) where
  pub All-Mem : {a : A} {xs : List A} → All P xs → Memᴰ a xs → P a
  All-Mem {a} h (Memᴰ.head e) = subst P (sym e) h.0
  All-Mem h (Memᴰ.tail m) = All-Mem h.1 m

  pub All-Perm : {xs ys : List A} → Permᴰ xs ys → All P xs → All P ys
  All-Perm Permᴰ.nil h = h
  All-Perm (Permᴰ.cons e p) h = (subst P e h.0, All-Perm p h.1)
  All-Perm (Permᴰ.swap e f) h = (subst P f h.1.0, (subst P e h.0, h.1.1))
  All-Perm (Permᴰ.trans p q) h = All-Perm q (All-Perm p h)

module _ {ℓ} {A : Type ℓ} where
  pub Perm-Mem : {a : A} {xs ys : List A} → Permᴰ xs ys → Memᴰ a xs → Memᴰ a ys
  Perm-Mem Permᴰ.nil m = m
  Perm-Mem (Permᴰ.cons e p) (Memᴰ.head f) = Memᴰ.head (f ∙ e)
  Perm-Mem (Permᴰ.cons e p) (Memᴰ.tail m) = Memᴰ.tail (Perm-Mem p m)
  Perm-Mem (Permᴰ.swap e f) (Memᴰ.head g) = Memᴰ.tail (Memᴰ.head (g ∙ e))
  Perm-Mem (Permᴰ.swap e f) (Memᴰ.tail (Memᴰ.head g)) = Memᴰ.head (g ∙ f)
  Perm-Mem (Permᴰ.swap e f) (Memᴰ.tail (Memᴰ.tail m)) = Memᴰ.tail (Memᴰ.tail m)
  Perm-Mem (Permᴰ.trans p q) m = Perm-Mem q (Perm-Mem p m)

  pub length-Perm : {xs ys : List A} → Permᴰ xs ys → length xs ≡ length ys
  length-Perm Permᴰ.nil = refl
  length-Perm (Permᴰ.cons e p) = ap suc (length-Perm p)
  length-Perm (Permᴰ.swap e f) = refl
  length-Perm (Permᴰ.trans p q) = length-Perm p ∙ length-Perm q

module _ {ℓ} {A : Type ℓ} (key : A → ℕ) where
  abbrev pub IsFalling : List A → Type ℓ
  IsFalling [] = Unit
  IsFalling (x ∷ xs) = All (λ y. key y ≤ key x) xs × IsFalling xs

  abbrev pub HasDistinct : List A → Type ℓ
  HasDistinct [] = Unit
  HasDistinct (x ∷ xs) = All (λ y. key y ≢ key x) xs × HasDistinct xs

  HasDistinct-Perm : {xs ys : List A} → Permᴰ xs ys → HasDistinct xs → HasDistinct ys
  HasDistinct-Perm Permᴰ.nil h = h
  HasDistinct-Perm (Permᴰ.cons {l₁ = l} e p) h =
      (All-Perm _ p (subst (λ a. All (λ y. key y ≢ key a) l) e h.0), HasDistinct-Perm p h.1)
  HasDistinct-Perm (Permᴰ.swap {a} {b} {a'} {b'} {l} e f) h = (
    (
      (λ k. h.0.0 (ap key f ∙ sym k ∙ ap key (sym e))),
      subst (λ c. All (λ y. key y ≢ key c) l) f h.1.0,
    ),
    (subst (λ c. All (λ y. key y ≢ key c) l) e h.0.1, h.1.1),
  )
  HasDistinct-Perm (Permᴰ.trans p q) h = HasDistinct-Perm q (HasDistinct-Perm p h)

  -- The rest of a list in falling order stands below its head.
  below :
      {x y : A} {xs : List A}
      → IsFalling (x ∷ xs)
      → HasDistinct (x ∷ xs)
      → Memᴰ y xs
      → key y < key x
  below falls distinct m =
      let small = All-Mem _ falls.0 m in let other = All-Mem _ distinct.0 m in omega arith

  same_heads :
      {x y : A} {xs ys : List A}
      → IsFalling (x ∷ xs)
      → HasDistinct (x ∷ xs)
      → IsFalling (y ∷ ys)
      → HasDistinct (y ∷ ys)
      → (x ≡ y) ⊎ Memᴰ x ys
      → (y ≡ x) ⊎ Memᴰ y xs
      → x ≡ y
  same_heads fx dx fy dy (inl e) m = e
  same_heads fx dx fy dy (inr n) (inl e) = sym e
  same_heads fx dx fy dy (inr n) (inr m) =
      let lower = below fx dx m in let upper = below fy dy n in absurd (omega arith)

  in_rest : {x y z : A} {ys : List A} → x ≡ y → key z < key x → (z ≡ y) ⊎ Memᴰ z ys → Memᴰ z ys
  in_rest e less (inl f) = let same = ap key f in let heads = ap key e in absurd (omega arith)
  in_rest e less (inr m) = m

  falling_unique :
      (xs ys : List A)
      → IsFalling xs
      → HasDistinct xs
      → IsFalling ys
      → HasDistinct ys
      → ((z : A) → Memᴰ z xs ↔ Memᴰ z ys)
      → xs ≡ ys
  falling_unique [] [] fx dx fy dy h = refl
  falling_unique [] (y ∷ ys) fx dx fy dy h = absurd (Memᴰ.not-nil ((h y).1 (Memᴰ.head refl)))
  falling_unique (x ∷ xs) [] fx dx fy dy h = absurd (Memᴰ.not-nil ((h x).0 (Memᴰ.head refl)))
  falling_unique (x ∷ xs) (y ∷ ys) fx dx fy dy h =
      let e =
        same_heads fx dx fy dy (Memᴰ.cases_cons ((h x).0 (Memᴰ.head refl)))
          (Memᴰ.cases_cons ((h y).1 (Memᴰ.head refl))) in
      let rest = falling_unique xs ys fx.1 dx.1 fy.1 dy.1 (λ z. (
        λ m. in_rest e (below fx dx m) (Memᴰ.cases_cons ((h z).0 (Memᴰ.tail m))),
        λ m. in_rest (sym e) (below fy dy m) (Memᴰ.cases_cons ((h z).1 (Memᴰ.tail m))),
      )) in
      λ i. e i ∷ rest i

  -- Two falling orders of one list with distinct keys are the same.
  pub falling-eq :
      {xs ys zs : List A}
      → HasDistinct zs
      → Permᴰ xs zs
      → IsFalling xs
      → Permᴰ ys zs
      → IsFalling ys
      → xs ≡ ys
  falling-eq {xs} {ys} distinct p fx q fy =
      falling_unique xs ys fx (HasDistinct-Perm (Permᴰ.symm p) distinct) fy
        (HasDistinct-Perm (Permᴰ.symm q) distinct)
        (λ z. (
          λ m. Perm-Mem (Permᴰ.symm q) (Perm-Mem p m),
          λ m. Perm-Mem (Permᴰ.symm p) (Perm-Mem q m),
        ))
