-- ===== src/Genschema/Parse/Columns.antt =====
-- The fields of a line, and the type of a column.
use team_tasks.Base.{
  ℕ, zero, suc, false, Option, none, some, List, [], ◌∷◌, ◌≡◌, ◌≢◌, inl, inr, refl, arith,
  Bool-cases, All,
}
use team_tasks.Genschema.Text.{
  Bytes, to_lower, lower, is_space, slice_to, fields, fields_from, close_field,
}
use team_tasks.Genschema.Parse.{first, cut_arguments, normalize_type}

abbrev pub IsSome : {A : Type 0} → Option A → Type 0
IsSome {A} o = (a : A) × (o ≡ some a)

-- A field of a text: it is not empty and has no space.
abbrev Solid : Bytes → Type 0
Solid s = All (λ c. is_space c ≡ false) s

abbrev pub IsField : Bytes → Type 0
IsField s = (s ≢ []) × Solid s

close_field-IsField :
    (field : Bytes) (fs : List Bytes)
    → Solid field
    → All IsField fs
    → All IsField (close_field field fs)
close_field-IsField [] fs h hs = hs
close_field-IsField (c ∷ field) fs h hs = (((λ e. cc), h), hs)

fields_from-IsField : (s : Bytes) → Solid (fields_from s).0 × All IsField (fields_from s).1
fields_from-IsField [] = (tt, tt)
fields_from-IsField (c ∷ s) =
    let (h, hs) = fields_from-IsField s in
    elim (Bool-cases (is_space c)) [
      | inl space ↦ rw space (tt, close_field-IsField _ _ h hs)
      | inr letter ↦ rw letter (((letter, h)), hs)
    ]

pub fields-IsField : (s : Bytes) → All IsField (fields s)
unfolding fields
fields-IsField s = let (h, hs) = fields_from-IsField s in close_field-IsField _ _ h hs

-- A text without a space is its own field.
fields_from-Solid : (s : Bytes) → Solid s → fields_from s ≡ (s, [])
fields_from-Solid [] h = refl
fields_from-Solid (c ∷ s) h = rw (h.0, fields_from-Solid s h.1) refl

first_field : (s : Bytes) → IsField s → IsSome (first (fields s))
unfolding fields
first_field [] h = absurd (h.0 refl)
first_field (c ∷ s) h = (c ∷ s, rw (fields_from-Solid (c ∷ s) h.1) refl)

lower-Solid : (c : ℕ) → is_space c ≡ false → is_space (lower c) ≡ false
lower-Solid c h = ground (arith, h)

to_lower-IsField : (s : Bytes) → IsField s → IsField (to_lower s)
unfolding to_lower
to_lower-IsField [] h = absurd (h.0 refl)
to_lower-IsField (c ∷ s) h = ((λ e. cc), (lower-Solid c h.1.0, solid s h.1.1))
  where
    solid : (t : Bytes) → Solid t → Solid (to_lower t)
    solid [] h = tt
    solid (d ∷ t) h = (lower-Solid d h.0, solid t h.1)

slice_to-Solid : (n : ℕ) (s : Bytes) → Solid s → Solid (slice_to n s)
slice_to-Solid zero s h = tt
slice_to-Solid (suc n) [] h = tt
slice_to-Solid (suc n) (c ∷ s) h = (h.0, slice_to-Solid n s h.1)

cut_arguments-IsField : (s : Bytes) (o : Option ℕ) → IsField s → IsField (cut_arguments s o)
cut_arguments-IsField s none h = h
cut_arguments-IsField s (some zero) h = h
cut_arguments-IsField [] (some (suc i)) h = absurd (h.0 refl)
cut_arguments-IsField (c ∷ s) (some (suc i)) h = ((λ e. cc), slice_to-Solid (suc i) (c ∷ s) h.1)

pub normalize_type-IsSome : (s : Bytes) → IsField s → IsSome (normalize_type s)
unfolding normalize_type
normalize_type-IsSome s h =
    first_field _ (cut_arguments-IsField (to_lower s) _ (to_lower-IsField s h))
