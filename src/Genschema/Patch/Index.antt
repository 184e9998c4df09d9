-- ===== src/Genschema/Patch/Index.antt =====
-- `strings.Index` at a marker that begins with `<` and has no other one.
use mathlib.Core.Option.{some-injective}
use team_tasks.Base.{
  ℕ, suc, ◌+◌, ◌<◌, Bool, true, false, ◌&&◌, Option, none, some, [], ◌∷◌, ◌++◌, ◌==◌, ◌≡◌, ◌≢◌, ◌⊎◌,
  inl, inr, refl, sym, ap, ◌∙◌, arith, Bool-cases, Option-cases, and_true, length, All,
}
use team_tasks.Genschema.Text.{Bytes, has_prefix, slice_to, slice_from, index, next}

-- No byte of the text is `<`.
abbrev pub IsFree : Bytes → Type 0
IsFree s = All (λ c. c ≢ b'<') s

pub slice_to-append : (a s : Bytes) → slice_to (length a) (a ++ s) ≡ a
slice_to-append [] s = refl
slice_to-append (c ∷ a) s = ap (◌∷◌ c) (slice_to-append a s)

pub slice_from-append : (a s : Bytes) → slice_from (length a) (a ++ s) ≡ s
slice_from-append [] s = refl
slice_from-append (c ∷ a) s = slice_from-append a s

pub length-append : (a s : Bytes) → length (a ++ s) ≡ length a + length s
length-append [] s = omega arith
length-append (c ∷ a) s = omega (arith, length-append a s)

pub has_prefix-append : (p s : Bytes) → has_prefix (p ++ s) p ≡ true
has_prefix-append [] [] = refl
has_prefix-append [] (c ∷ s) = refl
has_prefix-append (x ∷ p) s = ground (arith, has_prefix-append p s)

index-prefix : (s p : Bytes) → has_prefix s p ≡ true → index s p ≡ some 0
index-prefix [] p h = rw h refl
index-prefix (c ∷ s) p h = rw h refl

pub index-append : (p s : Bytes) → index (p ++ s) p ≡ some 0
index-append p s = index-prefix (p ++ s) p (has_prefix-append p s)

-- What stands before the first match, and from the match on.
has_prefix_split : (s p : Bytes) → has_prefix s p ≡ true → (t : Bytes) × (s ≡ p ++ t)
has_prefix_split s [] h = (s, refl)
has_prefix_split [] (x ∷ p) h = cc
has_prefix_split (c ∷ s) (x ∷ p) h =
    let (first, rest) = and_true (c == x) (has_prefix s p) h in
    let same : c ≡ x = ground (arith, first) in
    let (t, e) = has_prefix_split s p rest in (t, λ i. same i ∷ e i)

abbrev pub shift : ℕ → Option ℕ → Option ℕ
shift n none = none
shift n (some i) = some (n + i)

shift_zero : (o : Option ℕ) → shift 0 o ≡ o
shift_zero none = refl
shift_zero (some i) = ap some (omega arith)

next-shift : (n : ℕ) (o : Option ℕ) → next (shift n o) ≡ shift (suc n) o
next-shift n none = refl
next-shift n (some i) = ap some (omega arith)

pub index_split :
    (s p : Bytes) (i : ℕ)
    → index s p ≡ some i
    → (a t : Bytes) × (s ≡ a ++ (p ++ t)) × (length a ≡ i)
index_split [] p i e = elim (Bool-cases (has_prefix [] p)) [
  | inl here ↦
      let (t, split) = has_prefix_split [] p here in
      let first : some 0 ≡ some i = rw here at e in ([], t, split, some-injective 0 i first)
  | inr absent ↦ let never : none ≡ some i = rw absent at e in cc
]
index_split (c ∷ s) p i e = elim (Bool-cases (has_prefix (c ∷ s) p)) [
  | inl here ↦
      let (t, split) = has_prefix_split (c ∷ s) p here in
      let first : some 0 ≡ some i = rw here at e in ([], t, split, some-injective 0 i first)
  | inr absent ↦
      let later : next (index s p) ≡ some i = rw absent at e in
      elim (Option-cases (index s p)) [
        | inl nowhere ↦ let never : none ≡ some i = rw nowhere at later in cc
        | inr (j, found) ↦
            let place : some (suc j) ≡ some i = rw found at later in
            let (a, t, split, long) = index_split s p j found in
            (c ∷ a, t, ap (◌∷◌ c) split, ap suc long ∙ some-injective (suc j) i place)
      ]
]

module _ (q : Bytes) (free : IsFree q) where
  abbrev marker : Bytes
  marker = b'<' ∷ q

  -- Whether the marker begins before the next `<` does not depend on what follows that.
  has_prefix_local :
      (p a r t : Bytes) → IsFree p → has_prefix (a ++ b'<' ∷ r) p ≡ has_prefix (a ++ b'<' ∷ t) p
  has_prefix_local [] a r t h = refl
  has_prefix_local (x ∷ p) [] r t h = ground (arith, h.0)
  has_prefix_local (x ∷ p) (c ∷ a) r t h =
      ap (λ (b : Bool). (c == x) && b) (has_prefix_local p a r t h.1)

  -- A text without `<` holds no start of the marker.
  pub index_free :
      (u v : Bytes) → IsFree u → index (u ++ v) marker ≡ shift (length u) (index v marker)
  index_free [] v h = sym (shift_zero (index v marker))
  index_free (c ∷ u) v h =
      let other : (c == b'<') ≡ false = ground (arith, h.0) in
      rw other (ap next (index_free u v h.1) ∙ next-shift (length u) (index v marker))

  -- The first match in a text before some `<`, or in what begins with it.
  pub index_local :
      (a : Bytes)
      → ((i : ℕ) × (i < length a) × ((t : Bytes) → index (a ++ b'<' ∷ t) marker ≡ some i))
        ⊎ ((t : Bytes) → index (a ++ b'<' ∷ t) marker ≡ shift (length a) (index (b'<' ∷ t) marker))
  index_local [] = inr (λ t. sym (shift_zero (index (b'<' ∷ t) marker)))
  index_local (c ∷ a) =
      let begins = λ (t : Bytes). (c == b'<') && has_prefix (a ++ b'<' ∷ t) q in
      let same : (t : Bytes) → begins t ≡ begins [] =
        λ t. ap (λ (b : Bool). (c == b'<') && b) (has_prefix_local q a t [] free) in
      elim (Bool-cases (begins [])) [
        | inl here ↦ inl (0, omega arith, λ t. rw (same t ∙ here) refl)
        | inr absent ↦ elim (index_local a) [
          | inl (i, inside, found) ↦
              inl (suc i, omega arith, λ t. rw (same t ∙ absent) (ap next (found t)))
          | inr after ↦ inr (λ t.
              rw (same t ∙ absent)
                (ap next (after t) ∙ next-shift (length a) (index (b'<' ∷ t) marker)))
        ]
      ]
