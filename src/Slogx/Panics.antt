-- ===== src/Slogx/Panics.antt =====
-- When `Mask` of pkg/slogx/masker.go panics.
use team_tasks.Base.{
  ℕ, zero, suc, ◌-◌, ◌≤◌, leb, ltb, ◌==◌, Option, none, some, List, [], ◌∷◌, ◌++◌, ◌≡◌, ◌≢◌, ◌↔◌,
  refl, ap, subst, arith, length, All, Bool-cases, inl, inr,
}
use team_tasks.Slogx.Masker.{
  Bytes, MaskType, mask_default, mask_email, mask_phone, mask_card, mask_secret, slice_to,
  slice_from, split_at, add_byte, without_spaces, mask_user, mask_parts, mask_email_text,
  mask_phone_text, mask_card_text, mask, ◌+++◌, stars3, stars7, card_middle, at_sign,
}

-- A part that has not panicked.
abbrev Given : Option Bytes → Type 0
Given none = ⊥
Given (some b) = Unit

slice_to-Given : (n : ℕ) (s : Bytes) → n ≤ length s → Given (slice_to n s)
unfolding slice_to
slice_to-Given zero s h = tt
slice_to-Given (suc n) [] h = absurd (omega (arith, h))
slice_to-Given (suc n) (c ∷ s) h = go (slice_to n s) (slice_to-Given n s (omega (arith, h)))
  where
    go : (r : Option Bytes) → Given r → Given (elim r [ none ↦ none | some t ↦ some (c ∷ t) ])
    go none g = g
    go (some t) g = tt

slice_from-Given : (n : ℕ) (s : Bytes) → n ≤ length s → Given (slice_from n s)
unfolding slice_from
slice_from-Given zero s h = tt
slice_from-Given (suc n) [] h = absurd (omega (arith, h))
slice_from-Given (suc n) (c ∷ s) h = slice_from-Given n s (omega (arith, h))

joined-Given : (a b : Option Bytes) → Given a → Given b → Given (a +++ b)
joined-Given (some a) (some b) ga gb = tt
joined-Given (some a) none ga gb = gb
joined-Given none b ga gb = ga

not_none : (r : Option Bytes) → Given r → r ≢ none
not_none none g e = g
not_none (some b) g e = cc

phone-Given : (s : Bytes) → Given (mask_phone_text s)
unfolding mask_phone_text
phone-Given s = elim (Bool-cases (ltb (length s) 8)) [
  | inl short ↦ rw short tt
  | inr long ↦ rw long (
      joined-Given (slice_to 4 s) (some stars7 +++ slice_from (length s - 3) s)
        (slice_to-Given 4 s (ground (arith, long)))
        (joined-Given (some stars7) (slice_from (length s - 3) s) tt
          (slice_from-Given (length s - 3) s (ground (arith, long)))))
]

card-Given : (s : Bytes) → Given (mask_card_text s)
unfolding mask_card_text
card-Given text =
    let s = without_spaces text in
    elim (Bool-cases (ltb (length s) 12)) [
      | inl short ↦ rw short tt
      | inr long ↦ rw long (
          joined-Given (slice_to 4 s) (some card_middle +++ slice_from (length s - 4) s)
            (slice_to-Given 4 s (ground (arith, long)))
            (joined-Given (some card_middle) (slice_from (length s - 4) s) tt
              (slice_from-Given (length s - 4) s (ground (arith, long)))))
    ]

user-Given : (user domain : Bytes) → 1 ≤ length user → Given (mask_user user domain)
user-Given user domain h = elim (Bool-cases (leb (length user) 2)) [
  | inl short ↦ rw short (
      joined-Given (slice_to 1 user) (some (stars3 ++ (at_sign ++ domain)))
        (slice_to-Given 1 user h) tt)
  | inr long ↦ rw long (
      joined-Given (slice_to 2 user)
        (some stars3 +++ slice_from (length user - 1) user +++ some (at_sign ++ domain))
        (slice_to-Given 2 user (ground (arith, long)))
        (joined-Given (some stars3) (slice_from (length user - 1) user +++ some (at_sign ++ domain))
          tt
          (joined-Given (slice_from (length user - 1) user) (some (at_sign ++ domain))
            (slice_from-Given (length user - 1) user (ground (arith, long))) tt)))
]

-- No byte is an `@`.
abbrev pub NoAt : Bytes → Type 0
NoAt = All (λ (c : ℕ). c ≢ 64)

split_at-NoAt : (d : Bytes) → NoAt d → split_at d ≡ d ∷ []
unfolding split_at
split_at-NoAt [] h = refl
split_at-NoAt (c ∷ d) (h, hs) = let rest = split_at-NoAt d hs in rw rest (ground (arith, h))

add_byte_one :
    (c : ℕ) (rest : List Bytes) (d : Bytes)
    → rest ≢ []
    → add_byte c rest ≡ d ∷ []
    → (e : Bytes) × (rest ≡ e ∷ []) × (c ∷ e ≡ d)
add_byte_one c [] d h is = absurd (h refl)
add_byte_one c (p ∷ []) d h is = (p, refl, cc)
add_byte_one c (p ∷ q ∷ ps) d h is = cc

nil_ne_cons : {x : Bytes} {xs : List Bytes} → x ∷ xs ≢ []
nil_ne_cons e = cc

add_byte-ne : (c : ℕ) (rest : List Bytes) → add_byte c rest ≢ []
add_byte-ne c [] e = cc
add_byte-ne c (p ∷ ps) e = cc

split_at-ne : (s : Bytes) → split_at s ≢ []
unfolding split_at
split_at-ne [] e = cc
split_at-ne (c ∷ s) e = elim (Bool-cases (c == 64)) [
  | inl sign ↦ nil_ne_cons (rw sign at e)
  | inr other ↦ add_byte-ne c (split_at s) (rw other at e)
]

tail_nil : {x y : Bytes} {xs : List Bytes} → x ∷ xs ≡ y ∷ [] → xs ≡ []
tail_nil e = cc

tails : {x y : Bytes} {xs ys : List Bytes} → x ∷ xs ≡ y ∷ ys → xs ≡ ys
tails e = cc

added_ne : (c : ℕ) (rest : List Bytes) {ys : List Bytes} → add_byte c rest ≢ [] ∷ ys
added_ne c [] e = cc
added_ne c (p ∷ ps) e = cc

split_one : (s d : Bytes) → split_at s ≡ d ∷ [] → (s ≡ d) × NoAt d
unfolding split_at
split_one [] [] is = (refl, tt)
split_one [] (x ∷ d) is = cc
split_one (c ∷ s) d is = elim (Bool-cases (c == 64)) [
  | inl sign ↦ absurd (split_at-ne s (tail_nil (rw sign at is)))
  | inr other ↦
      let (e, rest, whole) = add_byte_one c (split_at s) d (split_at-ne s) (rw other at is) in
      let (same, clean) = split_one s e rest in
      subst (λ (x : Bytes). (c ∷ s ≡ x) × NoAt x) whole
        (ap (λ (t : Bytes). c ∷ t) same, (ground (arith, other), clean))
]

split_two : (s d : Bytes) → split_at s ≡ [] ∷ d ∷ [] → (s ≡ 64 ∷ d) × NoAt d
unfolding split_at
split_two [] d is = cc
split_two (c ∷ s) d is = elim (Bool-cases (c == 64)) [
  | inl sign ↦
      let (same, clean) = split_one s d (tails (rw sign at is)) in
      let byte : c ≡ 64 = ground (arith, sign) in (λ i. byte i ∷ same i, clean)
  | inr other ↦ absurd (added_ne c (split_at s) (rw other at is))
]

parts_none : (parts : List Bytes) → mask_parts parts ≡ none → (d : Bytes) × (parts ≡ [] ∷ d ∷ [])
parts_none [] e = cc
parts_none (u ∷ []) e = cc
parts_none ([] ∷ d ∷ []) e = (d, refl)
parts_none ((c ∷ u) ∷ d ∷ []) e = absurd (not_none _ (user-Given (c ∷ u) d (omega arith)) e)
parts_none (u ∷ d ∷ f ∷ ps) e = cc

-- A value whose text begins with its only `@`.
abbrev pub HasNoUser : Bytes → Type 0
HasNoUser text = (domain : Bytes) × (text ≡ 64 ∷ domain) × NoAt domain

email_panics : (d : Bytes) → NoAt d → mask_email_text (64 ∷ d) ≡ none
unfolding mask_email_text split_at slice_to
email_panics d clean = let rest = split_at-NoAt d clean in rw rest refl

-- Masking a value panics exactly if it is masked as an email and its text begins with its only `@`;
-- every other value is masked, whatever its text and strategy.
pub mask-panics :
    (text : Bytes) (kind : MaskType)
    → (mask text kind ≡ none) ↔ ((kind ≡ mask_email) × HasNoUser text)
unfolding mask mask_email_text
mask-panics text mask_email = (
  λ e.
      let (d, parts) = parts_none (split_at text) e in
      let (is, clean) = split_two text d parts in (refl, (d, is, clean)),
  λ h. let (d, is, clean) = h.1 in rw is (email_panics d clean),
)
mask-panics text mask_phone = (λ e. absurd (not_none _ (phone-Given text) e), λ h. cc)
mask-panics text mask_card = (λ e. absurd (not_none _ (card-Given text) e), λ h. cc)
mask-panics text mask_secret = (λ e. cc, λ h. cc)
mask-panics text mask_default = (λ e. cc, λ h. cc)
