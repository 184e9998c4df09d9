-- ===== src/Slogx/Masker.antt =====
-- `DefaultMasker` and `MaskRules` of pkg/slogx/masker.go. A Go string is its bytes; an index out of
-- its range, at which Go panics, is `none`.
use team_tasks.Base.{
  ℕ, zero, suc, ◌-◌, leb, ltb, ◌==◌, String, Option, none, some, List, [], ◌∷◌, ◌++◌, length,
  str_eq, if◌then◌else◌,
}

pub data MaskType : Type 0 where
  mask_default mask_email mask_phone mask_card mask_secret : MaskType

abbrev pub Bytes : Type 0
Bytes = List ℕ

-- `s[:n]` and `s[n:]`
unfoldable pub slice_to : ℕ → Bytes → Option Bytes
slice_to zero s = some []
slice_to (suc n) [] = none
slice_to (suc n) (c ∷ s) =
    let rest = slice_to n s in elim rest [ none ↦ none | some t ↦ some (c ∷ t) ]

unfoldable pub slice_from : ℕ → Bytes → Option Bytes
slice_from zero s = some s
slice_from (suc n) [] = none
slice_from (suc n) (c ∷ s) = slice_from n s

-- A concatenation, where each part may have panicked.
infixr 60 ◌+++◌
abbrev pub ◌+++◌ : Option Bytes → Option Bytes → Option Bytes
some a +++ some b = some (a ++ b)
_ +++ _ = none

abbrev pub add_byte : ℕ → List Bytes → List Bytes
add_byte c [] = (c ∷ []) ∷ []
add_byte c (part ∷ parts) = (c ∷ part) ∷ parts

-- `strings.Split(s, "@")`
unfoldable pub split_at : Bytes → List Bytes
split_at [] = [] ∷ []
split_at (c ∷ s) = let rest = split_at s in if c == 64 then [] ∷ rest else add_byte c rest

-- `strings.ReplaceAll(s, " ", "")`
unfoldable pub without_spaces : Bytes → Bytes
without_spaces [] = []
without_spaces (c ∷ s) = let rest = without_spaces s in if c == 32 then rest else c ∷ rest

-- "***@***", "***", "@", "*******", "**** **** ****", " **** **** "
abbrev pub no_email : Bytes
no_email = 42 ∷ 42 ∷ 42 ∷ 64 ∷ 42 ∷ 42 ∷ 42 ∷ []

abbrev pub stars3 : Bytes
stars3 = 42 ∷ 42 ∷ 42 ∷ []

abbrev pub at_sign : Bytes
at_sign = 64 ∷ []

abbrev pub stars7 : Bytes
stars7 = 42 ∷ 42 ∷ 42 ∷ 42 ∷ 42 ∷ 42 ∷ 42 ∷ []

abbrev pub stars4 : Bytes
stars4 = 42 ∷ 42 ∷ 42 ∷ 42 ∷ []

abbrev pub space : Bytes
space = 32 ∷ []

abbrev pub no_card : Bytes
no_card = stars4 ++ (space ++ (stars4 ++ (space ++ stars4)))

abbrev pub card_middle : Bytes
card_middle = space ++ (stars4 ++ (space ++ (stars4 ++ space)))

abbrev pub mask_user : Bytes → Bytes → Option Bytes
mask_user user domain =
    if leb (length user) 2
    then slice_to 1 user +++ some (stars3 ++ (at_sign ++ domain))
    else slice_to 2 user
      +++ some stars3
      +++ slice_from (length user - 1) user
      +++ some (at_sign ++ domain)

abbrev pub mask_parts : List Bytes → Option Bytes
mask_parts (user ∷ domain ∷ []) = mask_user user domain
mask_parts _ = some no_email

unfoldable pub mask_email_text : Bytes → Option Bytes
mask_email_text s = mask_parts (split_at s)

unfoldable pub mask_phone_text : Bytes → Option Bytes
mask_phone_text s =
    if ltb (length s) 8
    then some stars3
    else slice_to 4 s +++ some stars7 +++ slice_from (length s - 3) s

unfoldable pub mask_card_text : Bytes → Option Bytes
mask_card_text text =
    let s = without_spaces text in
    if ltb (length s) 12
    then some no_card
    else slice_to 4 s +++ some card_middle +++ slice_from (length s - 4) s

-- "[SECRET]" and "[MASKED]"
abbrev pub secret_mark : Bytes
secret_mark = 91 ∷ 83 ∷ 69 ∷ 67 ∷ 82 ∷ 69 ∷ 84 ∷ 93 ∷ []

abbrev pub masked_mark : Bytes
masked_mark = 91 ∷ 77 ∷ 65 ∷ 83 ∷ 75 ∷ 69 ∷ 68 ∷ 93 ∷ []

-- `Mask` of a value with its text, `fmt.Sprintf("%v", value)`.
unfoldable pub mask : Bytes → MaskType → Option Bytes
mask text mask_email = mask_email_text text
mask text mask_phone = mask_phone_text text
mask text mask_card = mask_card_text text
mask text mask_secret = some secret_mark
mask text mask_default = some masked_mark

-- `MaskMap`: the strategy of each key, if it has one.
abbrev pub MaskMap : Type 0
MaskMap = String → Option MaskType

abbrev pub new_mask_rules : MaskMap
new_mask_rules key = none

-- `MaskRules.Add`, an assignment to a key of the map.
unfoldable pub add_rule : String → MaskType → MaskMap → MaskMap
add_rule key kind rules other = if str_eq other key then some kind else rules other
