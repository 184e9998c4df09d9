-- ===== src/Genschema/Text.antt =====
-- What scripts/genschema/main.go uses of Go's package `strings`, at texts of ASCII: a text is its
-- bytes.
use Prim.Native.Char.{code}
use Prim.Native.String.{String}
use team_tasks.Base.{
  ℕ, zero, suc, ◌+◌, Bool, true, false, ◌&&◌, ◌||◌, Option, none, some, List, [], ◌∷◌, ◌==◌, leb,
  if◌then◌else◌,
}

abbrev pub Bytes : Type 0
Bytes = List ℕ

unfoldable pub text : String → Bytes
text String.[] = []
text (String.◌∷◌ c s) = code c ∷ text s

abbrev pub is_space : ℕ → Bool
is_space c = c == b' ' || c == b'\t' || c == b'\n' || c == 11 || c == 12 || c == 13

-- `\s` and `\w` of a regular expression
abbrev pub is_blank : ℕ → Bool
is_blank c = c == b' ' || c == b'\t' || c == b'\n' || c == 12 || c == 13

abbrev pub is_word : ℕ → Bool
is_word c =
    (leb b'a' c && leb c b'z')
    || (leb b'A' c && leb c b'Z')
    || (leb b'0' c && leb c b'9')
    || c == b'_'

abbrev pub lower : ℕ → ℕ
lower c = if leb b'A' c && leb c b'Z' then c + 32 else c

-- `strings.ToLower`
unfoldable pub to_lower : Bytes → Bytes
to_lower [] = []
to_lower (c ∷ s) = lower c ∷ to_lower s

abbrev pub same_bytes : Bytes → Bytes → Bool
same_bytes [] [] = true
same_bytes (x ∷ xs) (y ∷ ys) = x == y && same_bytes xs ys
same_bytes _ _ = false

-- `strings.HasPrefix(s, p)`
abbrev pub has_prefix : Bytes → Bytes → Bool
has_prefix s [] = true
has_prefix [] (x ∷ p) = false
has_prefix (c ∷ s) (x ∷ p) = c == x && has_prefix s p

-- `s[:i]` and `s[i:]`
abbrev pub slice_to : ℕ → Bytes → Bytes
slice_to zero s = []
slice_to (suc n) [] = []
slice_to (suc n) (c ∷ s) = c ∷ slice_to n s

abbrev pub slice_from : ℕ → Bytes → Bytes
slice_from zero s = s
slice_from (suc n) [] = []
slice_from (suc n) (c ∷ s) = slice_from n s

abbrev pub next : Option ℕ → Option ℕ
next none = none
next (some i) = some (suc i)

-- `strings.Index(s, p)`, where -1 is `none`
abbrev pub index : Bytes → Bytes → Option ℕ
index [] p = if has_prefix [] p then some 0 else none
index (c ∷ s) p = let rest = next (index s p) in if has_prefix (c ∷ s) p then some 0 else rest

abbrev add_byte : ℕ → List Bytes → List Bytes
add_byte c [] = (c ∷ []) ∷ []
add_byte c (part ∷ parts) = (c ∷ part) ∷ parts

-- `strings.Split(s, sep)` for a separator of one byte
unfoldable pub split : ℕ → Bytes → List Bytes
split sep [] = [] ∷ []
split sep (c ∷ s) = let rest = split sep s in if c == sep then [] ∷ rest else add_byte c rest

abbrev trim_left : Bytes → Bytes
trim_left [] = []
trim_left (c ∷ s) = let rest = trim_left s in if is_space c then rest else c ∷ s

abbrev trim_right : Bytes → Bytes
trim_right [] = []
trim_right (c ∷ s) = keep c (trim_right s)
  where
    keep : ℕ → Bytes → Bytes
    keep c [] = if is_space c then [] else c ∷ []
    keep c (d ∷ t) = c ∷ d ∷ t

-- `strings.TrimSpace`
unfoldable pub trim_space : Bytes → Bytes
trim_space s = trim_left (trim_right s)

abbrev pub close_field : Bytes → List Bytes → List Bytes
close_field [] fields = fields
close_field (c ∷ field) fields = (c ∷ field) ∷ fields

-- The field that a text begins with, empty where it begins with a space, and the others.
abbrev pub fields_from : Bytes → Bytes × List Bytes
fields_from [] = ([], [])
fields_from (c ∷ s) =
    let (field, fields) = fields_from s in
    if is_space c then ([], close_field field fields) else (c ∷ field, fields)

-- `strings.Fields`
unfoldable pub fields : Bytes → List Bytes
fields s = let (field, rest) = fields_from s in close_field field rest
