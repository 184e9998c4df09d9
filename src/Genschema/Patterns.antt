-- ===== src/Genschema/Patterns.antt =====
-- The regular expressions of scripts/genschema/main.go. In each of them what follows a repetition
-- cannot begin with what the repetition takes, so that a repetition never gives a byte back.
use team_tasks.Base.{ℕ, Bool, not, Option, none, some, List, [], ◌∷◌, ◌==◌, if◌then◌else◌}
use team_tasks.Genschema.Text.{Bytes, text, is_blank, is_word, lower}

pub data Piece : Type 0 where
  -- a text, whatever the case of its letters
  literal : Bytes → Piece
  -- `\s*` and `\s+`
  spaces some_spaces : Piece
  -- `\w+` and `(\w+)`
  word captured_word : Piece
  -- `([^)]+)`
  captured_list : Piece

-- The bytes of a class that a text begins with, and the rest.
abbrev pub span : (ℕ → Bool) → Bytes → Bytes × Bytes
span test [] = ([], [])
span test (c ∷ s) =
    let (taken, rest) = span test s in if test c then (c ∷ taken, rest) else ([], c ∷ s)

-- The literal, as it stands in the pattern, and what follows it.
abbrev pub after_literal : Bytes → Bytes → Bytes → Option (Bytes × Bytes)
after_literal p [] s = some (p, s)
after_literal p (x ∷ xs) [] = none
after_literal p (x ∷ xs) (c ∷ s) =
    let rest = after_literal p xs s in if lower x == lower c then rest else none

-- What a piece captures, and the rest.
abbrev pub nonempty : Bytes × Bytes → Option (Bytes × Bytes)
nonempty ([], rest) = none
nonempty (c ∷ taken, rest) = some (c ∷ taken, rest)

abbrev pub not_closing : ℕ → Bool
not_closing c = not (c == b')')

-- What the pieces that follow make of the rest of a text.
abbrev pub Rest : Type 0
Rest = Bytes → Option (List Bytes)

abbrev pub after : Rest → Option (Bytes × Bytes) → Option (List Bytes)
after k none = none
after k (some (taken, rest)) = k rest

abbrev pub add_group : Bytes → Option (List Bytes) → Option (List Bytes)
add_group taken none = none
add_group taken (some found) = some (taken ∷ found)

abbrev pub captured : Rest → Option (Bytes × Bytes) → Option (List Bytes)
captured k none = none
captured k (some (taken, rest)) = add_group taken (k rest)

-- The match of all pieces at the start of a text: what is captured.
unfoldable pub match_here : List Piece → Rest
match_here [] s = some []
match_here (literal p ∷ ps) s = after (match_here ps) (after_literal p p s)
match_here (spaces ∷ ps) s = match_here ps (span is_blank s).1
match_here (some_spaces ∷ ps) s = after (match_here ps) (nonempty (span is_blank s))
match_here (word ∷ ps) s = after (match_here ps) (nonempty (span is_word s))
match_here (captured_word ∷ ps) s = captured (match_here ps) (nonempty (span is_word s))
match_here (captured_list ∷ ps) s = captured (match_here ps) (nonempty (span not_closing s))

abbrev pub or_later : Option (List Bytes) → Option (List Bytes) → Option (List Bytes)
or_later none later = later
or_later (some found) later = some found

-- `FindStringSubmatch`: the groups of the first match.
unfoldable pub find_submatch : List Piece → Bytes → Option (List Bytes)
find_submatch ps [] = match_here ps []
find_submatch ps (c ∷ s) = let later = find_submatch ps s in or_later (match_here ps (c ∷ s)) later

abbrev pub re_create_table : List Piece
re_create_table = literal (text "CREATE TABLE IF NOT EXISTS ") ∷ captured_word ∷ []

abbrev pub re_pk : List Piece
re_pk =
    literal (text "PRIMARY KEY")
    ∷ spaces
    ∷ literal (text "(")
    ∷ captured_list
    ∷ literal (text ")")
    ∷ []

abbrev pub re_uk : List Piece
re_uk =
    literal (text "UNIQUE KEY ")
    ∷ word
    ∷ literal (text " (")
    ∷ captured_word
    ∷ literal (text ")")
    ∷ []

abbrev pub re_fk : List Piece
re_fk =
    literal (text "FOREIGN KEY")
    ∷ spaces
    ∷ literal (text "(")
    ∷ captured_word
    ∷ literal (text ")")
    ∷ spaces
    ∷ literal (text "REFERENCES")
    ∷ some_spaces
    ∷ captured_word
    ∷ []
