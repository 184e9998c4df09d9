-- ===== src/Genschema/Parse/Captures.antt =====
-- How many groups the match of a pattern has.
use team_tasks.Base.{ℕ, suc, Option, none, some, List, [], ◌∷◌, ◌≡◌, refl, ap, length}
use team_tasks.Genschema.Text.{Bytes, is_blank}
use team_tasks.Genschema.Patterns.{
  Piece, literal, spaces, some_spaces, word, captured_word, captured_list, match_here,
  find_submatch, span, Rest, after, add_group, captured, or_later,
}

-- A match has as many groups as its pattern captures.
abbrev pub groups : List Piece → ℕ
groups [] = 0
groups (captured_word ∷ ps) = suc (groups ps)
groups (captured_list ∷ ps) = suc (groups ps)
groups (p ∷ ps) = groups ps

-- What a match may have found.
abbrev pub Captures : ℕ → Option (List Bytes) → Type 0
Captures n none = Unit
Captures n (some found) = length found ≡ n

after-Captures :
    (n : ℕ) (k : Rest) (o : Option (Bytes × Bytes))
    → ((s : Bytes) → Captures n (k s))
    → Captures n (after k o)
after-Captures n k none law = tt
after-Captures n k (some (taken, rest)) law = law rest

add_group-Captures :
    (n : ℕ) (taken : Bytes) (o : Option (List Bytes))
    → Captures n o
    → Captures (suc n) (add_group taken o)
add_group-Captures n taken none h = tt
add_group-Captures n taken (some found) h = ap suc h

captured-Captures :
    (n : ℕ) (k : Rest) (o : Option (Bytes × Bytes))
    → ((s : Bytes) → Captures n (k s))
    → Captures (suc n) (captured k o)
captured-Captures n k none law = tt
captured-Captures n k (some (taken, rest)) law = add_group-Captures n taken (k rest) (law rest)

match_here-Captures : (ps : List Piece) (s : Bytes) → Captures (groups ps) (match_here ps s)
unfolding match_here
match_here-Captures [] s = refl
match_here-Captures (literal p ∷ ps) s = after-Captures _ _ _ (match_here-Captures ps)
match_here-Captures (spaces ∷ ps) s = match_here-Captures ps (span is_blank s).1
match_here-Captures (some_spaces ∷ ps) s = after-Captures _ _ _ (match_here-Captures ps)
match_here-Captures (word ∷ ps) s = after-Captures _ _ _ (match_here-Captures ps)
match_here-Captures (captured_word ∷ ps) s = captured-Captures _ _ _ (match_here-Captures ps)
match_here-Captures (captured_list ∷ ps) s = captured-Captures _ _ _ (match_here-Captures ps)

or_later-Captures :
    (n : ℕ) (o later : Option (List Bytes))
    → Captures n o
    → Captures n later
    → Captures n (or_later o later)
or_later-Captures n none later h g = g
or_later-Captures n (some found) later h g = h

pub find_submatch-Captures :
    (ps : List Piece) (s : Bytes) → Captures (groups ps) (find_submatch ps s)
unfolding find_submatch
find_submatch-Captures ps [] = match_here-Captures ps []
find_submatch-Captures ps (c ∷ s) =
    or_later-Captures _ _ _ (match_here-Captures ps (c ∷ s)) (find_submatch-Captures ps s)
