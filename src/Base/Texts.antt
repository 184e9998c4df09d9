-- ===== src/Base/Texts.antt =====
-- Facts about texts: cutting at a separator, and the decimal form of a number.
use Prim.Native.Char.{Char, code}
use Prim.Native.String.{String, [], ◌∷◌, ◌++◌}
use mathlib.Core.Path.{◌≡◌, refl, sym, ap, ◌∙◌}
use mathlib.Core.Logic.{◌≢◌}
use text.Mathlib.TextLemmas.{nil-append, cons-append, cons-eq-cons}

-- No character of the text is a colon.
abbrev pub NoColon : String → Type 0
NoColon [] = Unit
NoColon (c ∷ s) = (code c ≢ b':') × NoColon s

abbrev colon : Char
colon = ":"

colon-append : (u : String) → ":" ++ u ≡ colon ∷ u
colon-append u = cons-append colon [] u ∙ ap (λ s. colon ∷ s) (nil-append u)

colon_ne : (c : Char) → code c ≢ b':' → colon ≢ c
colon_ne c h e = h (sym (ap code e))

-- A text with no colon ends where the first colon stands.
pub cut_at_colon :
    (s t u v : String)
    → NoColon s
    → NoColon t
    → s ++ (":" ++ u) ≡ t ++ (":" ++ v)
    → (s ≡ t) × (u ≡ v)
cut_at_colon [] [] u v hs ht e =
    let e' : (":" ++ u) ≡ (":" ++ v) = sym (nil-append _) ∙ e ∙ nil-append _ in
    (refl, (cons-eq-cons.0 (sym (colon-append u) ∙ e' ∙ colon-append v)).1)
cut_at_colon [] (d ∷ t) u v hs ht e =
    let e' = sym (colon-append u) ∙ sym (nil-append _) ∙ e ∙ cons-append d t _ in
    absurd (colon_ne d ht.0 (cons-eq-cons.0 e').0)
cut_at_colon (c ∷ s) [] u v hs ht e =
    let e' = sym (colon-append v) ∙ sym (nil-append _) ∙ sym e ∙ cons-append c s _ in
    absurd (colon_ne c hs.0 (cons-eq-cons.0 e').0)
cut_at_colon (c ∷ s) (d ∷ t) u v hs ht e =
    let (same, rest) = cons-eq-cons.0 (sym (cons-append c s _) ∙ e ∙ cons-append d t _) in
    let (tails, ends) = cut_at_colon s t u v hs.1 ht.1 rest in (cons-eq-cons.1 (same, tails), ends)
