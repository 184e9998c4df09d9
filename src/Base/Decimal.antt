-- ===== src/Base/Decimal.antt =====
-- The verb `%d` of Go's fmt: an integer in decimal.
use Prim.Native.Nat.{ℕ, zero, suc, ◌+◌, ◌-◌, ◌*◌, ◌/◌, ◌%◌, ◌<◌}
use Prim.Native.Char.{Char, code}
use Prim.Native.String.{String, [], ◌∷◌}
use mathlib.Core.Path.{◌≡◌, sym, ap, ◌∙◌}
use mathlib.Core.Logic.{◌≢◌, inl, inr}
use native.Mathlib.Omega.{arith}
use text.Mathlib.TextLemmas.{cons-eq-cons}
use team_tasks.Base.Tests.{ltb, if◌then◌else◌, Bool-cases}
use team_tasks.Base.Int.{ℤ, pos, negsuc}
use team_tasks.Base.Texts.{NoColon}

digit : ℕ → Char
digit zero = "0"
digit (suc zero) = "1"
digit (suc (suc zero)) = "2"
digit (suc (suc (suc zero))) = "3"
digit (suc (suc (suc (suc zero)))) = "4"
digit (suc (suc (suc (suc (suc zero))))) = "5"
digit (suc (suc (suc (suc (suc (suc zero)))))) = "6"
digit (suc (suc (suc (suc (suc (suc (suc zero))))))) = "7"
digit (suc (suc (suc (suc (suc (suc (suc (suc zero)))))))) = "8"
digit (suc (suc (suc (suc (suc (suc (suc (suc (suc _))))))))) = "9"

code-digit : (n : ℕ) → n < 10 → code (digit n) ≡ b'0' + n
unfolding digit
code-digit zero h = omega arith
code-digit (suc zero) h = omega arith
code-digit (suc (suc zero)) h = omega arith
code-digit (suc (suc (suc zero))) h = omega arith
code-digit (suc (suc (suc (suc zero)))) h = omega arith
code-digit (suc (suc (suc (suc (suc zero))))) h = omega arith
code-digit (suc (suc (suc (suc (suc (suc zero)))))) h = omega arith
code-digit (suc (suc (suc (suc (suc (suc (suc zero))))))) h = omega arith
code-digit (suc (suc (suc (suc (suc (suc (suc (suc zero)))))))) h = omega arith
code-digit (suc (suc (suc (suc (suc (suc (suc (suc (suc n))))))))) h = omega arith

-- The digits of `n` in front of `out`; more fuel than `n` is enough.
decimal_from : ℕ → ℕ → String → String
decimal_from zero n out = out
decimal_from (suc f) n out =
    let rest = decimal_from f (n / 10) (digit (n % 10) ∷ out) in
    if ltb n 10 then digit n ∷ out else rest

decimal_ℕ : ℕ → String
unfolding decimal_from digit
decimal_ℕ n = decimal_from (suc n) n ""

unfoldable pub decimal : ℤ → String
unfolding decimal_ℕ
decimal (pos n) = decimal_ℕ n
decimal (negsuc n) = "-" ∷ decimal_ℕ (suc n)

-- The number that digits stand for, behind those already read.
abbrev value : ℕ → String → ℕ
value acc [] = acc
value acc (c ∷ s) = value (acc * 10 + (code c - b'0')) s

value-decimal_from : (f n : ℕ) (out : String) → n < f → value 0 (decimal_from f n out) ≡ value n out
unfolding decimal_from
value-decimal_from zero n out h = elim h [ ]
value-decimal_from (suc f) n out h = elim (Bool-cases (ltb n 10)) [
  | inl small ↦ rw small (ap (λ k. value k out) (ground (arith, code-digit n)))
  | inr large ↦ rw large (
      value-decimal_from f (n / 10) (digit (n % 10) ∷ out) (ground arith)
      ∙ ap (λ k. value k out) (ground (arith, code-digit (n % 10))))
]

decimal_ℕ-injective : (m n : ℕ) → decimal_ℕ m ≡ decimal_ℕ n → m ≡ n
unfolding decimal_ℕ
decimal_ℕ-injective m n e =
    sym (value-decimal_from (suc m) m "" (omega arith))
    ∙ ap (value 0) e
    ∙ value-decimal_from (suc n) n "" (omega arith)

decimal_from-NoColon : (f n : ℕ) (out : String) → NoColon out → NoColon (decimal_from f n out)
unfolding decimal_from
decimal_from-NoColon zero n out h = h
decimal_from-NoColon (suc f) n out h = elim (Bool-cases (ltb n 10)) [
  | inl small ↦ rw small (ground (arith, code-digit n), h)
  | inr large ↦ rw large (
      decimal_from-NoColon f (n / 10) (digit (n % 10) ∷ out)
        (ground (arith, code-digit (n % 10)), h))
]

-- The text begins with a digit, so not with a sign.
abbrev Unsigned : String → Type 0
Unsigned [] = ⊥
Unsigned (c ∷ s) = code c ≢ b'-'

decimal_from-Unsigned : (f n : ℕ) (out : String) → n < f → Unsigned (decimal_from f n out)
unfolding decimal_from
decimal_from-Unsigned zero n out h = elim h [ ]
decimal_from-Unsigned (suc f) n out h = elim (Bool-cases (ltb n 10)) [
  | inl small ↦ rw small (ground (arith, code-digit n))
  | inr large ↦ rw large (decimal_from-Unsigned f (n / 10) (digit (n % 10) ∷ out) (ground arith))
]

decimal_ℕ-Unsigned : (n : ℕ) → Unsigned (decimal_ℕ n)
unfolding decimal_ℕ
decimal_ℕ-Unsigned n = decimal_from-Unsigned (suc n) n "" (omega arith)

signed_ne : (s t : String) → Unsigned s → s ≢ "-" ∷ t
signed_ne [] t h e = h
signed_ne (c ∷ s) t h e = h (ap code (cons-eq-cons.0 e).0)

-- Two integers with the same decimal form are equal.
pub decimal-injective : (m n : ℤ) → decimal m ≡ decimal n → m ≡ n
unfolding decimal
decimal-injective (pos m) (pos n) e = ap pos (decimal_ℕ-injective m n e)
decimal-injective (pos m) (negsuc n) e = absurd (signed_ne _ _ (decimal_ℕ-Unsigned m) e)
decimal-injective (negsuc m) (pos n) e = absurd (signed_ne _ _ (decimal_ℕ-Unsigned n) (sym e))
decimal-injective (negsuc m) (negsuc n) e =
    let same = decimal_ℕ-injective (suc m) (suc n) (cons-eq-cons.0 e).1 in
    ap negsuc (omega (arith, same))

pub decimal-NoColon : (n : ℤ) → NoColon (decimal n)
unfolding decimal decimal_ℕ
decimal-NoColon (pos n) = decimal_from-NoColon (suc n) n "" tt
decimal-NoColon (negsuc n) = (omega arith, decimal_from-NoColon (suc (suc n)) (suc n) "" tt)
