-- ===== src/Base/Int.antt =====
-- Go's `int`, as an integer over the native numbers.
use Prim.Native.Nat.{ℕ, suc, ◌+◌, ◌-◌, ◌*◌, ◌%◌, ◌≤◌}
use mathlib.Core.Bool.{Bool}
use team_tasks.Base.Tests.{leb, if◌then◌else◌}

-- `negsuc n` is -(n + 1).
pub data ℤ : Type 0 where
  pos : ℕ → ℤ
  negsuc : ℕ → ℤ

abbrev pub pos_part : ℤ → ℕ
pos_part (pos n) = n
pos_part (negsuc n) = 0

abbrev pub neg_part : ℤ → ℕ
neg_part (pos n) = 0
neg_part (negsuc n) = suc n

abbrev pub sub_ℕ : ℕ → ℕ → ℤ
sub_ℕ a b = if leb b a then pos (a - b) else negsuc (b - a - 1)

infix 50 ◌≤ℤ◌
abbrev pub ◌≤ℤ◌ : ℤ → ℤ → Type 0
a ≤ℤ b = pos_part a + neg_part b ≤ pos_part b + neg_part a

abbrev pub leb_ℤ : ℤ → ℤ → Bool
leb_ℤ a b = leb (pos_part a + neg_part b) (pos_part b + neg_part a)

infixl 65 ◌-ℤ◌
infixl 70 ◌*ℤ◌
unfoldable pub ◌-ℤ◌ : ℤ → ℤ → ℤ
a -ℤ b = sub_ℕ (pos_part a + neg_part b) (neg_part a + pos_part b)

unfoldable pub ◌*ℤ◌ : ℤ → ℤ → ℤ
a *ℤ b =
    sub_ℕ (pos_part a * pos_part b + neg_part a * neg_part b)
      (pos_part a * neg_part b + neg_part a * pos_part b)

-- 2 ^ 63 and 2 ^ 64.
abbrev pub half64 : ℕ
half64 = 9_223_372_036_854_775_808

abbrev pub full64 : ℕ
full64 = 18_446_744_073_709_551_616

-- The bit pattern of an integer, and the `int` of 64 bits that a pattern stands for.
abbrev bits64 : ℤ → ℕ
bits64 (pos n) = n % full64
bits64 (negsuc n) = full64 - 1 - n % full64

abbrev signed64 : ℕ → ℤ
signed64 n = if leb half64 n then negsuc (full64 - 1 - n) else pos n

-- Go's arithmetic on `int` of 64 bits: the integer that is left after wrapping round.
unfoldable pub wrap64 : ℤ → ℤ
wrap64 a = signed64 (bits64 a)
