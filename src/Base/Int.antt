-- ===== src/Base/Int.antt =====
-- Signed integers, for the few `int` variables of the program that go below zero.
use Prim.Native.Nat.{ℕ, suc, ◌+◌, ◌-◌, ◌%◌, ◌<◌}
use mathlib.Core.Path.{◌≡◌, ap}
use native.Mathlib.Omega.{arith}
use simulating_the_functioni.Base.Tests.{leb, if◌then◌else◌}

-- `negsuc n` is -(n + 1).
pub data ℤ : Type 0 where
  pos : ℕ → ℤ
  negsuc : ℕ → ℤ

abbrev pub pos_part : ℤ → ℕ
pos_part (pos n) = n
pos_part (negsuc n) = 0

abbrev pub neg_part : ℤ → ℕ
neg_part (pos n) = 0
neg_part (negsuc n) = suc n

-- a - b, as an integer.
abbrev pub sub_ℕ : ℕ → ℕ → ℤ
sub_ℕ a b = if leb b a then pos (a - b) else negsuc (b - a - 1)

infixl 65 ◌+ℤ◌ ◌-ℤ◌
unfoldable pub ◌+ℤ◌ : ℤ → ℤ → ℤ
a +ℤ b = sub_ℕ (pos_part a + pos_part b) (neg_part a + neg_part b)

unfoldable pub ◌-ℤ◌ : ℤ → ℤ → ℤ
a -ℤ b = sub_ℕ (pos_part a + neg_part b) (neg_part a + pos_part b)

-- C's `%` by a positive number takes the sign of its left side.
unfoldable pub rem_ℤ : ℤ → ℕ → ℤ
rem_ℤ (pos n) m = pos (n % m)
rem_ℤ (negsuc n) m = sub_ℕ 0 (suc n % m)

-- One step on and one step back, round a capacity.
pub rem-succ : (r m : ℕ) → rem_ℤ (pos r +ℤ pos 1) m ≡ pos ((r + 1) % m)
unfolding rem_ℤ ◌+ℤ◌
rem-succ r m = ground arith

pub rem-pred : (r m : ℕ) → 0 < m → rem_ℤ (pos r -ℤ pos 1 +ℤ pos m) m ≡ pos ((r + (m - 1)) % m)
unfolding rem_ℤ ◌+ℤ◌ ◌-ℤ◌
rem-pred r m h = ap (λ x. rem_ℤ x m) back
  where
    back : pos r -ℤ pos 1 +ℤ pos m ≡ pos (r + (m - 1))
    back = ground arith
