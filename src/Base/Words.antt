-- ===== src/Base/Words.antt =====
-- uint64_t and size_t arithmetic.
use Prim.Native.Nat.{ℕ, ◌+◌, ◌-◌, ◌%◌, ◌^◌, ◌<◌}
use mathlib.Core.Path.{◌≡◌}
use native.Mathlib.Omega.{arith}

abbrev pub u64 : ℕ → ℕ
u64 n = n % 2 ^ 64

abbrev pub sub_u64 : ℕ → ℕ → ℕ
sub_u64 a b = (a + 2 ^ 64 - b) % 2 ^ 64

-- `~n`
abbrev pub not_u64 : ℕ → ℕ
not_u64 n = 2 ^ 64 - 1 - n

-- Differences of 64-bit times add up, modulo 2 ^ 64.
pub telescope :
    (start current ended : ℕ)
    → start < 2 ^ 64
    → current < 2 ^ 64
    → ended < 2 ^ 64
    → sub_u64 ended start ≡ u64 (sub_u64 current start + sub_u64 ended current)
telescope start current ended s c e = omega arith
