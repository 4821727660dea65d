-- ===== src/Base/Bits.antt =====
-- Bit masks: the mask of the C expression `n & ~(m - 1)` for a power of two `m`.
use Prim.Native.Nat.{
  ℕ, zero, suc, ◌+◌, ◌-◌, ◌*◌, ◌/◌, ◌%◌, ◌^◌, ◌≤◌, ◌<◌, min, bit_and, digits, bit_and-bitwise,
}
use mathlib.Core.Path.{◌≡◌, refl, ap, sym, ◌∙◌}
use native.Mathlib.Omega.{arith}
use native.Mathlib.Nat.{mod-eq_of_lt, div-add-mod, add-mul-mod_self_right, mod-lt, two-pow-succ}

-- The lowest `i` digits of the conjunction.
abbrev conjunction : ℕ → ℕ → ℕ → ℕ
conjunction i n m = digits (λ b. zero) min i n m

of_zero : (i m : ℕ) → conjunction i 0 m ≡ 0
of_zero zero m = refl
of_zero (suc i) m = refl

-- As many digits as the number is large are enough.
enough_digits : (i j n m : ℕ) → n ≤ i → n ≤ j → conjunction i n m ≡ conjunction j n m
enough_digits i j zero m a b = of_zero i m ∙ sym (of_zero j m)
enough_digits zero j (suc n) m a b = absurd (omega arith)
enough_digits (suc i) zero (suc n) m a b = absurd (omega arith)
enough_digits (suc i) (suc j) (suc n) m a b =
    ap (λ d. d * 2 + min (suc n % 2) (m % 2))
      (enough_digits i j (suc n / 2) (m / 2) (omega arith) (omega arith))

-- The digit at the end, and the others.
last_digit : (n m : ℕ) → bit_and n m ≡ bit_and (n / 2) (m / 2) * 2 + min (n % 2) (m % 2)
last_digit zero m = omega (arith, bit_and-bitwise 0 m, bit_and-bitwise 0 (m / 2))
last_digit (suc n) m =
    bit_and-bitwise (suc n) m
    ∙ ap (λ d. d * 2 + min (suc n % 2) (m % 2))
        (enough_digits n (suc n / 2) (suc n / 2) (m / 2) (omega arith) (omega arith)
          ∙ sym (bit_and-bitwise (suc n / 2) (m / 2)))

pub pow_pos : (k : ℕ) → 0 < 2 ^ k
pow_pos zero = omega arith
pow_pos (suc k) = omega (arith, pow_pos k, two-pow-succ k)

-- Ones in all places keep a number that has no others.
all_ones : (j n : ℕ) → n < 2 ^ j → bit_and n (2 ^ j - 1) ≡ n
all_ones zero n h =
    let none_left : n ≡ 0 = omega arith in
    omega (arith, ap (λ x. bit_and x (2 ^ 0 - 1)) none_left, bit_and-bitwise 0 (2 ^ 0 - 1))
all_ones (suc j) n h = omega (
  arith,
  last_digit n (2 ^ suc j - 1),
  two-pow-succ j,
  pow_pos j,
  ap (bit_and (n / 2)) halved,
  all_ones j (n / 2) (omega (arith, two-pow-succ j)),
)
  where
    halved : (2 ^ suc j - 1) / 2 ≡ 2 ^ j - 1
    halved = omega (arith, two-pow-succ j, pow_pos j)

-- What is left at division by `2 * m`.
mod_double : (n m : ℕ) → 0 < m → n % (m + m) ≡ (n / 2 % m) * 2 + n % 2
mod_double n m pos =
    ap (λ x. x % (m + m)) split
    ∙ add-mul-mod_self_right ((n / 2 % m) * 2 + n % 2) (n / 2 / m) (m + m)
    ∙ mod-eq_of_lt (omega (arith, mod-lt (n / 2) {m = m} pos))
  where
    split : n ≡ (n / 2 % m) * 2 + n % 2 + (n / 2 / m) * (m + m)
    split = grind (arith, div-add-mod (n / 2) m)

-- `k` zeros below `j` ones clear the lowest `k` digits.
pub bit_and_mask : (k j n : ℕ) → n < 2 ^ (k + j) → bit_and n (2 ^ (k + j) - 2 ^ k) ≡ n - n % 2 ^ k
bit_and_mask zero j n h = omega (
  arith,
  ap (λ w. bit_and n (2 ^ w - 1)) same,
  all_ones j n (omega (arith, ap (λ w. 2 ^ w) same)),
)
  where
    same : 0 + j ≡ j
    same = omega arith
bit_and_mask (suc k) j n h = omega (
  arith,
  two-pow-succ k,
  wide,
  last_digit n (2 ^ (suc k + j) - 2 ^ suc k),
  ap (bit_and (n / 2)) halved,
  bit_and_mask k j (n / 2) (omega (arith, wide)),
  ap (λ m. n % m) (two-pow-succ k),
  mod_double n (2 ^ k) (pow_pos k),
)
  where
    wide : 2 ^ (suc k + j) ≡ 2 ^ (k + j) + 2 ^ (k + j)
    wide = ap (λ w. 2 ^ w) {y = suc (k + j)} (omega arith) ∙ two-pow-succ (k + j)

    halved : (2 ^ (suc k + j) - 2 ^ suc k) / 2 ≡ 2 ^ (k + j) - 2 ^ k
    halved = omega (arith, wide, two-pow-succ k)
