-- ===== src/Base/Counts.antt =====
-- A sum over the threads of a system: each thread's program counter has a weight.
use Prim.Native.Nat.{ℕ, zero, suc, ◌+◌, ◌*◌, ◌≤◌, ◌<◌}
use mathlib.Core.Path.{◌≡◌, refl}
use mathlib.Core.Logic.{◌≢◌}
use mathlib.Core.List.{List, [], ◌∷◌, ◌++◌}
use mathlib.Core.Option.{some}
use native.Mathlib.Omega.{arith}
use mathlib.Core.Bool.{Bool}
use simulating_the_functioni.Base.Lists.{get_elem?, set, replicate, length}
use simulating_the_functioni.Base.Tests.{if◌then◌else◌}

module _ {ℓ} {A : Type ℓ} (w : A → ℕ) where
  unfoldable pub total : List A → ℕ
  total [] = 0
  total (x ∷ xs) = w x + total xs

  -- One thread moves from `p` to `q`: the sum changes by the difference of their weights.
  pub total-set :
      (xs : List A) (i : ℕ) (p q : A)
      → get_elem? xs i ≡ some p
      → total (set xs i q) + w p ≡ total xs + w q
  unfolding total
  total-set [] i p q h = ground arith
  total-set (x ∷ xs) zero p q h = ground arith
  total-set (x ∷ xs) (suc i) p q h = omega (arith, total-set xs i p q h)

  pub le-total : (xs : List A) (i : ℕ) (p : A) → get_elem? xs i ≡ some p → w p ≤ total xs
  unfolding total
  le-total [] i p h = ground arith
  le-total (x ∷ xs) zero p h = ground arith
  le-total (x ∷ xs) (suc i) p h = omega (arith, le-total xs i p h)

  -- Two threads contribute both weights.
  pub add-le-total :
      (xs : List A) (i j : ℕ) (p q : A)
      → i ≢ j
      → get_elem? xs i ≡ some p
      → get_elem? xs j ≡ some q
      → w p + w q ≤ total xs
  unfolding total
  add-le-total [] i j p q ne hp hq = ground arith
  add-le-total (x ∷ xs) zero zero p q ne hp hq = absurd (ne refl)
  add-le-total (x ∷ xs) zero (suc j) p q ne hp hq = ground (arith, le-total xs j q)
  add-le-total (x ∷ xs) (suc i) zero p q ne hp hq = ground (arith, le-total xs i p)
  add-le-total (x ∷ xs) (suc i) (suc j) p q ne hp hq =
      omega (arith, add-le-total xs i j p q (λ e. ne (omega arith)) hp hq)

  -- A positive sum has a thread of positive weight.
  pub total_pos :
      (xs : List A) → 0 < total xs → (i : ℕ) × (p : A) × (get_elem? xs i ≡ some p) × (0 < w p)
  unfolding total
  total_pos [] h = absurd (omega arith)
  total_pos (x ∷ xs) h = first (w x) refl (total_pos xs)
    where
      Found : List A → Type ℓ
      Found ys = (i : ℕ) × (p : A) × (get_elem? ys i ≡ some p) × (0 < w p)

      first : (k : ℕ) → w x ≡ k → (0 < total xs → Found xs) → Found (x ∷ xs)
      first zero e later = let (i, p, g, pos) = later (omega arith) in (suc i, p, g, pos)
      first (suc k) e later = (0, x, refl, omega arith)

  pub total-append : (xs ys : List A) → total (xs ++ ys) ≡ total xs + total ys
  unfolding total
  total-append [] ys = omega arith
  total-append (x ∷ xs) ys = omega (arith, total-append xs ys)

  pub total-replicate : (n : ℕ) (p : A) → total (replicate n p) ≡ n * w p
  unfolding total
  total-replicate zero p = omega arith
  total-replicate (suc n) p = grind (arith, total-replicate n p)

module _ {ℓ} {A : Type ℓ} (w u v : A → ℕ) where
  pub total-le-add :
      ((a : A) → w a ≤ u a + v a) → (xs : List A) → total w xs ≤ total u xs + total v xs
  unfolding total
  total-le-add h [] = omega arith
  total-le-add h (x ∷ xs) = omega (arith, h x, total-le-add h xs)

module _ {ℓ} {A : Type ℓ} where
  -- How many of a list are such as `is` tells.
  abbrev pub tally : (A → Bool) → List A → ℕ
  tally is [] = 0
  tally is (p ∷ q) = (if is p then 1 else 0) + tally is q

  pub tally-append :
      (is : A → Bool) (xs ys : List A) → tally is (xs ++ ys) ≡ tally is xs + tally is ys
  tally-append is [] ys = omega arith
  tally-append is (x ∷ xs) ys = omega (arith, tally-append is xs ys)

  pub tally-le-length : (is : A → Bool) (xs : List A) → tally is xs ≤ length xs
  tally-le-length is [] = omega arith
  tally-le-length is (x ∷ xs) = ground (arith, tally-le-length is xs)
