-- ===== src/Base/Shift.antt =====
-- The loop that closes the gap which a removed element leaves in an array.
use Prim.Native.Nat.{ℕ, zero, suc, ◌-◌, ◌<◌}
use mathlib.Core.Path.{◌≡◌, refl, ap, ◌∙◌}
use mathlib.Core.List.{List, [], ◌∷◌}
use mathlib.Core.Logic.{inl, inr}
use mathlib.Core.Option.{none, some}
use native.Mathlib.Omega.{arith}
use simulating_the_functioni.Base.Lists.{length, length-set, get_elem?, set}
use simulating_the_functioni.Base.Tests.{Option-cases}

module _ {ℓ} {A : Type ℓ} where
  -- `a[i] = a[i + 1]`
  unfoldable pub copy_next : List A → ℕ → List A
  copy_next xs i = elim (get_elem? xs (suc i)) [ none ↦ xs | some x ↦ set xs i x ]

  -- `n` rounds of that, from `i` on.
  unfoldable pub shift : ℕ → List A → ℕ → List A
  unfolding copy_next
  shift zero xs i = xs
  shift (suc n) xs i = shift n (copy_next xs i) (suc i)

  -- `size--`
  unfoldable pub drop_last : List A → List A
  drop_last [] = []
  drop_last (x ∷ []) = []
  drop_last (x ∷ y ∷ xs) = x ∷ drop_last (y ∷ xs)

  -- All but the element at `i`.
  abbrev pub remove_at : List A → ℕ → List A
  remove_at [] i = []
  remove_at (x ∷ xs) zero = xs
  remove_at (x ∷ xs) (suc i) = x ∷ remove_at xs i

  copy_next-cons : (x : A) (xs : List A) (i : ℕ) → copy_next (x ∷ xs) (suc i) ≡ x ∷ copy_next xs i
  unfolding copy_next
  copy_next-cons x xs i = ground arith

  shift-cons : (n : ℕ) (x : A) (xs : List A) (i : ℕ) → shift n (x ∷ xs) (suc i) ≡ x ∷ shift n xs i
  unfolding shift
  shift-cons zero x xs i = refl
  shift-cons (suc n) x xs i =
      ap (λ l. shift n l (suc (suc i))) (copy_next-cons x xs i)
      ∙ shift-cons n x (copy_next xs i) (suc i)

  length-copy_next : (xs : List A) (i : ℕ) → length (copy_next xs i) ≡ length xs
  unfolding copy_next
  length-copy_next xs i = elim (Option-cases (get_elem? xs (suc i))) [
    | inl e ↦ rw (e, copy_next) refl
    | inr (y, e) ↦ rw (e, copy_next) (length-set xs i y)
  ]

  length-shift : (n : ℕ) (xs : List A) (i : ℕ) → length (shift n xs i) ≡ length xs
  unfolding shift
  length-shift zero xs i = refl
  length-shift (suc n) xs i = length-shift n (copy_next xs i) (suc i) ∙ length-copy_next xs i

  drop_last-cons : (x : A) (xs : List A) → 0 < length xs → drop_last (x ∷ xs) ≡ x ∷ drop_last xs
  unfolding drop_last
  drop_last-cons x [] h = absurd (omega arith)
  drop_last-cons x (y ∷ xs) h = refl

  shift_first : (x : A) (xs : List A) → drop_last (shift (length xs) (x ∷ xs) 0) ≡ xs
  unfolding shift drop_last
  shift_first x [] = refl
  shift_first x (y ∷ xs) =
      ap drop_last (shift-cons (length xs) y (y ∷ xs) 0)
      ∙ drop_last-cons y (shift (length xs) (y ∷ xs) 0)
          (omega (arith, length-shift (length xs) (y ∷ xs) 0))
      ∙ ap (λ l. y ∷ l) (shift_first y xs)

  -- The loop over the places behind `i` takes the element at `i` out and keeps the others in order.
  pub shift_removes :
      (xs : List A) (i : ℕ)
      → i < length xs
      → drop_last (shift (length xs - 1 - i) xs i) ≡ remove_at xs i
  shift_removes [] i h = absurd (omega arith)
  shift_removes (x ∷ xs) zero h =
      ap (λ n. drop_last (shift n (x ∷ xs) 0)) (omega arith) ∙ shift_first x xs
  shift_removes (x ∷ xs) (suc i) h =
      ap drop_last (
        ap (λ n. shift n (x ∷ xs) (suc i)) {y = length xs - 1 - i} (omega arith)
        ∙ shift-cons (length xs - 1 - i) x xs i)
      ∙ drop_last-cons x (shift (length xs - 1 - i) xs i)
          (omega (arith, length-shift (length xs - 1 - i) xs i))
      ∙ ap (λ l. x ∷ l) (shift_removes xs i (omega arith))
