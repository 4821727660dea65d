-- ===== src/Base/Keys.antt =====
-- A set of numbers as a list: what the program uses of the keys of an `unordered_map<int, bool>`.
use Prim.Native.Nat.{ℕ}
use mathlib.Core.Path.{◌≡◌, refl}
use mathlib.Core.Logic.{inl, inr}
use mathlib.Core.Bool.{Bool, true, false, not, ◌&&◌, ◌||◌}
use mathlib.Core.List.{List, [], ◌∷◌, ◌++◌}
use native.Mathlib.Omega.{arith}
use simulating_the_functioni.Base.Tests.{◌==◌, ==_iff, Bool-cases, if◌then◌else◌}

unfoldable pub contains : ℕ → List ℕ → Bool
contains k [] = false
contains k (j ∷ m) = (k == j) || contains k m

-- `m[k] = true`
unfoldable pub insert : ℕ → List ℕ → List ℕ
insert k m = if contains k m then m else k ∷ m

-- `m.erase(k)`
unfoldable pub erase : ℕ → List ℕ → List ℕ
erase k [] = []
erase k (j ∷ m) = if k == j then erase k m else j ∷ erase k m

pub contains-insert : (k j : ℕ) (m : List ℕ) → contains k (insert j m) ≡ ((k == j) || contains k m)
unfolding contains insert
contains-insert k j m = ground arith

pub contains-erase :
    (k j : ℕ) (m : List ℕ) → contains k (erase j m) ≡ (not (k == j) && contains k m)
unfolding contains erase
contains-erase k j [] = ground arith
contains-erase k j (i ∷ m) = ground (arith, contains-erase k j m)

pub contains-append :
    (k : ℕ) (xs ys : List ℕ) → contains k (xs ++ ys) ≡ (contains k xs || contains k ys)
unfolding contains
contains-append k [] ys = refl
contains-append k (x ∷ xs) ys = ground (arith, contains-append k xs ys)

-- No key stands twice.
unfoldable pub distinct : List ℕ → Bool
distinct [] = true
distinct (x ∷ xs) = not (contains x xs) && distinct xs

pub distinct-head : (x : ℕ) (xs : List ℕ) → distinct (x ∷ xs) ≡ true → contains x xs ≡ false
unfolding distinct
distinct-head x xs d = ground arith

pub distinct-tail : (x : ℕ) (xs : List ℕ) → distinct (x ∷ xs) ≡ true → distinct xs ≡ true
unfolding distinct
distinct-tail x xs d = ground arith

pub contains-head : (x : ℕ) (xs : List ℕ) → contains x (x ∷ xs) ≡ true
unfolding contains
contains-head x xs = ground arith

pub contains-tail : (a x : ℕ) (xs : List ℕ) → contains a xs ≡ true → contains a (x ∷ xs) ≡ true
unfolding contains
contains-tail a x xs h = ground arith

-- What is in a list is not what is not.
pub contains-ne :
    (a x : ℕ) (xs : List ℕ) → contains x xs ≡ false → contains a xs ≡ true → (a == x) ≡ false
contains-ne a x xs out i = elim (Bool-cases (a == x)) [
  | inl e ↦ cc (i, out, (==_iff a x).0 e)
  | inr ne ↦ ne
]

-- A new number can be put behind one that is there, and one can be taken out.
pub distinct-insert :
    (xs : List ℕ) (p q : ℕ) (ys : List ℕ)
    → distinct (xs ++ p ∷ ys) ≡ true
    → contains q (xs ++ p ∷ ys) ≡ false
    → distinct (xs ++ p ∷ q ∷ ys) ≡ true
unfolding distinct contains
distinct-insert [] p q ys d out = ground (arith, ==_iff p q, ==_iff q p)
distinct-insert (x ∷ xs) p q ys d out = ground (
  arith,
  distinct-insert xs p q ys,
  contains-append x xs (p ∷ ys),
  contains-append x xs (p ∷ q ∷ ys),
  ==_iff x q,
  ==_iff q x,
)

pub distinct-remove :
    (xs : List ℕ) (q : ℕ) (ys : List ℕ)
    → distinct (xs ++ q ∷ ys) ≡ true
    → distinct (xs ++ ys) ≡ true
unfolding distinct contains
distinct-remove [] q ys d = ground arith
distinct-remove (x ∷ xs) q ys d =
    ground (arith, distinct-remove xs q ys, contains-append x xs ys, contains-append x xs (q ∷ ys))

-- Two lists that share none, and have none twice.
pub distinct-append :
    (xs ys : List ℕ)
    → distinct (xs ++ ys) ≡ true
    → (distinct xs ≡ true)
      × (distinct ys ≡ true)
      × ((a : ℕ) → contains a xs ≡ true → contains a ys ≡ false)
unfolding distinct contains
distinct-append [] ys d = (refl, d, λ a i. cc)
distinct-append (x ∷ xs) ys d =
    let (dx, dy, apart) = distinct-append xs ys (ground arith) in
    (
      ground (arith, contains-append x xs ys),
      dy,
      λ a i. ground (arith, contains-append x xs ys, apart a, ==_iff a x),
    )

-- One more number, behind the others.
pub distinct-snoc :
    (xs : List ℕ) (x : ℕ)
    → distinct xs ≡ true
    → contains x xs ≡ false
    → distinct (xs ++ x ∷ []) ≡ true
unfolding distinct contains
distinct-snoc [] x d n = refl
distinct-snoc (y ∷ xs) x d n =
    ground (arith, distinct-snoc xs x, contains-append y xs (x ∷ []), ==_iff x y, ==_iff y x)

-- Erasing a number.
pub distinct-erase : (k : ℕ) (xs : List ℕ) → distinct xs ≡ true → distinct (erase k xs) ≡ true
unfolding distinct erase
distinct-erase k [] d = refl
distinct-erase k (x ∷ xs) d = ground (arith, distinct-erase k xs, contains-erase x k xs)

pub erase-out : (k : ℕ) (xs : List ℕ) → contains k xs ≡ false → erase k xs ≡ xs
unfolding erase contains
erase-out k [] out = refl
erase-out k (x ∷ xs) out = ground (arith, erase-out k xs)
