-- ===== src/Tlb/Lru/Entries.antt =====
-- The entries of a map when one is erased or put in, and where the entry of a page stands.
use simulating_the_functioni.Base.{
  ℕ, ◌+◌, ◌≡◌, refl, sym, ap, ap₂, true, false, Bool-cases, inl, inr, none, some, List, [], ◌∷◌,
  ◌++◌, ◌==◌, ==_iff, if◌then◌else◌, length, length-append, arith,
}
use simulating_the_functioni.Base.Keys.{
  erase-out, contains, erase, distinct, contains-append, distinct-remove,
}
use simulating_the_functioni.Tlb.Optimal.{IntMap, lookup, erase_key}
use simulating_the_functioni.Tlb.Optimal.Entries.{keys}

pub keys-app : (xs ys : IntMap) → keys (xs ++ ys) ≡ keys xs ++ keys ys
keys-app [] ys = refl
keys-app ((j, v) ∷ xs) ys = ap (λ l. j ∷ l) (keys-app xs ys)

pub lookup-erase :
    (k j : ℕ) (m : IntMap) → lookup k (erase_key j m) ≡ (if k == j then none else lookup k m)
unfolding lookup erase_key
lookup-erase k j [] = ground arith
lookup-erase k j ((i, v) ∷ m) =
    ground (arith, lookup-erase k j m, ==_iff k i, ==_iff j i, ==_iff k j)

pub lookup-absent : (k : ℕ) (m : IntMap) → contains k (keys m) ≡ false → lookup k m ≡ none
unfolding lookup contains
lookup-absent k [] out = refl
lookup-absent k ((j, v) ∷ m) out = ground (arith, lookup-absent k m)

-- An entry in the middle.
pub lookup-cut :
    (k : ℕ) (xs : IntMap) (j v : ℕ) (ys : IntMap)
    → distinct (keys (xs ++ (j, v) ∷ ys)) ≡ true
    → lookup k (xs ++ (j, v) ∷ ys) ≡ (if k == j then some v else lookup k (xs ++ ys))
unfolding lookup distinct contains
lookup-cut k [] j v ys d = refl
lookup-cut k ((i, w) ∷ xs) j v ys d =
    ground (arith, lookup-cut k xs j v ys, ==_iff k i, ==_iff i j, ==_iff k j, head_ne)
  where
    head_ne : (i == j) ≡ false
    head_ne = ground (
      arith,
      contains-append i (keys xs) (j ∷ keys ys),
      ap (contains i) (keys-app xs ((j, v) ∷ ys)),
    )

pub lookup-split :
    (k a : ℕ) (m : IntMap)
    → lookup k m ≡ some a
    → (xs : IntMap) × (ys : IntMap) × (m ≡ xs ++ (k, a) ∷ ys)
unfolding lookup
lookup-split k a [] e = absurd (cc e)
lookup-split k a ((j, v) ∷ m) e = elim (Bool-cases (k == j)) [
  | inl same ↦ ([], m, ap₂ (λ (x y : ℕ). (x, y) ∷ m) (sym ((==_iff k j).0 same)) (ground arith))
  | inr other ↦
      let (xs, ys, s) = lookup-split k a m (ground arith) in
      ((j, v) ∷ xs, ys, ap (λ l. (j, v) ∷ l) s)
]

pub erase-absent :
    (k : ℕ) (m : IntMap) → contains k (keys m) ≡ false → length (erase_key k m) ≡ length m
unfolding erase_key contains
erase-absent k [] out = refl
erase-absent k ((j, v) ∷ m) out = ground (arith, erase-absent k m)

pub length-erase :
    (k : ℕ) (m : IntMap)
    → distinct (keys m) ≡ true
    → contains k (keys m) ≡ true
    → length (erase_key k m) + 1 ≡ length m
unfolding erase_key contains distinct
length-erase k [] d i = absurd (cc i)
length-erase k ((j, v) ∷ m) d i = ground (arith, length-erase k m, erase-absent k m, ==_iff k j)

-- A number that stands once can be taken to the front.
pub remove-absent :
    (xs : List ℕ) (q : ℕ) (ys : List ℕ)
    → distinct (xs ++ q ∷ ys) ≡ true
    → contains q (xs ++ ys) ≡ false
unfolding distinct contains
remove-absent [] q ys d = ground arith
remove-absent (x ∷ xs) q ys d =
    ground (arith, remove-absent xs q ys, contains-append x xs (q ∷ ys), ==_iff x q, ==_iff q x)

pub distinct-front :
    (xs : List ℕ) (q : ℕ) (ys : List ℕ)
    → distinct (xs ++ q ∷ ys) ≡ true
    → distinct (q ∷ xs ++ ys) ≡ true
unfolding distinct
distinct-front xs q ys d = ground (arith, remove-absent xs q ys d, distinct-remove xs q ys d)

pub erase-once :
    (xs : List ℕ) (q : ℕ) (ys : List ℕ)
    → distinct (xs ++ q ∷ ys) ≡ true
    → erase q (xs ++ q ∷ ys) ≡ xs ++ ys
unfolding erase distinct contains
erase-once [] q ys d = ground (arith, erase-out q ys, ==_iff q q)
erase-once (x ∷ xs) q ys d = ground (arith, erase-once xs q ys, remove-absent (x ∷ xs) q ys d)

pub contains-cut :
    (a : ℕ) (xs : List ℕ) (q : ℕ) (ys : List ℕ)
    → contains a (xs ++ q ∷ ys) ≡ contains a (q ∷ xs ++ ys)
unfolding contains
contains-cut a xs q ys = ground (arith, contains-append a xs (q ∷ ys), contains-append a xs ys)

pub length-cut :
    (xs : IntMap) (b : ℕ × ℕ) (ys : IntMap) → length (xs ++ b ∷ ys) ≡ length (b ∷ xs ++ ys)
length-cut xs b ys = omega (arith, length-append xs (b ∷ ys), length-append xs ys)

pub lookup-snoc :
    (k : ℕ) (m : IntMap) (j v : ℕ)
    → contains j (keys m) ≡ false
    → lookup k (m ++ (j, v) ∷ []) ≡ (if k == j then some v else lookup k m)
unfolding lookup contains
lookup-snoc k [] j v out = refl
lookup-snoc k ((i, w) ∷ m) j v out = ground (arith, lookup-snoc k m j v, ==_iff k i, ==_iff k j)
