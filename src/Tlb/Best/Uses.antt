-- ===== src/Tlb/Best/Uses.antt =====
-- Soon used pages by their next uses, and counts of all or none.
use simulating_the_functioni.Base.{
  ℕ, zero, suc, ◌+◌, ◌≤◌, ◌<◌, ◌≡◌, refl, Bool, true, false, Bool-cases, inl, inr, some, List, [],
  ◌∷◌, ◌==◌, length, arith,
}
use simulating_the_functioni.Base.Counts.{tally}
use simulating_the_functioni.Base.Keys.{contains, distinct, erase, contains-head, contains-tail}
use simulating_the_functioni.Tlb.Optimal.Uses.{first_from}
use simulating_the_functioni.Tlb.Best.Soon.{soon, tally-erase}

-- A page is soon used if its next use comes soon.
pub soon_first :
    (q i t : ℕ) (rest : List ℕ)
    → soon t rest q ≡ true
    → (j : ℕ) × (first_from q i rest ≡ some j) × (j < i + t)
unfolding first_from
soon_first q i zero rest s = absurd (cc s)
soon_first q i (suc t) [] s = absurd (cc s)
soon_first q i (suc t) (page ∷ rest) s = elim (Bool-cases (q == page)) [
  | inl e ↦ (i, ground (arith, e), omega arith)
  | inr ne ↦
      let (j, f, lt) = soon_first q (suc i) t rest (ground (arith, ne)) in
      (j, ground (arith, ne, f), omega (arith, lt))
]

first_le : (q i j : ℕ) (rest : List ℕ) → first_from q i rest ≡ some j → i ≤ j
unfolding first_from
first_le q i j [] f = absurd (cc f)
first_le q i j (page ∷ rest) f = ground (arith, first_le q (suc i) j rest)

pub first_soon :
    (q i t j : ℕ) (rest : List ℕ) → first_from q i rest ≡ some j → j < i + t → soon t rest q ≡ true
unfolding first_from
first_soon q i zero j [] f lt = absurd (cc f)
first_soon q i (suc t) j [] f lt = absurd (cc f)
first_soon q i zero j (page ∷ rest) f lt = absurd (omega (arith, first_le q i j (page ∷ rest) f))
first_soon q i (suc t) j (page ∷ rest) f lt = elim (Bool-cases (q == page)) [
  | inl e ↦ ground (arith, e)
  | inr ne ↦
      ground (arith, ne, first_soon q (suc i) t j rest (ground (arith, ne, f)) (omega (arith, lt)))
]

pub tally_all :
    (is : ℕ → Bool) (xs : List ℕ)
    → ((q : ℕ) → contains q xs ≡ true → is q ≡ true)
    → tally is xs ≡ length xs
tally_all is [] all = refl
tally_all is (x ∷ xs) all =
    ground
      (arith, all x (contains-head x xs), tally_all is xs (λ q i. all q (contains-tail q x xs i)))

pub tally-none : (is : ℕ → Bool) (xs : List ℕ) → ((q : ℕ) → is q ≡ false) → tally is xs ≡ 0
tally-none is [] never = refl
tally-none is (x ∷ xs) never = ground (arith, never x, tally-none is xs never)

pub length-erased :
    (v : ℕ) (xs : List ℕ)
    → distinct xs ≡ true
    → contains v xs ≡ true
    → length (erase v xs) + 1 ≡ length xs
length-erased v xs d i = omega (
  arith,
  tally-erase (λ q. true) v xs d i,
  tally_all (λ q. true) xs (λ q j. refl),
  tally_all (λ q. true) (erase v xs) (λ q j. refl),
)
