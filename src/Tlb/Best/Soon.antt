-- ===== src/Tlb/Best/Soon.antt =====
-- Counting the pages of a buffer that are used soon.
use simulating_the_functioni.Base.{
  ℕ, zero, suc, ◌+◌, ◌≤◌, ◌≡◌, refl, ap, ◌∙◌, Bool, true, false, Bool-cases, inl, inr, not, ◌&&◌,
  ◌||◌, List, [], ◌∷◌, ◌==◌, ==_iff, if◌then◌else◌, length, arith,
}
use simulating_the_functioni.Base.Counts.{tally, tally-le-length}
use simulating_the_functioni.Base.Keys.{
  contains, distinct, erase, contains-erase, distinct-head, distinct-tail, distinct-erase,
  contains-head, contains-tail, contains-ne, erase-out,
}

-- Whether a page is one of the next `t`.
abbrev pub soon : (t : ℕ) → List ℕ → ℕ → Bool
soon zero rest q = false
soon (suc t) [] q = false
soon (suc t) (page ∷ rest) q = (q == page) || soon t rest q

-- The same, and it is not `page`.
abbrev pub but : ℕ → (ℕ → Bool) → ℕ → Bool
but page is q = not (q == page) && is q

module _ (page : ℕ) (is : ℕ → Bool) where
  -- A page stands once in a buffer or not at all.
  pub tally-or :
      (xs : List ℕ)
      → distinct xs ≡ true
      → tally (λ q. (q == page) || is q) xs
        ≡ (if contains page xs then 1 else 0) + tally (but page is) xs
  unfolding distinct contains
  tally-or [] d = refl
  tally-or (x ∷ xs) d = ground (arith, tally-or xs, ==_iff x page, ==_iff page x)

  pub tally-with :
      (xs : List ℕ)
      → distinct xs ≡ true
      → tally is xs ≡ (if contains page xs && is page then 1 else 0) + tally (but page is) xs
  unfolding distinct contains
  tally-with [] d = refl
  tally-with (x ∷ xs) d = elim (Bool-cases (x == page)) [
    | inl e ↦
        ground (arith, tally-with xs, e, ==_iff x page, ==_iff page x, ap is ((==_iff x page).0 e))
    | inr ne ↦ ground (arith, tally-with xs, ne, ==_iff page x)
  ]

  pub tally-but-le :
      (xs : List ℕ) → tally (but page is) xs + (if contains page xs then 1 else 0) ≤ length xs
  unfolding contains
  tally-but-le [] = omega arith
  tally-but-le (x ∷ xs) =
      ground
        (arith, tally-but-le xs, tally-le-length (but page is) xs, ==_iff x page, ==_iff page x)

-- One page less.
pub tally-erase :
    (is : ℕ → Bool) (v : ℕ) (xs : List ℕ)
    → distinct xs ≡ true
    → contains v xs ≡ true
    → tally is (erase v xs) + (if is v then 1 else 0) ≡ tally is xs
unfolding distinct contains erase
tally-erase is v [] d i = absurd (cc i)
tally-erase is v (x ∷ xs) d i = elim (Bool-cases (v == x)) [
  | inl e ↦ ground (
    arith,
    e,
    ap is ((==_iff v x).0 e),
    ap (tally is) (erase-out v xs (ground (arith, ==_iff v x))),
  )
  | inr ne ↦ ground (arith, ne, tally-erase is v xs)
]

-- A part of the pages counts no more.
pub tally_mono :
    (is : ℕ → Bool) (xs ys : List ℕ)
    → distinct xs ≡ true
    → distinct ys ≡ true
    → ((q : ℕ) → contains q xs ≡ true → is q ≡ true → contains q ys ≡ true)
    → tally is xs ≤ tally is ys
tally_mono is [] ys dx dy part = omega arith
tally_mono is (x ∷ xs) ys dx dy part = elim (Bool-cases (is x)) [
  | inl e ↦
      let i : contains x ys ≡ true = part x (contains-head x xs) e in
      let rest =
        tally_mono is xs (erase x ys) (distinct-tail x xs dx) (distinct-erase x ys dy) (λ q j f.
          contains-erase q x ys
          ∙ ground (
            arith,
            part q (contains-tail q x xs j) f,
            contains-ne q x xs (distinct-head x xs dx) j,
          )) in
      ground (arith, e, rest, tally-erase is x ys dy i)
  | inr ne ↦
      let rest =
        tally_mono is xs ys (distinct-tail x xs dx) dy
          (λ q j f. part q (contains-tail q x xs j) f) in
      ground (arith, ne, rest)
]
