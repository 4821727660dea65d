-- ===== src/Tlb/Queue/Ends.antt =====
-- A list as a queue and as a stack: taking from its two ends.
use simulating_the_functioni.Base.{ℕ, ◌≡◌, refl, Option, none, some, List, [], ◌∷◌, ◌++◌, arith}

unfoldable pub pop_front : List ℕ → Option ℕ × List ℕ
pop_front [] = (none, [])
pop_front (x ∷ xs) = (some x, xs)

unfoldable pub pop_back : List ℕ → Option ℕ × List ℕ
pop_back [] = (none, [])
pop_back (x ∷ []) = (some x, [])
pop_back (x ∷ y ∷ xs) = let (o, rest) = pop_back (y ∷ xs) in (o, x ∷ rest)

pub pop_back-snoc : (xs : List ℕ) (x : ℕ) → pop_back (xs ++ x ∷ []) ≡ (some x, xs)
unfolding pop_back
pop_back-snoc [] x = refl
pop_back-snoc (y ∷ []) x = refl
pop_back-snoc (y ∷ z ∷ xs) x = ground (arith, pop_back-snoc (z ∷ xs) x)
