-- ===== src/Tlb/Best.antt =====
-- The policies of Assignment-03-memory/2021MT10904.cpp compared: what any of them does with a page, and
-- that none has more hits than the one that looks ahead.
pub mod Soon
pub mod Uses
pub mod Ahead
pub mod Policies
pub mod Compared
pub mod Cases
use simulating_the_functioni.Base.{
  ℕ, ◌+◌, ◌≤◌, ◌≡◌, Bool, true, false, List, [], ◌∷◌, ◌==◌, if◌then◌else◌, length,
}
use simulating_the_functioni.Base.Keys.{contains, distinct}
use simulating_the_functioni.Tlb.Replacement.Policy.{Cache}

-- At most `k` pages, each once.
pub record Holds (k : ℕ) (c : Cache) : Type 0 where
  pub no_twice : distinct c.pages ≡ true
  pub no_more : length c.pages ≤ k

-- What a policy that never looks ahead, or one that does, makes of a buffer when a page is used: the
-- page is there, every other was there before, and it counts as a hit if it was.
pub record Served (k : ℕ) (c : Cache) (page : ℕ) (r : Cache) : Type 0 where
  pub holds : Holds k r
  pub has : contains page r.pages ≡ true
  pub old : (q : ℕ) → contains q r.pages ≡ true → (q == page) ≡ false → contains q c.pages ≡ true
  pub counted : r.hits ≡ c.hits + (if contains page c.pages then 1 else 0)

abbrev pub IsPolicy : ℕ → (Cache → ℕ → Cache) → Type 0
IsPolicy k step = (c : Cache) (page : ℕ) → Holds k c → Served k c page (step c page)

abbrev pub run : (Cache → ℕ → Cache) → Cache → List ℕ → Cache
run step c [] = c
run step c (page ∷ rest) = run step (step c page) rest
