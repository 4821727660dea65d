-- ===== src/Tlb/Lru/Recent.antt =====
-- The policy of `LRU` on a plain list of pages, the one that was used last in front.
use simulating_the_functioni.Base.{ℕ, ◌+◌, List, [], ◌∷◌, if◌then◌else◌, ◌==◌, length}
use simulating_the_functioni.Base.Keys.{contains, erase}
use simulating_the_functioni.Tlb.Queue.Ends.{pop_back}
use simulating_the_functioni.Tlb.Replacement.Policy.{Cache}

module _ (k : ℕ) where
  -- A page that is present is a hit. Either way the page is put first; if `k` pages are present and
  -- this is not one of them, the last is dropped.
  unfoldable pub touch : Cache → ℕ → Cache
  touch c page =
      if contains page c.pages
      then record { pages = page ∷ erase page c.pages; hits = c.hits + 1 }
      else record c {
        pages = page ∷ (if length c.pages == k then (pop_back c.pages).1 else c.pages);
      }

  unfoldable pub touches : Cache → List ℕ → Cache
  touches c [] = c
  touches c (page ∷ rest) = touches (touch c page) rest
