-- ===== src/Tlb/Optimal/Uses.antt =====
-- The table of next uses that `Optimal` fills.
use simulating_the_functioni.Base.{
  ℕ, suc, ◌≡◌, refl, ap, ap₂, ◌∙◌, false, Option, none, some, List, [], ◌∷◌, ◌++◌, map, ◌==◌,
  ==_iff, if◌then◌else◌, arith,
}
use simulating_the_functioni.Tlb.Replacement.{page_number}
use simulating_the_functioni.Tlb.Optimal.{IntMap, lookup, update, or_append, put, fill_next_use}

-- The first index at which a page is used, in the pages from index `i` on.
unfoldable pub first_from : ℕ → ℕ → List ℕ → Option ℕ
first_from k i [] = none
first_from k i (page ∷ rest) = if k == page then some i else first_from k (suc i) rest

-- For each of the pages from index `i` on, the next index at which it is used again.
unfoldable pub nexts : ℕ → List ℕ → List (Option ℕ)
nexts i [] = []
nexts i (page ∷ rest) = first_from page (suc i) rest ∷ nexts (suc i) rest

lookup-append :
    (k j v : ℕ) (m : IntMap)
    → lookup j m ≡ none
    → lookup k (m ++ (j, v) ∷ []) ≡ (if k == j then some v else lookup k m)
unfolding lookup
lookup-append k j v [] h = refl
lookup-append k j v ((i, w) ∷ m) h = ground (arith, lookup-append k j v m)

lookup-update_ne :
    (k j v : ℕ) (m : IntMap) → (k == j) ≡ false → lookup k (update j v m) ≡ lookup k m
unfolding lookup update
lookup-update_ne k j v [] ne = refl
lookup-update_ne k j v ((i, u) ∷ m) ne = ground (arith, lookup-update_ne k j v m ne)

lookup-update_self :
    (j v w : ℕ) (m : IntMap) → lookup j m ≡ some w → lookup j (update j v m) ≡ some v
unfolding lookup update
lookup-update_self j v w [] h = absurd (cc h)
lookup-update_self j v w ((i, u) ∷ m) h = ground (arith, lookup-update_self j v w m)

lookup-update :
    (k j v w : ℕ) (m : IntMap)
    → lookup j m ≡ some w
    → lookup k (update j v m) ≡ (if k == j then some v else lookup k m)
lookup-update k j v w m h =
    ground (arith, lookup-update_ne k j v m, lookup-update_self j v w m h, ==_iff k j)

pub lookup-put :
    (k j v : ℕ) (m : IntMap) → lookup k (put j v m) ≡ (if k == j then some v else lookup k m)
unfolding put
lookup-put k j v m = go (lookup j m) refl
  where
    go :
        (o : Option ℕ)
        → lookup j m ≡ o
        → lookup k (or_append j v m o) ≡ (if k == j then some v else lookup k m)
    go none e = lookup-append k j v m e
    go (some w) e = lookup-update k j v w m e

-- The second loop of `Optimal` fills the table with the next index at which the page of each index is
-- used again, where there is one, and leaves in the other map the first index of each page.
pub fill_next_use_lem :
    (p i : ℕ) (addresses : List ℕ)
    → ((fill_next_use p i addresses).0 ≡ nexts i (map (page_number p) addresses))
      × ((k : ℕ)
          → lookup k (fill_next_use p i addresses).1
            ≡ first_from k i (map (page_number p) addresses))
unfolding fill_next_use nexts first_from lookup
fill_next_use_lem p i [] = (refl, λ k. refl)
fill_next_use_lem p i (a ∷ rest) =
    let (next_use, first_use) = fill_next_use_lem p (suc i) rest in
    (
      ap₂ ◌∷◌ (first_use (page_number p a)) next_use,
      λ k.
          lookup-put k (page_number p a) i (fill_next_use p (suc i) rest).1
          ∙ ap (λ o. if k == page_number p a then some i else o) (first_use k),
    )
