-- ===== src/Tlb/Optimal.antt =====
-- `Optimal` of Assignment-03-memory/2021MT10904.cpp: a page that is not present replaces the one whose
-- next use is the farthest. The order in which an `unordered_map` is gone through is an argument.
pub mod Uses
pub mod Entries
pub mod Farthest
pub mod Belady
use simulating_the_functioni.Base.{
  ℕ, suc, ◌+◌, Bool, true, false, Option, none, some, List, [], ◌∷◌, ◌++◌, ◌==◌, ltb, if◌then◌else◌,
  length, get_or,
}
use simulating_the_functioni.Tlb.Replacement.{page_number}

-- An `unordered_map<int, int>` as the list of its entries.
abbrev pub IntMap : Type 0
IntMap = List (ℕ × ℕ)

unfoldable pub lookup : ℕ → IntMap → Option ℕ
lookup k [] = none
lookup k ((j, v) ∷ m) = if k == j then some v else lookup k m

unfoldable pub update : ℕ → ℕ → IntMap → IntMap
update k v [] = []
update k v ((j, w) ∷ m) = (j, if k == j then v else w) ∷ update k v m

abbrev pub or_append : ℕ → ℕ → IntMap → Option ℕ → IntMap
or_append k v m none = m ++ (k, v) ∷ []
or_append k v m (some old) = update k v m

-- `m[k] = v`
unfoldable pub put : ℕ → ℕ → IntMap → IntMap
put k v m = or_append k v m (lookup k m)

unfoldable pub erase_key : ℕ → IntMap → IntMap
erase_key k [] = []
erase_key k ((j, v) ∷ m) = let rest = erase_key k m in if k == j then rest else (j, v) ∷ rest

-- `tlbMap.erase(farthestPage)`, where -1 is no key.
abbrev pub erase_page : Option ℕ → IntMap → IntMap
erase_page none m = m
erase_page (some k) m = erase_key k m

-- The second loop, from the last index down to `i`: `nextUse` from `i` on, and `page_map`. A -1 of
-- `nextUse` is `none`, and a page that is not in the list is one where `page_map` is -1.
unfoldable pub fill_next_use : ℕ → ℕ → List ℕ → List (Option ℕ) × IntMap
fill_next_use p i [] = ([], [])
fill_next_use p i (a ∷ rest) =
    let (next_use, page_map) = fill_next_use p (suc i) rest in
    (lookup (page_number p a) page_map ∷ next_use, put (page_number p a) i page_map)

-- `nextUse[v]`; a key that is not there would be made with 0.
abbrev pub use_at : List (Option ℕ) → ℕ → Option ℕ
use_at next_use v = get_or next_use v (some 0)

-- `nextIndex > farthestIndex`, which is -1 at first.
abbrev pub is_farther : ℕ → Option ℕ → Bool
is_farther j none = true
is_farther j (some best) = ltb best j

-- The loop over the entries that looks for the page to replace.
unfoldable pub farthest : List (Option ℕ) → IntMap → (page index : Option ℕ) → Option ℕ
farthest next_use [] page index = page
farthest next_use ((k, v) ∷ rest) page index = elim (use_at next_use v) [
  | none ↦ some k
  | some j ↦ elim (is_farther j index) [
    | true ↦ farthest next_use rest (some k) (some j)
    | false ↦ farthest next_use rest page index
  ]
]

pub record State : Type 0 where
  pub map : IntMap  -- `tlbMap`
  pub hits : ℕ  -- `tlbHits`

module _ (order : IntMap → IntMap) (p k : ℕ) where
  -- What a page at index `i` does, with what the map has for it.
  unfoldable pub optimal_page : List (Option ℕ) → (i page : ℕ) → State → Option ℕ → State
  optimal_page next_use i page s (some old) = record { map = put page i s.map; hits = s.hits + 1 }
  optimal_page next_use i page s none =
      let victim = farthest next_use (order s.map) none none in
      record s { map = put page i (if length s.map == k then erase_page victim s.map else s.map) }

  -- The loop over the addresses from index `i` on.
  unfoldable pub optimal_loop : List (Option ℕ) → ℕ → State → List ℕ → State
  optimal_loop next_use i s [] = s
  optimal_loop next_use i s (a ∷ rest) =
      let page = page_number p a in
      optimal_loop next_use (suc i) (optimal_page next_use i page s (lookup page s.map)) rest

  unfoldable pub optimal : List ℕ → ℕ
  optimal addresses =
      (optimal_loop (fill_next_use p 0 addresses).0 0 (record { map = []; hits = 0 })
        addresses).hits
