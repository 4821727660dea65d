-- ===== src/Alloc/Find.antt =====
-- `find_suitable_block`: the first block of the list that is free and large enough.
use simulating_the_functioni.Base.{
  ℕ, zero, suc, ◌≡◌, ◌<◌, refl, Bool, ◌&&◌, some, List, [], ◌∷◌, leb, if◌then◌else◌, length, arith,
}
use simulating_the_functioni.Alloc.{Heap, find_from}
use simulating_the_functioni.Alloc.Chain.{Block, first, last, Seg}

abbrev pub fits : ℕ → Block → Bool
fits size b = b.is_free && leb size b.size

-- The address of the first block that fits, or 0, and that of the one before it.
abbrev pub first_fit : (size last : ℕ) → List Block → ℕ × ℕ
first_fit size last [] = (0, last)
first_fit size last (b ∷ bs) = if fits size b then (b.addr, last) else first_fit size b.addr bs

pub find_from_lem :
    (n : ℕ) (h : Heap) (prev l size : ℕ) (bs : List Block)
    → Seg h prev bs 0
    → length bs < n
    → find_from n h l (first bs 0) size ≡ some (first_fit size l bs)
unfolding find_from
find_from_lem zero h prev l size bs s lt = absurd (omega arith)
find_from_lem (suc n) h prev l size [] s lt = refl
find_from_lem (suc n) h prev l size (b ∷ bs) s lt =
    ground (arith, s.0, s.1, find_from_lem n h b.addr b.addr size bs s.2)
