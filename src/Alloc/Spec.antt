-- ===== src/Alloc/Spec.antt =====
-- What the allocator promises, on a list of blocks.
use simulating_the_functioni.Base.{
  ℕ, ◌+◌, ◌≡◌, ◌≢◌, true, false, Option, none, some, List, [], ◌∷◌, ◌++◌, leb, if◌then◌else◌,
}
use simulating_the_functioni.Base.Words.{u64, sub_u64}
use simulating_the_functioni.Base.Keys.{contains, distinct}
use simulating_the_functioni.Alloc.{Memory, header_size, round_to_page_size, get_user_data}
use simulating_the_functioni.Alloc.Chain.{Block, block, addrs, first, Seg}
use simulating_the_functioni.Alloc.Find.{fits}
use simulating_the_functioni.Alloc.Extend.{mapped_size}

-- The memory holds the blocks, linked both ways from `base` on.
pub record IsList (m : Memory) (bs : List Block) : Type 0 where
  pub base : m.base ≡ first bs 0
  pub chain : Seg m.heap 0 bs 0
  pub once : distinct (addrs bs) ≡ true

-- How far behind a block the rest of it begins, when it is cut for a request.
abbrev pub offset : (page_size size : ℕ) → ℕ
offset page_size size = round_to_page_size page_size (u64 (size + header_size))

-- What a block that is used becomes, with the offset `r` of the cut.
abbrev pub pieces_at : (r : ℕ) → Block → List Block
pieces_at r b =
    if leb header_size (sub_u64 b.size r)
    then block b.addr false (sub_u64 r header_size)
      ∷ block (u64 (b.addr + r)) true (sub_u64 (sub_u64 b.size r) header_size)
      ∷ []
    else block b.addr false b.size ∷ []

abbrev pub pieces : (page_size size : ℕ) → Block → List Block
pieces page_size size b = pieces_at (offset page_size size) b

-- The first block that fits is used: its address, and the blocks with its pieces in its place.
abbrev pub place : (page_size size : ℕ) → List Block → Option (ℕ × List Block)
place page_size size [] = none
place page_size size (b ∷ bs) =
    if fits size b
    then some (b.addr, pieces page_size size b ++ bs)
    else elim (place page_size size bs) [ none ↦ none | some (a, cs) ↦ some (a, b ∷ cs) ]

-- What `my_malloc` promises: a block that fits is used, or a new one from `mmap` is put at the end.
abbrev pub malloc_list : Option ℕ → (page_size size : ℕ) → List Block → ℕ × List Block
malloc_list mmap page_size size bs = elim (place page_size size bs) [
  | some (a, cs) ↦ (get_user_data a, cs)
  | none ↦ elim mmap [
    | none ↦ (0, bs)
    | some p ↦ (get_user_data p, bs ++ block p false (mapped_size page_size size) ∷ [])
  ]
]

-- No header stands where a block would be cut.
abbrev pub CutsAreNew : ℕ → List Block → Type 0
CutsAreNew r bs =
    (b : Block)
    → contains b.addr (addrs bs) ≡ true
    → (u64 (b.addr + r) ≢ 0) × (contains (u64 (b.addr + r)) (addrs bs) ≡ false)

-- `mmap` gives no address of a block, and not 0.
abbrev pub IsNew : Option ℕ → List Block → Type 0
IsNew mmap bs = (p : ℕ) → mmap ≡ some p → (p ≢ 0) × (contains p (addrs bs) ≡ false)
