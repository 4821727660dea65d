-- ===== src/Alloc/Tests.antt =====
-- The allocator on two blocks, and the theorems on them.
use simulating_the_functioni.Base.{
  ◌+◌, ◌-◌, ◌%◌, ◌^◌, ◌≤◌, ◌<◌, ◌≡◌, ◌⊎◌, refl, true, false, none, some, [], ◌∷◌, ◌==◌,
  if◌then◌else◌, arith,
}
use simulating_the_functioni.Base.Keys.{contains, distinct}
use simulating_the_functioni.Alloc.{
  Heap, Memory, round_to_page_size, initialize_page_size, split_block, extend_heap, my_malloc,
  my_free, get_user_data,
}
use simulating_the_functioni.Alloc.Chain.{Block, block, header}
use simulating_the_functioni.Alloc.Spec.{IsList, CutsAreNew, IsNew, offset}
use simulating_the_functioni.Alloc.Malloc.{Gives, my_malloc_refines}
use simulating_the_functioni.Alloc.Free.Promise.{Holds}
use simulating_the_functioni.Alloc.Free.{my_free_refines}
use simulating_the_functioni.Alloc.Bounds.{
  CutInside, Uncut, CutOutside, round_to_page_size_bounds, split_block_outcomes, reuse_overruns,
}

-- A free block of two pages, and one of a page that is in use.
abbrev a : Block
a = block 0x10000 true 8160

abbrev b : Block
b = block 0x20000 false 4064

abbrev heap : Heap
heap p = if p == 0x10000 then header a 0x20000 0 else header b 0 0x10000

abbrev memory : Memory
memory = record { base = 0x10000; page_size = 4096; heap = heap; bytes = λ _. 0; unmapped = [] }

memory-IsList : IsList memory (a ∷ b ∷ [])
unfolding distinct contains
memory-IsList = record {
  base = refl;
  chain = (refl, omega arith, (refl, omega arith, tt));
  once = refl;
}

cuts_new : CutsAreNew (offset (initialize_page_size 4096 memory).page_size 100) (a ∷ b ∷ [])
unfolding contains round_to_page_size initialize_page_size
cuts_new c there = ground arith

map-IsNew : IsNew (some 0x30000) (a ∷ b ∷ [])
unfolding contains
map-IsNew p e = ground arith

-- The free block is cut behind its first page.
my_malloc_refines_example :
    Gives
      (my_malloc 3 4096 (some 0x30000) 100 memory)
      (0x10020, block 0x10000 false 4064 ∷ block 0x11000 true 4032 ∷ b ∷ [])
unfolding round_to_page_size initialize_page_size
my_malloc_refines_example =
    my_malloc_refines 3 4096 (some 0x30000) 100 memory (a ∷ b ∷ []) memory-IsList (omega arith)
      cuts_new map-IsNew

-- The block in use is the last: joined with the free one before it, it is given back.
my_free_refines_example :
    Holds memory (my_free 4096 (get_user_data 0x20000) memory) ([], (0x10000, 12288) ∷ [])
my_free_refines_example = my_free_refines 4096 memory (a ∷ []) b [] memory-IsList (omega arith)

round_to_page_size_bounds_example :
    (round_to_page_size 4096 132 % 4096 ≡ 0)
    × (132 ≤ round_to_page_size 4096 132)
    × (round_to_page_size 4096 132 < 132 + 4096)
round_to_page_size_bounds_example = round_to_page_size_bounds 12 132 (omega arith) (omega arith)

split_block_outcomes_example :
    CutInside heap (split_block 4096 heap 0x10000 100) 0x10000 (offset 4096 100)
    ⊎ (Uncut heap (split_block 4096 heap 0x10000 100) 0x10000 (offset 4096 100)
        ⊎ CutOutside heap (split_block 4096 heap 0x10000 100) 0x10000 (offset 4096 100))
unfolding round_to_page_size
split_block_outcomes_example =
    split_block_outcomes 4096 100 heap 0x10000 (omega arith) (omega arith) (omega arith)
      (omega arith) (omega arith) (omega arith)

-- A page that was made for 100 bytes, used for 100 bytes again.
reuse_overruns_example :
    (split_block 4096 heap 0x20000 100 0x21000
      ≡ record { is_free = true; size = 2 ^ 64 - 64; next = 0; prev = 0x20000 })
    × (split_block 4096 heap 0x20000 100 0x20000 ≡ record (heap 0x20000) { next = 0x21000 })
unfolding round_to_page_size
reuse_overruns_example =
    reuse_overruns 12 100 heap 0x20000 (omega arith) (omega arith) (omega arith) refl (omega arith)
      (omega arith) (omega arith)

abbrev empty : Memory
empty = record { base = 0; page_size = 0; heap = λ _. header a 0 0; bytes = λ _. 0; unmapped = [] }

-- The first call, with no block yet.
first_call :
    (let o = my_malloc 1 4096 (some 0x30000) 5000 empty in
      elim o [ none ↦ 0 | some (p, m) ↦ p + (m.heap 0x30000).size ])
    ≡ 0x30020 + 8160
unfolding my_malloc initialize_page_size extend_heap round_to_page_size
first_call = refl
