-- ===== src/Alloc.antt =====
-- The allocator of Assignment-03-memory/2021MT10904mmu.h. The memory is a header at every address, so a
-- field that was never written reads as whatever is there; that headers less than 32 bytes apart
-- overlap, and that an address which is not mapped cannot be touched, is not seen. What `sysconf`
-- and `mmap` give is an argument.
pub mod Bounds
pub mod Chain
pub mod Extend
pub mod Find
pub mod Free
pub mod Join
pub mod Malloc
pub mod Spec
pub mod Mark
pub mod Split
mod Tests
pub mod Use
use Prim.Native.Nat.{bit_and}
use simulating_the_functioni.Base.{
  ℕ, zero, suc, ◌+◌, ◌-◌, ◌*◌, ◌%◌, Bool, true, false, not, ◌&&◌, Option, none, some, List, [], ◌∷◌,
  ltb, leb, ◌==◌, if◌then◌else◌,
}
use simulating_the_functioni.Base.Words.{u64, sub_u64, not_u64}

-- `struct header`
pub record Header : Type 0 where
  pub is_free : Bool
  pub size : ℕ
  pub next : ℕ
  pub prev : ℕ

abbrev pub header_size : ℕ
header_size = 32

abbrev pub Heap : Type 0
Heap = ℕ → Header

-- `base` and `page_size`, the headers, the bytes of the users' data, and the calls of `munmap` with
-- their arguments.
pub record Memory : Type 0 where
  pub base : ℕ
  pub page_size : ℕ
  pub heap : Heap
  pub bytes : ℕ → ℕ
  pub unmapped : List (ℕ × ℕ)

abbrev pub write : Heap → ℕ → Header → Heap
write h p v a = if a == p then v else h a

abbrev pub set_size : Heap → ℕ → ℕ → Heap
set_size h p v = write h p (record (h p) { size = v })

abbrev pub set_free : Heap → ℕ → Bool → Heap
set_free h p v = write h p (record (h p) { is_free = v })

abbrev pub set_next : Heap → ℕ → ℕ → Heap
set_next h p v = write h p (record (h p) { next = v })

abbrev pub set_prev : Heap → ℕ → ℕ → Heap
set_prev h p v = write h p (record (h p) { prev = v })

-- `if (p) p->prev = v;`
abbrev pub set_prev_of : Heap → ℕ → ℕ → Heap
set_prev_of h p v = if p == 0 then h else set_prev h p v

-- `if (p) p->next = v;`
abbrev pub set_next_of : Heap → ℕ → ℕ → Heap
set_next_of h p v = if p == 0 then h else set_next h p v

pub initialize_page_size : (sysconf : ℕ) → Memory → Memory
initialize_page_size sysconf m = if m.page_size == 0 then record m { page_size = sysconf } else m

-- `(size + page_size - 1) & ~(page_size - 1)`
pub round_to_page_size : (page_size size : ℕ) → ℕ
round_to_page_size page_size size =
    bit_and (sub_u64 (u64 (size + page_size)) 1) (not_u64 (sub_u64 page_size 1))

-- The loop, for at most as many headers as the first argument: the block and `*last`, or `none` when
-- these are not enough.
pub find_from : ℕ → Heap → (last search_ptr size : ℕ) → Option (ℕ × ℕ)
find_from zero h last search_ptr size = none
find_from (suc n) h last search_ptr size =
    let rest = find_from n h search_ptr (h search_ptr).next size in
    if not (search_ptr == 0) && not ((h search_ptr).is_free && leb size (h search_ptr).size)
    then rest
    else some (search_ptr, last)

pub find_suitable_block : ℕ → Memory → (last size : ℕ) → Option (ℕ × ℕ)
unfolding find_from
find_suitable_block n m last size = find_from n m.heap last m.base size

-- The body of the `if` of `split_block`, statement by statement.
pub cut_block : Heap → (block size : ℕ) → Heap
cut_block h block size =
    let new_block = u64 (block + size) in
    let h1 = set_size h new_block (sub_u64 (sub_u64 (h block).size size) header_size) in
    let h2 = set_size h1 block (sub_u64 size header_size) in
    let h3 = set_next h2 new_block (h2 block).next in
    let h4 = set_next h3 block new_block in
    let h5 = set_prev h4 new_block block in
    let h6 = set_prev_of h5 (h5 new_block).next new_block in set_free h6 new_block true

pub split_block : (page_size : ℕ) → Heap → (block size : ℕ) → Heap
split_block page_size h block size =
    let rounded = round_to_page_size page_size (u64 (size + header_size)) in
    if leb header_size (sub_u64 (h block).size rounded) then cut_block h block rounded else h

-- The new block, or 0.
pub extend_heap : (mmap : Option ℕ) → (page_size : ℕ) → Heap → (last size : ℕ) → ℕ × Heap
extend_heap none page_size h last size = (0, h)
extend_heap (some new_ptr) page_size h last size =
    let total_size = round_to_page_size page_size (u64 (header_size + size)) in
    let h1 = set_size h new_ptr (sub_u64 total_size header_size) in
    let h2 = set_free h1 new_ptr false in
    let h3 = set_next h2 new_ptr 0 in
    let h4 = set_prev h3 new_ptr last in (new_ptr, set_next_of h4 last new_ptr)

-- The body of the `if` of `merge_free_blocks`.
pub join_next : Heap → ℕ → Heap
join_next h block =
    let h1 = set_size h block (u64 ((h block).size + (header_size + (h (h block).next).size))) in
    let h2 = set_next h1 block (h1 (h1 block).next).next in set_prev_of h2 (h2 block).next block

pub merge_free_blocks : Heap → ℕ → Heap
merge_free_blocks h block =
    if not ((h block).next == 0) && (h (h block).next).is_free then join_next h block else h

abbrev pub get_block_start : ℕ → ℕ
get_block_start ptr = sub_u64 ptr header_size

abbrev pub get_user_data : ℕ → ℕ
get_user_data head = u64 (head + header_size)

-- The end of `my_malloc` behind `extend_heap`, with the base to be set.
abbrev pub extended : Memory → ℕ × Heap → (base : ℕ → ℕ) → ℕ × Memory
extended m (new_ptr, h) base =
    if new_ptr == 0
    then (0, record m { heap = h })
    else (get_user_data new_ptr, record m { base = base new_ptr; heap = h })

-- `my_malloc` behind `find_suitable_block`.
abbrev pub allocate : (mmap : Option ℕ) → Memory → (size : ℕ) → ℕ × ℕ → ℕ × Memory
allocate mmap m size (first_fit, last) =
    if first_fit == 0
    then extended m (extend_heap mmap m.page_size m.heap last size) (λ _. m.base)
    else (
      get_user_data first_fit,
      record m { heap = set_free (split_block m.page_size m.heap first_fit size) first_fit false },
    )

-- The result is `none` when the first argument is not enough for the loop.
pub my_malloc : ℕ → (sysconf : ℕ) (mmap : Option ℕ) → (size : ℕ) → Memory → Option (ℕ × Memory)
my_malloc n sysconf mmap size m0 =
    let m = initialize_page_size sysconf m0 in
    if m.base == 0
    then some (extended m (extend_heap mmap m.page_size m.heap 0 size) (λ p. p))
    else elim (find_suitable_block n m m.base size) [
      | none ↦ none
      | some found ↦ some (allocate mmap m size found)
    ]

-- `memset(p, 0, n)`
abbrev pub zeroed : (ℕ → ℕ) → (p n : ℕ) → ℕ → ℕ
zeroed bytes p n a = if leb p a && ltb a (p + n) then 0 else bytes a

-- The end of `my_calloc`.
abbrev pub cleared : ℕ → ℕ × Memory → ℕ × Memory
cleared s (p, m) = if p == 0 then (p, m) else (p, record m { bytes = zeroed m.bytes p s })

pub my_calloc :
    ℕ → (sysconf : ℕ) (mmap : Option ℕ) → (nelem size : ℕ) → Memory → Option (ℕ × Memory)
my_calloc n sysconf mmap nelem size m =
    let s = u64 (nelem * size) in
    elim (my_malloc n sysconf mmap s m) [ none ↦ none | some r ↦ some (cleared s r) ]

-- `my_free` behind the first merge: `head` is merged with the next block, or given back if it is the
-- last.
pub release : Memory → ℕ → Memory
release m head =
    let h = m.heap in
    if not ((h head).next == 0)
    then record m { heap = merge_free_blocks h head }
    else if not ((h head).prev == 0)
    then record m {
      heap = set_next h (h head).prev 0;
      unmapped = (head, u64 (header_size + (h head).size)) ∷ m.unmapped;
    }
    else record m { base = 0; unmapped = (head, u64 (header_size + (h head).size)) ∷ m.unmapped }

-- `if (head->prev && head->prev->is_free)`
abbrev pub prev_is_free : Heap → ℕ → Bool
prev_is_free h head = not ((h head).prev == 0) && (h (h head).prev).is_free

pub my_free : (sysconf ptr : ℕ) → Memory → Memory
my_free sysconf ptr m0 =
    let m = initialize_page_size sysconf m0 in
    if ptr == 0
    then m
    else let head = get_block_start ptr in
      let h = set_free m.heap head true in
      if prev_is_free h head
      then release (record m { heap = merge_free_blocks h (h head).prev }) (h head).prev
      else release (record m { heap = h }) head
