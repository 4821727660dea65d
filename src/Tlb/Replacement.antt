-- ===== src/Tlb/Replacement.antt =====
-- `FIFO` and `LIFO` of Assignment-03-memory/2021MT10904.cpp: a map of the pages that are present, and a
-- `Queue` that chooses the page to replace. An `unsigned int` address is below 2 ^ 32.
pub mod Policy
pub mod Sound
use simulating_the_functioni.Base.{
  ℕ, ◌+◌, ◌*◌, ◌/◌, ◌%◌, ◌^◌, Bool, Option, none, some, List, [], ◌∷◌, if◌then◌else◌,
}
use simulating_the_functioni.Base.Keys.{contains, insert, erase}
use simulating_the_functioni.Tlb.Queue.{Queue, is_full, enqueue, dequeue, dequeue_rear}
use simulating_the_functioni.Tlb.Queue

-- The local variables of the two functions.
pub record Tlb : Type 0 where
  pub map : List ℕ  -- the keys of `tlbMap`
  pub queue : Queue  -- `tlbQueue`
  pub hits : ℕ  -- `tlbHits`

-- `address / (P * 1024)`, where the product is converted to `unsigned int`. A page size for which that
-- is 0, at which the division traps, is not an input of the program.
abbrev pub page_number : ℕ → ℕ → ℕ
page_number p address = address / (p * 1024 % 2 ^ 32)

-- `tlbMap.erase`; -1 is no key.
abbrev pub erase_page : Option ℕ → List ℕ → List ℕ
erase_page none m = m
erase_page (some k) m = erase k m

abbrev pub start : ℕ → Tlb
start k = record { map = []; queue = Queue.init k; hits = 0 }

-- One round of the loop of `FIFO`.
pub fifo_step : ℕ → Tlb → ℕ → Tlb
fifo_step p t address =
    let page = page_number p address in
    if contains page t.map
    then record t { hits = t.hits + 1 }
    else let (old, rest) = dequeue t.queue in
      let full = is_full t.queue in
      let queue = if full then rest else t.queue in
      let map = if full then erase_page old t.map else t.map in
      record t { queue = enqueue queue page; map = insert page map }

fifo_loop : ℕ → Tlb → List ℕ → Tlb
fifo_loop p t [] = t
fifo_loop p t (a ∷ rest) = fifo_loop p (fifo_step p t a) rest

unfoldable pub fifo : ℕ → ℕ → List ℕ → ℕ
unfolding fifo_loop fifo_step
fifo p k addresses = (fifo_loop p (start k) addresses).hits

-- One round of the loop of `LIFO`.
pub lifo_step : ℕ → Tlb → ℕ → Tlb
lifo_step p t address =
    let page = page_number p address in
    if contains page t.map
    then record t { hits = t.hits + 1 }
    else let (last, rest) = dequeue_rear t.queue in
      let full = is_full t.queue in
      let queue = if full then rest else t.queue in
      let map = if full then erase_page last t.map else t.map in
      record t { queue = enqueue queue page; map = insert page map }

lifo_loop : ℕ → Tlb → List ℕ → Tlb
lifo_loop p t [] = t
lifo_loop p t (a ∷ rest) = lifo_loop p (lifo_step p t a) rest

unfoldable pub lifo : ℕ → ℕ → List ℕ → ℕ
unfolding lifo_loop lifo_step
lifo p k addresses = (lifo_loop p (start k) addresses).hits
