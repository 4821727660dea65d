-- ===== src/Tlb/Tests.antt =====
-- The buffers of Assignment-03-memory/2021MT10904.cpp on small traces.
use simulating_the_functioni.Base.{
  ℕ, suc, max, ◌<◌, ◌≢◌, true, some, ==_iff, ◌≡◌, refl, List, [], ◌∷◌, ◌++◌, map, arith,
  if◌then◌else◌, ◌==◌, length,
}
use simulating_the_functioni.Base.Int.{pos, ◌+ℤ◌, ◌-ℤ◌, rem_ℤ}
use simulating_the_functioni.Base.Keys.{contains, insert, erase}
use simulating_the_functioni.Tlb.Queue.{Queue, enqueue, dequeue, dequeue_rear}
use simulating_the_functioni.Tlb.Queue.Valid.{IsValid, contents}
use simulating_the_functioni.Tlb.Queue.Ends.{pop_front, pop_back}
use simulating_the_functioni.Tlb.Queue.Refine.{enqueue_refines, removal_refines}
use simulating_the_functioni.Tlb.Optimal.{
  IntMap, lookup, update, put, erase_key, fill_next_use, farthest, optimal, optimal_loop,
  optimal_page,
}
use simulating_the_functioni.Tlb.Optimal.Uses.{first_from, nexts, fill_next_use_lem}
use simulating_the_functioni.Tlb.Optimal.Belady.{Belady, IsIteration, optimal_refines}
use simulating_the_functioni.Tlb.Replacement.{page_number, fifo, lifo}
use simulating_the_functioni.Tlb.Lru.{
  Store, lru, lru_loop, lru_page, promote, drop_tail, add_page, unlink, link_front, clean_up,
}
use simulating_the_functioni.Tlb.Lru.Recent.{touches}
use simulating_the_functioni.Tlb.Best.Cases.{Case, main, AllBest, optimal_is_best}
use simulating_the_functioni.Tlb.Lru.Miss.{Gives}
use simulating_the_functioni.Tlb.Lru.Sound.{lru_refines}
use simulating_the_functioni.Tlb.Replacement.Policy.{accesses}
use simulating_the_functioni.Tlb.Replacement.Sound.{nothing, fifo_refines, lifo_refines}

-- Two cells, of which the second holds the older page.
abbrev wrapped : Queue
wrapped = record { front = 1; rear = pos 0; size = 2; capacity = 2; array = 8 ∷ 7 ∷ [] }

wrapped-IsValid : IsValid wrapped
wrapped-IsValid = ground arith

-- Pages 1, 2, 3, 2, 1 of one KB each.
abbrev trace : List ℕ
trace = 0x400 ∷ 0x8ff ∷ 0xc00 ∷ 0x800 ∷ 0x412 ∷ []

fifo_run : fifo 1 2 trace ≡ 1
unfolding fifo enqueue dequeue contains insert erase rem_ℤ ◌+ℤ◌
fifo_run = refl

lifo_run : lifo 1 2 trace ≡ 1
unfolding lifo enqueue dequeue_rear contains insert erase rem_ℤ ◌+ℤ◌ ◌-ℤ◌
lifo_run = refl

enqueue_refines_example :
    IsValid (enqueue wrapped 9)
    × (contents (enqueue wrapped 9)
        ≡ (if length (contents wrapped) == 2 then contents wrapped else contents wrapped ++ 9 ∷ []))
enqueue_refines_example = enqueue_refines wrapped wrapped-IsValid 9

removal_refines_example :
    (let (o, r) = dequeue wrapped in IsValid r × ((o, contents r) ≡ pop_front (7 ∷ 8 ∷ [])))
    × (let (o, r) = dequeue_rear wrapped in IsValid r × ((o, contents r) ≡ pop_back (7 ∷ 8 ∷ [])))
removal_refines_example = removal_refines wrapped wrapped-IsValid

fifo_refines_example :
    fifo 1 2 trace ≡ (accesses pop_front 2 nothing (map (page_number 1) trace)).hits
fifo_refines_example = fifo_refines 1 2 (omega arith) trace

lifo_refines_example :
    lifo 1 2 trace ≡ (accesses pop_back 2 nothing (map (page_number 1) trace)).hits
lifo_refines_example = lifo_refines 1 2 (omega arith) trace

abbrev in_order : IntMap → IntMap
in_order m = m

in_order-IsIteration : IsIteration in_order
in_order-IsIteration m e = (λ h. h, λ h. h)

optimal_run : optimal in_order 1 2 trace ≡ 1
unfolding optimal optimal_loop optimal_page lookup update put erase_key fill_next_use farthest
optimal_run = refl

optimal_refines_example :
    Belady 2 0
      (map (page_number 1) trace)
      (record { pages = []; hits = 0 })
      (optimal in_order 1 2 trace)
optimal_refines_example = optimal_refines in_order in_order-IsIteration 1 2 (omega arith) trace

fill_next_use_lem_example :
    ((fill_next_use 1 0 trace).0 ≡ nexts 0 (map (page_number 1) trace))
    × ((k : ℕ) → lookup k (fill_next_use 1 0 trace).1 ≡ first_from k 0 (map (page_number 1) trace))
fill_next_use_lem_example = fill_next_use_lem 1 0 trace

-- The address behind all that are live.
abbrev behind : List ℕ → ℕ
behind [] = 1
behind (a ∷ live) = max (suc a) (behind live)

behind_lem : (a : ℕ) (live : List ℕ) → contains a live ≡ true → a < behind live
unfolding contains
behind_lem a [] i = absurd (cc i)
behind_lem a (x ∷ live) i = ground (arith, ==_iff a x, behind_lem a live)

behind-Gives : Gives behind
behind-Gives live = (nonzero live, ground (arith, behind_lem (behind live) live))
  where
    nonzero : (live : List ℕ) → behind live ≢ 0
    nonzero [] = ground arith
    nonzero (a ∷ live) = ground arith

abbrev blank : Store
blank a = record { page_number = 0; prev = 0; next = 0 }

-- Pages 1, 2, 1, 3, 1, 2.
abbrev reuse : List ℕ
reuse = 0x400 ∷ 0x8ff ∷ 0x400 ∷ 0xc00 ∷ 0x412 ∷ 0x800 ∷ []

lru_run : lru behind 1 2 blank reuse ≡ (2, some [])
unfolding lru lru_loop lru_page promote drop_tail add_page unlink link_front clean_up lookup put
    erase_key insert erase contains update
lru_run = refl

lru_refines_example :
    lru behind 1 2 blank reuse ≡ ((touches 2 nothing (map (page_number 1) reuse)).hits, some [])
lru_refines_example = lru_refines behind behind-Gives 1 2 (omega arith) blank reuse

-- One case where a page comes back soon, and one in which nothing does.
abbrev cases : List Case
cases = record { p = 1; k = 2; inputs = reuse } ∷ record { p = 4; k = 1; inputs = trace } ∷ []

optimal_is_best_example : AllBest (main in_order behind blank cases)
optimal_is_best_example =
    optimal_is_best in_order in_order-IsIteration behind behind-Gives blank cases
      (omega arith, (omega arith, tt))
