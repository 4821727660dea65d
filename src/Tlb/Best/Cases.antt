-- ===== src/Tlb/Best/Cases.antt =====
-- `main` of Assignment-03-memory/2021MT10904.cpp: the four algorithms on each test case of the input.
use simulating_the_functioni.Base.{ℕ, ◌%◌, ◌^◌, ◌≤◌, ◌<◌, ap, Option, List, [], ◌∷◌, map, arith}
use simulating_the_functioni.Tlb.Queue.Ends.{pop_front, pop_back}
use simulating_the_functioni.Tlb.Replacement.{page_number, fifo, lifo}
use simulating_the_functioni.Tlb.Replacement.Policy.{Cache, access}
use simulating_the_functioni.Tlb.Replacement.Sound.{nothing, fifo_refines, lifo_refines}
use simulating_the_functioni.Tlb.Optimal.{IntMap, optimal}
use simulating_the_functioni.Tlb.Optimal.Belady.{IsIteration, optimal_refines}
use simulating_the_functioni.Tlb.Lru.{Store, lru}
use simulating_the_functioni.Tlb.Lru.Recent.{touch}
use simulating_the_functioni.Tlb.Lru.Miss.{Gives}
use simulating_the_functioni.Tlb.Lru.Sound.{lru_refines}
use simulating_the_functioni.Tlb.Best.{IsPolicy, run}
use simulating_the_functioni.Tlb.Best.Policies.{
  fifo-IsPolicy, lifo-IsPolicy, lru-IsPolicy, accesses-run, touches-run,
}
use simulating_the_functioni.Tlb.Best.Compared.{farthest_is_best}

-- `P`, `K` and the numbers that `stoul` reads. `S` is not used.
pub record Case : Type 0 where
  pub p : ℕ
  pub k : ℕ
  pub inputs : List ℕ

-- A line of the output.
pub record Hits : Type 0 where
  pub fifo_hits : ℕ
  pub lifo_hits : ℕ
  pub lru_hits : ℕ
  pub opt_hits : ℕ

abbrev pub addresses : Case → List ℕ
addresses c = map (λ a. a % 2 ^ 32) c.inputs

module _ (order : IntMap → IntMap) (new : List ℕ → ℕ) (h : Store) where
  unfoldable pub run_case : Case → Hits
  run_case c = record {
    fifo_hits = fifo c.p c.k (addresses c);
    lifo_hits = lifo c.p c.k (addresses c);
    lru_hits = (lru new c.p c.k h (addresses c)).0;
    opt_hits = optimal order c.p c.k (addresses c);
  }

  unfoldable pub main : List Case → List Hits
  main cases = map run_case cases

-- Each case has room for a page.
abbrev pub AllRoom : List Case → Type 0
AllRoom [] = Unit {0}
AllRoom (c ∷ cases) = (0 < c.k) × AllRoom cases

abbrev pub IsBest : Hits → Type 0
IsBest r = (r.fifo_hits ≤ r.opt_hits) × (r.lifo_hits ≤ r.opt_hits) × (r.lru_hits ≤ r.opt_hits)

abbrev pub AllBest : List Hits → Type 0
AllBest [] = Unit {0}
AllBest (r ∷ rest) = IsBest r × AllBest rest

module _ (order : IntMap → IntMap) (visits : IsIteration order) (new : List ℕ → ℕ)
    (gives : Gives new) (h : Store) where
  case-IsBest : (c : Case) → 0 < c.k → IsBest (run_case order new h c)
  unfolding run_case
  case-IsBest c room = (
    omega (
      arith,
      fifo_refines c.p c.k room (addresses c),
      ap hits (accesses-run pop_front c.k nothing pages),
      best (access pop_front c.k) (fifo-IsPolicy c.k room),
    ),
    omega (
      arith,
      lifo_refines c.p c.k room (addresses c),
      ap hits (accesses-run pop_back c.k nothing pages),
      best (access pop_back c.k) (lifo-IsPolicy c.k room),
    ),
    omega (
      arith,
      ap (λ (r : ℕ × Option (List ℕ)). r.0) (lru_refines new gives c.p c.k room h (addresses c)),
      ap hits (touches-run c.k nothing pages),
      best (touch c.k) (lru-IsPolicy c.k room),
    ),
  )
    where
      pages : List ℕ
      pages = map (page_number c.p) (addresses c)

      hits : Cache → ℕ
      hits r = r.hits

      best :
          (step : Cache → ℕ → Cache)
          → IsPolicy c.k step
          → (run step nothing pages).hits ≤ optimal order c.p c.k (addresses c)
      best step policy =
          farthest_is_best c.k step policy pages (optimal order c.p c.k (addresses c))
            (optimal_refines order visits c.p c.k room (addresses c))

  -- In each line that `main` prints for a case with room for at least one page, none of `FIFO`, `LIFO`
  -- and `LRU` has more hits than `Optimal`, in whatever order the map of `Optimal` is gone through and
  -- wherever `new` puts the nodes of `LRU`, as long as it gives no address that is 0 or live.
  pub optimal_is_best : (cases : List Case) → AllRoom cases → AllBest (main order new h cases)
  unfolding main
  optimal_is_best [] room = tt
  optimal_is_best (c ∷ cases) (some_room, room) =
      (case-IsBest c some_room, optimal_is_best cases room)
