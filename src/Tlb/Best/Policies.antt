-- ===== src/Tlb/Best/Policies.antt =====
-- The policies of `FIFO`, `LIFO` and `LRU` do with a page what any policy does.
use simulating_the_functioni.Base.{
  ℕ, ◌<◌, ◌≡◌, ◌≢◌, refl, ap, true, false, Bool-cases, inl, inr, Option, List, [], ◌∷◌, ◌++◌, ◌==◌,
  ==_iff, if◌then◌else◌, length, length-append, arith, ℕ_discrete,
}
use simulating_the_functioni.Base.Keys.{
  contains, distinct, contains-erase, contains-append, distinct-erase, distinct-snoc,
}
use simulating_the_functioni.Tlb.Queue.Ends.{pop_front, pop_back}
use simulating_the_functioni.Tlb.Replacement.Policy.{
  Cache, access, accesses, Takes, pop_front-Takes, pop_back-Takes,
}
use simulating_the_functioni.Tlb.Lru.Recent.{touch, touches}
use simulating_the_functioni.Tlb.Best.{Holds, Served, IsPolicy, run}
use simulating_the_functioni.Tlb.Best.Uses.{length-erased}

-- Some of the pages of a buffer, each once, and fewer than `k`.
record Left (k : ℕ) (c : Cache) (left : List ℕ) : Type 0 where
  once : distinct left ≡ true
  fewer : length left < k
  from : (q : ℕ) → contains q left ≡ true → contains q c.pages ≡ true

module _ (k page : ℕ) (c : Cache) (holds : Holds k c) (missing : contains page c.pages ≡ false)
    (left : List ℕ) (l : Left k c left) where
  not_left : contains page left ≡ false
  not_left = ground (arith, l.from page, missing)

  last_Served : Served k c page (record c { pages = left ++ page ∷ [] })
  unfolding contains
  last_Served = record {
    holds = record {
      no_twice = distinct-snoc left page l.once not_left;
      no_more = omega (arith, l.fewer, length-append {0} left (page ∷ []));
    };
    has = ground (arith, contains-append page left (page ∷ []), ==_iff page page);
    old = λ q i ne. ground (arith, contains-append q left (page ∷ []), l.from q);
    counted = ground (arith, missing);
  }

  first_Served : Served k c page (record c { pages = page ∷ left })
  unfolding contains distinct
  first_Served = record {
    holds = record {
      no_twice = ground (arith, not_left, l.once);
      no_more = omega (arith, l.fewer);
    };
    has = ground (arith, ==_iff page page);
    old = λ q i ne. ground (arith, l.from q);
    counted = ground (arith, missing);
  }

-- What is left of a buffer on a miss.
module _ (k : ℕ) (some_room : 0 < k) (pop : List ℕ → Option ℕ × List ℕ)
    (takes : (xs : List ℕ) → distinct xs ≡ true → xs ≢ [] → Takes xs (pop xs).0 (pop xs).1)
    (c : Cache) (holds : Holds k c) where
  room_made-Left : Left k c (if length c.pages == k then (pop c.pages).1 else c.pages)
  room_made-Left = elim (ℕ_discrete (length c.pages) k) [
    | yes full ↦
        let t = takes c.pages holds.no_twice (λ e. omega (arith, full, ap length e)) in
        rw ((==_iff (length c.pages) k).1 full) (record {
          once = t.still_distinct;
          fewer = omega (arith, t.one_less, full);
          from = λ q i. ground (arith, t.others q);
        })
    | no part ↦
        let ne : (length c.pages == k) ≡ false = ground (arith, part) in
        rw ne (record {
          once = holds.no_twice;
          fewer = omega (arith, part, holds.no_more);
          from = λ q i. i;
        })
  ]

module _ (k : ℕ) (some_room : 0 < k) where
  access-IsPolicy :
      (pop : List ℕ → Option ℕ × List ℕ)
      → ((xs : List ℕ) → distinct xs ≡ true → xs ≢ [] → Takes xs (pop xs).0 (pop xs).1)
      → IsPolicy k (access pop k)
  unfolding access
  access-IsPolicy pop takes c page holds = elim (Bool-cases (contains page c.pages)) [
    | inl i ↦ rw i (record {
      holds = record { no_twice = holds.no_twice; no_more = holds.no_more };
      has = i;
      old = λ q j ne. j;
      counted = ground (arith, i);
    })
    | inr missing ↦
        rw missing
          (last_Served k page c holds missing _ (room_made-Left k some_room pop takes c holds))
  ]

  pub fifo-IsPolicy : IsPolicy k (access pop_front k)
  fifo-IsPolicy = access-IsPolicy pop_front pop_front-Takes

  pub lifo-IsPolicy : IsPolicy k (access pop_back k)
  lifo-IsPolicy = access-IsPolicy pop_back pop_back-Takes

  pub lru-IsPolicy : IsPolicy k (touch k)
  unfolding touch distinct contains
  lru-IsPolicy c page holds = elim (Bool-cases (contains page c.pages)) [
    | inl i ↦ rw i (record {
      holds = record {
        no_twice = ground (
          arith,
          contains-erase page page c.pages,
          ==_iff page page,
          distinct-erase page c.pages holds.no_twice,
        );
        no_more = omega (arith, length-erased page c.pages holds.no_twice i, holds.no_more);
      };
      has = ground (arith, ==_iff page page);
      old = λ q j ne. ground (arith, contains-erase q page c.pages);
      counted = ground (arith, i);
    })
    | inr missing ↦ rw missing (
        first_Served k page c holds missing _
          (room_made-Left k some_room pop_back pop_back-Takes c holds))
  ]

pub accesses-run :
    (pop : List ℕ → Option ℕ × List ℕ) (k : ℕ) (c : Cache) (pages : List ℕ)
    → accesses pop k c pages ≡ run (access pop k) c pages
unfolding accesses
accesses-run pop k c [] = refl
accesses-run pop k c (page ∷ rest) = accesses-run pop k (access pop k c page) rest

pub touches-run : (k : ℕ) (c : Cache) (pages : List ℕ) → touches k c pages ≡ run (touch k) c pages
unfolding touches
touches-run k c [] = refl
touches-run k c (page ∷ rest) = touches-run k (touch k c page) rest
