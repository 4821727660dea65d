-- ===== src/Sched/Queues/Tally.antt =====
-- Counting some of the processes of the three queues, and what the operations do to the counts.
use simulating_the_functioni.Base.{
  ℕ, zero, suc, ◌+◌, ◌≤◌, ◌<◌, ◌≡◌, refl, Bool, Option, some, List, [], ◌∷◌, ◌++◌, map,
  if◌then◌else◌, length-append, get_elem?, arith,
}
use simulating_the_functioni.Base.Counts.{tally, tally-append}
use simulating_the_functioni.Sched.Queues.{
  Prioritized, Queues, max_queue_size, is_empty, run_highest, add_to_queue, boost_queues,
}
use simulating_the_functioni.Sched.Queues.Levels.{
  size, queues, pop-0, pop-1, pop-2, at_top, length-at_top, boosted,
}

module _ {P : Type 0} where
  abbrev pub tallies : (P → Bool) → Queues P → ℕ
  tallies is qs = tally is qs.queue0 + tally is qs.queue1 + tally is qs.queue2

  -- The first process of the highest queue that is not empty.
  abbrev pub next_up : Queues P → Option P
  next_up qs = elim qs.queue0 [
    | p ∷ a ↦ some p
    | [] ↦ elim qs.queue1 [ p ∷ b ↦ some p | [] ↦ get_elem? qs.queue2 0 ]
  ]

module _ {P : Type 0} (l : Prioritized P) where
  -- Each process stands in the queue of its priority.
  abbrev pub AllAt : ℕ → List P → Type 0
  AllAt k [] = Unit {0}
  AllAt k (p ∷ q) = (l.priority p ≡ k) × AllAt k q

  abbrev pub IsLevelled : Queues P → Type 0
  IsLevelled qs = AllAt 0 qs.queue0 × AllAt 1 qs.queue1 × AllAt 2 qs.queue2

  pub AllAt-append : (k : ℕ) (xs ys : List P) → AllAt k xs → AllAt k ys → AllAt k (xs ++ ys)
  AllAt-append k [] ys a b = b
  AllAt-append k (x ∷ xs) ys a b = (a.0, AllAt-append k xs ys a.1 b)

  AllAt-at_top : (q : List P) → AllAt 0 (map (at_top l) q)
  AllAt-at_top [] = tt
  AllAt-at_top (p ∷ q) = (l.priority_law p 0, AllAt-at_top q)

  -- A process that is put into queues with room is there once more than before.
  pub record Added (p : P) (qs rs : Queues P) : Type 0 where
    pub more : (is : P → Bool) → tallies is rs ≡ tallies is qs + (if is p then 1 else 0)
    pub bigger : size rs ≡ size qs + 1
    pub levels : IsLevelled qs → IsLevelled rs

  module _ (p : P) (qs : Queues P) where
    pub add-0 :
        l.priority p ≡ 0
        → size qs < max_queue_size
        → add_to_queue l p qs ≡ record qs { queue0 = qs.queue0 ++ p ∷ [] }
    unfolding add_to_queue
    add-0 e room = ground arith

    add-1 :
        l.priority p ≡ 1
        → size qs < max_queue_size
        → add_to_queue l p qs ≡ record qs { queue1 = qs.queue1 ++ p ∷ [] }
    unfolding add_to_queue
    add-1 e room = ground arith

    add-2 :
        l.priority p ≡ 2
        → size qs < max_queue_size
        → add_to_queue l p qs ≡ record qs { queue2 = qs.queue2 ++ p ∷ [] }
    unfolding add_to_queue
    add-2 e room = ground arith

    pub add-Added : l.priority p ≤ 2 → size qs < max_queue_size → Added p qs (add_to_queue l p qs)
    add-Added le room = go (l.priority p) refl
      where
        go : (k : ℕ) → l.priority p ≡ k → Added p qs (add_to_queue l p qs)
        go zero e = rw (add-0 e room) (record {
          more = λ is. omega (arith, tally-append is qs.queue0 (p ∷ []));
          bigger = omega (arith, length-append {0} qs.queue0 (p ∷ []));
          levels = λ v. (AllAt-append 0 qs.queue0 (p ∷ []) v.0 (e, tt), v.1, v.2);
        })
        go (suc zero) e = rw (add-1 e room) (record {
          more = λ is. omega (arith, tally-append is qs.queue1 (p ∷ []));
          bigger = omega (arith, length-append {0} qs.queue1 (p ∷ []));
          levels = λ v. (v.0, AllAt-append 1 qs.queue1 (p ∷ []) v.1 (e, tt), v.2);
        })
        go (suc (suc zero)) e = rw (add-2 e room) (record {
          more = λ is. omega (arith, tally-append is qs.queue2 (p ∷ []));
          bigger = omega (arith, length-append {0} qs.queue2 (p ∷ []));
          levels = λ v. (v.0, v.1, AllAt-append 2 qs.queue2 (p ∷ []) v.2 (e, tt));
        })
        go (suc (suc (suc k))) e = absurd (omega arith)

  -- What is told of a process does not depend on its priority.
  abbrev pub IsSteady : (P → Bool) → Type 0
  IsSteady is = (p : P) (k : ℕ) → is (l.with_priority p k) ≡ is p

  tally-at_top :
      (is : P → Bool) → IsSteady is → (q : List P) → tally is (map (at_top l) q) ≡ tally is q
  tally-at_top is st [] = refl
  tally-at_top is st (p ∷ q) = ground (arith, st p 0, tally-at_top is st q)

  -- Boosting keeps every process, and puts all of them where their priority is 0.
  pub record Kept (qs rs : Queues P) : Type 0 where
    pub same : (is : P → Bool) → IsSteady is → tallies is rs ≡ tallies is qs
    pub same_size : size rs ≡ size qs
    pub levels : IsLevelled qs → IsLevelled rs

  pub boost-Kept : (qs : Queues P) → size qs ≤ max_queue_size → Kept qs (boost_queues l qs)
  boost-Kept qs h = rw (boosted l qs h) (record {
    same = λ is st. omega (
      arith,
      tally-append is (qs.queue0 ++ map (at_top l) qs.queue1) (map (at_top l) qs.queue2),
      tally-append is qs.queue0 (map (at_top l) qs.queue1),
      tally-at_top is st qs.queue1,
      tally-at_top is st qs.queue2,
    );
    same_size = omega (
      arith,
      length-append {0} (qs.queue0 ++ map (at_top l) qs.queue1) (map (at_top l) qs.queue2),
      length-append {0} qs.queue0 (map (at_top l) qs.queue1),
      length-at_top l qs.queue1,
      length-at_top l qs.queue2,
    );
    levels = λ v. (
      AllAt-append 0 (qs.queue0 ++ map (at_top l) qs.queue1) (map (at_top l) qs.queue2)
          (AllAt-append 0 qs.queue0 (map (at_top l) qs.queue1) v.0 (AllAt-at_top qs.queue1))
          (AllAt-at_top qs.queue2),
      tt,
      tt,
    );
  })

  pub Kept-refl : (qs : Queues P) → Kept qs qs
  Kept-refl qs = record { same = λ is st. refl; same_size = refl; levels = λ v. v }

  -- What a round takes out of the queues, and how it goes on.
  pub record Picked {S : Type 0} (run : ℕ → Option P × Queues P → S) (s : S) (qs : Queues P)
      : Type 0 where
    pub process : P
    pub is_next : next_up qs ≡ some process
    pub rest : Queues P
    pub level : ℕ
    pub level_le : level ≤ 2
    pub goes_on : run_highest run s qs ≡ run level (some process, rest)
    pub out : (is : P → Bool) → tallies is qs ≡ tallies is rest + (if is process then 1 else 0)
    pub smaller : size qs ≡ size rest + 1
    pub levels : IsLevelled qs → IsLevelled rest × (l.priority process ≡ level)

  module _ {S : Type 0} (run : ℕ → Option P × Queues P → S) (s : S) where
    pub pick : (a b c : List P) → 0 < size (queues a b c) → Picked run s (queues a b c)
    unfolding run_highest is_empty
    pick (p ∷ a) b c h = record {
      process = p;
      is_next = refl;
      rest = queues a b c;
      level = 0;
      level_le = omega arith;
      goes_on = ground (arith, pop-0 p a b c);
      out = λ is. omega arith;
      smaller = omega arith;
      levels = λ v. ((v.0.1, v.1, v.2), v.0.0);
    }
    pick [] (p ∷ b) c h = record {
      process = p;
      is_next = refl;
      rest = queues [] b c;
      level = 1;
      level_le = omega arith;
      goes_on = ground (arith, pop-1 p [] b c);
      out = λ is. omega arith;
      smaller = omega arith;
      levels = λ v. ((v.0, v.1.1, v.2), v.1.0);
    }
    pick [] [] (p ∷ c) h = record {
      process = p;
      is_next = refl;
      rest = queues [] [] c;
      level = 2;
      level_le = omega arith;
      goes_on = ground (arith, pop-2 p [] [] c);
      out = λ is. omega arith;
      smaller = omega arith;
      levels = λ v. ((v.0, v.1, v.2.1), v.2.0);
    }
    pick [] [] [] h = absurd (omega arith)
