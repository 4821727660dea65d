-- ===== src/Sched/Sjf/Pop.antt =====
-- What `pop_from_queue_SJF` takes: the first of the shortest.
use simulating_the_functioni.Base.{
  ℕ, zero, suc, ◌+◌, ◌-◌, ◌≤◌, ◌<◌, ◌≡◌, ap, inl, inr, true, false, List, ltb, ◌==◌, Bool-cases,
  if◌then◌else◌, length, get_elem?, arith, dec_lt,
}
use simulating_the_functioni.Base.Shift.{remove_at, shift_removes}
use simulating_the_functioni.Sched.Sjf.{
  Process, burst_at, shortest_from, shortest_index, pop_from_queue_sjf,
}

-- `i` is the first of the places before `n` with the least burst.
pub record IsFirstShortest (q : List Process) (i n : ℕ) : Type 0 where
  pub inside : i < n
  pub least : (j : ℕ) → j < n → burst_at q i ≤ burst_at q j
  pub first : (j : ℕ) → j < i → burst_at q i < burst_at q j

module _ (q : List Process) where
  next_shortest :
      (i best : ℕ)
      → IsFirstShortest q best i
      → IsFirstShortest q (if ltb (burst_at q i) (burst_at q best) then i else best) (suc i)
  next_shortest i best s = elim (Bool-cases (ltb (burst_at q i) (burst_at q best))) [
    | inl less ↦ rw less (record {
      inside = omega arith;
      least = λ j lt. older j lt less (dec_lt j i);
      first = λ j lt. ground (arith, s.least j lt);
    })
    | inr more ↦ rw more (record {
      inside = omega (arith, s.inside);
      least = λ j lt. kept j lt more (dec_lt j i);
      first = s.first;
    })
  ]
    where
      older :
          (j : ℕ)
          → j < suc i
          → ltb (burst_at q i) (burst_at q best) ≡ true
          → Dec (j < i)
          → burst_at q i ≤ burst_at q j
      older j lt less (yes p) = ground (arith, s.least j p)
      older j lt less (no p) = ap_le (omega arith)
        where
          ap_le : j ≡ i → burst_at q i ≤ burst_at q j
          ap_le e = rw e (omega arith)

      kept :
          (j : ℕ)
          → j < suc i
          → ltb (burst_at q i) (burst_at q best) ≡ false
          → Dec (j < i)
          → burst_at q best ≤ burst_at q j
      kept j lt more (yes p) = s.least j p
      kept j lt more (no p) = ap_le (omega arith)
        where
          ap_le : j ≡ i → burst_at q best ≤ burst_at q j
          ap_le e = rw e (ground arith)

  shortest_from_lem :
      (n i best m : ℕ)
      → n + i ≡ m
      → IsFirstShortest q best i
      → IsFirstShortest q (shortest_from q n i best) m
  unfolding shortest_from
  shortest_from_lem zero i best m e s = let e' : i ≡ m = omega arith in rw (← e') s
  shortest_from_lem (suc n) i best m e s =
      shortest_from_lem n (suc i) _ m (omega arith) (next_shortest i best s)

  shortest_index_lem : 0 < length q → IsFirstShortest q (shortest_index q) (length q)
  unfolding shortest_index
  shortest_index_lem h = shortest_from_lem (length q - 1) 1 0 (length q) (omega arith) (record {
    inside = omega arith;
    least = λ j lt. let e : j ≡ 0 = omega arith in rw e (omega arith);
    first = λ j lt. absurd (omega arith);
  })

-- From a queue that is not empty, `pop_from_queue_SJF` takes a process with the least burst time,
-- and of those the one that was put in first; the others stay in their order.
pub pop_shortest :
    (q : List Process)
    → 0 < length q
    → (i : ℕ) × IsFirstShortest q i (length q)
      × (pop_from_queue_sjf q ≡ (get_elem? q i, remove_at q i))
unfolding pop_from_queue_sjf
pop_shortest q h = (i, s, rw not_empty (ap (λ r. (get_elem? q i, r)) (shift_removes q i s.inside)))
  where
    i : ℕ
    i = shortest_index q

    s : IsFirstShortest q i (length q)
    s = shortest_index_lem q h

    not_empty : (length q == 0) ≡ false
    not_empty = ground arith
