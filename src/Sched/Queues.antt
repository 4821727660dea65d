-- ===== src/Sched/Queues.antt =====
-- The three queues that both files of Assignment-02-schedulers keep for their multi-level feedback
-- queue: arrays of at most 100 processes, one for each priority. The two files have the same code
-- for them, each with its own `Process`.
pub mod Levels
pub mod Tally
use simulating_the_functioni.Base.{
  ℕ, zero, suc, ◌-◌, ◌≡◌, Bool, true, ◌&&◌, not, Option, none, some, List, [], ◌∷◌, ◌++◌, ltb, ◌==◌,
  if◌then◌else◌, length, get_elem?,
}
use simulating_the_functioni.Base.Shift.{shift, drop_last}

-- What the queues use of a process.
pub record Prioritized (P : Type 0) : Type 0 where
  pub priority : P → ℕ
  pub with_priority : P → ℕ → P
  pub priority_law : (p : P) (k : ℕ) → priority (with_priority p k) ≡ k

-- The three arrays up to their sizes.
pub record Queues (P : Type 0) : Type 0 where
  pub queue0 : List P
  pub queue1 : List P
  pub queue2 : List P

abbrev pub max_queue_size : ℕ
max_queue_size = 100

module _ {P : Type 0} where
  -- The loop that moves the other processes of one queue up.
  abbrev pub behind_first : List P → List P
  behind_first q = drop_last (shift (length q - 1) q 0)

  unfoldable pub pop_from_queue : ℕ → Queues P → Option P × Queues P
  pop_from_queue priority qs =
      if (priority == 0) && ltb 0 (length qs.queue0)
      then (get_elem? qs.queue0 0, record qs { queue0 = behind_first qs.queue0 })
      else if (priority == 1) && ltb 0 (length qs.queue1)
      then (get_elem? qs.queue1 0, record qs { queue1 = behind_first qs.queue1 })
      else if (priority == 2) && ltb 0 (length qs.queue2)
      then (get_elem? qs.queue2 0, record qs { queue2 = behind_first qs.queue2 })
      else (none, qs)

  unfoldable pub is_empty : ℕ → Queues P → Bool
  is_empty priority qs =
      if priority == 0
      then length qs.queue0 == 0
      else if priority == 1
      then length qs.queue1 == 0
      else if priority == 2
      then length qs.queue2 == 0
      else true

  unfoldable pub all_empty : Queues P → Bool
  all_empty qs = is_empty 0 qs && is_empty 1 qs && is_empty 2 qs

  -- The three branches of the loops over the queues: `run` gets the priority of the first queue that
  -- is not empty, with what popping it gives.
  unfoldable pub run_highest : {S : Type 0} → (ℕ → Option P × Queues P → S) → S → Queues P → S
  run_highest run s qs =
      if not (is_empty 0 qs)
      then run 0 (pop_from_queue 0 qs)
      else if not (is_empty 1 qs)
      then run 1 (pop_from_queue 1 qs)
      else if not (is_empty 2 qs)
      then run 2 (pop_from_queue 2 qs)
      else s

  module _ (l : Prioritized P) where
    -- A process that finds its queue full is dropped.
    unfoldable pub add_to_queue : P → Queues P → Queues P
    add_to_queue p qs =
        if (l.priority p == 0) && ltb (length qs.queue0) max_queue_size
        then record qs { queue0 = qs.queue0 ++ p ∷ [] }
        else if (l.priority p == 1) && ltb (length qs.queue1) max_queue_size
        then record qs { queue1 = qs.queue1 ++ p ∷ [] }
        else if (l.priority p == 2) && ltb (length qs.queue2) max_queue_size
        then record qs { queue2 = qs.queue2 ++ p ∷ [] }
        else qs

    -- The body of a `while` of `boost_queues`, with what the queue gave and the rest of the loop.
    unfoldable pub boost_popped : (Queues P → Queues P) → Queues P → Option P × Queues P → Queues P
    boost_popped again qs (none, rest) = qs
    boost_popped again qs (some p, rest) = again (add_to_queue (l.with_priority p 0) rest)

    -- One `while` of `boost_queues`, for as many rounds as the queue has processes.
    unfoldable pub boost_from : ℕ → ℕ → Queues P → Queues P
    unfolding boost_popped
    boost_from zero priority qs = qs
    boost_from (suc n) priority qs =
        boost_popped (boost_from n priority) qs (pop_from_queue priority qs)

    unfoldable pub boost_queues : Queues P → Queues P
    boost_queues qs =
        let one = boost_from (length qs.queue1) 1 qs in boost_from (length one.queue2) 2 one
