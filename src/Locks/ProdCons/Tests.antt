-- ===== src/Locks/ProdCons/Tests.antt =====
-- Runs of prod-cons.c on small inputs, step by step.
use simulating_the_functioni.Base.{
  ℕ, ◌+◌, ◌%◌, ◌≤◌, ◌<◌, ◌≡◌, refl, ◌⊎◌, false, List, [], ◌∷◌, ◌++◌, length, arith,
}
use simulating_the_functioni.Locks.ProdCons.{
  Producer, Consumer, System, buffer_size, buffer_state, ProducerStep, ConsumerStep, by_producer,
  by_consumer, Reach, start, later,
}
use simulating_the_functioni.Locks.ProdCons.Invariant.{
  bit, producer_holds, consumer_holds, mutual_exclusion, buffer_bounds,
}
use simulating_the_functioni.Locks.ProdCons.Flow.{
  live, items, in_hand, to_send, Shown, items_conserved, all_consumed,
}
use simulating_the_functioni.Locks.ProdCons.Progress.{no_deadlock}

-- A run of `main` on the numbers 7 and 0.
abbrev input : List ℕ
input = 7 ∷ 0 ∷ []

record Run : Type 0 where
  last : System
  reach : Reach input last

abbrev by_p : (r : Run) {t : System} → ProducerStep r.last t → Run
by_p r st = record { last = _; reach = later r.reach (by_producer st) }

abbrev by_c : (r : Run) {t : System} → ConsumerStep r.last t → Run
by_c r st = record { last = _; reach = later r.reach (by_consumer st) }

abbrev begin : Run
begin = record { last = _; reach = start }

-- The producer is inside its critical section, and the consumer has not begun.
abbrev inside : Run
inside = by_p (by_p begin (ProducerStep.scan 7 (0 ∷ []) refl refl)) (ProducerStep.lock 7 refl refl)

-- The item is in the buffer.
abbrev put : Run
put =
    by_p
      (by_p
        (by_p
          (by_p (by_p inside (ProducerStep.go_on 7 refl (omega arith)))
            (ProducerStep.has_room 7 refl (omega arith)))
          (ProducerStep.store 7 refl))
        (ProducerStep.signal refl))
      (ProducerStep.unlock refl)

-- The consumer has taken it and has written its line.
abbrev taken : Run
taken =
    by_c
      (by_c
        (by_c (by_c (by_c put (ConsumerStep.lock refl refl)) (ConsumerStep.go_on refl refl))
          (ConsumerStep.has_item refl (omega arith)))
        (ConsumerStep.take refl))
      (ConsumerStep.log 7 refl)

-- The producer reads the 0 and returns.
abbrev stopped : Run
stopped =
    let a = by_c (by_c taken (ConsumerStep.signal refl)) (ConsumerStep.unlock refl) in
    let b = by_p (by_p a (ProducerStep.scan 0 [] refl refl)) (ProducerStep.lock 0 refl refl) in
    let c = by_p (by_p b (ProducerStep.stop 0 refl refl)) (ProducerStep.end_signal refl) in
    by_p c (ProducerStep.end_unlock refl)

abbrev done : Run
done =
    by_c (by_c (by_c stopped (ConsumerStep.lock refl refl)) (ConsumerStep.leave refl refl refl))
      (ConsumerStep.exit refl)

written : done.last.lines ≡ record { item = 7; state = [] } ∷ []
written = refl

mutual_exclusion_example :
    (producer_holds inside.last.prod + consumer_holds inside.last.cons ≤ 1)
    × (bit inside.last.mutex ≡ producer_holds inside.last.prod + consumer_holds inside.last.cons)
mutual_exclusion_example = mutual_exclusion inside.reach

one_waits_bounds :
    (length put.last.buffer ≡ buffer_size)
    × (put.last.count ≤ buffer_size)
    × (put.last.out < buffer_size)
    × (put.last.next_in < buffer_size)
    × (put.last.next_in ≡ (put.last.out + put.last.count) % buffer_size)
one_waits_bounds = buffer_bounds put.reach

items_conserved_example :
    (items taken.last.lines
        ++ (in_hand taken.last.cons
            ++ (buffer_state taken.last ++ to_send taken.last.prod taken.last.input))
      ≡ live input)
    × Shown (live input) taken.last.lines
items_conserved_example = items_conserved taken.reach

all_consumed_example :
    (items done.last.lines ≡ live input) × (done.last.count ≡ 0) × (done.last.mutex ≡ false)
all_consumed_example = all_consumed done.reach refl refl

no_deadlock_example :
    ((put.last.prod ≡ Producer.finished) × (put.last.cons ≡ Consumer.finished))
    ⊎ ((t : System) × ProducerStep put.last t)
    ⊎ ((t : System) × ConsumerStep put.last t)
no_deadlock_example = no_deadlock put.reach
