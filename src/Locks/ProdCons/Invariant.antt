-- ===== src/Locks/ProdCons/Invariant.antt =====
-- What holds in every state that `main` of prod-cons.c reaches: who has the mutex, the buffer's
-- indices, when `terminate` is set, and that no thread sleeps through the signal that it needs.
use simulating_the_functioni.Base.{
  ℕ, ◌+◌, ◌%◌, ◌≤◌, ◌<◌, ◌≡◌, ◌⊎◌, ◌&&◌, ◌==◌, Bool, true, false, List, length, length-set, arith,
}
use simulating_the_functioni.Locks.ProdCons.{
  Producer, scanning, full_wait, full_woken, storing, end_locking, end_signalling, end_unlocking,
  Consumer, empty_test, empty_wait, empty_woken, taking, logging, exiting, System, buffer_size,
  ProducerStep, ConsumerStep, Step, by_producer, by_consumer, spurious_producer, spurious_consumer,
  init, Reach, start, later,
}

abbrev pub bit : Bool → ℕ
bit true = 1
bit false = 0

-- The producer is between `pthread_mutex_lock` and `pthread_mutex_unlock`, and not in a wait.
abbrev pub producer_holds : Producer → ℕ
producer_holds scanning = 0
producer_holds (Producer.locking x) = 0
producer_holds (full_wait x) = 0
producer_holds (full_woken x) = 0
producer_holds end_locking = 0
producer_holds Producer.finished = 0
producer_holds _ = 1

abbrev pub consumer_holds : Consumer → ℕ
consumer_holds Consumer.locking = 0
consumer_holds empty_wait = 0
consumer_holds empty_woken = 0
consumer_holds Consumer.finished = 0
consumer_holds _ = 1

-- The producer is behind `terminate = 1`.
abbrev pub has_ended : Producer → Bool
has_ended end_signalling = true
has_ended end_unlocking = true
has_ended Producer.finished = true
has_ended _ = false

-- What the producer's position says of the rest of the state.
abbrev pub ProducerFact : System → Producer → Type 0
ProducerFact s (storing x) = s.count < buffer_size
ProducerFact s (full_wait x) =
    (s.count ≡ buffer_size) ⊎ (s.cons ≡ Consumer.signalling) ⊎ ((x : ℕ) × (s.cons ≡ logging x))
ProducerFact s _ = Unit {0}

-- The producer is about to signal `not_empty`.
abbrev pub will_signal : Producer → Bool
will_signal Producer.signalling = true
will_signal end_signalling = true
will_signal _ = false

abbrev pub ConsumerFact : System → Consumer → Type 0
ConsumerFact s taking = 0 < s.count
ConsumerFact s empty_test = ((s.count == 0) && s.terminate) ≡ false
ConsumerFact s exiting = (s.count ≡ 0) × (s.terminate ≡ true)
ConsumerFact s Consumer.finished = (s.count ≡ 0) × (s.terminate ≡ true)
ConsumerFact s empty_wait = (will_signal s.prod ≡ true) ⊎ ((s.count ≡ 0) × (s.terminate ≡ false))
ConsumerFact s _ = Unit {0}

pub record Inv (s : System) : Type 0 where
  pub owner : bit s.mutex ≡ producer_holds s.prod + consumer_holds s.cons
  pub size : length s.buffer ≡ buffer_size
  pub count_le : s.count ≤ buffer_size
  pub out_lt : s.out < buffer_size
  pub next_in_eq : s.next_in ≡ (s.out + s.count) % buffer_size
  pub ended : s.terminate ≡ has_ended s.prod
  pub producer_fact : ProducerFact s s.prod
  pub consumer_fact : ConsumerFact s s.cons

pub ProducerStep-Inv : {s t : System} → Inv s → ProducerStep s t → Inv t
ProducerStep-Inv v (ProducerStep.scan x r p e) = ground arith
ProducerStep-Inv v (ProducerStep.scan_eof p e) = ground arith
ProducerStep-Inv v (ProducerStep.lock x p e) = ground arith
ProducerStep-Inv v (ProducerStep.stop x p e) = ground arith
ProducerStep-Inv v (ProducerStep.go_on x p e) = ground arith
ProducerStep-Inv v (ProducerStep.sleep x p e) = ground arith
ProducerStep-Inv v (ProducerStep.relock x p e) = ground arith
ProducerStep-Inv v (ProducerStep.has_room x p e) = ground arith
ProducerStep-Inv v (ProducerStep.signal p) = ground arith
ProducerStep-Inv v (ProducerStep.unlock p) = ground arith
ProducerStep-Inv v (ProducerStep.end_lock p e) = ground arith
ProducerStep-Inv v (ProducerStep.end_loop p) = ground arith
ProducerStep-Inv v (ProducerStep.end_signal p) = ground arith
ProducerStep-Inv v (ProducerStep.end_unlock p) = ground arith
ProducerStep-Inv {s} v (ProducerStep.store x p) = ground (arith, length-set s.buffer s.next_in x)

pub ConsumerStep-Inv : {s t : System} → Inv s → ConsumerStep s t → Inv t
ConsumerStep-Inv v (ConsumerStep.lock p e) = ground arith
ConsumerStep-Inv v (ConsumerStep.leave p e f) = ground arith
ConsumerStep-Inv v (ConsumerStep.go_on p e) = ground arith
ConsumerStep-Inv v (ConsumerStep.sleep p e) = ground arith
ConsumerStep-Inv v (ConsumerStep.relock p e) = ground arith
ConsumerStep-Inv v (ConsumerStep.leave_woken p e f) = ground arith
ConsumerStep-Inv v (ConsumerStep.retest p e) = ground arith
ConsumerStep-Inv v (ConsumerStep.has_item p e) = ground arith
ConsumerStep-Inv v (ConsumerStep.take p) = ground arith
ConsumerStep-Inv v (ConsumerStep.log x p) = ground arith
ConsumerStep-Inv v (ConsumerStep.signal p) = ground arith
ConsumerStep-Inv v (ConsumerStep.unlock p) = ground arith
ConsumerStep-Inv v (ConsumerStep.exit p) = ground arith

pub Step-Inv : {s t : System} → Inv s → Step s t → Inv t
Step-Inv v (by_producer st) = ProducerStep-Inv v st
Step-Inv v (by_consumer st) = ConsumerStep-Inv v st
Step-Inv v (spurious_producer x p e) = ground arith
Step-Inv v (spurious_consumer p e) = ground arith

pub init-Inv : (input : List ℕ) → Inv (init input)
init-Inv input = ground arith

-- Every state that the two threads reach, in any order of their steps, satisfies the invariant.
pub Reach-Inv : {input : List ℕ} {s : System} → Reach input s → Inv s
Reach-Inv {input} start = init-Inv input
Reach-Inv (later r st) = Step-Inv (Reach-Inv r) st

-- In every reachable state at most one thread is between locking and unlocking the mutex, and the
-- mutex is locked exactly if one is.
pub mutual_exclusion :
    {input : List ℕ} {s : System}
    → Reach input s
    → (producer_holds s.prod + consumer_holds s.cons ≤ 1)
      × (bit s.mutex ≡ producer_holds s.prod + consumer_holds s.cons)
mutual_exclusion r = ground (arith, Reach-Inv r)

-- In every reachable state the buffer has its 100 cells, `count` is at most 100, both indices are
-- in range, and `in` is `count` places beyond `out`, going round.
pub buffer_bounds :
    {input : List ℕ} {s : System}
    → Reach input s
    → (length s.buffer ≡ buffer_size)
      × (s.count ≤ buffer_size)
      × (s.out < buffer_size)
      × (s.next_in < buffer_size)
      × (s.next_in ≡ (s.out + s.count) % buffer_size)
buffer_bounds r = ground (arith, Reach-Inv r)
