-- ===== src/Locks/ProdCons.antt =====
-- Assignment-04-locks/prod-cons.c: `producer` and `consumer` over the shared buffer, as steps that
-- the scheduler interleaves. A step is what one thread does between two points where the other can
-- run: the statements inside a critical section touch only what the mutex protects.
pub mod Invariant
pub mod Flow
pub mod Progress
mod Tests
use simulating_the_functioni.Base.{
  ℕ, zero, suc, ◌+◌, ◌-◌, ◌%◌, ◌<◌, ◌≡◌, ◌≢◌, Bool, true, false, ◌&&◌, ◌||◌, Option, none, some,
  List, [], ◌∷◌, ◌++◌, ◌==◌, set, get_or, replicate,
}
use simulating_the_functioni.Base.Ring.{window}

-- BUFFER_SIZE
abbrev pub buffer_size : ℕ
buffer_size = 100

-- One line of the output file: the item, and the buffer's state behind it.
pub record Line : Type 0 where
  pub item : ℕ
  pub state : List ℕ

-- Where the producer stands, with its local `item`.
pub data Producer : Type 0 where
  scanning : Producer  -- before `fscanf`
  locking : ℕ → Producer  -- before `pthread_mutex_lock`
  testing : ℕ → Producer  -- `if (item == 0)`
  full_test : ℕ → Producer  -- `while (count == BUFFER_SIZE)`
  full_wait : ℕ → Producer  -- asleep in `pthread_cond_wait`
  full_woken : ℕ → Producer  -- woken, before it has the mutex again
  storing : ℕ → Producer  -- `buffer[in] = item` and the two updates
  signalling : Producer  -- `pthread_cond_signal(&not_empty)`
  unlocking : Producer
  end_locking : Producer  -- behind the loop, before `pthread_mutex_lock`
  ending : Producer  -- `terminate = 1`
  end_signalling : Producer
  end_unlocking : Producer
  finished : Producer

pub data Consumer : Type 0 where
  locking : Consumer  -- head of `while (1)`
  testing : Consumer  -- `if (count == 0 && terminate)`
  empty_test : Consumer  -- `while (count == 0)`
  empty_wait : Consumer  -- asleep in `pthread_cond_wait`
  empty_woken : Consumer  -- woken, before it has the mutex again
  retesting : Consumer  -- the test inside the `while`
  taking : Consumer  -- `item = buffer[out]` and the two updates
  logging : ℕ → Consumer  -- the three `fprintf` parts of one line
  signalling : Consumer  -- `pthread_cond_signal(&not_full)`
  unlocking : Consumer
  exiting : Consumer  -- `pthread_mutex_unlock` before `return NULL`
  finished : Consumer

-- The globals, the input that is left to scan and the lines written so far.
pub record System : Type 0 where
  pub buffer : List ℕ
  pub count : ℕ
  pub next_in : ℕ  -- `in`
  pub out : ℕ
  pub terminate : Bool
  pub mutex : Bool  -- locked
  pub input : List ℕ
  pub lines : List Line
  pub prod : Producer
  pub cons : Consumer

-- `pthread_cond_signal` wakes a thread that waits on the condition, and does nothing if none does.
abbrev pub wake_consumer : Consumer → Consumer
wake_consumer empty_wait = empty_woken
wake_consumer c = c

abbrev pub wake_producer : Producer → Producer
wake_producer (full_wait x) = full_woken x
wake_producer p = p

-- The `for` over the buffer in the consumer prints these.
abbrev pub buffer_state : System → List ℕ
buffer_state s = window buffer_size s.buffer s.out s.count

-- One step of the producer.
pub data ProducerStep (s : System) : System → Type 0 where
  scan :
      (x : ℕ) (rest : List ℕ)
      → s.prod ≡ scanning
      → s.input ≡ x ∷ rest
      → ProducerStep s (record s { prod = Producer.locking x; input = rest })
  scan_eof : s.prod ≡ scanning → s.input ≡ [] → ProducerStep s (record s { prod = end_locking })
  lock :
      (x : ℕ)
      → s.prod ≡ Producer.locking x
      → s.mutex ≡ false
      → ProducerStep s (record s { prod = Producer.testing x; mutex = true })
  stop :
      (x : ℕ)
      → s.prod ≡ Producer.testing x
      → x ≡ 0
      → ProducerStep s (record s { prod = end_signalling; terminate = true })
  go_on :
      (x : ℕ)
      → s.prod ≡ Producer.testing x
      → x ≢ 0
      → ProducerStep s (record s { prod = full_test x })
  sleep :
      (x : ℕ)
      → s.prod ≡ full_test x
      → s.count ≡ buffer_size
      → ProducerStep s (record s { prod = full_wait x; mutex = false })
  relock :
      (x : ℕ)
      → s.prod ≡ full_woken x
      → s.mutex ≡ false
      → ProducerStep s (record s { prod = full_test x; mutex = true })
  has_room :
      (x : ℕ)
      → s.prod ≡ full_test x
      → s.count ≢ buffer_size
      → ProducerStep s (record s { prod = storing x })
  store :
      (x : ℕ)
      → s.prod ≡ storing x
      → ProducerStep s (record s {
        buffer = set s.buffer s.next_in x;
        next_in = (s.next_in + 1) % buffer_size;
        count = s.count + 1;
        prod = Producer.signalling;
      })
  signal :
      s.prod ≡ Producer.signalling
      → ProducerStep s (record s { prod = Producer.unlocking; cons = wake_consumer s.cons })
  unlock :
      s.prod ≡ Producer.unlocking → ProducerStep s (record s { prod = scanning; mutex = false })
  end_lock :
      s.prod ≡ end_locking
      → s.mutex ≡ false
      → ProducerStep s (record s { prod = ending; mutex = true })
  end_loop : s.prod ≡ ending → ProducerStep s (record s { prod = end_signalling; terminate = true })
  end_signal :
      s.prod ≡ end_signalling
      → ProducerStep s (record s { prod = end_unlocking; cons = wake_consumer s.cons })
  end_unlock :
      s.prod ≡ end_unlocking → ProducerStep s (record s { prod = Producer.finished; mutex = false })

-- One step of the consumer.
pub data ConsumerStep (s : System) : System → Type 0 where
  lock :
      s.cons ≡ Consumer.locking
      → s.mutex ≡ false
      → ConsumerStep s (record s { cons = Consumer.testing; mutex = true })
  leave :
      s.cons ≡ Consumer.testing
      → s.count ≡ 0
      → s.terminate ≡ true
      → ConsumerStep s (record s { cons = exiting })
  go_on :
      s.cons ≡ Consumer.testing
      → ((s.count == 0) && s.terminate) ≡ false
      → ConsumerStep s (record s { cons = empty_test })
  sleep :
      s.cons ≡ empty_test
      → s.count ≡ 0
      → ConsumerStep s (record s { cons = empty_wait; mutex = false })
  relock :
      s.cons ≡ empty_woken
      → s.mutex ≡ false
      → ConsumerStep s (record s { cons = retesting; mutex = true })
  leave_woken :
      s.cons ≡ retesting
      → s.count ≡ 0
      → s.terminate ≡ true
      → ConsumerStep s (record s { cons = exiting })
  retest :
      s.cons ≡ retesting
      → ((s.count == 0) && s.terminate) ≡ false
      → ConsumerStep s (record s { cons = empty_test })
  has_item : s.cons ≡ empty_test → s.count ≢ 0 → ConsumerStep s (record s { cons = taking })
  take :
      s.cons ≡ taking
      → ConsumerStep s (record s {
        cons = logging (get_or s.buffer s.out 0);
        out = (s.out + 1) % buffer_size;
        count = s.count - 1;
      })
  log :
      (x : ℕ)
      → s.cons ≡ logging x
      → ConsumerStep s (record s {
        cons = Consumer.signalling;
        lines = s.lines ++ (record { item = x; state = buffer_state s }) ∷ [];
      })
  signal :
      s.cons ≡ Consumer.signalling
      → ConsumerStep s (record s { cons = Consumer.unlocking; prod = wake_producer s.prod })
  unlock :
      s.cons ≡ Consumer.unlocking
      → ConsumerStep s (record s { cons = Consumer.locking; mutex = false })
  exit : s.cons ≡ exiting → ConsumerStep s (record s { cons = Consumer.finished; mutex = false })

-- What the scheduler may do. POSIX allows a wait to end with no signal.
pub data Step (s t : System) : Type 0 where
  by_producer : ProducerStep s t → Step s t
  by_consumer : ConsumerStep s t → Step s t
  spurious_producer :
      (x : ℕ) → s.prod ≡ full_wait x → t ≡ record s { prod = full_woken x } → Step s t
  spurious_consumer : s.cons ≡ empty_wait → t ≡ record s { cons = empty_woken } → Step s t

-- `main`, with the numbers that the input file holds.
abbrev pub init : List ℕ → System
init input = record {
  buffer = replicate buffer_size 0;
  count = 0;
  next_in = 0;
  out = 0;
  terminate = false;
  mutex = false;
  input = input;
  lines = [];
  prod = scanning;
  cons = Consumer.locking;
}

pub data Reach (input : List ℕ) : System → Type 0 where
  start : Reach input (init input)
  later : {s t : System} → Reach input s → Step s t → Reach input t
