-- ===== src/Locks/ReaderPref/Invariant.antt =====
-- What holds in every state that `main` of rwlock-reader-pref.c reaches. Threads are counted by
-- where they stand: the two semaphores and `readers` add up with these counts.
use simulating_the_functioni.Base.{
  ℕ, ◌+◌, ◌≤◌, ◌<◌, ◌≡◌, ap₂, ◌∙◌, ◌*◌, min, ℕ_discrete, List, some, get_elem?, set, replicate,
  arith,
}
use simulating_the_functioni.Base.Counts.{
  total, total-set, le-total, add-le-total, total-append, total-replicate,
}
use simulating_the_functioni.Locks.Threads.{System, Step, pick, Reach-inv}
use simulating_the_functioni.Locks.ReaderPref.{
  Memory, Pc, want_count, first_test, want_write, counting, counted, logging_read, reading_file,
  want_uncount, uncounting, last_test, open_write, leaving, want_exclusive, logging_write,
  writing_file, closing, Move, init, Reach,
}

-- Holds `reader_lock`, and the lock for writing is as `readers` tells.
abbrev pub settled : Pc → ℕ
settled first_test = 1
settled counted = 1
settled uncounting = 1
settled leaving = 1
settled _ = 0

-- Holds `reader_lock` and waits for the lock for writing.
abbrev pub waiting : Pc → ℕ
waiting want_write = 1
waiting _ = 0

-- Holds `reader_lock`, and the readers have the lock for writing whatever `readers` tells.
abbrev pub moving : Pc → ℕ
moving counting = 1
moving last_test = 1
moving _ = 0

abbrev pub opening : Pc → ℕ
opening open_write = 1
opening _ = 0

-- Is in the count `readers`.
abbrev pub counts_in : Pc → ℕ
counts_in counted = 1
counts_in logging_read = 1
counts_in reading_file = 1
counts_in want_uncount = 1
counts_in uncounting = 1
counts_in _ = 0

-- Is a writer between `rwlock_acquire_writelock` and the post of the lock.
abbrev pub writes : Pc → ℕ
writes logging_write = 1
writes writing_file = 1
writes closing = 1
writes _ = 0

pub record Inv (s : System Memory Pc) : Type 0 where
  pub gate :
      s.mem.lock.reader_lock
        + total settled s.threads
        + total waiting s.threads
        + total moving s.threads
        + total opening s.threads
      ≡ 1
  pub counted_in : s.mem.lock.readers ≡ total counts_in s.threads
  pub none_in : 0 < total waiting s.threads + total opening s.threads → s.mem.lock.readers ≡ 0
  pub exclusive :
      s.mem.lock.write_lock
        + total writes s.threads
        + min 1 (s.mem.lock.readers + total moving s.threads + total opening s.threads)
      ≡ 1

-- How the counts change when a thread goes from `p` to `q`.
abbrev Shift : (Pc → ℕ) → List Pc → List Pc → Pc → Pc → Type 0
Shift w ts us p q = total w us + w p ≡ total w ts + w q

record Shifts (ts us : List Pc) (p q : Pc) : Type 0 where
  of_settled : Shift settled ts us p q
  of_waiting : Shift waiting ts us p q
  of_moving : Shift moving ts us p q
  of_opening : Shift opening ts us p q
  of_counts_in : Shift counts_in ts us p q
  of_writes : Shift writes ts us p q
  held : counts_in p ≤ total counts_in ts

shifts : (ts : List Pc) (i : ℕ) (p q : Pc) → get_elem? ts i ≡ some p → Shifts ts (set ts i q) p q
shifts ts i p q at = record {
  of_settled = total-set settled ts i p q at;
  of_waiting = total-set waiting ts i p q at;
  of_moving = total-set moving ts i p q at;
  of_opening = total-set opening ts i p q at;
  of_counts_in = total-set counts_in ts i p q at;
  of_writes = total-set writes ts i p q at;
  held = le-total counts_in ts i p at;
}

module _ {s : System Memory Pc} {us : List Pc} (v : Inv s) where
  Move-Inv :
      {m : Memory} {p q : Pc}
      → Move s.mem p m q
      → Shifts s.threads us p q
      → Inv (record { mem = m; threads = us })
  Move-Inv (Move.enter_gate h) f = omega arith
  Move-Inv (Move.is_first h) f = omega arith
  Move-Inv (Move.not_first h) f = omega arith
  Move-Inv (Move.take_write h) f = omega arith
  Move-Inv Move.count f = omega arith
  Move-Inv Move.open_gate f = omega arith
  Move-Inv Move.log_read f = omega arith
  Move-Inv Move.log_read_failed f = omega arith
  Move-Inv Move.read f = omega arith
  Move-Inv (Move.enter_gate_again h) f = omega arith
  Move-Inv Move.uncount f = omega arith
  Move-Inv (Move.is_last h) f = omega arith
  Move-Inv (Move.not_last h) f = omega arith
  Move-Inv Move.post_write f = omega arith
  Move-Inv Move.leave_gate f = omega arith
  Move-Inv (Move.take_exclusive h) f = omega arith
  Move-Inv Move.log_write f = omega arith
  Move-Inv Move.log_write_failed f = omega arith
  Move-Inv Move.write f = omega arith
  Move-Inv Move.write_failed f = omega arith
  Move-Inv Move.release f = omega arith

pub Step-Inv : (s t : System Memory Pc) → Inv s → Step Move s t → Inv t
Step-Inv s t v (pick i p {q} at mv) = Move-Inv v mv (shifts s.threads i p q at)

pub init-total :
    (w : Pc → ℕ) (n m : ℕ) → total w (init n m).threads ≡ n * w want_count + m * w want_exclusive
init-total w n m =
    total-append w (replicate n want_count) (replicate m want_exclusive)
    ∙ ap₂ ◌+◌ (total-replicate w n want_count) (total-replicate w m want_exclusive)

pub init-Inv : (n m : ℕ) → Inv (init n m)
init-Inv n m = omega (
  arith,
  init-total settled n m,
  init-total waiting n m,
  init-total moving n m,
  init-total opening n m,
  init-total counts_in n m,
  init-total writes n m,
)

-- Every state that `n` readers and `m` writers reach, in any order, satisfies the invariant.
pub Reach-Inv : (n m : ℕ) {s : System Memory Pc} → Reach n m s → Inv s
Reach-Inv n m r = Reach-inv Inv Step-Inv r (init-Inv n m)

-- In every reachable state: at most one thread is a writer that has the lock, and while one is, no
-- reader is between its entry into the count and its exit from it.
pub writers_exclude :
    (n m : ℕ) {s : System Memory Pc}
    → Reach n m s
    → (i j : ℕ) (p q : Pc) → get_elem? s.threads i ≡ some p
    → get_elem? s.threads j ≡ some q
    → 0 < writes p
    → ((0 < writes q) → i ≡ j) × (counts_in q ≡ 0)
writers_exclude n m {s} r i j p q at_i at_j w = (
  λ x. same x (ℕ_discrete i j),
  omega (arith, v, le-total writes s.threads i p at_i, le-total counts_in s.threads j q at_j),
)
  where
    v : Inv s
    v = Reach-Inv n m r

    same : 0 < writes q → Dec (i ≡ j) → i ≡ j
    same x (yes e) = e
    same x (no ne) = absurd (omega (arith, v, add-le-total writes s.threads i j p q ne at_i at_j))
