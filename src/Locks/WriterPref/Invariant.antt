-- ===== src/Locks/WriterPref/Invariant.antt =====
-- What holds in every state that `main` of rwlock-writer-pref.c reaches. Threads are counted by
-- where they stand: the two semaphores and `readers` add up with these counts.
use simulating_the_functioni.Base.{
  ℕ, ◌+◌, ◌≤◌, ◌<◌, ◌≡◌, ap₂, ◌∙◌, ◌*◌, min, ℕ_discrete, List, some, get_elem?, set, replicate,
  arith,
}
use simulating_the_functioni.Base.Counts.{
  total, total-set, le-total, add-le-total, total-append, total-replicate,
}
use simulating_the_functioni.Locks.Threads.{System, Step, pick, Reach-inv}
use simulating_the_functioni.Locks.WriterPref.{
  Memory, Pc, want_count, want_announce, Move, init, Reach,
}
use simulating_the_functioni.Locks.WriterPref.Places.{
  settled, entering, waiting, admitting, ending, opening, pending, counts_in, retracts, inside,
}

pub record Inv (s : System Memory Pc) : Type 0 where
  pub gate :
      s.mem.lock.reader_count_lock
        + total settled s.threads
        + total entering s.threads
        + total waiting s.threads
        + total admitting s.threads
        + total ending s.threads
        + total opening s.threads
      ≡ 1
  pub counted_in : s.mem.lock.readers ≡ total counts_in s.threads
  pub announced_in : s.mem.lock.writers_waiting ≡ total pending s.threads
  pub none_in : 0 < total waiting s.threads + total opening s.threads → s.mem.lock.readers ≡ 0
  pub none_waits :
      0 < total entering s.threads + total waiting s.threads + total admitting s.threads
      → s.mem.lock.writers_waiting ≡ 0
  pub exclusive :
      s.mem.lock.write_lock
        + total retracts s.threads
        + total inside s.threads
        + min 1 (
            s.mem.lock.readers
            + total admitting s.threads
            + total ending s.threads
            + total opening s.threads)
      ≡ 1

-- How the counts change when a thread goes from `p` to `q`.
abbrev Shift : (Pc → ℕ) → List Pc → List Pc → Pc → Pc → Type 0
Shift w ts us p q = total w us + w p ≡ total w ts + w q

record Shifts (ts us : List Pc) (p q : Pc) : Type 0 where
  of_settled : Shift settled ts us p q
  of_entering : Shift entering ts us p q
  of_waiting : Shift waiting ts us p q
  of_admitting : Shift admitting ts us p q
  of_ending : Shift ending ts us p q
  of_opening : Shift opening ts us p q
  of_counts_in : Shift counts_in ts us p q
  of_pending : Shift pending ts us p q
  of_retracts : Shift retracts ts us p q
  of_inside : Shift inside ts us p q
  held : counts_in p ≤ total counts_in ts
  gated : settled p ≤ total settled ts
  listed : pending p ≤ total pending ts

shifts : (ts : List Pc) (i : ℕ) (p q : Pc) → get_elem? ts i ≡ some p → Shifts ts (set ts i q) p q
shifts ts i p q at = record {
  of_settled = total-set settled ts i p q at;
  of_entering = total-set entering ts i p q at;
  of_waiting = total-set waiting ts i p q at;
  of_admitting = total-set admitting ts i p q at;
  of_ending = total-set ending ts i p q at;
  of_opening = total-set opening ts i p q at;
  of_counts_in = total-set counts_in ts i p q at;
  of_pending = total-set pending ts i p q at;
  of_retracts = total-set retracts ts i p q at;
  of_inside = total-set inside ts i p q at;
  held = le-total counts_in ts i p at;
  gated = le-total settled ts i p at;
  listed = le-total pending ts i p at;
}

module _ {s : System Memory Pc} {us : List Pc} (v : Inv s) where
  Move-Inv :
      {m : Memory} {p q : Pc}
      → Move s.mem p m q
      → Shifts s.threads us p q
      → Inv (record { mem = m; threads = us })
  Move-Inv (Move.enter_gate h) f = omega arith
  Move-Inv (Move.must_wait h) f = omega arith
  Move-Inv (Move.may_enter h) f = omega arith
  Move-Inv Move.back_off f = omega arith
  Move-Inv (Move.rejoin h) f = omega arith
  Move-Inv (Move.is_first h) f = omega arith
  Move-Inv (Move.not_first h) f = omega arith
  Move-Inv (Move.take_write h) f = omega arith
  Move-Inv Move.count f = omega arith
  Move-Inv Move.open_gate f = omega arith
  Move-Inv Move.log_read f = omega arith
  Move-Inv Move.log_read_failed f = omega arith
  Move-Inv Move.read f = omega arith
  Move-Inv (Move.enter_gate_again h) f = omega arith
  Move-Inv Move.uncount f = omega arith
  Move-Inv (Move.is_last h) f = omega arith
  Move-Inv (Move.not_last h) f = omega arith
  Move-Inv Move.post_write f = omega arith
  Move-Inv Move.leave_gate f = omega arith
  Move-Inv (Move.enter_announce h) f = omega arith
  Move-Inv Move.announce f = omega arith
  Move-Inv Move.leave_announce f = omega arith
  Move-Inv (Move.take_exclusive h) f = omega arith
  Move-Inv (Move.enter_retract h) f = omega arith
  Move-Inv Move.retract f = omega arith
  Move-Inv Move.leave_retract f = omega arith
  Move-Inv Move.log_write f = omega arith
  Move-Inv Move.log_write_failed f = omega arith
  Move-Inv Move.write f = omega arith
  Move-Inv Move.write_failed f = omega arith
  Move-Inv Move.release f = omega arith

Step-Inv : (s t : System Memory Pc) → Inv s → Step Move s t → Inv t
Step-Inv s t v (pick i p {q} at mv) = Move-Inv v mv (shifts s.threads i p q at)

pub init-total :
    (w : Pc → ℕ) (n m : ℕ) → total w (init n m).threads ≡ n * w want_count + m * w want_announce
init-total w n m =
    total-append w (replicate n want_count) (replicate m want_announce)
    ∙ ap₂ ◌+◌ (total-replicate w n want_count) (total-replicate w m want_announce)

init-Inv : (n m : ℕ) → Inv (init n m)
init-Inv n m = omega (
  arith,
  init-total settled n m,
  init-total entering n m,
  init-total waiting n m,
  init-total admitting n m,
  init-total ending n m,
  init-total opening n m,
  init-total counts_in n m,
  init-total pending n m,
  init-total retracts n m,
  init-total inside n m,
)

-- Every state that `n` readers and `m` writers reach, in any order, satisfies the invariant.
pub Reach-Inv : (n m : ℕ) {s : System Memory Pc} → Reach n m s → Inv s
Reach-Inv n m r = Reach-inv Inv Step-Inv r (init-Inv n m)

-- In every reachable state: at most one thread is a writer that has returned from
-- `rwlock_acquire_writelock`, and while one is, no reader is between its entry into the count and
-- its exit from it.
pub exclusive_writing :
    (n m : ℕ) {s : System Memory Pc}
    → Reach n m s
    → (i j : ℕ) (p q : Pc) → get_elem? s.threads i ≡ some p
    → get_elem? s.threads j ≡ some q
    → 0 < inside p
    → ((0 < inside q) → i ≡ j) × (counts_in q ≡ 0)
exclusive_writing n m {s} r i j p q at_i at_j w = (
  λ x. same x (ℕ_discrete i j),
  omega (arith, v, le-total inside s.threads i p at_i, le-total counts_in s.threads j q at_j),
)
  where
    v : Inv s
    v = Reach-Inv n m r

    same : 0 < inside q → Dec (i ≡ j) → i ≡ j
    same x (yes e) = e
    same x (no ne) = absurd (omega (arith, v, add-le-total inside s.threads i j p q ne at_i at_j))

-- Only `readers++` makes the count larger, and then no writer waits.
Move-readers :
    {s : System Memory Pc} {m : Memory} {p q : Pc}
    → Inv s
    → Move s.mem p m q
    → admitting p ≤ total admitting s.threads
    → 0 < s.mem.lock.writers_waiting
    → m.lock.readers ≤ s.mem.lock.readers
Move-readers v Move.count at h = absurd (omega (arith, v))
Move-readers v Move.uncount at h = omega arith
Move-readers v _ at h = omega arith

-- Writers come first. In every reachable state: `writers_waiting` is the number of writers that
-- stand between its two updates; it is 0 while a reader that has been let in holds
-- `reader_count_lock`; and while it is positive no step makes `readers` larger.
pub writers_first :
    (n m : ℕ) {s t : System Memory Pc}
    → Reach n m s
    → Step Move s t
    → (s.mem.lock.writers_waiting ≡ total pending s.threads)
      × (0 < total entering s.threads + total waiting s.threads + total admitting s.threads
          → s.mem.lock.writers_waiting ≡ 0)
      × (0 < s.mem.lock.writers_waiting → t.mem.lock.readers ≤ s.mem.lock.readers)
writers_first n m {s} r (pick i p at mv) =
    (v.announced_in, v.none_waits, Move-readers v mv (le-total admitting s.threads i p at))
  where
    v : Inv s
    v = Reach-Inv n m r
