-- ===== src/Locks/WriterPref/Progress.antt =====
-- The threads of rwlock-writer-pref.c never all block.
use simulating_the_functioni.Base.{ℕ, ◌+◌, ◌≤◌, ◌<◌, ◌≡◌, ◌≢◌, some, get_elem?, arith, ℕ_discrete}
use native.Mathlib.Decide.{dec_lt}
use simulating_the_functioni.Base.Counts.{total, le-total, total_pos, total-le-add}
use simulating_the_functioni.Locks.Threads.{System, Step, pick}
use simulating_the_functioni.Locks.WriterPref.{
  Memory, Pc, want_count, first_test, want_write, counting, counted, logging_read, reading_file,
  want_uncount, uncounting, check_writers, backing_off, sleeping, want_announce, announcing,
  announced, want_retract, retracting, retracted, last_test, open_write, leaving, reader_done,
  want_exclusive, logging_write, writing_file, closing, writer_done, Move, Reach,
}
use simulating_the_functioni.Locks.WriterPref.Invariant.{Inv, Reach-Inv}
use simulating_the_functioni.Locks.WriterPref.Places.{
  settled, entering, waiting, admitting, ending, opening, counts_in, pending, retracts, inside,
}

abbrev unfinished : Pc → ℕ
unfinished reader_done = 0
unfinished writer_done = 0
unfinished _ = 1

-- What a thread needs of the two semaphores to move on.
abbrev gate_need : Pc → ℕ
gate_need want_count = 1
gate_need want_uncount = 1
gate_need sleeping = 1
gate_need want_announce = 1
gate_need want_retract = 1
gate_need _ = 0

abbrev write_need : Pc → ℕ
write_need want_write = 1
write_need want_exclusive = 1
write_need _ = 0

module _ (m : Memory) where
  -- A thread whose needs are met, and that has not returned, can move.
  able :
      (p : Pc)
      → gate_need p ≤ m.lock.reader_count_lock
      → write_need p ≤ m.lock.write_lock
      → 0 < unfinished p
      → (n : Memory) × (q : Pc) × Move m p n q
  able want_count g w r = (_, _, Move.enter_gate g)
  able check_writers g w r = elim (ℕ_discrete m.lock.writers_waiting 0) [
    | yes e ↦ (_, _, Move.may_enter e)
    | no e ↦ (_, _, Move.must_wait e)
  ]
  able backing_off g w r = (_, _, Move.back_off)
  able sleeping g w r = (_, _, Move.rejoin g)
  able first_test g w r = elim (ℕ_discrete m.lock.readers 0) [
    | yes e ↦ (_, _, Move.is_first e)
    | no e ↦ (_, _, Move.not_first e)
  ]
  able want_write g w r = (_, _, Move.take_write w)
  able counting g w r = (_, _, Move.count)
  able counted g w r = (_, _, Move.open_gate)
  able logging_read g w r = (_, _, Move.log_read)
  able reading_file g w r = (_, _, Move.read)
  able want_uncount g w r = (_, _, Move.enter_gate_again g)
  able uncounting g w r = (_, _, Move.uncount)
  able last_test g w r = elim (ℕ_discrete m.lock.readers 0) [
    | yes e ↦ (_, _, Move.is_last e)
    | no e ↦ (_, _, Move.not_last e)
  ]
  able open_write g w r = (_, _, Move.post_write)
  able leaving g w r = (_, _, Move.leave_gate)
  able reader_done g w r = absurd (omega arith)
  able want_announce g w r = (_, _, Move.enter_announce g)
  able announcing g w r = (_, _, Move.announce)
  able announced g w r = (_, _, Move.leave_announce)
  able want_retract g w r = (_, _, Move.enter_retract g)
  able retracting g w r = (_, _, Move.retract)
  able retracted g w r = (_, _, Move.leave_retract)
  able want_exclusive g w r = (_, _, Move.take_exclusive w)
  able logging_write g w r = (_, _, Move.log_write)
  able writing_file g w r = (_, _, Move.write)
  able closing g w r = (_, _, Move.release)
  able writer_done g w r = absurd (omega arith)

abbrev CanStep : System Memory Pc → Type 0
CanStep s = (t : System Memory Pc) × Step Move s t

module _ (s : System Memory Pc) where
  -- Where some thread has a positive weight, and all such threads can move, the system can.
  some_steps :
      (w : Pc → ℕ)
      → 0 < total w s.threads
      → ((p : Pc)
          → 0 < w p
          → (gate_need p ≤ s.mem.lock.reader_count_lock)
            × (write_need p ≤ s.mem.lock.write_lock)
            × (0 < unfinished p))
      → CanStep s
  some_steps w pos ready =
      let (i, p, at, h) = total_pos w s.threads pos in
      let (g, f, r) = ready p h in let (n, q, mv) = able s.mem p g f r in (_, pick i p at mv)

  module _ (v : Inv s) where
    -- Someone holds `reader_count_lock` and does not wait.
    gate_held : s.mem.lock.reader_count_lock ≡ 0 → total waiting s.threads ≡ 0 → CanStep s
    gate_held shut none = elim (dec_lt 0 (total settled s.threads)) [
      | yes h ↦ some_steps settled h (λ p h. ground arith)
      | no h ↦ elim (dec_lt 0 (total entering s.threads)) [
        | yes k ↦ some_steps entering k (λ p h. ground arith)
        | no k ↦ elim (dec_lt 0 (total admitting s.threads)) [
          | yes l ↦ some_steps admitting l (λ p h. ground arith)
          | no l ↦ elim (dec_lt 0 (total ending s.threads)) [
            | yes e ↦ some_steps ending e (λ p h. ground arith)
            | no e ↦ some_steps opening (omega (arith, v)) (λ p h. ground arith)
          ]
        ]
      ]
    ]

    -- A writer on its way out of `writers_waiting` is in it, or holds `reader_count_lock`.
    retracts-le : total retracts s.threads ≤ total pending s.threads + total settled s.threads
    retracts-le = total-le-add retracts pending settled (λ p. ground arith) s.threads

    gate_shut : s.mem.lock.reader_count_lock ≡ 0 → CanStep s
    gate_shut shut = elim (dec_lt 0 (total waiting s.threads)) [
      | no none ↦ gate_held shut (omega arith)
      | yes wait ↦ elim (dec_lt 0 (total inside s.threads)) [
        | yes busy ↦ some_steps inside busy (λ p h. ground arith)
        | no idle ↦ some_steps waiting wait (λ p h. free p h (omega (arith, v, retracts-le)))
      ]
    ]
      where
        free :
            (p : Pc)
            → 0 < waiting p
            → 0 < s.mem.lock.write_lock
            → (gate_need p ≤ s.mem.lock.reader_count_lock)
              × (write_need p ≤ s.mem.lock.write_lock)
              × (0 < unfinished p)
        free p h w = ground arith

    -- Nobody holds `reader_count_lock`, and a thread has not returned.
    gate_open : 0 < s.mem.lock.reader_count_lock → 0 < total unfinished s.threads → CanStep s
    gate_open open_ left = elim (dec_lt 0 s.mem.lock.write_lock) [
      | yes free ↦ some_steps unfinished left (λ p h. ground arith)
      | no held ↦ elim (dec_lt 0 (total inside s.threads)) [
        | yes busy ↦ some_steps inside busy (λ p h. ground arith)
        | no idle ↦ elim (dec_lt 0 (total retracts s.threads)) [
          | yes busy ↦ some_steps retracts busy (λ p h. ground arith)
          | no none ↦ some_steps counts_in (omega (arith, v)) (λ p h. ground arith)
        ]
      ]
    ]

-- No deadlock: in every reachable state in which some thread has not returned, some thread can move.
pub never_stuck :
    (n m : ℕ) {s : System Memory Pc}
    → Reach n m s
    → (i : ℕ) (p : Pc) → get_elem? s.threads i ≡ some p
    → p ≢ reader_done
    → p ≢ writer_done
    → (t : System Memory Pc) × Step Move s t
never_stuck n m {s} r i p at not_r not_w = elim (dec_lt 0 s.mem.lock.reader_count_lock) [
  | yes free ↦
      gate_open s v free (omega (arith, le-total unfinished s.threads i p at, left p not_r not_w))
  | no shut ↦ gate_shut s v (omega arith)
]
  where
    v : Inv s
    v = Reach-Inv n m r

    left : (q : Pc) → q ≢ reader_done → q ≢ writer_done → 0 < unfinished q
    left q a b = ground arith
