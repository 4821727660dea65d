-- ===== src/Locks/ReaderPref/Progress.antt =====
-- The threads of rwlock-reader-pref.c neither block for ever nor run for ever.
use simulating_the_functioni.Base.{
  ℕ, ◌+◌, ◌*◌, ◌≤◌, ◌<◌, ◌≡◌, ◌≢◌, ◌⊎◌, inl, inr, refl, some, get_elem?, arith, ℕ_discrete,
}
use native.Mathlib.Decide.{dec_lt}
use simulating_the_functioni.Base.Counts.{total, le-total, total-le-add, total_pos}
use simulating_the_functioni.Locks.Threads.{System, Step, pick, Inevitable, inevitable}
use simulating_the_functioni.Locks.ReaderPref.{
  Memory, Pc, want_count, first_test, want_write, counting, counted, logging_read, reading_file,
  want_uncount, uncounting, last_test, open_write, leaving, reader_done, want_exclusive,
  logging_write, writing_file, closing, writer_done, Move, Reach, RwLock, init, rwlock_init,
}
use simulating_the_functioni.Locks.ReaderPref.Invariant.{
  Inv, Reach-Inv, Step-Inv, init-Inv, init-total, settled, waiting, moving, opening, counts_in,
  writes,
}

-- The moves that a thread has still to make, at most.
abbrev pub rank : Pc → ℕ
rank want_count = 12
rank first_test = 11
rank want_write = 10
rank counting = 9
rank counted = 8
rank logging_read = 7
rank reading_file = 6
rank want_uncount = 5
rank uncounting = 4
rank last_test = 3
rank open_write = 2
rank leaving = 1
rank reader_done = 0
rank want_exclusive = 4
rank logging_write = 3
rank writing_file = 2
rank closing = 1
rank writer_done = 0

rank_falls : (m n : Memory) (p q : Pc) → Move m p n q → rank q < rank p
rank_falls m n p q (Move.enter_gate h) = omega arith
rank_falls m n p q _ = omega arith

-- What a thread needs of the two semaphores to move on.
abbrev gate_need : Pc → ℕ
gate_need want_count = 1
gate_need want_uncount = 1
gate_need _ = 0

abbrev write_need : Pc → ℕ
write_need want_write = 1
write_need want_exclusive = 1
write_need _ = 0

module _ (m : Memory) where
  -- A thread whose needs are met, and that has not returned, can move.
  able :
      (p : Pc)
      → gate_need p ≤ m.lock.reader_lock
      → write_need p ≤ m.lock.write_lock
      → 0 < rank p
      → (n : Memory) × (q : Pc) × Move m p n q
  able want_count g w r = (_, _, Move.enter_gate g)
  able first_test g w r = elim (ℕ_discrete m.lock.readers 0) [
    | yes e ↦ (_, _, Move.is_first e)
    | no e ↦ (_, _, Move.not_first e)
  ]
  able want_write g w r = (_, _, Move.take_write w)
  able counting g w r = (_, _, Move.count)
  able counted g w r = (_, _, Move.open_gate)
  able logging_read g w r = (_, _, Move.log_read)
  able reading_file g w r = (_, _, Move.read)
  able want_uncount g w r = (_, _, Move.enter_gate_again g)
  able uncounting g w r = (_, _, Move.uncount)
  able last_test g w r = elim (ℕ_discrete m.lock.readers 0) [
    | yes e ↦ (_, _, Move.is_last e)
    | no e ↦ (_, _, Move.not_last e)
  ]
  able open_write g w r = (_, _, Move.post_write)
  able leaving g w r = (_, _, Move.leave_gate)
  able reader_done g w r = absurd (omega arith)
  able want_exclusive g w r = (_, _, Move.take_exclusive w)
  able logging_write g w r = (_, _, Move.log_write)
  able writing_file g w r = (_, _, Move.write)
  able closing g w r = (_, _, Move.release)
  able writer_done g w r = absurd (omega arith)

abbrev CanStep : System Memory Pc → Type 0
CanStep s = (t : System Memory Pc) × Step Move s t

module _ (s : System Memory Pc) where
  -- Where some thread has a positive weight, and all such threads can move, the system can.
  some_steps :
      (w : Pc → ℕ)
      → 0 < total w s.threads
      → ((p : Pc)
          → 0 < w p
          → (gate_need p ≤ s.mem.lock.reader_lock)
            × (write_need p ≤ s.mem.lock.write_lock)
            × (0 < rank p))
      → CanStep s
  some_steps w pos ready =
      let (i, p, at, h) = total_pos w s.threads pos in
      let (g, f, r) = ready p h in let (n, q, mv) = able s.mem p g f r in (_, pick i p at mv)

  module _ (v : Inv s) where
    -- Someone holds `reader_lock`.
    gate_shut : s.mem.lock.reader_lock ≡ 0 → CanStep s
    gate_shut shut = elim (dec_lt 0 (total waiting s.threads)) [
      | yes wait ↦ elim (dec_lt 0 (total writes s.threads)) [
        | yes busy ↦ some_steps writes busy (λ p h. ground arith)
        | no idle ↦ some_steps waiting wait (λ p h. ground (arith, v))
      ]
      | no none ↦ elim (dec_lt 0 (total settled s.threads)) [
        | yes h ↦ some_steps settled h (λ p h. ground arith)
        | no h ↦ elim (dec_lt 0 (total moving s.threads)) [
          | yes k ↦ some_steps moving k (λ p h. ground arith)
          | no k ↦ some_steps opening (omega (arith, v)) (λ p h. ground arith)
        ]
      ]
    ]

    -- Nobody holds `reader_lock`, and a thread has not returned.
    gate_open : 0 < s.mem.lock.reader_lock → 0 < total rank s.threads → CanStep s
    gate_open open_ left = elim (dec_lt 0 s.mem.lock.write_lock) [
      | yes free ↦ some_steps rank left (λ p h. ground arith)
      | no held ↦ elim (dec_lt 0 (total writes s.threads)) [
        | yes busy ↦ some_steps writes busy (λ p h. ground arith)
        | no idle ↦ some_steps counts_in (omega (arith, v)) (λ p h. ground arith)
      ]
    ]

    can_step : 0 < total rank s.threads → CanStep s
    can_step left = elim (dec_lt 0 s.mem.lock.reader_lock) [
      | yes free ↦ gate_open free left
      | no shut ↦ gate_shut (omega arith)
    ]

-- No deadlock: in every reachable state in which some thread has not returned, some thread can move.
pub never_blocked :
    (n m : ℕ) {s : System Memory Pc}
    → Reach n m s
    → (i : ℕ) (p : Pc) → get_elem? s.threads i ≡ some p
    → p ≢ reader_done
    → p ≢ writer_done
    → (t : System Memory Pc) × Step Move s t
never_blocked n m {s} r i p at not_r not_w =
    can_step s (Reach-Inv n m r) (omega (arith, le-total rank s.threads i p at, left p not_r not_w))
  where
    left : (q : Pc) → q ≢ reader_done → q ≢ writer_done → 0 < rank q
    left q a b = ground arith

-- All threads have returned, and the lock is as at first.
abbrev pub AllReturned : System Memory Pc → Type 0
AllReturned s =
    ((i : ℕ) (p : Pc) → get_elem? s.threads i ≡ some p → (p ≡ reader_done) ⊎ (p ≡ writer_done))
    × (s.mem.lock ≡ rwlock_init)

-- Without a move to make, a thread has returned.
returned : (p : Pc) → rank p ≡ 0 → (p ≡ reader_done) ⊎ (p ≡ writer_done)
returned reader_done z = inl refl
returned writer_done z = inr refl
returned p z = absurd (omega arith)

lock_eq : (l : RwLock) → l.write_lock ≡ 1 → l.reader_lock ≡ 1 → l.readers ≡ 0 → l ≡ rwlock_init
lock_eq l a b c = cc (a, b, c)

-- With no moves left, nobody holds a lock or stands in a count.
module _ (s : System Memory Pc) (v : Inv s) (none_left : total rank s.threads ≡ 0) where
  none_of : (w : Pc → ℕ) → ((p : Pc) → w p ≤ rank p + rank p) → total w s.threads ≡ 0
  none_of w le = omega (arith, total-le-add w rank rank le s.threads)

  at_rest : AllReturned s
  at_rest = (
    λ i p at. returned p (omega (arith, le-total rank s.threads i p at)),
    lock_eq s.mem.lock
        (omega (
          arith,
          v,
          none_of writes (λ p. ground arith),
          none_of counts_in (λ p. ground arith),
          none_of moving (λ p. ground arith),
          none_of opening (λ p. ground arith),
        ))
        (omega (
          arith,
          v,
          none_of settled (λ p. ground arith),
          none_of waiting (λ p. ground arith),
          none_of moving (λ p. ground arith),
          none_of opening (λ p. ground arith),
        ))
        (omega (arith, v, none_of counts_in (λ p. ground arith))),
  )

-- Whatever the scheduler does, `n` readers and `m` writers make at most `12 * n + 4 * m` moves: until
-- all have returned some thread can move, and then the lock is free again and counts no reader.
pub all_return : (n m : ℕ) → Inevitable Move AllReturned (n * 12 + m * 4) (init n m)
all_return n m =
    inevitable rank rank_falls Inv AllReturned Step-Inv
      (λ s v. elim (dec_lt 0 (total rank s.threads)) [
        | yes left ↦ inr (can_step s v left)
        | no none_left ↦ inl (at_rest s v (omega arith))
      ])
      (n * 12 + m * 4) (init n m) (omega (arith, init-total rank n m)) (init-Inv n m)
