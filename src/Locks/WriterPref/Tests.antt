-- ===== src/Locks/WriterPref/Tests.antt =====
-- Runs of rwlock-writer-pref.c with one reader and one writer, move by move.
use simulating_the_functioni.Base.{ℕ, ◌+◌, ◌≤◌, ◌<◌, ◌≡◌, refl, [], ◌∷◌, some, get_elem?, arith}
use simulating_the_functioni.Locks.Threads
use simulating_the_functioni.Locks.Threads.{System, Step, pick}
use simulating_the_functioni.Locks.WriterPref.{
  Memory, Pc, want_exclusive, logging_write, Move, Reach, want_count, want_announce,
}
use simulating_the_functioni.Locks.WriterPref.Places.{
  counts_in, inside, pending, entering, waiting, admitting,
}
use simulating_the_functioni.Locks.WriterPref.Invariant.{exclusive_writing, writers_first}
use simulating_the_functioni.Base.Counts.{total}
use simulating_the_functioni.Locks.WriterPref.Progress.{never_stuck}

record Run : Type 0 where
  last : System Memory Pc
  reach : Reach 1 1 last

abbrev by :
    (i : ℕ) (p : Pc) (r : Run)
    → get_elem? r.last.threads i ≡ some p
    → {m : Memory} {q : Pc} → Move r.last.mem p m q
    → Run
by i p r at mv = record { last = _; reach = Threads.later r.reach (pick i p at mv) }

abbrev begin : Run
begin = record { last = _; reach = Threads.start }

-- The writer is in, and stands before its line of the log.
abbrev writer_in : Run
writer_in =
    let a = by 1 want_announce begin refl (Move.enter_announce (omega arith)) in
    let b = by 1 Pc.announcing a refl Move.announce in
    let c = by 1 Pc.announced b refl Move.leave_announce in
    let d = by 1 want_exclusive c refl (Move.take_exclusive (omega arith)) in
    let e = by 1 Pc.want_retract d refl (Move.enter_retract (omega arith)) in
    let f = by 1 Pc.retracting e refl Move.retract in by 1 Pc.retracted f refl Move.leave_retract

-- The writer waits for the lock, and the reader finds that it does.
abbrev writer_waits : Run
writer_waits =
    let a = by 1 want_announce begin refl (Move.enter_announce (omega arith)) in
    let b = by 1 Pc.announcing a refl Move.announce in
    let c = by 1 Pc.announced b refl Move.leave_announce in
    by 0 want_count c refl (Move.enter_gate (omega arith))

-- With the writer inside, the test of `writers_waiting` lets the reader past: it then waits for the
-- lock for writing with `reader_count_lock` held.
abbrev reader_passes : Run
reader_passes =
    let a = by 0 want_count writer_in refl (Move.enter_gate (omega arith)) in
    let b = by 0 Pc.check_writers a refl (Move.may_enter refl) in
    by 0 Pc.first_test b refl (Move.is_first refl)

exclusive_writing_example : ((0 < inside want_count) → ◌≡◌ {A = ℕ} 1 0) × (counts_in want_count ≡ 0)
exclusive_writing_example =
    exclusive_writing 1 1 writer_in.reach 1 0 logging_write want_count refl refl (omega arith)

abbrev backed_off : System Memory Pc
backed_off = record { mem = writer_waits.last.mem; threads = Pc.backing_off ∷ want_exclusive ∷ [] }

writers_first_example :
    (writer_waits.last.mem.lock.writers_waiting ≡ total pending writer_waits.last.threads)
    × (0
          < total entering writer_waits.last.threads
            + total waiting writer_waits.last.threads
            + total admitting writer_waits.last.threads
        → writer_waits.last.mem.lock.writers_waiting ≡ 0)
    × (0 < writer_waits.last.mem.lock.writers_waiting
        → backed_off.mem.lock.readers ≤ writer_waits.last.mem.lock.readers)
writers_first_example =
    writers_first 1 1 writer_waits.reach
      (pick 0 Pc.check_writers refl (Move.must_wait (omega arith)))

never_stuck_example : (t : System Memory Pc) × Step Move reader_passes.last t
never_stuck_example = never_stuck 1 1 reader_passes.reach 0 Pc.want_write refl (λ e. cc) (λ e. cc)
