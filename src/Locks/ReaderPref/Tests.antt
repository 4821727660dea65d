-- ===== src/Locks/ReaderPref/Tests.antt =====
-- Runs of rwlock-reader-pref.c with one reader and one writer, move by move.
use simulating_the_functioni.Base.{ℕ, ◌+◌, ◌*◌, ◌<◌, ◌≡◌, refl, [], ◌∷◌, some, get_elem?, arith}
use simulating_the_functioni.Locks.Threads
use simulating_the_functioni.Locks.Threads.{System, Step, pick, Inevitable}
use simulating_the_functioni.Locks.ReaderPref.{
  reading, Memory, Pc, want_exclusive, logging_write, writing_file, Move, Reach, init, want_count,
}
use simulating_the_functioni.Locks.ReaderPref.Invariant.{counts_in, writes, writers_exclude}
use simulating_the_functioni.Locks.ReaderPref.Log.{AllTrue, log_is_true}
use simulating_the_functioni.Locks.ReaderPref.Progress.{never_blocked, AllReturned, all_return}

record Run : Type 0 where
  last : System Memory Pc
  reach : Reach 1 1 last

abbrev by :
    (i : ℕ) (p : Pc) (r : Run)
    → get_elem? r.last.threads i ≡ some p
    → {m : Memory} {q : Pc} → Move r.last.mem p m q
    → Run
by i p r at mv = record { last = _; reach = Threads.later r.reach (pick i p at mv) }

abbrev begin : Run
begin = record { last = _; reach = Threads.start }

-- The reader is in, and has written its line.
abbrev reader_in : Run
reader_in =
    let a = by 0 want_count begin refl (Move.enter_gate (omega arith)) in
    let b = by 0 Pc.first_test a refl (Move.is_first refl) in
    let c = by 0 Pc.want_write b refl (Move.take_write (omega arith)) in
    let d = by 0 Pc.counting c refl Move.count in
    let e = by 0 Pc.counted d refl Move.open_gate in by 0 Pc.logging_read e refl Move.log_read

-- The writer is in.
abbrev writer_in : Run
writer_in =
    let a = by 1 want_exclusive begin refl (Move.take_exclusive (omega arith)) in
    by 1 logging_write a refl Move.log_write

reader_line : reader_in.last.mem.log ≡ reading 1 ∷ []
reader_line = refl

writers_exclude_example : ((0 < writes want_count) → ◌≡◌ {A = ℕ} 1 0) × (counts_in want_count ≡ 0)
writers_exclude_example =
    writers_exclude 1 1 writer_in.reach 1 0 writing_file want_count refl refl (omega arith)

log_is_true_example : AllTrue reader_in.last.mem.log
log_is_true_example = log_is_true 1 1 reader_in.reach

all_return_example : Inevitable Move AllReturned (2 * 12 + 1 * 4) (init 2 1)
all_return_example = all_return 2 1

-- The writer waits for the reader.
never_blocked_example : (t : System Memory Pc) × Step Move reader_in.last t
never_blocked_example = never_blocked 1 1 reader_in.reach 1 want_exclusive refl (λ e. cc) (λ e. cc)
