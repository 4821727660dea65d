-- ===== src/Locks/WriterPref/Places.antt =====
-- Where a thread of rwlock-writer-pref.c stands, as numbers that can be added up over the threads.
use simulating_the_functioni.Base.{ℕ}
use simulating_the_functioni.Locks.WriterPref.{
  Pc, first_test, want_write, counting, counted, logging_read, reading_file, want_uncount,
  uncounting, check_writers, backing_off, announcing, announced, want_retract, retracting,
  retracted, last_test, open_write, leaving, want_exclusive, logging_write, writing_file, closing,
}

-- Holds `reader_count_lock`, and is no reader that has been let in.
abbrev pub settled : Pc → ℕ
settled check_writers = 1
settled backing_off = 1
settled uncounting = 1
settled leaving = 1
settled announcing = 1
settled announced = 1
settled retracting = 1
settled retracted = 1
settled _ = 0

-- Holds `reader_count_lock`, and has been let in as a reader.
abbrev pub entering : Pc → ℕ
entering first_test = 1
entering counted = 1
entering _ = 0

-- The same, and waits for the lock for writing.
abbrev pub waiting : Pc → ℕ
waiting want_write = 1
waiting _ = 0

-- The same, and has the lock for writing, whatever `readers` tells.
abbrev pub admitting : Pc → ℕ
admitting counting = 1
admitting _ = 0

-- Holds `reader_count_lock`, and may be the last reader.
abbrev pub ending : Pc → ℕ
ending last_test = 1
ending _ = 0

abbrev pub opening : Pc → ℕ
opening open_write = 1
opening _ = 0

-- Is a writer in the count `writers_waiting`.
abbrev pub pending : Pc → ℕ
pending announced = 1
pending want_exclusive = 1
pending want_retract = 1
pending retracting = 1
pending _ = 0

-- Is in the count `readers`.
abbrev pub counts_in : Pc → ℕ
counts_in counted = 1
counts_in logging_read = 1
counts_in reading_file = 1
counts_in want_uncount = 1
counts_in uncounting = 1
counts_in _ = 0

-- Is a writer that has the lock and has still to take itself out of `writers_waiting`.
abbrev pub retracts : Pc → ℕ
retracts want_retract = 1
retracts retracting = 1
retracts retracted = 1
retracts _ = 0

-- Is a writer that has returned from `rwlock_acquire_writelock`.
abbrev pub inside : Pc → ℕ
inside logging_write = 1
inside writing_file = 1
inside closing = 1
inside _ = 0
