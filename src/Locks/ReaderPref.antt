-- ===== src/Locks/ReaderPref.antt =====
-- Assignment-04-locks/rwlock-reader-pref.c: readers and writers under a lock of two semaphores.
pub mod Invariant
pub mod Log
pub mod Progress
mod Tests
use simulating_the_functioni.Base.{ℕ, ◌+◌, ◌-◌, ◌<◌, ◌≡◌, ◌≢◌, List, [], ◌∷◌, ◌++◌, replicate}
use simulating_the_functioni.Locks.Threads
use simulating_the_functioni.Locks.Threads.{System}

-- `rwlock_t`; a semaphore is its value.
pub record RwLock : Type 0 where
  pub write_lock : ℕ
  pub reader_lock : ℕ
  pub readers : ℕ

-- A line of output-reader-pref.txt.
pub data Entry : Type 0 where
  reading : ℕ → Entry
  writing : ℕ → Entry

-- The lock, the log, and how many lines the writers have added to shared-file.txt.
pub record Memory : Type 0 where
  pub lock : RwLock
  pub log : List Entry
  pub shared : ℕ

-- Where a thread stands in `reader` or `writer`, the calls of the lock's functions included.
pub data Pc : Type 0 where
  want_count : Pc  -- rwlock_acquire_readlock: `sem_wait(&rw->reader_lock)`
  first_test : Pc  -- `if (rw->readers == 0)`
  want_write : Pc  -- `sem_wait(&rw->write_lock)` by the first reader
  counting : Pc  -- `rw->readers++`
  counted : Pc  -- `sem_post(&rw->reader_lock)`
  logging_read : Pc  -- the line `Reading,...`
  reading_file : Pc
  want_uncount : Pc  -- rwlock_release_readlock: `sem_wait(&rw->reader_lock)`
  uncounting : Pc  -- `rw->readers--`
  last_test : Pc  -- `if (rw->readers == 0)`
  open_write : Pc  -- `sem_post(&rw->write_lock)` by the last reader
  leaving : Pc  -- `sem_post(&rw->reader_lock)`
  reader_done : Pc
  want_exclusive : Pc  -- rwlock_acquire_writelock: `sem_wait(&rw->write_lock)`
  logging_write : Pc  -- the line `Writing,...`
  writing_file : Pc  -- the line `Hello world!`
  closing : Pc  -- rwlock_release_writelock: `sem_post(&rw->write_lock)`
  writer_done : Pc

abbrev pub with_lock : Memory → RwLock → Memory
with_lock m l = record m { lock = l }

-- One move of one thread. `sem_wait` needs a positive value and takes one off; a file that cannot
-- be opened is skipped.
pub data Move (m : Memory) : Pc → Memory → Pc → Type 0 where
  enter_gate :
      0 < m.lock.reader_lock
      → Move m want_count
          (with_lock m (record m.lock { reader_lock = m.lock.reader_lock - 1 }))
          first_test
  is_first : m.lock.readers ≡ 0 → Move m first_test m want_write
  not_first : m.lock.readers ≢ 0 → Move m first_test m counting
  take_write :
      0 < m.lock.write_lock
      → Move m want_write
          (with_lock m (record m.lock { write_lock = m.lock.write_lock - 1 }))
          counting
  count : Move m counting (with_lock m (record m.lock { readers = m.lock.readers + 1 })) counted
  open_gate :
      Move m counted
        (with_lock m (record m.lock { reader_lock = m.lock.reader_lock + 1 }))
        logging_read
  log_read :
      Move m logging_read (record m { log = m.log ++ reading m.lock.readers ∷ [] }) reading_file
  log_read_failed : Move m logging_read m reading_file
  read : Move m reading_file m want_uncount
  enter_gate_again :
      0 < m.lock.reader_lock
      → Move m want_uncount
          (with_lock m (record m.lock { reader_lock = m.lock.reader_lock - 1 }))
          uncounting
  uncount :
      Move m uncounting (with_lock m (record m.lock { readers = m.lock.readers - 1 })) last_test
  is_last : m.lock.readers ≡ 0 → Move m last_test m open_write
  not_last : m.lock.readers ≢ 0 → Move m last_test m leaving
  post_write :
      Move m open_write (with_lock m (record m.lock { write_lock = m.lock.write_lock + 1 })) leaving
  leave_gate :
      Move m leaving
        (with_lock m (record m.lock { reader_lock = m.lock.reader_lock + 1 }))
        reader_done
  take_exclusive :
      0 < m.lock.write_lock
      → Move m want_exclusive
          (with_lock m (record m.lock { write_lock = m.lock.write_lock - 1 }))
          logging_write
  log_write :
      Move m logging_write (record m { log = m.log ++ writing m.lock.readers ∷ [] }) writing_file
  log_write_failed : Move m logging_write m writing_file
  write : Move m writing_file (record m { shared = m.shared + 1 }) closing
  write_failed : Move m writing_file m closing
  release :
      Move m closing
        (with_lock m (record m.lock { write_lock = m.lock.write_lock + 1 }))
        writer_done

abbrev pub rwlock_init : RwLock
rwlock_init = record { write_lock = 1; reader_lock = 1; readers = 0 }

-- `main` behind its two loops of `pthread_create`: `n` readers and `m` writers.
abbrev pub init : ℕ → ℕ → System Memory Pc
init n m = record {
  mem = record { lock = rwlock_init; log = []; shared = 0 };
  threads = replicate n want_count ++ replicate m want_exclusive;
}

abbrev pub Reach : ℕ → ℕ → System Memory Pc → Type 0
Reach n m s = Threads.Reach Move (init n m) s
