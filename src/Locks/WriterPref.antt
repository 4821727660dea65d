-- ===== src/Locks/WriterPref.antt =====
-- Assignment-04-locks/rwlock-writer-pref.c: readers that stand back for writers that
-- wait.
pub mod Places
pub mod Invariant
pub mod Progress
mod Tests
use simulating_the_functioni.Base.{ℕ, ◌+◌, ◌-◌, ◌<◌, ◌≡◌, ◌≢◌, List, [], ◌∷◌, ◌++◌, replicate}
use simulating_the_functioni.Locks.Threads
use simulating_the_functioni.Locks.Threads.{System}

-- `rwlock_t`; a semaphore is its value.
pub record RwLock : Type 0 where
  pub write_lock : ℕ
  pub reader_count_lock : ℕ
  pub readers : ℕ
  pub writers_waiting : ℕ

-- A line of output-writer-pref.txt.
pub data Entry : Type 0 where
  reading : ℕ → Entry
  writing : ℕ → Entry

-- The lock, the log, and how many lines the writers have added to shared-file.txt.
pub record Memory : Type 0 where
  pub lock : RwLock
  pub log : List Entry
  pub shared : ℕ

-- Where a thread stands in `reader` or `writer`, the calls of the lock's functions included.
pub data Pc : Type 0 where
  want_count : Pc  -- rwlock_acquire_readlock: `sem_wait(&rw->reader_count_lock)`
  check_writers : Pc  -- `while (rw->writers_waiting > 0)`
  backing_off : Pc  -- `sem_post(&rw->reader_count_lock)` in the loop
  sleeping : Pc  -- `usleep(100)`, and `sem_wait(&rw->reader_count_lock)`
  first_test : Pc  -- `if (rw->readers == 0)`
  want_write : Pc  -- `sem_wait(&rw->write_lock)` by the first reader
  counting : Pc  -- `rw->readers++`
  counted : Pc  -- `sem_post(&rw->reader_count_lock)`
  logging_read : Pc  -- the line `Reading,...`
  reading_file : Pc
  want_uncount : Pc  -- rwlock_release_readlock: `sem_wait(&rw->reader_count_lock)`
  uncounting : Pc  -- `rw->readers--`
  last_test : Pc  -- `if (rw->readers == 0)`
  open_write : Pc  -- `sem_post(&rw->write_lock)` by the last reader
  leaving : Pc  -- `sem_post(&rw->reader_count_lock)`
  reader_done : Pc
  want_announce : Pc  -- rwlock_acquire_writelock: `sem_wait(&rw->reader_count_lock)`
  announcing : Pc  -- `rw->writers_waiting++`
  announced : Pc  -- `sem_post(&rw->reader_count_lock)`
  want_exclusive : Pc  -- `sem_wait(&rw->write_lock)`
  want_retract : Pc  -- the second `sem_wait(&rw->reader_count_lock)`
  retracting : Pc  -- `rw->writers_waiting--`
  retracted : Pc  -- `sem_post(&rw->reader_count_lock)`
  logging_write : Pc  -- the line `Writing,...`
  writing_file : Pc  -- the line `Hello world!`
  closing : Pc  -- rwlock_release_writelock: `sem_post(&rw->write_lock)`
  writer_done : Pc

abbrev pub with_lock : Memory → RwLock → Memory
with_lock m l = record m { lock = l }

-- One move of one thread. `sem_wait` needs a positive value and takes one off; a file that cannot
-- be opened is skipped.
pub data Move (m : Memory) : Pc → Memory → Pc → Type 0 where
  enter_gate :
      0 < m.lock.reader_count_lock
      → Move m want_count
          (with_lock m (record m.lock { reader_count_lock = m.lock.reader_count_lock - 1 }))
          check_writers
  must_wait : m.lock.writers_waiting ≢ 0 → Move m check_writers m backing_off
  may_enter : m.lock.writers_waiting ≡ 0 → Move m check_writers m first_test
  back_off :
      Move m backing_off
        (with_lock m (record m.lock { reader_count_lock = m.lock.reader_count_lock + 1 }))
        sleeping
  rejoin :
      0 < m.lock.reader_count_lock
      → Move m sleeping
          (with_lock m (record m.lock { reader_count_lock = m.lock.reader_count_lock - 1 }))
          check_writers
  is_first : m.lock.readers ≡ 0 → Move m first_test m want_write
  not_first : m.lock.readers ≢ 0 → Move m first_test m counting
  take_write :
      0 < m.lock.write_lock
      → Move m want_write
          (with_lock m (record m.lock { write_lock = m.lock.write_lock - 1 }))
          counting
  count : Move m counting (with_lock m (record m.lock { readers = m.lock.readers + 1 })) counted
  open_gate :
      Move m counted
        (with_lock m (record m.lock { reader_count_lock = m.lock.reader_count_lock + 1 }))
        logging_read
  log_read :
      Move m logging_read (record m { log = m.log ++ reading m.lock.readers ∷ [] }) reading_file
  log_read_failed : Move m logging_read m reading_file
  read : Move m reading_file m want_uncount
  enter_gate_again :
      0 < m.lock.reader_count_lock
      → Move m want_uncount
          (with_lock m (record m.lock { reader_count_lock = m.lock.reader_count_lock - 1 }))
          uncounting
  uncount :
      Move m uncounting (with_lock m (record m.lock { readers = m.lock.readers - 1 })) last_test
  is_last : m.lock.readers ≡ 0 → Move m last_test m open_write
  not_last : m.lock.readers ≢ 0 → Move m last_test m leaving
  post_write :
      Move m open_write (with_lock m (record m.lock { write_lock = m.lock.write_lock + 1 })) leaving
  leave_gate :
      Move m leaving
        (with_lock m (record m.lock { reader_count_lock = m.lock.reader_count_lock + 1 }))
        reader_done
  enter_announce :
      0 < m.lock.reader_count_lock
      → Move m want_announce
          (with_lock m (record m.lock { reader_count_lock = m.lock.reader_count_lock - 1 }))
          announcing
  announce :
      Move m announcing
        (with_lock m (record m.lock { writers_waiting = m.lock.writers_waiting + 1 }))
        announced
  leave_announce :
      Move m announced
        (with_lock m (record m.lock { reader_count_lock = m.lock.reader_count_lock + 1 }))
        want_exclusive
  take_exclusive :
      0 < m.lock.write_lock
      → Move m want_exclusive
          (with_lock m (record m.lock { write_lock = m.lock.write_lock - 1 }))
          want_retract
  enter_retract :
      0 < m.lock.reader_count_lock
      → Move m want_retract
          (with_lock m (record m.lock { reader_count_lock = m.lock.reader_count_lock - 1 }))
          retracting
  retract :
      Move m retracting
        (with_lock m (record m.lock { writers_waiting = m.lock.writers_waiting - 1 }))
        retracted
  leave_retract :
      Move m retracted
        (with_lock m (record m.lock { reader_count_lock = m.lock.reader_count_lock + 1 }))
        logging_write
  log_write :
      Move m logging_write (record m { log = m.log ++ writing m.lock.readers ∷ [] }) writing_file
  log_write_failed : Move m logging_write m writing_file
  write : Move m writing_file (record m { shared = m.shared + 1 }) closing
  write_failed : Move m writing_file m closing
  release :
      Move m closing
        (with_lock m (record m.lock { write_lock = m.lock.write_lock + 1 }))
        writer_done

abbrev pub rwlock_init : RwLock
rwlock_init = record { write_lock = 1; reader_count_lock = 1; readers = 0; writers_waiting = 0 }

-- `main` behind its two loops of `pthread_create`: `n` readers and `m` writers.
abbrev pub init : ℕ → ℕ → System Memory Pc
init n m = record {
  mem = record { lock = rwlock_init; log = []; shared = 0 };
  threads = replicate n want_count ++ replicate m want_announce;
}

abbrev pub Reach : ℕ → ℕ → System Memory Pc → Type 0
Reach n m s = Threads.Reach Move (init n m) s
