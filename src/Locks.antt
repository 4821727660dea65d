-- ===== src/Locks.antt =====
-- Assignment-04-locks: the bounded buffer and the two reader-writer locks.
pub mod Threads
pub mod ProdCons
pub mod ReaderPref
pub mod WriterPref
