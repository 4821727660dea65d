-- ===== src/Tlb.antt =====
-- Assignment-03-memory/2021MT10904.cpp: translation look-aside buffers with a replacement policy.
pub mod Queue
pub mod Optimal
pub mod Lru
pub mod Replacement
pub mod Best
mod Tests
