-- ===== src/Sched.antt =====
-- Assignment-02-schedulers: the processor schedulers.
pub mod Queues
pub mod Fcfs
pub mod Mlfq
pub mod OnlineMlfq
pub mod Rr
pub mod Sjf
