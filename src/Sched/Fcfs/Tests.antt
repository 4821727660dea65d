-- ===== src/Sched/Fcfs/Tests.antt =====
-- Four processes under `FCFS` of Assignment-02-schedulers/offline_schedulers.h.
use simulating_the_functioni.Base.{ℕ, ◌^◌, ◌-◌, ◌≡◌, refl, true, false, List, [], ◌∷◌, arith}
use simulating_the_functioni.Sched.Mlfq.{Process, new_process}
use simulating_the_functioni.Sched.Fcfs.{
  Wait, failed, exited, signalled, Row, serve, serve_all, fcfs,
}
use simulating_the_functioni.Sched.Fcfs.Served.{AllServed, fcfs_lem}

abbrev fresh : Process
unfolding new_process
fresh = new_process 0 0

-- An exit after 30 ms, an error of `waitpid`, an exit with code 1 and an end by a signal.
abbrev jobs : List (Process × Wait)
jobs =
    (fresh, exited 0 1030) ∷ (fresh, failed) ∷ (fresh, exited 1 1050) ∷ (fresh, signalled 1060) ∷ []

abbrev line : (burst turnaround waiting : ℕ) → Row
line burst turnaround waiting = record {
  finished = false;
  error = true;
  burst_time = burst;
  turnaround_time = turnaround;
  waiting_time = waiting;
  response_time = waiting;
}

fcfs_run :
    fcfs 1000 jobs
    ≡ record (line 30 30 0) { finished = true; error = false }
      ∷ line (2 ^ 64 - 1030) 0 0
      ∷ line 20 50 30
      ∷ line 10 60 50
      ∷ []
unfolding fcfs serve_all serve fresh
fcfs_run = refl

fcfs_lem_example : AllServed 0 jobs (fcfs 1000 jobs)
fcfs_lem_example = fcfs_lem 1000 jobs (omega arith) (omega arith, (omega arith, (omega arith, tt)))
