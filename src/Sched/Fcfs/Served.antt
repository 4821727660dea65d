-- ===== src/Sched/Fcfs/Served.antt =====
-- What `FCFS` reports: each process waits for as long as those before it ran.
use simulating_the_functioni.Base.{
  ℕ, ◌+◌, ◌<◌, ◌^◌, ◌≡◌, refl, subst, Bool, true, false, not, ◌||◌, List, [], ◌∷◌, ◌==◌, arith,
}
use simulating_the_functioni.Base.Words.{u64, sub_u64, telescope}
use simulating_the_functioni.Sched.Mlfq.{Process}
use simulating_the_functioni.Sched.Fcfs.{
  Wait, failed, exited, signalled, Row, write_csv, serve, serve_all, fcfs,
}

-- All clock readings are 64-bit numbers.
abbrev pub Fits : List (Process × Wait) → Type 0
Fits [] = Unit {0}
Fits ((p, failed) ∷ rest) = Fits rest
Fits ((p, exited code ended) ∷ rest) = (ended < 2 ^ 64) × Fits rest
Fits ((p, signalled ended) ∷ rest) = (ended < 2 ^ 64) × Fits rest

-- The row of a process that starts when those before it have run for `gone` in all.
pub record Served (gone : ℕ) (bad : Bool) (r : Row) : Type 0 where
  pub waits : r.waiting_time ≡ gone
  pub responds : r.response_time ≡ gone
  pub turns_round : r.turnaround_time ≡ u64 (gone + r.burst_time)
  pub is_error : r.error ≡ bad
  pub is_finished : r.finished ≡ not bad

-- The rows of processes of which the first starts when those before it have run for `gone`. An error
-- of `waitpid` makes an error in the row, and takes no time.
abbrev pub AllServed : (gone : ℕ) → List (Process × Wait) → List Row → Type 0
AllServed gone [] [] = Unit {0}
AllServed gone ((p, failed) ∷ jobs) (r ∷ rows) =
    (r.error ≡ true) × (r.finished ≡ false) × AllServed gone jobs rows
AllServed gone ((p, exited code ended) ∷ jobs) (r ∷ rows) =
    Served gone (p.error || not (code == 0)) r × AllServed (u64 (gone + r.burst_time)) jobs rows
AllServed gone ((p, signalled ended) ∷ jobs) (r ∷ rows) =
    Served gone true r × AllServed (u64 (gone + r.burst_time)) jobs rows
AllServed gone [] (r ∷ rows) = ⊥
AllServed gone (job ∷ jobs) [] = ⊥

serve_all-AllServed :
    (start current : ℕ) (jobs : List (Process × Wait))
    → start < 2 ^ 64
    → current < 2 ^ 64
    → Fits jobs
    → AllServed (sub_u64 current start) jobs (write_csv (serve_all start current jobs))
unfolding serve_all serve
serve_all-AllServed start current [] s c f = tt
serve_all-AllServed start current ((p, failed) ∷ jobs) s c f =
    (refl, refl, serve_all-AllServed start current jobs s c f)
serve_all-AllServed start current ((p, exited code ended) ∷ jobs) s c f = (
  record {
    waits = refl;
    responds = refl;
    turns_round = telescope start current ended s c f.0;
    is_error = ground arith;
    is_finished = ground arith;
  },
  subst (λ g. AllServed g jobs (write_csv (serve_all start ended jobs)))
      (telescope start current ended s c f.0) (serve_all-AllServed start ended jobs s f.0 f.1),
)
serve_all-AllServed start current ((p, signalled ended) ∷ jobs) s c f = (
  record {
    waits = refl;
    responds = refl;
    turns_round = telescope start current ended s c f.0;
    is_error = refl;
    is_finished = refl;
  },
  subst (λ g. AllServed g jobs (write_csv (serve_all start ended jobs)))
      (telescope start current ended s c f.0) (serve_all-AllServed start ended jobs s f.0 f.1),
)

-- With clock readings of 64 bits, `FCFS` writes one row for each process, in their order. A process for
-- which `waitpid` succeeds waits for as long as the burst times of the rows of such processes before it
-- add up to, modulo 2 ^ 64; its response time is the same, and its turnaround time is that and its own
-- burst time. Its row is an error just if it was one before, its exit code is not 0 or it did not exit,
-- and each row of a failed `waitpid` is an error. A row is finished if it is no error.
pub fcfs_lem :
    (start : ℕ) (jobs : List (Process × Wait))
    → start < 2 ^ 64
    → Fits jobs
    → AllServed 0 jobs (fcfs start jobs)
unfolding fcfs
fcfs_lem start jobs s f =
    subst (λ g. AllServed g jobs (write_csv (serve_all start start jobs))) nothing_gone
      (serve_all-AllServed start start jobs s s f)
  where
    nothing_gone : sub_u64 start start ≡ 0
    nothing_gone = omega (arith, s)
