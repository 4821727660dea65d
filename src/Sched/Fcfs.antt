-- ===== src/Sched/Fcfs.antt =====
-- `FCFS` of Assignment-02-schedulers/offline_schedulers.h: each process runs to its end before the
-- next one starts. Clock readings, in milliseconds, and what `waitpid` gives are arguments.
pub mod Served
mod Tests
use simulating_the_functioni.Base.{ℕ, Bool, true, not, List, [], ◌∷◌, map, if◌then◌else◌, ◌==◌}
use simulating_the_functioni.Base.Words.{sub_u64}
use simulating_the_functioni.Sched.Mlfq.{Process}

-- What `waitpid` gives for the process that was started, with the clock behind it: an error, an exit
-- with its code, or an end in another way.
pub data Wait : Type 0 where
  failed : Wait
  exited : (code ended : ℕ) → Wait
  signalled : (ended : ℕ) → Wait

-- The times of a process that ran from `current` to `ended`.
abbrev pub timed : (start current ended : ℕ) → Process → Process
timed start current ended p =
    let waiting = sub_u64 current start in
    record p {
      start_time = current;
      completion_time = ended;
      turnaround_time = sub_u64 ended start;
      waiting_time = waiting;
      response_time = waiting;
      finished = true;
    }

-- One round of the loop: the process and the time at which the next one starts.
unfoldable pub serve : (start current : ℕ) → Process → Wait → Process × ℕ
serve start current p failed = (record p { start_time = current; error = true }, current)
serve start current p (exited code ended) =
    (timed start current ended (record p { error = if code == 0 then p.error else true }), ended)
serve start current p (signalled ended) =
    (timed start current ended (record p { error = true }), ended)

-- The loop over the processes, each with what `waitpid` gives for it.
unfoldable pub serve_all : (start current : ℕ) → List (Process × Wait) → List Process
serve_all start current [] = []
serve_all start current ((p, w) ∷ rest) =
    let (q, next) = serve start current p w in q ∷ serve_all start next rest

-- A line of the file behind its command, which is that of the process at the same place.
pub record Row : Type 0 where
  pub finished : Bool
  pub error : Bool
  pub burst_time : ℕ
  pub turnaround_time : ℕ
  pub waiting_time : ℕ
  pub response_time : ℕ

abbrev pub row : Process → Row
row p = record {
  finished = not p.error;
  error = p.error;
  burst_time = sub_u64 p.completion_time p.start_time;
  turnaround_time = p.turnaround_time;
  waiting_time = p.waiting_time;
  response_time = p.response_time;
}

abbrev pub write_csv : List Process → List Row
write_csv ps = map row ps

unfoldable pub fcfs : (start : ℕ) → List (Process × Wait) → List Row
fcfs start jobs = write_csv (serve_all start start jobs)
