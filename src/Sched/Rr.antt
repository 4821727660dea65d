-- ===== src/Sched/Rr.antt =====
-- `RoundRobin` of Assignment-02-schedulers/offline_schedulers.h. What the system gives in one round,
-- clock readings and the outcomes of `fork`, `kill` and `waitpid`, is an argument.
pub mod Kept
pub mod Ends
mod Tests
use simulating_the_functioni.Base.{
  ℕ, suc, ◌+◌, ◌%◌, Bool, true, false, ◌&&◌, Option, none, some, List, [], ◌∷◌, map, length,
  get_elem?, set, ◌==◌, leb, if◌then◌else◌,
}
use simulating_the_functioni.Base.Words.{u64, sub_u64}
use simulating_the_functioni.Sched.Mlfq.{Process}
use simulating_the_functioni.Sched.Fcfs.{Row, write_csv}

-- What `waitpid` with WNOHANG gives: nothing yet, an exit with its code, another end, or an error.
pub data Reaped : Type 0 where
  still : Reaped
  exited : ℕ → Reaped
  signalled : Reaped
  failed : Reaped

-- One round as the system makes it: whether `fork` or `kill` with SIGCONT succeeds, the clock before
-- the fork and round the quantum, whether `kill` with SIGSTOP succeeds, what `waitpid` gives, and the
-- clock behind it.
pub record Turn : Type 0 where
  pub launched : Bool
  pub launched_at : ℕ
  pub context_start : ℕ
  pub context_end : ℕ
  pub stopped : Bool
  pub reaped : Reaped
  pub now : ℕ

pub record State : Type 0 where
  pub processes : List Process
  pub completed : ℕ
  pub i : ℕ

-- The first loop.
abbrev pub prepare : Process → Process
prepare p = record p {
  started = false;
  finished = false;
  arrival_time = 0;
  burst_time = 0;
  error = false;
}

-- There is no result where the scheduler exits.
unfoldable pub execute_command_rr : (start : ℕ) → Turn → Process → Option Process
execute_command_rr start turn p =
    let at = sub_u64 turn.launched_at start in
    let begun = if p.started then p else record p {
      started = true;
      start_time = at;
      response_time = sub_u64 at p.arrival_time;
    } in
    if turn.launched && turn.stopped
    then some (record begun {
      burst_time = u64 (begun.burst_time + sub_u64 turn.context_end turn.context_start);
    })
    else none

-- The times of a process that `waitpid` gave.
abbrev pub account : (start : ℕ) → Turn → Process → Process
account start turn p =
    let completion = sub_u64 turn.now start in
    record p {
      completion_time = completion;
      waiting_time = sub_u64 completion p.burst_time;
      turnaround_time = completion;
      response_time = p.start_time;
    }

-- The process behind `waitpid`, and what is added to `completed`.
unfoldable pub collect : (start : ℕ) → Turn → Reaped → Process → Process × ℕ
collect start turn still p = (p, 0)
collect start turn (exited code) p = (
  account start turn (
      if code == 0
      then record p { finished = true }
      else record p { finished = false; error = true }),
  1,
)
collect start turn signalled p =
    (account start turn (record p { finished = false; error = true }), 1)
collect start turn failed p = (record p { finished = false; error = true }, 0)

-- The turn of a process that is not finished, with what its execution gave.
unfoldable pub run_turn : (start at : ℕ) → Turn → State → Option Process → Option State
run_turn start at turn s none = none
run_turn start at turn s (some p) =
    let (q, more) = collect start turn turn.reaped p in
    some (record { processes = set s.processes at q; completed = s.completed + more; i = suc s.i })

-- The body of the loop, on the process whose turn it is. There is none if there are no processes.
unfoldable pub rr_round : (start at : ℕ) → Turn → State → Option Process → Option State
rr_round start at turn s none = some s
rr_round start at turn s (some p) =
    if p.finished
    then some (record s { i = suc s.i })
    else run_turn start at turn s (execute_command_rr start turn p)

pub data Outcome : Type 0 where
  written : List Process → List Row → Outcome  -- the loop has ended
  aborted : Outcome  -- the scheduler has exited
  unfinished : State → Outcome  -- the loop is in need of more rounds than are given

abbrev pub follow : (State → Outcome) → Option State → Outcome
follow again none = aborted
follow again (some s) = again s

-- The loop, over what the system gives in its rounds.
unfoldable pub rr_loop : (start : ℕ) → List Turn → State → Outcome
rr_loop start [] s =
    if leb (length s.processes) s.completed
    then written s.processes (write_csv s.processes)
    else unfinished s
rr_loop start (turn ∷ turns) s =
    let at = s.i % length s.processes in
    if leb (length s.processes) s.completed
    then written s.processes (write_csv s.processes)
    else follow (rr_loop start turns) (rr_round start at turn s (get_elem? s.processes at))

unfoldable pub round_robin : (start : ℕ) → List Turn → List Process → Outcome
round_robin start turns processes =
    rr_loop start turns (record { processes = map prepare processes; completed = 0; i = 0 })
