-- ===== src/Sched/Mlfq.antt =====
-- The multi-level feedback queue of Assignment-02-schedulers/offline_schedulers.h. What the system
-- gives in one round of its loop, clock readings and the outcomes of `fork`, `kill` and `waitpid`, is
-- an argument.
pub mod Fill
pub mod Finish
pub mod Levels
pub mod Rounds
mod Tests
use simulating_the_functioni.Base.Words.{u64, sub_u64}
use simulating_the_functioni.Base.{
  refl, ℕ, zero, suc, ◌+◌, ◌-◌, ◌%◌, ◌^◌, Bool, true, false, ◌&&◌, ◌||◌, not, Option, none, some,
  List, [], ◌∷◌, ◌++◌, ltb, leb, ◌==◌, if◌then◌else◌, length, get_elem?, set,
}
use simulating_the_functioni.Sched.Queues.{
  Prioritized, Queues, add_to_queue, boost_queues, all_empty, run_highest,
}

-- The fields of `Process` that the scheduler computes with.
pub record Process : Type 0 where
  pub index : ℕ
  pub priority : ℕ
  pub started : Bool
  pub finished : Bool
  pub error : Bool
  pub arrival_time : ℕ
  pub start_time : ℕ
  pub completion_time : ℕ
  pub turnaround_time : ℕ
  pub waiting_time : ℕ
  pub response_time : ℕ
  pub burst_time : ℕ

abbrev pub prioritized : Prioritized Process
prioritized = record {
  priority = λ p. p.priority;
  with_priority = λ p k. record p { priority = k };
  priority_law = λ p k. refl;
}

-- The process that the first loop of `MultiLevelFeedbackQueue` makes for the command at an index.
unfoldable pub new_process : (arrival index : ℕ) → Process
new_process arrival index = record {
  index = index;
  priority = 0;
  started = false;
  finished = false;
  error = false;
  arrival_time = arrival;
  start_time = 0;
  completion_time = 0;
  turnaround_time = 0;
  waiting_time = 0;
  response_time = 0;
  burst_time = 0;
}

-- That loop, with `count` commands left from `index` on.
unfoldable pub fill_from : (arrival index count : ℕ) → Queues Process → Queues Process
fill_from arrival index zero qs = qs
fill_from arrival index (suc count) qs =
    fill_from arrival (suc index) count (add_to_queue prioritized (new_process arrival index) qs)

unfoldable pub fill : (arrival n : ℕ) → Queues Process
fill arrival n = fill_from arrival 0 n (record { queue0 = []; queue1 = []; queue2 = [] })

-- What `waitpid` with WNOHANG gives: nothing yet, an exit with its code, or anything else, which is an
-- end by a signal or an error.
pub data Poll : Type 0 where
  running : Poll
  exited : ℕ → Poll
  other : Poll

-- One round as the system makes it: whether `fork` or `kill` with SIGCONT succeeds, the time behind
-- the fork, the polls until the quantum is over, and the clock before and behind the execution and
-- at the two readings for the boost. All times but the last two are relative to the start.
pub record Turn : Type 0 where
  pub launched : Bool
  pub launched_at : ℕ
  pub polls : List Poll
  pub start : ℕ
  pub ended : ℕ
  pub now : ℕ
  pub boosted_at : ℕ

-- The `while` of `execute_process_MLFQ`.
unfoldable pub wait_for : List Poll → Process → Process
wait_for [] p = p
wait_for (running ∷ polls) p = wait_for polls p
wait_for (exited code ∷ polls) p = record p {
  finished = true;
  error = if code == 0 then p.error else true;
}
wait_for (other ∷ polls) p = p

unfoldable pub execute_process_mlfq : Turn → Process → Process
execute_process_mlfq turn p =
    let begun =
      if p.started then p else record p { started = true; start_time = turn.launched_at } in
    if turn.launched then wait_for turn.polls begun else record p { started = true; error = true }

pub record State : Type 0 where
  pub queues : Queues Process
  pub processes : List Process
  pub last_boost_time : ℕ

-- The times of a process that has finished.
abbrev pub account : Turn → Process → Process
account turn p =
    let turnaround = sub_u64 turn.ended p.arrival_time in
    let burst = u64 (p.burst_time + sub_u64 turn.ended turn.start) in
    record p {
      completion_time = turn.ended;
      turnaround_time = turnaround;
      burst_time = burst;
      waiting_time = sub_u64 turnaround burst;
      response_time = sub_u64 p.start_time p.arrival_time;
    }

-- The copy into the caller's array.
abbrev pub report : Process → List Process → List Process
report p processes = elim (get_elem? processes p.index) [
  | none ↦ processes
  | some old ↦ set processes p.index (record old {
    completion_time = p.completion_time;
    turnaround_time = p.turnaround_time;
    burst_time = p.burst_time;
    waiting_time = p.waiting_time;
    response_time = p.response_time;
    finished = p.finished;
    error = p.error;
  })
]

-- Where a process from a queue goes on if it has not finished.
abbrev pub demote : (level : ℕ) → Process → Process
demote level p =
    if level == 0
    then record p { priority = 1 }
    else if level == 1
    then record p { priority = 2 }
    else p

-- `if (p->finished)`, with the process behind its execution: its times are reported, or it goes back
-- to a queue.
unfoldable pub settle : Bool → (level quantum : ℕ) → Turn → State → Process → Queues Process → State
settle true level quantum turn s q rest = record s {
  queues = rest;
  processes = report (account turn q) s.processes;
}
settle false level quantum turn s q rest =
    let p = demote level q in
    record s {
      queues =
          add_to_queue prioritized (record p { burst_time = u64 (p.burst_time + quantum) }) rest;
    }

-- The body of one branch of the loop: a process from one queue runs for `quantum`.
unfoldable pub run_popped :
    (level quantum : ℕ) → Turn → State → Option Process × Queues Process → State
run_popped level quantum turn s (none, rest) = s
run_popped level quantum turn s (some p, rest) =
    let q = execute_process_mlfq turn p in settle q.finished level quantum turn s q rest

-- `quantum0`, `quantum1`, `quantum2` and `boostTime`.
pub record Quanta : Type 0 where
  pub quantum0 : ℕ
  pub quantum1 : ℕ
  pub quantum2 : ℕ
  pub boost_time : ℕ

abbrev pub quantum_at : Quanta → ℕ → ℕ
quantum_at k level =
    if level == 0 then k.quantum0 else if level == 1 then k.quantum1 else k.quantum2

-- The first queue that is not empty gives the process.
pub run_turn : Quanta → Turn → State → State
run_turn k turn s = run_highest (λ level. run_popped level (quantum_at k level) turn s) s s.queues

pub boost_if_due : Quanta → Turn → State → State
boost_if_due k turn s =
    if leb k.boost_time (sub_u64 turn.now s.last_boost_time)
    then record s { queues = boost_queues prioritized s.queues; last_boost_time = turn.boosted_at }
    else s

pub mlfq_round : Quanta → Turn → State → State
mlfq_round k turn s = boost_if_due k turn (run_turn k turn s)

-- The `while` of `MultiLevelFeedbackQueue`, for as many rounds as the system is given for.
pub mlfq : Quanta → List Turn → State → State
mlfq k [] s = s
mlfq k (turn ∷ turns) s =
    let next = mlfq k turns (mlfq_round k turn s) in if all_empty s.queues then s else next
