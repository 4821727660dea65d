-- ===== src/Sched/OnlineMlfq.antt =====
-- The multi-level feedback queue of Assignment-02-schedulers/online_schedulers.h, which reads commands
-- while it runs. What the system gives, clock readings, lines of input, what `malloc` leaves in a new
-- process, and the outcomes of `fork`, `kill` and `waitpid`, is an argument.
pub mod Conserved
pub mod Rounds
pub mod Input
pub mod Whole
pub mod Drained
mod Tests
use Prim.Native.String.{String}
use text.Mathlib.Text.{◌==◌ as str_eq}
use simulating_the_functioni.Base.Words.{u64, sub_u64}
use simulating_the_functioni.Base.{
  ℕ, ◌+◌, ◌≡◌, refl, Bool, true, false, ◌||◌, Option, none, some, List, [], ◌∷◌, ◌++◌, ltb, leb,
  ◌==◌, if◌then◌else◌,
}
use simulating_the_functioni.Sched.Queues.{Prioritized, Queues, run_highest, all_empty}
use simulating_the_functioni.Sched.Queues
use simulating_the_functioni.Sched.Sjf.{Command, Row, lookup, update_commands, default_burst}

-- The fields of `Process` that the scheduler computes with.
pub record Process : Type 0 where
  pub command : String
  pub finished : Bool
  pub error : Bool
  pub start_time : ℕ
  pub completion_time : ℕ
  pub turnaround_time : ℕ
  pub waiting_time : ℕ
  pub response_time : ℕ
  pub arrival_time : ℕ
  pub burst_time_avg : ℕ
  pub burst_time : ℕ
  pub started : Bool
  pub priority : ℕ

abbrev pub prioritized : Prioritized Process
prioritized = record {
  priority = λ p. p.priority;
  with_priority = λ p k. record p { priority = k };
  priority_law = λ p k. refl;
}

abbrev pub add_to_queue_mlfq : Process → Queues Process → Queues Process
add_to_queue_mlfq = Queues.add_to_queue prioritized

abbrev pub pop_from_queue_mlfq : (priority : ℕ) → Queues Process → Option Process × Queues Process
pop_from_queue_mlfq = Queues.pop_from_queue

abbrev pub is_empty_mlfq : (priority : ℕ) → Queues Process → Bool
is_empty_mlfq = Queues.is_empty

abbrev pub boost_queues : Queues Process → Queues Process
boost_queues = Queues.boost_queues prioritized

-- The queues, the three tables up to `commandIndex`, the rows of the file, and `lastBoostTime`.
pub record State : Type 0 where
  pub queues : Queues Process
  pub commands : List Command
  pub rows : List Row
  pub last_boost_time : ℕ

-- The parameters of `MultiLevelFeedbackQueue`.
pub record Quanta : Type 0 where
  pub quantum0 : ℕ
  pub quantum1 : ℕ
  pub quantum2 : ℕ
  pub boost_time : ℕ

-- A line of input with the clock behind it. `malloc` does not set the memory of the new process, of
-- which `started` and `error` are not written either.
pub record Line : Type 0 where
  pub text : String
  pub now : ℕ
  pub started : Bool
  pub error : Bool

-- The queue for a command with an average burst time in the table.
unfoldable pub priority_of : Quanta → (average : ℕ) → ℕ
priority_of k average =
    if leb average k.quantum0 then 0 else if leb average k.quantum1 then 1 else 2

abbrev pub new_process : Line → (average priority : ℕ) → Process
new_process line average priority = record {
  command = line.text;
  finished = false;
  error = line.error;
  start_time = 0;
  completion_time = 0;
  turnaround_time = 0;
  waiting_time = 0;
  response_time = 0;
  arrival_time = line.now;
  burst_time_avg = average;
  burst_time = 0;
  started = line.started;
  priority = priority;
}

-- A line that is not `exit`, with what the table has for it.
unfoldable pub handle_line : Quanta → Line → State → Option ℕ → State
handle_line k line s (some average) = record s {
  queues = add_to_queue_mlfq (new_process line average (priority_of k average)) s.queues;
}
handle_line k line s none = record s {
  queues = add_to_queue_mlfq (new_process line default_burst 1) s.queues;
  commands = s.commands ++ (record { name = line.text; burst = default_burst; count = 1 }) ∷ [];
}

-- The program goes on, or has left by `exit(0)`.
pub data Outcome : Type 0 where
  going : State → Outcome
  left : State → Outcome

-- `handle_non_blocking_input_MLFQ`, for the lines that can be read at once.
unfoldable pub handle_input : Quanta → List Line → State → Outcome
handle_input k [] s = going s
handle_input k (line ∷ lines) s =
    let rest = handle_input k lines (handle_line k line s (lookup line.text s.commands)) in
    if str_eq line.text "exit" then left s else rest

unfoldable pub update_burst_times_mlfq : Process → State → State
update_burst_times_mlfq p s = record s {
  commands = update_commands p.command p.burst_time s.commands;
}

-- One turn of a process as the system makes it: whether `fork` or `kill` with SIGCONT succeeds, the
-- time behind the fork, for each `waitpid` until the quantum is over whether it gives other than 0, the
-- same for the last one, the clock before and behind the execution and at the two readings for the
-- boost. All times but the last two are relative to the start.
pub record Turn : Type 0 where
  pub launched : Bool
  pub launched_at : ℕ
  pub polls : List Bool
  pub last_poll : Bool
  pub start : ℕ
  pub ended : ℕ
  pub now : ℕ
  pub boosted_at : ℕ

-- The `while` of `execute_process_MLFQ`.
unfoldable pub wait_for : List Bool → Process → Process
wait_for [] p = p
wait_for (true ∷ polls) p = record p { finished = true }
wait_for (false ∷ polls) p = wait_for polls p

unfoldable pub execute_process_mlfq : Turn → Process → Process
execute_process_mlfq turn p =
    let begun =
      if p.started then p else record p { started = true; start_time = turn.launched_at } in
    let waited = wait_for turn.polls begun in
    if turn.launched
    then (if turn.last_poll then record waited { finished = true } else waited)
    else record p { started = true; error = true }

-- The times of a process that has finished.
abbrev pub account : Turn → Process → Process
account turn p =
    let turnaround = sub_u64 turn.ended p.arrival_time in
    let burst = u64 (p.burst_time + sub_u64 turn.ended turn.start) in
    record p {
      completion_time = turn.ended;
      turnaround_time = turnaround;
      burst_time = burst;
      waiting_time = sub_u64 turnaround burst;
      response_time = sub_u64 p.start_time p.arrival_time;
    }

-- `write_to_csv`
abbrev pub row : Process → Row
row p = record {
  command = p.command;
  failed = p.error;
  burst_time = p.burst_time;
  turnaround_time = p.turnaround_time;
  waiting_time = p.waiting_time;
  response_time = p.response_time;
}

-- Where a process from a queue goes on if it has not finished.
abbrev pub demote : (level : ℕ) → Process → Process
demote level p =
    if level == 0
    then record p { priority = 1 }
    else if level == 1
    then record p { priority = 2 }
    else p

abbrev pub quantum_at : Quanta → (level : ℕ) → ℕ
quantum_at k level =
    if level == 0 then k.quantum0 else if level == 1 then k.quantum1 else k.quantum2

-- `if (p->finished)`, with the process behind its execution.
unfoldable pub settle : Bool → (level quantum : ℕ) → Turn → State → Process → Queues Process → State
settle true level quantum turn s p rest =
    let done = account turn p in
    let t = update_burst_times_mlfq done (record s { queues = rest }) in
    record t { rows = t.rows ++ row done ∷ [] }
settle false level quantum turn s p rest =
    let q = demote level p in
    record s {
      queues = add_to_queue_mlfq (record q { burst_time = u64 (q.burst_time + quantum) }) rest;
    }

-- The body of one branch of the inner loop: a process from one queue runs for its quantum.
unfoldable pub run_popped :
    Quanta → Turn → State → (level : ℕ) → Option Process × Queues Process → State
run_popped k turn s level (none, rest) = s
run_popped k turn s level (some p, rest) =
    let q = execute_process_mlfq turn p in
    settle q.finished level (quantum_at k level) turn s q rest

unfoldable pub boost_if_due : Quanta → Turn → State → State
boost_if_due k turn s =
    if leb k.boost_time (sub_u64 turn.now s.last_boost_time)
    then record s { queues = boost_queues s.queues; last_boost_time = turn.boosted_at }
    else s

-- A round of the inner loop up to its input.
unfoldable pub mlfq_round : Quanta → Turn → State → State
mlfq_round k turn s = boost_if_due k turn (run_highest (run_popped k turn s) s s.queues)

-- The two loops: a round is made when a queue is not empty, and the input is read either way, be it
-- by the inner loop or by the outer one. The system is given for some reads of the input, each
-- with the turn before it if there is one.
unfoldable pub mlfq : Quanta → List (Turn × List Line) → State → Outcome
mlfq k [] s = going s
mlfq k ((turn, lines) ∷ more) s =
    let t = if all_empty s.queues then s else mlfq_round k turn s in
    elim (handle_input k lines t) [ going u ↦ mlfq k more u | left u ↦ left u ]

-- `MultiLevelFeedbackQueue`, from an empty file.
abbrev pub begin : (now : ℕ) → State
begin now = record {
  queues = record { queue0 = []; queue1 = []; queue2 = [] };
  commands = [];
  rows = [];
  last_boost_time = now;
}
