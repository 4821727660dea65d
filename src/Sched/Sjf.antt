-- ===== src/Sched/Sjf.antt =====
-- The shortest-job-first scheduler of Assignment-02-schedulers/online_schedulers.h. Times come from
-- the clock and exit codes from the child processes, so both are arguments.
pub mod Pop
pub mod Bursts
pub mod Rows
pub mod Outcomes
pub mod Waiting
pub mod Args
pub mod Jobs
pub mod Service
pub mod Loop
pub mod Times
mod Tests
use Prim.Native.Char.{code}
use Prim.Native.String.{String}
use text.Mathlib.Text.{◌==◌ as str_eq}
use simulating_the_functioni.Base.Words.{u64, sub_u64}
use simulating_the_functioni.Base.{
  ℕ, zero, suc, ◌+◌, ◌-◌, ◌*◌, ◌/◌, ◌%◌, ◌^◌, Bool, true, false, ◌&&◌, Option, none, some, List, [],
  ◌∷◌, ◌++◌, ltb, ◌==◌, if◌then◌else◌, length, get_elem?,
}
use simulating_the_functioni.Shell.Strings.{Text, strtok}
use simulating_the_functioni.Base.Shift.{shift, drop_last}

-- The fields of `Process` that the scheduler computes with.
pub record Process : Type 0 where
  pub command : String
  pub arrival_time : ℕ
  pub start_time : ℕ
  pub end_time : ℕ
  pub turnaround_time : ℕ
  pub waiting_time : ℕ
  pub response_time : ℕ
  pub burst_time : ℕ

-- One place of `commands`, `commandBurstTimes` and `commandCount`.
pub record Command : Type 0 where
  pub name : String
  pub burst : ℕ
  pub count : ℕ

-- A row of result_online_SJF.csv.
pub record Row : Type 0 where
  pub command : String
  pub failed : Bool
  pub burst_time : ℕ
  pub turnaround_time : ℕ
  pub waiting_time : ℕ
  pub response_time : ℕ

-- `priorityQueue` up to `queueSize`, the three tables up to `commandIndex`, and the rows written.
pub record State : Type 0 where
  pub queue : List Process
  pub commands : List Command
  pub rows : List Row

abbrev pub max_queue_size : ℕ
max_queue_size = 100

-- The program goes on, has left by `exit(0)`, or has written behind the end of an array.
pub data Outcome : Type 0 where
  going : State → Outcome
  left : Outcome
  overruns : Outcome

abbrev pub and_then : Outcome → (State → Outcome) → Outcome
and_then (going s) f = f s
and_then left f = left
and_then overruns f = overruns

-- `priorityQueue[i]->burstTime`
abbrev pub burst_at : List Process → ℕ → ℕ
burst_at [] i = 0
burst_at (p ∷ q) zero = p.burst_time
burst_at (p ∷ q) (suc i) = burst_at q i

-- The `for` of `pop_from_queue_SJF` that looks for the shortest, with `n` rounds left at `i`.
shortest_from : List Process → ℕ → ℕ → ℕ → ℕ
shortest_from q zero i best = best
shortest_from q (suc n) i best =
    shortest_from q n (suc i) (if ltb (burst_at q i) (burst_at q best) then i else best)

pub shortest_index : List Process → ℕ
shortest_index q = shortest_from q (length q - 1) 1 0

pub pop_from_queue_sjf : List Process → Option Process × List Process
pop_from_queue_sjf q =
    let i = shortest_index q in
    if length q == 0 then (none, q) else (get_elem? q i, drop_last (shift (length q - 1 - i) q i))

-- `add_to_queue_SJF` at the time `now`: a process that finds the queue full is dropped.
pub add_to_queue_sjf : ℕ → Process → List Process → List Process
add_to_queue_sjf now p q =
    if ltb (length q) max_queue_size then q ++ (record p { start_time = now }) ∷ [] else q

-- The average burst of a command that is in the table.
unfoldable pub lookup : String → List Command → Option ℕ
lookup c [] = none
lookup c (e ∷ es) = if str_eq e.name c then some e.burst else lookup c es

-- `((commandBurstTimes[j] * (commandCount[j] - 1)) + burstTime) / commandCount[j]`, behind
-- `commandCount[j]++`
abbrev pub new_average : Command → ℕ → ℕ
new_average e burst = u64 (e.burst * e.count + burst) / (e.count + 1)

-- The first loop of `update_burst_times`.
unfoldable pub update_commands : String → ℕ → List Command → List Command
update_commands c burst [] = []
update_commands c burst (e ∷ es) =
    if str_eq e.name c
    then (record e { count = e.count + 1; burst = new_average e burst }) ∷ es
    else e ∷ update_commands c burst es

-- Its second loop.
pub update_queue : String → ℕ → List Process → List Process
update_queue c burst [] = []
update_queue c burst (p ∷ q) =
    (if str_eq p.command c then record p { burst_time = burst } else p) ∷ update_queue c burst q

pub update_burst_times : Process → State → State
update_burst_times p s =
    let table = update_commands p.command p.burst_time s.commands in
    elim (lookup p.command table) [
      | none ↦ record s { commands = table }
      | some burst ↦ record s { commands = table; queue = update_queue p.command burst s.queue }
    ]

abbrev pub default_burst : ℕ
default_burst = 1000

abbrev pub new_process : String → ℕ → ℕ → Process
new_process c now burst = record {
  command = c;
  arrival_time = now;
  start_time = 0;
  end_time = 0;
  turnaround_time = 0;
  waiting_time = 0;
  response_time = 0;
  burst_time = burst;
}

-- One line of input that is not `exit`, in the body of `handle_non_blocking_input_SJF`, which reads
-- the clock twice. The tables have 100 places, which is not tested.
pub handle_line : String → ℕ → ℕ → State → Outcome
handle_line c now later s = elim (lookup c s.commands) [
  | some burst ↦
      going (record s { queue = add_to_queue_sjf later (new_process c now burst) s.queue })
  | none ↦
      if ltb (length s.commands) max_queue_size
      then going (record s {
        queue = add_to_queue_sjf later (new_process c now default_burst) s.queue;
        commands = s.commands ++ (record { name = c; burst = default_burst; count = 1 }) ∷ [];
      })
      else overruns
]

-- `handle_non_blocking_input_SJF`: the lines that can be read at once, each with the two readings of
-- the clock.
pub handle_input : List (String × ℕ × ℕ) → State → Outcome
handle_input [] s = going s
handle_input ((c, now, later) ∷ lines) s =
    let rest = and_then (handle_line c now later s) (handle_input lines) in
    if str_eq c "exit" then left else rest

-- The bytes of a text.
abbrev pub codes : String → Text
codes String.[] = []
codes (String.◌∷◌ c s) = code c ∷ codes s

-- `char* args[10]`
abbrev pub args_size : ℕ
args_size = 10

abbrev pub is_space : ℕ → Bool
is_space c = c == b' '

-- The loop of `execute_process_SJF` that puts the words of a command into `args`, from `i` on, with
-- the NULL behind them, for at most as many rounds as the first argument: whether all are put inside.
unfoldable pub store_args : ℕ → Text → (i : ℕ) → Bool
store_args zero s i = false
store_args (suc n) s i = elim (strtok is_space s) [
  | none ↦ ltb i args_size
  | some (token, rest) ↦ ltb i args_size && store_args n rest (suc i)
]

-- Each round takes a byte at least.
abbrev pub args_fit : String → Bool
args_fit command = store_args (suc (length (codes command))) (codes command) 0

-- The four times that the parent computes from the start and the end of a process.
abbrev pub timed : Process → ℕ → Process
timed p ended = record p {
  end_time = ended;
  burst_time = sub_u64 ended p.start_time;
  turnaround_time = sub_u64 ended p.arrival_time;
  waiting_time = sub_u64 p.start_time p.arrival_time;
  response_time = sub_u64 p.start_time p.arrival_time;
}

-- `WIFEXITED` and `WEXITSTATUS`: `none` is a process that did not exit by itself.
abbrev pub failed : Option ℕ → Bool
failed none = true
failed (some code) = if code == 0 then false else true

-- The parent's part of `execute_process_SJF` behind the fork, when the child ends at `ended`.
pub report : ℕ → Option ℕ → Process → List Row → Process × List Row
report ended exit p rows =
    let q = timed p ended in
    let row : Row = record {
      command = q.command;
      failed = failed exit;
      burst_time = q.burst_time;
      turnaround_time = q.turnaround_time;
      waiting_time = q.waiting_time;
      response_time = q.response_time;
    } in
    (q, rows ++ row ∷ [])

-- `none` is a command that has too many words for `args`.
unfoldable pub execute_process_sjf : ℕ → Option ℕ → Process → List Row → Option (Process × List Row)
execute_process_sjf ended exit p rows =
    if args_fit p.command then some (report ended exit p rows) else none

-- The rest of a round of `ShortestJobFirst`, behind the execution.
pub finish_round : (after : ℕ) → State → List Process → Option (Process × List Row) → Outcome
finish_round after s q none = overruns
finish_round after s q (some (done, rows)) =
    going (update_burst_times (timed done after) (record s { queue = q; rows = rows }))

-- A round behind its input, with what the queue gave.
run_popped : (started ended after : ℕ) → Option ℕ → State → Option Process × List Process → Outcome
run_popped started ended after exit s (none, q) = going s
run_popped started ended after exit s (some p, q) =
    finish_round after s q
      (execute_process_sjf ended exit (record p { start_time = started }) s.rows)

unfoldable pub is_empty_sjf : List Process → Bool
is_empty_sjf q = length q == 0

-- One round of the loop of `ShortestJobFirst` behind its input: the process starts at `started`,
-- ends at `ended`, and the clock is read again at `after`.
pub sjf_round : (started ended after : ℕ) → Option ℕ → State → Outcome
unfolding run_popped
sjf_round started ended after exit s =
    if is_empty_sjf s.queue
    then going s
    else run_popped started ended after exit s (pop_from_queue_sjf s.queue)

-- What the system gives in one round: the lines that can be read, and for the process that runs,
-- if there is one, its start, its end, the time behind it and how it exits.
pub record Round : Type 0 where
  pub lines : List (String × ℕ × ℕ)
  pub started : ℕ
  pub ended : ℕ
  pub after : ℕ
  pub exit : Option ℕ

-- The loop of `ShortestJobFirst`, for as many rounds as the system is given for.
unfoldable pub shortest_job_first : List Round → State → Outcome
shortest_job_first [] s = going s
shortest_job_first (r ∷ rounds) s =
    and_then (handle_input r.lines s)
      (λ t. and_then (sjf_round r.started r.ended r.after r.exit t) (shortest_job_first rounds))

-- The state before the loop.
abbrev pub begin : State
begin = record { queue = []; commands = []; rows = [] }
