-- ===== src/Sched/Sjf/Tests.antt =====
-- The shortest-job-first scheduler on a few commands.
use Prim.Native.String.{String}
use simulating_the_functioni.Base.{
  ℕ, ◌+◌, ◌≤◌, ◌≡◌, refl, Bool, true, false, none, some, map, List, [], ◌∷◌, ◌++◌, get_elem?,
  length, min, max, arith,
}
use simulating_the_functioni.Base.Shift.{remove_at, shift, drop_last}
use simulating_the_functioni.Sched.Sjf.{
  Process, Command, State, Row, shortest_index, shortest_from, lookup, add_to_queue_sjf,
  handle_line, new_process, new_average, pop_from_queue_sjf, handle_input, sjf_round,
  execute_process_sjf, Round, shortest_job_first, begin, is_empty_sjf, run_popped,
  update_burst_times, update_commands, update_queue,
}
use simulating_the_functioni.Base.Counts.{tally}
use simulating_the_functioni.Sched.Sjf.Rows.{row_of, count}
use simulating_the_functioni.Sched.Sjf.Jobs.{is_of}
use simulating_the_functioni.Sched.Sjf.Times.{AllFit, rows_add_up}
use simulating_the_functioni.Base.Words.{u64}
use simulating_the_functioni.Shell.Strings.{strtok, skip, span}
use simulating_the_functioni.Sched.Sjf.{
  Outcome, going, left, overruns, report, finish_round, store_args,
}
use simulating_the_functioni.Sched.Sjf.Outcomes.{IfGoing-going}
use simulating_the_functioni.Sched.Sjf.Loop.{
  all_texts, quiet, AllShort, commands_kept, commands_run,
}
use simulating_the_functioni.Sched.Sjf.Pop.{IsFirstShortest, pop_shortest}
use simulating_the_functioni.Sched.Sjf.Bursts.{
  IsKnown, handle_input-IsKnown, average_bounds, times_add_up,
}

abbrev job : String → ℕ → Process
job c burst = new_process c 0 burst

abbrev three : List Process
three = job "make" 900 ∷ job "ls" 20 ∷ job "pwd" 20 ∷ []

shortest_first :
    (pop_from_queue_sjf three) ≡ (some (job "ls" 20), job "make" 900 ∷ job "pwd" 20 ∷ [])
unfolding pop_from_queue_sjf shift drop_last shortest_index shortest_from
shortest_first = refl

pop_shortest_example :
    (i : ℕ) × IsFirstShortest three i (length three)
    × (pop_from_queue_sjf three ≡ (get_elem? three i, remove_at three i))
pop_shortest_example = pop_shortest three (omega arith)

-- One command is waiting, with the average of the table.
abbrev waiting : State
waiting = record {
  queue = job "ls" 1000 ∷ [];
  commands = (record { name = "ls"; burst = 1000; count = 1 }) ∷ [];
  rows = [];
}

waiting-IsKnown : IsKnown waiting
unfolding lookup
waiting-IsKnown = (refl, tt)

abbrev lines : List (String × ℕ × ℕ)
lines = ("ls", 5, 6) ∷ ("date", 7, 8) ∷ []

abbrev fed : State
fed = record waiting {
  queue =
      job "ls" 1000
      ∷ (record (new_process "ls" 5 1000) { start_time = 6 })
      ∷ (record (new_process "date" 7 1000) { start_time = 8 })
      ∷ [];
  commands =
      (record { name = "ls"; burst = 1000; count = 1 })
      ∷ (record { name = "date"; burst = 1000; count = 1 })
      ∷ [];
}

fed_lem : handle_input lines waiting ≡ going fed
unfolding handle_input handle_line lookup add_to_queue_sjf
fed_lem = refl

fed-IsKnown : IsKnown fed
fed-IsKnown =
    IfGoing-going IsKnown (handle_input lines waiting) fed
      (handle_input-IsKnown lines waiting waiting-IsKnown) fed_lem

abbrev ls : Command
ls = record { name = "ls"; burst = 1000; count = 1 }

ls_average : (min 1000 20 ≤ new_average ls 20) × (new_average ls 20 ≤ max 1000 20)
ls_average = average_bounds ls 20 (omega arith)

abbrev started : Process
started = record (job "ls" 1000) { start_time = 10 }

started_times :
    let (done, written) = report 30 (some 0) started [] in
    (done.turnaround_time ≡ done.waiting_time + done.burst_time)
    × (0 + done.waiting_time ≡ 10)
    × (10 + done.burst_time ≡ 30)
    × ((row : Row) × (written ≡ [] ++ row ∷ [])
        × (row.turnaround_time ≡ done.turnaround_time)
        × (row.waiting_time ≡ done.waiting_time)
        × (row.burst_time ≡ done.burst_time))
started_times = times_add_up 30 (some 0) started [] (omega arith) (omega arith) (omega arith)

-- `make` runs while `ls` comes in twice.
abbrev session : List Round
session =
    (record { lines = ("make", 1, 1) ∷ []; started = 2; ended = 402; after = 402; exit = some 0 })
    ∷ (record {
      lines = ("ls", 403, 403) ∷ ("make", 404, 404) ∷ ("ls", 405, 405) ∷ [];
      started = 406;
      ended = 410;
      after = 411;
      exit = some 1;
    })
    ∷ []

-- Rounds behind it; the first of these commands is killed.
abbrev last_rounds : List Round
last_rounds =
    (record { lines = []; started = 411; ended = 420; after = 420; exit = none })
    ∷ (record { lines = []; started = 420; ended = 820; after = 820; exit = some 0 })
    ∷ (record { lines = []; started = 820; ended = 820; after = 820; exit = some 0 })
    ∷ (record { lines = []; started = 821; ended = 821; after = 821; exit = some 0 })
    ∷ []

-- The command, the error and the waiting time of each row, as long as the program goes on.
abbrev reported : Outcome → List (String × Bool × ℕ)
reported (going t) =
    map {B = String × Bool × ℕ} (λ (r : Row). (r.command, r.failed, r.waiting_time)) t.rows
reported left = []
reported overruns = []

-- The average of `make` is less than the default for `ls`, so the second `make` comes first.
session_rows :
    reported (shortest_job_first (session ++ quiet last_rounds) begin)
    ≡ ("make", false, 1) ∷ ("make", true, 2) ∷ ("ls", true, 8) ∷ ("ls", false, 15) ∷ []
unfolding shortest_job_first handle_input handle_line lookup add_to_queue_sjf sjf_round is_empty_sjf
    run_popped finish_round report execute_process_sjf store_args strtok skip span
    update_burst_times update_commands update_queue pop_from_queue_sjf shift drop_last
    shortest_index shortest_from
session_rows = refl

-- The tenth word and the NULL behind it do not have room.
long_line :
    shortest_job_first
      ((record {
        lines = ("echo 1 2 3 4 5 6 7 8 9", 1, 1) ∷ [];
        started = 2;
        ended = 3;
        after = 3;
        exit = some 0;
      })
        ∷ [])
      begin
    ≡ overruns
unfolding shortest_job_first handle_input handle_line lookup add_to_queue_sjf sjf_round is_empty_sjf
    run_popped finish_round report execute_process_sjf store_args strtok skip span
    update_burst_times update_commands update_queue pop_from_queue_sjf shift drop_last
    shortest_index shortest_from
long_line = refl

session-AllShort : AllShort (all_texts session)
session-AllShort = (omega arith, (omega arith, (omega arith, (omega arith, tt))))

commands_kept_example :
    (t : State) × (shortest_job_first session begin ≡ going t)
    × ((c : String)
        → tally (is_of c) t.queue + tally (row_of c) t.rows ≡ count c (all_texts session))
    × (length t.queue + length t.rows ≡ length (all_texts session))
    × IsKnown t
commands_kept_example = commands_kept session refl session-AllShort (omega arith)

commands_run_example :
    (t : State) × (shortest_job_first (session ++ quiet last_rounds) begin ≡ going t)
    × (length t.queue ≡ 0)
    × ((c : String) → tally (row_of c) t.rows ≡ count c (all_texts session))
commands_run_example =
    commands_run session last_rounds refl session-AllShort (omega arith) (omega arith)

-- The second row of the file behind the session.
abbrev second : Row
second = record {
  command = "make";
  failed = true;
  burst_time = 4;
  turnaround_time = 6;
  waiting_time = 2;
  response_time = 2;
}

abbrev session_end : State
session_end = record {
  queue =
      (record (new_process "ls" 403 1000) { start_time = 403 })
      ∷ (record (new_process "ls" 405 1000) { start_time = 405 })
      ∷ [];
  commands =
      (record { name = "make"; burst = 468; count = 3 })
      ∷ (record { name = "ls"; burst = 1000; count = 1 })
      ∷ [];
  rows =
      (record {
        command = "make";
        failed = false;
        burst_time = 400;
        turnaround_time = 401;
        waiting_time = 1;
        response_time = 1;
      })
      ∷ second
      ∷ [];
}

session_fits : AllFit session
session_fits = (
  (omega arith, tt),
  omega arith,
  omega arith,
  ((omega arith, (omega arith, (omega arith, tt))), omega arith, omega arith, tt),
)

session_lem : shortest_job_first session begin ≡ going session_end
unfolding shortest_job_first handle_input handle_line lookup add_to_queue_sjf sjf_round is_empty_sjf
    run_popped finish_round report execute_process_sjf store_args strtok skip span
    update_burst_times update_commands update_queue pop_from_queue_sjf shift drop_last
    shortest_index shortest_from
session_lem = refl

rows_add_up_example :
    (second.turnaround_time ≡ u64 (second.waiting_time + second.burst_time))
    × (second.response_time ≡ second.waiting_time)
rows_add_up_example = rows_add_up session session_end session_fits session_lem 1 second refl
