-- ===== src/Sched/OnlineMlfq/Tests.antt =====
-- The multi-level feedback queue of Assignment-02-schedulers/online_schedulers.h on two commands.
use Prim.Native.String.{String}
use simulating_the_functioni.Base.{
  ℕ, ◌+◌, ◌≡◌, refl, Bool, true, false, List, [], ◌∷◌, ◌++◌, map, length, arith,
}
use simulating_the_functioni.Base.Shift.{shift, drop_last}
use simulating_the_functioni.Sched.Queues.{
  add_to_queue, pop_from_queue, is_empty, all_empty, run_highest, boost_from, boost_queues,
}
use simulating_the_functioni.Sched.Queues.Levels.{size}
use simulating_the_functioni.Base.Counts.{tally}
use simulating_the_functioni.Sched.Queues.Tally.{tallies, IsLevelled}
use simulating_the_functioni.Sched.Sjf.{Row, lookup, update_commands}
use simulating_the_functioni.Sched.OnlineMlfq.{
  prioritized, Quanta, Line, Turn, handle_line, handle_input, update_burst_times_mlfq, wait_for,
  priority_of, execute_process_mlfq, settle, run_popped, boost_if_due, mlfq_round, mlfq, begin,
}
use simulating_the_functioni.Sched.Sjf.Rows.{row_of, count}
use simulating_the_functioni.Sched.OnlineMlfq.Conserved.{is_of}
use simulating_the_functioni.Sched.OnlineMlfq.Input.{before_exit, all_lines, state_of}
use simulating_the_functioni.Sched.OnlineMlfq.Whole.{commands_conserved}
use simulating_the_functioni.Sched.OnlineMlfq.Drained.{quiet, commands_finish}

abbrev quanta : Quanta
quanta = record { quantum0 = 20; quantum1 = 40; quantum2 = 80; boost_time = 1000 }

abbrev line : String → ℕ → Line
line text now = record { text = text; now = now; started = false; error = false }

-- A turn from a time on, with what the last `waitpid` tells.
abbrev turn : (start length : ℕ) → Bool → Turn
turn start length gone = record {
  launched = true;
  launched_at = start;
  polls = false ∷ [];
  last_poll = gone;
  start = start;
  ended = start + length;
  now = start + length;
  boosted_at = 0;
}

-- `make` needs two turns, and `ls` comes in while it runs; `exit` is read behind the third turn.
abbrev session : List (Turn × List Line)
session =
    (turn 0 0 false, line "make" 1 ∷ [])
    ∷ (turn 2 40 false, line "ls" 42 ∷ [])
    ∷ (turn 42 10 true, [])
    ∷ (turn 52 5 true, line "exit" 60 ∷ line "pwd" 61 ∷ [])
    ∷ []

session_rows :
    map {B = String × ℕ × ℕ}
      (λ (r : Row). (r.command, r.burst_time, r.waiting_time))
      (state_of (mlfq quanta session (begin 0))).rows
    ≡ ("ls", 10, 0) ∷ ("make", 45, 11) ∷ []
unfolding mlfq mlfq_round handle_input handle_line update_burst_times_mlfq wait_for settle
    execute_process_mlfq run_popped boost_if_due priority_of lookup update_commands add_to_queue
    pop_from_queue is_empty all_empty run_highest boost_from boost_queues shift drop_last
session_rows = refl

commands_conserved_example :
    (let t = state_of (mlfq quanta session (begin 0)) in
      ((c : String)
        → tallies (is_of c) t.queues + tally (row_of c) t.rows
          ≡ count c (before_exit (all_lines session)))
      × (size t.queues + length t.rows ≡ length (before_exit (all_lines session)))
      × IsLevelled prioritized t.queues)
commands_conserved_example = commands_conserved quanta 0 session (omega arith)

-- What is read first, and three turns behind it of which the second is too short.
abbrev reads : List (Turn × List Line)
reads = (turn 0 0 false, line "make" 1 ∷ []) ∷ (turn 2 40 false, line "ls" 42 ∷ []) ∷ []

abbrev last_turns : List Turn
last_turns = turn 42 10 true ∷ turn 52 40 false ∷ turn 92 5 true ∷ []

commands_finish_example :
    (let t = state_of (mlfq quanta (reads ++ quiet last_turns) (begin 0)) in
      (all_empty t.queues ≡ true)
      × ((c : String) → tally (row_of c) t.rows ≡ count c (before_exit (all_lines reads))))
commands_finish_example = commands_finish quanta 0 reads last_turns (omega arith) refl (omega arith)
