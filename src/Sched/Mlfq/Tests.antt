-- ===== src/Sched/Mlfq/Tests.antt =====
-- Two processes in the queues of Assignment-02-schedulers/offline_schedulers.h, and the theorems on
-- them.
use simulating_the_functioni.Base.{
  ℕ, some, ◌≡◌, ◌≤◌, ltb, refl, true, false, ◌+◌, ◌==◌, if◌then◌else◌, List, [], ◌∷◌, map, arith,
}
use simulating_the_functioni.Base.Shift.{shift, drop_last}
use simulating_the_functioni.Sched.Queues.{
  Queues, add_to_queue, pop_from_queue, is_empty, all_empty, run_highest, boost_from, boost_queues,
}
use simulating_the_functioni.Sched.Queues.Levels.{size, queues}
use simulating_the_functioni.Sched.Queues.Tally.{tallies, next_up, IsLevelled}
use simulating_the_functioni.Sched.Mlfq.{
  Process, prioritized, running, exited, Turn, State, Quanta, wait_for, execute_process_mlfq,
  settle, run_popped, run_turn, boost_if_due, mlfq_round, mlfq,
}
use simulating_the_functioni.Sched.Mlfq.Fill.{has_index}
use simulating_the_functioni.Sched.Mlfq.Finish.{begin, all_run, each_once}
use simulating_the_functioni.Sched.Mlfq.Levels.{boost_queues_lem}
use simulating_the_functioni.Sched.Mlfq.Rounds.{done, round_keeps}

abbrev waiting : ℕ → ℕ → Process
waiting i priority = record {
  index = i;
  priority = priority;
  started = false;
  finished = false;
  error = false;
  arrival_time = 0;
  start_time = 0;
  completion_time = 0;
  turnaround_time = 0;
  waiting_time = 0;
  response_time = 0;
  burst_time = 0;
}

abbrev mixed : Queues Process
mixed = queues (waiting 0 0 ∷ []) (waiting 1 1 ∷ []) (waiting 2 2 ∷ waiting 3 2 ∷ [])

boost_mixed :
    boost_queues prioritized mixed
    ≡ queues (waiting 0 0 ∷ waiting 1 0 ∷ waiting 2 0 ∷ waiting 3 0 ∷ []) [] []
unfolding boost_queues boost_from pop_from_queue add_to_queue drop_last shift
boost_mixed = refl

boost_queues_lem_example :
    boost_queues prioritized mixed
    ≡ queues (waiting 0 0 ∷ waiting 1 0 ∷ waiting 2 0 ∷ waiting 3 0 ∷ []) [] []
boost_queues_lem_example = boost_queues_lem mixed (omega arith)

abbrev quanta : Quanta
quanta = record { quantum0 = 20; quantum1 = 40; quantum2 = 80; boost_time = 100 }

abbrev slow : Turn
slow = record {
  launched = true;
  launched_at = 1;
  polls = running ∷ running ∷ [];
  start = 0;
  ended = 20;
  now = 20;
  boosted_at = 20;
}

abbrev quick : Turn
quick = record {
  launched = true;
  launched_at = 21;
  polls = running ∷ exited 3 ∷ [];
  start = 20;
  ended = 31;
  now = 31;
  boosted_at = 31;
}

abbrev two_waiting : State
two_waiting = record {
  queues = queues (waiting 0 0 ∷ waiting 1 0 ∷ []) [] [];
  processes = waiting 0 0 ∷ waiting 1 0 ∷ [];
  last_boost_time = 0;
}

two_rounds :
    map (λ (p : Process). p.error) (mlfq quanta (slow ∷ quick ∷ []) two_waiting).processes
    ≡ false ∷ true ∷ []
unfolding mlfq all_empty is_empty mlfq_round boost_if_due run_turn run_highest run_popped settle
    execute_process_mlfq wait_for pop_from_queue add_to_queue boost_queues boost_from drop_last
    shift
two_rounds = refl

round_keeps_example :
    (p : Process) × (next_up two_waiting.queues ≡ some p)
    × ((i : ℕ)
        → tallies (has_index i) (mlfq_round quanta slow two_waiting).queues
            + (if p.index == i then done slow p else 0)
          ≡ tallies (has_index i) two_waiting.queues)
    × (size (mlfq_round quanta slow two_waiting).queues + done slow p ≡ size two_waiting.queues)
    × IsLevelled prioritized (mlfq_round quanta slow two_waiting).queues
round_keeps_example =
    round_keeps quanta slow two_waiting (omega arith) (omega arith) ((refl, (refl, tt)), tt, tt)

abbrev schedule : List Turn
schedule = slow ∷ quick ∷ slow ∷ quick ∷ []

all_run_example : all_empty (mlfq quanta schedule (begin 0 2 two_waiting.processes 0)).queues ≡ true
all_run_example = all_run quanta 0 2 two_waiting.processes 0 schedule (omega arith) (omega arith)

each_once_example :
    ((i : ℕ)
      → tallies (has_index i) (mlfq quanta schedule (begin 0 2 two_waiting.processes 0)).queues
        ≤ (if ltb i 2 then 1 else 0))
    × IsLevelled prioritized (mlfq quanta schedule (begin 0 2 two_waiting.processes 0)).queues
each_once_example = each_once quanta 0 2 two_waiting.processes 0 schedule (omega arith)
