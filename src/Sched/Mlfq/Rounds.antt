-- ===== src/Sched/Mlfq/Rounds.antt =====
-- A round of `MultiLevelFeedbackQueue`: which process it takes, and where that process goes.
use simulating_the_functioni.Base.Words.{u64, sub_u64}
use simulating_the_functioni.Base.{
  ℕ, ◌+◌, ◌≤◌, ◌<◌, ◌≡◌, refl, sym, ap, subst, ◌∙◌, Bool, true, false, Option, some, List, [], ◌∷◌,
  leb, ◌==◌, if◌then◌else◌, Bool-cases, inl, inr, arith,
}
use simulating_the_functioni.Sched.Queues.{Queues, max_queue_size, add_to_queue}
use simulating_the_functioni.Sched.Queues.Levels.{size}
use simulating_the_functioni.Sched.Queues.Tally.{
  tallies, next_up, IsLevelled, Added, add-Added, Kept, boost-Kept, Kept-refl, Picked, pick,
}
use simulating_the_functioni.Sched.Mlfq.{
  Process, prioritized, Poll, running, exited, other, Turn, wait_for, execute_process_mlfq, State,
  demote, settle, run_popped, Quanta, quantum_at, run_turn, boost_if_due, mlfq_round,
}
use simulating_the_functioni.Sched.Mlfq.Fill.{has_index}

wait_for-index : (polls : List Poll) (p : Process) → (wait_for polls p).index ≡ p.index
unfolding wait_for
wait_for-index [] p = refl
wait_for-index (running ∷ polls) p = wait_for-index polls p
wait_for-index (exited code ∷ polls) p = refl
wait_for-index (other ∷ polls) p = refl

execute-index : (turn : Turn) (p : Process) → (execute_process_mlfq turn p).index ≡ p.index
unfolding execute_process_mlfq
execute-index turn p = ground (
  arith,
  wait_for-index turn.polls p,
  wait_for-index turn.polls (record p { started = true; start_time = turn.launched_at }),
)

wait_for-priority : (polls : List Poll) (p : Process) → (wait_for polls p).priority ≡ p.priority
unfolding wait_for
wait_for-priority [] p = refl
wait_for-priority (running ∷ polls) p = wait_for-priority polls p
wait_for-priority (exited code ∷ polls) p = refl
wait_for-priority (other ∷ polls) p = refl

execute-priority : (turn : Turn) (p : Process) → (execute_process_mlfq turn p).priority ≡ p.priority
unfolding execute_process_mlfq
execute-priority turn p = ground (
  arith,
  wait_for-priority turn.polls p,
  wait_for-priority turn.polls (record p { started = true; start_time = turn.launched_at }),
)

boost_if_due-Kept :
    (k : Quanta) (turn : Turn) (s : State)
    → size s.queues ≤ max_queue_size
    → Kept prioritized s.queues (boost_if_due k turn s).queues
unfolding boost_if_due
boost_if_due-Kept k turn s h =
    elim (Bool-cases (leb k.boost_time (sub_u64 turn.now s.last_boost_time))) [
      | inl due ↦ rw due (boost-Kept prioritized s.queues h)
      | inr early ↦ rw early (Kept-refl prioritized s.queues)
    ]

-- Whether a process has finished when its turn is over, as a number.
abbrev pub done : Turn → Process → ℕ
done turn p = if (execute_process_mlfq turn p).finished then 1 else 0

-- What a branch of the loop does to the queues: the process is gone if it has finished, and is back
-- otherwise.
record Ran (turn : Turn) (p : Process) (rest rs : Queues Process) : Type 0 where
  back :
      (i : ℕ)
      → tallies (has_index i) rs + (if p.index == i then done turn p else 0)
        ≡ tallies (has_index i) rest + (if p.index == i then 1 else 0)
  back_size : size rs + done turn p ≡ size rest + 1
  levels : IsLevelled prioritized rest → IsLevelled prioritized rs

demote_le :
    (level : ℕ) (p : Process) → level ≤ 2 → p.priority ≡ level → (demote level p).priority ≤ 2
demote_le level p le e = ground arith

demote-index : (level : ℕ) (p : Process) → (demote level p).index ≡ p.index
demote-index level p = ground arith

module _ (level quantum : ℕ) (turn : Turn) (s : State) (p : Process) (rest : Queues Process)
    (le : level ≤ 2) (at : p.priority ≡ level) (room : size rest < max_queue_size) where
  settle-Ran :
      (b : Bool)
      → (execute_process_mlfq turn p).finished ≡ b
      → Ran turn p rest (settle b level quantum turn s (execute_process_mlfq turn p) rest).queues
  unfolding settle
  settle-Ran true e = record {
    back = λ i. ground (arith, gone);
    back_size = omega (arith, gone);
    levels = λ v. v;
  }
    where
      gone : done turn p ≡ 1
      gone = rw e refl
  settle-Ran false e = record {
    back = λ i.
        ground (arith, stays, a.more (has_index i), execute-index turn p, demote-index level q);
    back_size = omega (arith, a.bigger, stays);
    levels = a.levels;
  }
    where
      q : Process
      q = execute_process_mlfq turn p

      d : Process
      d = demote level q

      again : Process
      again = record d { burst_time = u64 (d.burst_time + quantum) }

      a : Added prioritized again rest (add_to_queue prioritized again rest)
      a =
          add-Added prioritized again rest (demote_le level q le (execute-priority turn p ∙ at))
            room

      stays : done turn p ≡ 0
      stays = rw e refl

  run_popped-Ran : Ran turn p rest (run_popped level quantum turn s (some p, rest)).queues
  unfolding run_popped
  run_popped-Ran = settle-Ran (execute_process_mlfq turn p).finished refl

-- Of at most 100 processes, each in the queue of its priority, a round takes the first of the highest
-- queue that is not empty and loses none: each index is in the queues as often as before, but that
-- the process which ran is no longer there if it has finished, and only then; and each process still
-- stands in the queue of its priority, with a boost or without.
pub round_keeps :
    (k : Quanta) (turn : Turn) (s : State)
    → 0 < size s.queues
    → size s.queues ≤ max_queue_size
    → IsLevelled prioritized s.queues
    → (p : Process) × (next_up s.queues ≡ some p)
      × ((i : ℕ)
          → tallies (has_index i) (mlfq_round k turn s).queues
              + (if p.index == i then done turn p else 0)
            ≡ tallies (has_index i) s.queues)
      × (size (mlfq_round k turn s).queues + done turn p ≡ size s.queues)
      × IsLevelled prioritized (mlfq_round k turn s).queues
unfolding mlfq_round run_turn
round_keeps k turn s some_left few levelled = (
  v.process,
  v.is_next,
  λ i. omega (
    arith,
    v.out (has_index i),
    r.back i,
    ap (tallies (has_index i)) ran,
    b.same (has_index i) (λ p j. refl),
  ),
  omega (arith, v.smaller, r.back_size, ap size ran, b.same_size),
  b.levels (subst (IsLevelled prioritized) (sym ran) (r.levels (v.levels levelled).0)),
)
  where
    branch : ℕ → Option Process × Queues Process → State
    branch level = run_popped level (quantum_at k level) turn s

    v : Picked prioritized branch s s.queues
    v = pick prioritized branch s s.queues.queue0 s.queues.queue1 s.queues.queue2 some_left

    r : Ran turn v.process v.rest (branch v.level (some v.process, v.rest)).queues
    r =
        run_popped-Ran v.level (quantum_at k v.level) turn s v.process v.rest v.level_le
          (v.levels levelled).1 (omega (arith, v.smaller))

    ran : (run_turn k turn s).queues ≡ (branch v.level (some v.process, v.rest)).queues
    ran = ap (λ (t : State). t.queues) v.goes_on

    b : Kept prioritized (run_turn k turn s).queues (boost_if_due k turn (run_turn k turn s)).queues
    b =
        boost_if_due-Kept k turn (run_turn k turn s)
          (omega (arith, v.smaller, r.back_size, ap size ran))
