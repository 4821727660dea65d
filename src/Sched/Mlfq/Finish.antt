-- ===== src/Sched/Mlfq/Finish.antt =====
-- The whole loop of `MultiLevelFeedbackQueue`: when it ends, and when it cannot.
use simulating_the_functioni.Base.{
  ℕ, ◌+◌, ◌≤◌, ◌<◌, ◌≡◌, refl, sym, ap, subst, Bool, true, false, ◌&&◌, List, [], ◌∷◌, ltb,
  if◌then◌else◌, Bool-cases, inl, inr, arith,
}
use simulating_the_functioni.Sched.Queues.{Queues, max_queue_size, all_empty}
use simulating_the_functioni.Sched.Queues.Levels.{size, all_empty-true, all_empty-false}
use simulating_the_functioni.Sched.Queues.Tally.{tallies, IsLevelled}
use simulating_the_functioni.Sched.Mlfq.{
  Process, prioritized, Poll, running, exited, other, wait_for, Turn, execute_process_mlfq, State,
  Quanta, mlfq_round, mlfq, fill,
}
use simulating_the_functioni.Sched.Mlfq.Fill.{
  has_index, tally-fresh, AllAt-fresh, fill_lem, size-fill,
}
use simulating_the_functioni.Sched.Mlfq.Rounds.{done, round_keeps}

-- Whether the polls of a turn see an exit.
abbrev pub sees_exit : List Poll → Bool
sees_exit [] = false
sees_exit (running ∷ polls) = sees_exit polls
sees_exit (exited code ∷ polls) = true
sees_exit (other ∷ polls) = false

-- The number of turns in which the command exits within the quantum.
abbrev pub exits : List Turn → ℕ
exits [] = 0
exits (turn ∷ turns) = (if turn.launched && sees_exit turn.polls then 1 else 0) + exits turns

wait_for-exit :
    (polls : List Poll) (p : Process) → sees_exit polls ≡ true → (wait_for polls p).finished ≡ true
unfolding wait_for
wait_for-exit [] p h = absurd (cc h)
wait_for-exit (running ∷ polls) p h = wait_for-exit polls p h
wait_for-exit (exited code ∷ polls) p h = refl
wait_for-exit (other ∷ polls) p h = absurd (cc h)

exit-done :
    (turn : Turn) (p : Process)
    → (if turn.launched && sees_exit turn.polls then 1 else 0) ≤ done turn p
unfolding execute_process_mlfq
exit-done turn p = ground (
  arith,
  wait_for-exit turn.polls p,
  wait_for-exit turn.polls (record p { started = true; start_time = turn.launched_at }),
)

-- A round takes out a process if its command exits, and puts none in.
round_shrinks :
    (k : Quanta) (turn : Turn) (s : State)
    → 0 < size s.queues
    → size s.queues ≤ max_queue_size
    → IsLevelled prioritized s.queues
    → (size (mlfq_round k turn s).queues + (if turn.launched && sees_exit turn.polls then 1 else 0)
        ≤ size s.queues)
      × IsLevelled prioritized (mlfq_round k turn s).queues
round_shrinks k turn s some_left few levelled =
    let (p, _, _, shrinks, levels) = round_keeps k turn s some_left few levelled in
    (omega (arith, shrinks, exit-done turn p), levels)

loop_ends :
    (k : Quanta) (turns : List Turn) (s : State)
    → size s.queues ≤ max_queue_size
    → size s.queues ≤ exits turns
    → IsLevelled prioritized s.queues
    → all_empty (mlfq k turns s).queues ≡ true
unfolding mlfq
loop_ends k [] s few enough levelled = all_empty-true s.queues (omega arith)
loop_ends k (turn ∷ turns) s few enough levelled = elim (Bool-cases (all_empty s.queues)) [
  | inl e ↦ rw e e
  | inr e ↦
      let (shrinks, levels) = round_shrinks k turn s (all_empty-false s.queues e) few levelled in
      rw e (
        loop_ends k turns (mlfq_round k turn s) (omega (arith, shrinks)) (omega (arith, shrinks))
          levels)
]

-- The state before the loop, for `n` commands in the caller's array.
abbrev pub begin : (arrival n : ℕ) → List Process → (last_boost_time : ℕ) → State
begin arrival n processes last_boost_time = record {
  queues = fill arrival n;
  processes = processes;
  last_boost_time = last_boost_time;
}

begin-IsLevelled : (arrival n : ℕ) → n ≤ max_queue_size → IsLevelled prioritized (fill arrival n)
begin-IsLevelled arrival n few =
    subst (IsLevelled prioritized) (sym (fill_lem arrival n few)) (AllAt-fresh arrival 0 n, tt, tt)

-- With at most 100 commands, whatever the clock reads and however many other rounds there are, the
-- loop has emptied the three queues once as many rounds as there are commands have seen theirs exit
-- within its quantum.
pub all_run :
    (k : Quanta) (arrival n : ℕ) (processes : List Process) (t : ℕ) (turns : List Turn)
    → n ≤ max_queue_size
    → n ≤ exits turns
    → all_empty (mlfq k turns (begin arrival n processes t)).queues ≡ true
all_run k arrival n processes t turns few enough =
    loop_ends k turns (begin arrival n processes t) (omega (arith, size-fill arrival n few))
      (omega (arith, size-fill arrival n few)) (begin-IsLevelled arrival n few)

-- What every round keeps: no index is in the queues more often than at first, and each process
-- stands in the queue of its priority.
record Within (first : Queues Process) (qs : Queues Process) : Type 0 where
  at_most : (i : ℕ) → tallies (has_index i) qs ≤ tallies (has_index i) first
  no_bigger : size qs ≤ size first
  levels : IsLevelled prioritized qs

mlfq-Within :
    (k : Quanta) (turns : List Turn) (first : Queues Process) (s : State)
    → size first ≤ max_queue_size
    → Within first s.queues
    → Within first (mlfq k turns s).queues
unfolding mlfq
mlfq-Within k [] first s few w = w
mlfq-Within k (turn ∷ turns) first s few w = elim (Bool-cases (all_empty s.queues)) [
  | inl e ↦ rw e w
  | inr e ↦ rw e (mlfq-Within k turns first (mlfq_round k turn s) few (next e))
]
  where
    next : all_empty s.queues ≡ false → Within first (mlfq_round k turn s).queues
    next e =
        let (p, _, same, shrinks, levels) =
          round_keeps k turn s (all_empty-false s.queues e) (omega (arith, w.no_bigger)) w.levels in
        record {
          at_most = λ i. omega (arith, same i, w.at_most i);
          no_bigger = omega (arith, shrinks, w.no_bigger);
          levels = levels;
        }

-- With at most 100 commands, after any rounds each index below their number is in the three queues
-- at most once and no other index is, and each process stands in the queue of its priority.
pub each_once :
    (k : Quanta) (arrival n : ℕ) (processes : List Process) (t : ℕ) (turns : List Turn)
    → n ≤ max_queue_size
    → ((i : ℕ)
        → tallies (has_index i) (mlfq k turns (begin arrival n processes t)).queues
          ≤ (if ltb i n then 1 else 0))
      × IsLevelled prioritized (mlfq k turns (begin arrival n processes t)).queues
each_once k arrival n processes t turns few = (
  λ i. ground (
    arith,
    w.at_most i,
    ap (tallies (has_index i)) (fill_lem arrival n few),
    tally-fresh i arrival 0 n,
  ),
  w.levels,
)
  where
    w : Within (fill arrival n) (mlfq k turns (begin arrival n processes t)).queues
    w =
        mlfq-Within k turns (fill arrival n) (begin arrival n processes t)
          (omega (arith, size-fill arrival n few))
          (record {
            at_most = λ i. omega arith;
            no_bigger = omega arith;
            levels = begin-IsLevelled arrival n few;
          })
