-- ===== src/Sched/OnlineMlfq/Drained.antt =====
-- The end of the multi-level feedback queue of online_schedulers.h: the queues run empty when no more
-- commands come in.
use Prim.Native.String.{String}
use simulating_the_functioni.Base.{
  ℕ, ◌+◌, ◌≤◌, ◌<◌, ◌≡◌, refl, ap, subst, ◌∙◌, Bool, true, false, ◌||◌, ◌&&◌, Bool-cases, inl, inr,
  List, [], ◌∷◌, ◌++◌, if◌then◌else◌, length, length-append, arith,
}
use simulating_the_functioni.Sched.Queues.{Queues, max_queue_size, run_highest, all_empty}
use simulating_the_functioni.Sched.Queues.Levels.{
  size, all_empty-true, all_empty-false, all_empty-size,
}
use simulating_the_functioni.Base.Counts.{tally, tally-le-length}
use simulating_the_functioni.Sched.Queues.Tally.{tallies, Picked, pick}
use simulating_the_functioni.Sched.OnlineMlfq.{
  Process, prioritized, State, Quanta, Line, Outcome, going, left, handle_input, Turn, wait_for,
  execute_process_mlfq, account, row, quantum_at, settle, update_burst_times_mlfq, run_popped,
  boost_if_due, mlfq_round, mlfq, begin,
}
use simulating_the_functioni.Sched.Sjf.Rows.{row_of, count}
use simulating_the_functioni.Sched.OnlineMlfq.Conserved.{is_of, Inv}
use simulating_the_functioni.Sched.OnlineMlfq.Rounds.{round-Inv}
use simulating_the_functioni.Sched.OnlineMlfq.Input.{
  before_exit, all_lines, state_of, has_exit, has_left, has_exit-append, handle_input-exit,
}
use simulating_the_functioni.Sched.OnlineMlfq.Whole.{commands-Inv}

-- Whether one of the `waitpid`s of a quantum tells that the process is gone.
abbrev pub any_gone : List Bool → Bool
any_gone [] = false
any_gone (b ∷ polls) = b || any_gone polls

-- Whether a process that runs is gone at the end of its turn.
abbrev pub is_gone : Turn → Bool
is_gone turn = turn.launched && (any_gone turn.polls || turn.last_poll)

wait_for-gone :
    (polls : List Bool) (p : Process) → any_gone polls ≡ true → (wait_for polls p).finished ≡ true
unfolding wait_for
wait_for-gone [] p e = ground arith
wait_for-gone (true ∷ polls) p e = refl
wait_for-gone (false ∷ polls) p e = wait_for-gone polls p e

execute-gone :
    (turn : Turn) (p : Process)
    → is_gone turn ≡ true
    → (execute_process_mlfq turn p).finished ≡ true
unfolding execute_process_mlfq
execute-gone turn p e = ground (
  arith,
  wait_for-gone turn.polls p,
  wait_for-gone turn.polls (record p { started = true; start_time = turn.launched_at }),
)

settle-rows :
    (b : Bool) (level quantum : ℕ) (turn : Turn) (s : State) (q : Process) (rest : Queues Process)
    → length (settle b level quantum turn s q rest).rows ≡ length s.rows + (if b then 1 else 0)
unfolding settle update_burst_times_mlfq
settle-rows true level quantum turn s q rest = length-append {0} s.rows (row (account turn q) ∷ [])
settle-rows false level quantum turn s q rest = omega arith

boost_if_due-rows : (k : Quanta) (turn : Turn) (s : State) → (boost_if_due k turn s).rows ≡ s.rows
unfolding boost_if_due
boost_if_due-rows k turn s = ground arith

-- A round writes a row for a process that is gone.
round-rows :
    (k : Quanta) (turn : Turn) (s : State)
    → 0 < size s.queues
    → length s.rows + (if is_gone turn then 1 else 0) ≤ length (mlfq_round k turn s).rows
unfolding mlfq_round run_popped
round-rows k turn s some_left = ground (
  arith,
  ap length (boost_if_due-rows k turn (run_highest (run_popped k turn s) s s.queues)),
  ap (λ t. length t.rows) v.goes_on,
  execute-gone turn v.process,
  settle-rows (execute_process_mlfq turn v.process).finished v.level (quantum_at k v.level) turn s
      (execute_process_mlfq turn v.process) v.rest,
)
  where
    v : Picked prioritized (run_popped k turn s) s s.queues
    v =
        pick prioritized (run_popped k turn s) s s.queues.queue0 s.queues.queue1 s.queues.queue2
          some_left

-- Turns behind which no line can be read.
abbrev pub quiet : List Turn → List (Turn × List Line)
quiet [] = []
quiet (turn ∷ turns) = (turn, []) ∷ quiet turns

quiet_ends :
    (k : Quanta) (turns : List Turn) (s : State) (seen : List String)
    → length seen ≤ max_queue_size
    → Inv seen s
    → size s.queues ≤ tally is_gone turns
    → size (state_of (mlfq k (quiet turns) s)).queues ≡ 0
unfolding mlfq handle_input
quiet_ends k [] s seen few inv enough = omega arith
quiet_ends k (turn ∷ turns) s seen few inv enough = elim (Bool-cases (all_empty s.queues)) [
  | inl e ↦ rw e (quiet_ends k turns s seen few inv (omega (arith, all_empty-size s.queues e)))
  | inr e ↦
      let some_left = all_empty-false s.queues e in
      let next = round-Inv k turn s seen few some_left inv in
      rw e (
        quiet_ends k turns (mlfq_round k turn s) seen few next
          (omega (arith, round-rows k turn s some_left, next.total, inv.total)))
]

-- Without `exit`, what comes later goes on from the state that was reached.
mlfq-append :
    (k : Quanta) (more rest : List (Turn × List Line)) (s : State)
    → has_exit (all_lines more) ≡ false
    → mlfq k (more ++ rest) s ≡ mlfq k rest (state_of (mlfq k more s))
unfolding mlfq
mlfq-append k [] rest s none_left = refl
mlfq-append k ((turn, lines) ∷ more) rest s none_left =
    go (handle_input k lines t) (handle_input-exit k lines t) (λ u. mlfq-append k more rest u)
  where
    t : State
    t = if all_empty s.queues then s else mlfq_round k turn s

    go :
        (o : Outcome)
        → has_left o ≡ has_exit lines
        → ((u : State)
            → has_exit (all_lines more) ≡ false
            → mlfq k (more ++ rest) u ≡ mlfq k rest (state_of (mlfq k more u)))
        → (elim o as (λ _. Outcome) [ going u ↦ mlfq k (more ++ rest) u | left u ↦ left u ])
          ≡ mlfq k rest
              (state_of (elim o as (λ _. Outcome) [ going u ↦ mlfq k more u | left u ↦ left u ]))
    go (going u) x later = later u (ground (arith, has_exit-append lines (all_lines more)))
    go (left u) x later = absurd (ground (arith, has_exit-append lines (all_lines more)))

all_lines-quiet :
    (more : List (Turn × List Line)) (turns : List Turn)
    → all_lines (more ++ quiet turns) ≡ all_lines more
all_lines-quiet [] [] = refl
all_lines-quiet [] (turn ∷ turns) = all_lines-quiet [] turns
all_lines-quiet ((turn, lines) ∷ more) turns = ap (λ l. lines ++ l) (all_lines-quiet more turns)

-- Let at most 100 commands and no `exit` be read, and then turns follow behind which nothing is read.
-- If in as many of these turns as there were commands the process that runs is gone at the end of its turn, then,
-- whatever the other turns are, the three queues are empty in the end, and the file has as many rows
-- of each command as it was read.
pub commands_finish :
    (k : Quanta) (now : ℕ) (more : List (Turn × List Line)) (turns : List Turn)
    → length (before_exit (all_lines more)) ≤ max_queue_size
    → has_exit (all_lines more) ≡ false
    → length (before_exit (all_lines more)) ≤ tally is_gone turns
    → (let t = state_of (mlfq k (more ++ quiet turns) (begin now)) in
        (all_empty t.queues ≡ true)
        × ((c : String) → tally (row_of c) t.rows ≡ count c (before_exit (all_lines more))))
commands_finish k now more turns few no_exit enough =
    (all_empty-true u.queues none_left, λ c. omega (arith, all.each c, none_waiting c))
  where
    seen : List String
    seen = before_exit (all_lines more)

    s : State
    s = state_of (mlfq k more (begin now))

    u : State
    u = state_of (mlfq k (more ++ quiet turns) (begin now))

    first : Inv seen s
    first = commands-Inv k now more few

    all : Inv seen u
    all =
        subst (λ l. Inv (before_exit l) u) (all_lines-quiet more turns)
          (commands-Inv k now (more ++ quiet turns)
            (omega (arith, few, ap (λ l. length (before_exit l)) (all_lines-quiet more turns))))

    none_left : size u.queues ≡ 0
    none_left =
        ap (λ o. size (state_of o).queues) (mlfq-append k more (quiet turns) (begin now) no_exit)
        ∙ quiet_ends k turns s seen few first (omega (arith, first.total))

    none_waiting : (c : String) → tallies (is_of c) u.queues ≡ 0
    none_waiting c = omega (
      arith,
      none_left,
      tally-le-length (is_of c) u.queues.queue0,
      tally-le-length (is_of c) u.queues.queue1,
      tally-le-length (is_of c) u.queues.queue2,
    )
