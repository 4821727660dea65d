-- ===== src/Sched/OnlineMlfq/Rounds.antt =====
-- A round of the inner loop loses no process and doubles none.
use Prim.Native.String.{String}
use simulating_the_functioni.Base.{
  ℕ, ◌+◌, ◌≤◌, ◌<◌, ◌≡◌, refl, sym, ap, subst, ◌∙◌, Bool, true, false, Bool-cases, inl, inr, List,
  [], ◌∷◌, leb, if◌then◌else◌, length, length-append, arith,
}
use simulating_the_functioni.Base.Words.{u64, sub_u64}
use simulating_the_functioni.Sched.Queues.{Queues, max_queue_size, run_highest}
use simulating_the_functioni.Sched.Queues.Levels.{size}
use simulating_the_functioni.Base.Counts.{tally, tally-append}
use simulating_the_functioni.Sched.Queues.Tally.{
  tallies, IsLevelled, Added, add-Added, boost-Kept, Picked, pick,
}
use simulating_the_functioni.Sched.OnlineMlfq.{
  Process, prioritized, add_to_queue_mlfq, State, Quanta, update_burst_times_mlfq, Turn, wait_for,
  execute_process_mlfq, account, row, demote, quantum_at, settle, run_popped, boost_if_due,
  mlfq_round,
}
use simulating_the_functioni.Sched.Sjf.Rows.{row_of, one, count}
use simulating_the_functioni.Sched.OnlineMlfq.Conserved.{is_of, Inv}

wait_for-command : (polls : List Bool) (p : Process) → (wait_for polls p).command ≡ p.command
unfolding wait_for
wait_for-command [] p = refl
wait_for-command (true ∷ polls) p = refl
wait_for-command (false ∷ polls) p = wait_for-command polls p

wait_for-priority : (polls : List Bool) (p : Process) → (wait_for polls p).priority ≡ p.priority
unfolding wait_for
wait_for-priority [] p = refl
wait_for-priority (true ∷ polls) p = refl
wait_for-priority (false ∷ polls) p = wait_for-priority polls p

module _ (turn : Turn) (p : Process) where
  abbrev begun : Process
  begun = record p { started = true; start_time = turn.launched_at }

  execute-command : (execute_process_mlfq turn p).command ≡ p.command
  unfolding execute_process_mlfq
  execute-command = ground (arith, wait_for-command turn.polls p, wait_for-command turn.polls begun)

  execute-priority : (execute_process_mlfq turn p).priority ≡ p.priority
  unfolding execute_process_mlfq
  execute-priority =
      ground (arith, wait_for-priority turn.polls p, wait_for-priority turn.polls begun)

-- The state behind `seen`, with one process taken out of the queues.
record Without (seen : List String) (s : State) (p : Process) (rest : Queues Process) : Type 0 where
  each :
      (c : String)
      → tallies (is_of c) rest + (if is_of c p then 1 else 0) + tally (row_of c) s.rows
        ≡ count c seen
  total : size rest + 1 + length s.rows ≡ length seen
  levels : IsLevelled prioritized rest

demote-command : (level : ℕ) (p : Process) → (demote level p).command ≡ p.command
demote-command level p = ground arith

demote_le :
    (level : ℕ) (p : Process) → level ≤ 2 → p.priority ≡ level → (demote level p).priority ≤ 2
demote_le level p le e = ground arith

module _ (level quantum : ℕ) (turn : Turn) (s : State) (seen : List String) (p q : Process)
    (rest : Queues Process) (w : Without seen s p rest) (few : length seen ≤ max_queue_size)
    (le : level ≤ 2) (at : q.priority ≡ level) (same : q.command ≡ p.command) where
  settle-Inv : (b : Bool) → Inv seen (settle b level quantum turn s q rest)
  unfolding settle update_burst_times_mlfq
  settle-Inv true = record {
    each = λ c. omega (
      arith,
      w.each c,
      tally-append (row_of c) s.rows (row (account turn q) ∷ []),
      ap (one c) same,
    );
    total = omega (arith, w.total, length-append {0} s.rows (row (account turn q) ∷ []));
    levels = w.levels;
  }
  settle-Inv false = record {
    each =
        λ c. omega (arith, w.each c, a.more (is_of c), ap (one c) (demote-command level q ∙ same));
    total = omega (arith, w.total, a.bigger);
    levels = a.levels w.levels;
  }
    where
      d : Process
      d = demote level q

      again : Process
      again = record d { burst_time = u64 (d.burst_time + quantum) }

      a : Added prioritized again rest (add_to_queue_mlfq again rest)
      a = add-Added prioritized again rest (demote_le level q le at) (omega (arith, w.total))

boost_if_due-Inv :
    (k : Quanta) (turn : Turn) (s : State) (seen : List String)
    → length seen ≤ max_queue_size
    → Inv seen s
    → Inv seen (boost_if_due k turn s)
unfolding boost_if_due
boost_if_due-Inv k turn s seen few inv =
    elim (Bool-cases (leb k.boost_time (sub_u64 turn.now s.last_boost_time))) [
      | inl due ↦
          let b = boost-Kept prioritized s.queues (omega (arith, inv.total)) in
          rw due (record {
            each = λ c. omega (arith, b.same (is_of c) (λ p j. refl), inv.each c);
            total = omega (arith, b.same_size, inv.total);
            levels = b.levels inv.levels;
          })
      | inr early ↦ rw early inv
    ]

-- A round of the inner loop moves a command from the queues to the file, or keeps it where it is.
pub round-Inv :
    (k : Quanta) (turn : Turn) (s : State) (seen : List String)
    → length seen ≤ max_queue_size
    → 0 < size s.queues
    → Inv seen s
    → Inv seen (mlfq_round k turn s)
unfolding mlfq_round run_popped
round-Inv k turn s seen few some_left inv =
    boost_if_due-Inv k turn (run_highest (run_popped k turn s) s s.queues) seen few (
      subst (Inv seen) (sym v.goes_on) (
        settle-Inv v.level (quantum_at k v.level) turn s seen v.process
          (execute_process_mlfq turn v.process) v.rest taken few v.level_le
          (execute-priority turn v.process ∙ (v.levels inv.levels).1)
          (execute-command turn v.process) (execute_process_mlfq turn v.process).finished))
  where
    v : Picked prioritized (run_popped k turn s) s s.queues
    v =
        pick prioritized (run_popped k turn s) s s.queues.queue0 s.queues.queue1 s.queues.queue2
          some_left

    taken : Without seen s v.process v.rest
    taken = record {
      each = λ c. omega (arith, v.out (is_of c), inv.each c);
      total = omega (arith, v.smaller, inv.total);
      levels = (v.levels inv.levels).0;
    }
