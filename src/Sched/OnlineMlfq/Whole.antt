-- ===== src/Sched/OnlineMlfq/Whole.antt =====
-- The two loops of `MultiLevelFeedbackQueue` together.
use Prim.Native.String.{String}
use simulating_the_functioni.Base.{
  ℕ, ◌+◌, ◌≤◌, ◌≡◌, refl, sym, ap, subst, ◌∙◌, Bool-cases, inl, inr, List, [], ◌∷◌, ◌++◌,
  append_assoc, append-nil, if◌then◌else◌, length, length-append, arith,
}
use simulating_the_functioni.Sched.Queues.{max_queue_size, all_empty}
use simulating_the_functioni.Sched.Queues.Levels.{size, all_empty-false}
use simulating_the_functioni.Base.Counts.{tally}
use simulating_the_functioni.Sched.Queues.Tally.{tallies, IsLevelled}
use simulating_the_functioni.Sched.OnlineMlfq.{
  prioritized, State, Quanta, Line, Outcome, going, left, handle_input, Turn, mlfq_round, mlfq,
  begin,
}
use simulating_the_functioni.Sched.Sjf.Rows.{row_of, count}
use simulating_the_functioni.Sched.OnlineMlfq.Conserved.{is_of, Inv}
use simulating_the_functioni.Sched.OnlineMlfq.Rounds.{round-Inv}
use simulating_the_functioni.Sched.OnlineMlfq.Input.{
  before_exit, all_lines, state_of, has_exit, has_left, before_exit-append, handle_input-Inv,
  handle_input-exit,
}

turn-Inv :
    (k : Quanta) (turn : Turn) (s : State) (seen : List String)
    → length seen ≤ max_queue_size
    → Inv seen s
    → Inv seen (if all_empty s.queues then s else mlfq_round k turn s)
turn-Inv k turn s seen few inv = elim (Bool-cases (all_empty s.queues)) [
  | inl e ↦ rw e inv
  | inr e ↦ rw e (round-Inv k turn s seen few (all_empty-false s.queues e) inv)
]

loop-Inv :
    (k : Quanta) (more : List (Turn × List Line)) (s : State) (seen : List String)
    → length seen + length (before_exit (all_lines more)) ≤ max_queue_size
    → Inv seen s
    → Inv (seen ++ before_exit (all_lines more)) (state_of (mlfq k more s))
unfolding mlfq
loop-Inv k [] s seen few inv = subst (λ l. Inv l s) (sym (append-nil seen)) inv
loop-Inv k ((turn, lines) ∷ more) s seen few inv =
    go (handle_input k lines t) (before_exit-append lines (all_lines more)) few
      (handle_input-exit k lines t)
      (λ room.
        handle_input-Inv k lines t seen room (turn-Inv k turn s seen (omega (arith, room)) inv))
      (λ u room v. loop-Inv k more u (seen ++ before_exit lines) room v)
  where
    t : State
    t = if all_empty s.queues then s else mlfq_round k turn s

    rest : List String
    rest = before_exit (all_lines more)

    both : List String
    both = before_exit (lines ++ all_lines more)

    go :
        (o : Outcome)
        → both ≡ before_exit lines ++ (if has_exit lines then [] else rest)
        → length seen + length both ≤ max_queue_size
        → has_left o ≡ has_exit lines
        → (length seen + length (before_exit lines) ≤ max_queue_size
            → Inv (seen ++ before_exit lines) (state_of o))
        → ((u : State)
            → length (seen ++ before_exit lines) + length rest ≤ max_queue_size
            → Inv (seen ++ before_exit lines) u
            → Inv ((seen ++ before_exit lines) ++ rest) (state_of (mlfq k more u)))
        → Inv
            (seen ++ both)
            (state_of (elim o as (λ _. Outcome) [ going u ↦ mlfq k more u | left u ↦ left u ]))
    go (going u) e room x now next =
        let split = e ∙ ap (λ b. before_exit lines ++ (if b then [] else rest)) (sym x) in
        subst (λ l. Inv l (state_of (mlfq k more u)))
          (append_assoc seen (before_exit lines) rest ∙ sym (ap (λ l. seen ++ l) split))
          (next u
            (omega (
              arith,
              room,
              ap length split,
              length-append {0} (before_exit lines) rest,
              length-append {0} seen (before_exit lines),
            ))
            (now
              (omega (arith, room, ap length split, length-append {0} (before_exit lines) rest))))
    go (left u) e room x now next =
        let split =
          e
          ∙ ap (λ b. before_exit lines ++ (if b then [] else rest)) (sym x)
          ∙ append-nil (before_exit lines) in
        subst (λ l. Inv (seen ++ l) u) (sym split) (now (omega (arith, room, ap length split)))

pub commands-Inv :
    (k : Quanta) (now : ℕ) (more : List (Turn × List Line))
    → length (before_exit (all_lines more)) ≤ max_queue_size
    → Inv (before_exit (all_lines more)) (state_of (mlfq k more (begin now)))
commands-Inv k now more few =
    loop-Inv k more (begin now) [] (omega arith)
      (record { each = λ c. refl; total = refl; levels = (tt, tt, tt) })

-- Let at most 100 commands be read before the first `exit`. Whatever the system gives, and whatever
-- `malloc` leaves in the processes, after any number of rounds each command is as often in the three
-- queues and in the rows of the file together as it was read before the first `exit`, and there is
-- nothing else in them; and each waiting process stands in the queue of its priority.
pub commands_conserved :
    (k : Quanta) (now : ℕ) (more : List (Turn × List Line))
    → length (before_exit (all_lines more)) ≤ max_queue_size
    → (let t = state_of (mlfq k more (begin now)) in
        ((c : String)
          → tallies (is_of c) t.queues + tally (row_of c) t.rows
            ≡ count c (before_exit (all_lines more)))
        × (size t.queues + length t.rows ≡ length (before_exit (all_lines more)))
        × IsLevelled prioritized t.queues)
commands_conserved k now more few =
    let v = commands-Inv k now more few in (v.each, v.total, v.levels)
