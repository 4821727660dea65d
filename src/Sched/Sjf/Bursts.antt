-- ===== src/Sched/Sjf/Bursts.antt =====
-- The average burst times of the commands, and the queue that is ordered by them.
use Prim.Native.String.{String}
use text.Mathlib.Text.{◌==◌ as str_eq}
use text.Mathlib.TextEquality.{eq_iff}
use text.Mathlib.TextPositions.{eq_refl}
use native.Mathlib.Nat.{mod-eq_of_lt}
use simulating_the_functioni.Base.{
  ℕ, zero, suc, ◌+◌, ◌*◌, ◌^◌, ◌≤◌, ◌<◌, ◌≡◌, refl, sym, ap, subst, ◌∙◌, ◌⊎◌, inl, inr, true, false,
  Option, none, some, List, [], ◌∷◌, ◌++◌, Bool-cases, Option-cases, if◌then◌else◌, length, arith,
  ◌==◌, ltb, min, max,
}
use simulating_the_functioni.Base.Shift.{remove_at}
use simulating_the_functioni.Sched.Sjf.{
  Process, Command, State, Row, add_to_queue_sjf, lookup, new_average, update_commands,
  update_queue, update_burst_times, default_burst, handle_line, handle_input, sjf_round, run_popped,
  is_empty_sjf, execute_process_sjf,
}
use simulating_the_functioni.Sched.Sjf.{report, finish_round, timed, max_queue_size}
use simulating_the_functioni.Sched.Sjf.Outcomes.{IfGoing, and_then-IfGoing}
use simulating_the_functioni.Sched.Sjf.Pop.{pop_shortest}

-- Every waiting process has the average burst of its command.
abbrev pub AllKnown : List Command → List Process → Type 0
AllKnown table [] = Unit {0}
AllKnown table (p ∷ q) = (lookup p.command table ≡ some p.burst_time) × AllKnown table q

pub lookup-update :
    (c d : String) (burst : ℕ) (table : List Command)
    → str_eq c d ≡ false
    → lookup d (update_commands c burst table) ≡ lookup d table
unfolding lookup update_commands
lookup-update c d burst [] ne = refl
lookup-update c d burst (e ∷ es) ne =
    ground (arith, eq_iff e.name c, eq_iff e.name d, eq_iff c d, lookup-update c d burst es ne)

AllKnown-update :
    (c : String) (burst b : ℕ) (table : List Command) (q : List Process)
    → lookup c (update_commands c burst table) ≡ some b
    → AllKnown table q
    → AllKnown (update_commands c burst table) (update_queue c b q)
unfolding update_queue
AllKnown-update c burst b table [] e all = tt
AllKnown-update c burst b table (p ∷ q) e all =
    (head (Bool-cases (str_eq p.command c)), AllKnown-update c burst b table q e all.1)
  where
    new : List Command
    new = update_commands c burst table

    after : Process
    after = if str_eq p.command c then record p { burst_time = b } else p

    head :
        (str_eq p.command c ≡ true) ⊎ (str_eq p.command c ≡ false)
        → lookup after.command new ≡ some after.burst_time
    head (inl same) = rw same (ap (λ d. lookup d new) ((eq_iff p.command c).0 same) ∙ e)
    head (inr other) = rw other (
        lookup-update c p.command burst table
          (ground (arith, eq_iff p.command c, eq_iff c p.command))
        ∙ all.0)

-- An update of a command that the table does not hold changes nothing.
update-none :
    (c : String) (burst : ℕ) (table : List Command)
    → lookup c (update_commands c burst table) ≡ none
    → update_commands c burst table ≡ table
unfolding lookup update_commands
update-none c burst [] e = refl
update-none c burst (x ∷ es) e = ground (arith, update-none c burst es, eq_iff x.name c)

AllKnown-remove_at :
    (table : List Command) (q : List Process) (i : ℕ)
    → AllKnown table q
    → AllKnown table (remove_at q i)
AllKnown-remove_at table [] i all = tt
AllKnown-remove_at table (p ∷ q) zero all = all.1
AllKnown-remove_at table (p ∷ q) (suc i) all = (all.0, AllKnown-remove_at table q i all.1)

AllKnown-snoc :
    (table : List Command) (q : List Process) (p : Process)
    → AllKnown table q
    → lookup p.command table ≡ some p.burst_time
    → AllKnown table (q ++ p ∷ [])
AllKnown-snoc table [] p all e = (e, tt)
AllKnown-snoc table (x ∷ q) p all e = (all.0, AllKnown-snoc table q p all.1 e)

lookup-append :
    (d : String) (table : List Command) (new : Command) (b : ℕ)
    → lookup d table ≡ some b
    → lookup d (table ++ new ∷ []) ≡ some b
unfolding lookup
lookup-append d [] new b e = cc
lookup-append d (x ∷ es) new b e = ground (arith, lookup-append d es new b)

lookup-new :
    (c : String) (table : List Command) (b n : ℕ)
    → lookup c table ≡ none
    → lookup c (table ++ (record { name = c; burst = b; count = n }) ∷ []) ≡ some b
unfolding lookup
lookup-new c [] b n e = rw eq_refl refl
lookup-new c (x ∷ es) b n e = ground (arith, lookup-new c es b n)

AllKnown-append :
    (table : List Command) (new : Command) (q : List Process)
    → AllKnown table q
    → AllKnown (table ++ new ∷ []) q
AllKnown-append table new [] all = tt
AllKnown-append table new (p ∷ q) all =
    (lookup-append p.command table new p.burst_time all.0, AllKnown-append table new q all.1)

AllKnown-add :
    (now : ℕ) (table : List Command) (q : List Process) (p : Process)
    → AllKnown table q
    → lookup p.command table ≡ some p.burst_time
    → AllKnown table (add_to_queue_sjf now p q)
unfolding add_to_queue_sjf
AllKnown-add now table q p all e =
    ground (arith, AllKnown-snoc table q (record p { start_time = now }))

abbrev pub IsKnown : State → Type 0
IsKnown s = AllKnown s.commands s.queue

pub handle_line-IsKnown :
    (c : String) (now later : ℕ) (s : State)
    → IsKnown s
    → IfGoing IsKnown (handle_line c now later s)
unfolding handle_line
handle_line-IsKnown c now later s k = elim (Option-cases (lookup c s.commands)) [
  | inl e ↦ elim (Bool-cases (ltb (length s.commands) max_queue_size)) [
    | inl room ↦
        rw (e, room, handle_line)
          (AllKnown-add later _ s.queue _ (AllKnown-append s.commands _ s.queue k)
            (lookup-new c s.commands default_burst 1 e))
    | inr full ↦ rw (e, full, handle_line) tt
  ]
  | inr (b, e) ↦ rw (e, handle_line) (AllKnown-add later s.commands s.queue _ k e)
]

pub update_burst_times-IsKnown :
    (p : Process) (s : State) → IsKnown s → IsKnown (update_burst_times p s)
unfolding update_burst_times
update_burst_times-IsKnown p s k = go (lookup p.command table) refl
  where
    table : List Command
    table = update_commands p.command p.burst_time s.commands

    go : (o : Option ℕ) → lookup p.command table ≡ o → IsKnown (update_burst_times p s)
    go none e =
        rw (e, update_burst_times)
          (subst (λ t. AllKnown t s.queue) (sym (update-none p.command p.burst_time s.commands e))
            k)
    go (some b) e =
        rw (e, update_burst_times) (AllKnown-update p.command p.burst_time b s.commands s.queue e k)

-- Reading the input keeps every waiting process at the average burst of its command.
pub handle_input-IsKnown :
    (lines : List (String × ℕ × ℕ)) (s : State) → IsKnown s → IfGoing IsKnown (handle_input lines s)
unfolding handle_input
handle_input-IsKnown [] s k = k
handle_input-IsKnown ((c, now, later) ∷ lines) s k = elim (Bool-cases (str_eq c "exit")) [
  | inl leaves ↦ rw leaves tt
  | inr stays ↦ rw stays (
      and_then-IfGoing IsKnown IsKnown (handle_line c now later s) (handle_input lines)
        (handle_line-IsKnown c now later s k) (handle_input-IsKnown lines))
]

finish_round-IsKnown :
    (after : ℕ) (s : State) (q : List Process) (o : Option (Process × List Row))
    → AllKnown s.commands q
    → IfGoing IsKnown (finish_round after s q o)
unfolding finish_round
finish_round-IsKnown after s q none all = tt
finish_round-IsKnown after s q (some (done, rows)) all =
    update_burst_times-IsKnown (timed done after) (record s { queue = q; rows = rows }) all

run_popped-IsKnown :
    (started ended after : ℕ) (exit : Option ℕ) (s : State) (o : Option Process) (q : List Process)
    → IsKnown s
    → AllKnown s.commands q
    → IfGoing IsKnown (run_popped started ended after exit s (o, q))
unfolding run_popped
run_popped-IsKnown started ended after exit s none q k all = k
run_popped-IsKnown started ended after exit s (some p) q k all =
    finish_round-IsKnown after s q
      (execute_process_sjf ended exit (record p { start_time = started }) s.rows) all

-- A round of the scheduler keeps every waiting process at the average burst of its command, whatever
-- the clock and the child give.
pub sjf_round-IsKnown :
    (started ended after : ℕ) (exit : Option ℕ) (s : State)
    → IsKnown s
    → IfGoing IsKnown (sjf_round started ended after exit s)
unfolding sjf_round is_empty_sjf
sjf_round-IsKnown started ended after exit s k = elim (Bool-cases (length s.queue == 0)) [
  | inl e ↦ rw e k
  | inr e ↦
      let (i, _, pops) = pop_shortest s.queue (ground arith) in
      rw (e, pops)
        (run_popped-IsKnown started ended after exit s _ _ k
          (AllKnown-remove_at s.commands s.queue i k))
]

-- While the sum fits 64 bits, the new average of a command lies between its old average and the
-- burst that was measured.
pub average_bounds :
    (e : Command) (burst : ℕ)
    → e.burst * e.count + burst < 2 ^ 64
    → (min e.burst burst ≤ new_average e burst) × (new_average e burst ≤ max e.burst burst)
average_bounds e burst fits = rw (mod-eq_of_lt fits) (grind arith)

-- With a clock that does not run backwards, the turnaround time of a process that was executed is its
-- waiting time and its burst time together, each measured from arrival to start to end, and the row
-- that is written holds these three.
pub times_add_up :
    (ended : ℕ) (exit : Option ℕ) (p : Process) (rows : List Row)
    → p.arrival_time ≤ p.start_time
    → p.start_time ≤ ended
    → ended < 2 ^ 64
    → (let (done, written) = report ended exit p rows in
        (done.turnaround_time ≡ done.waiting_time + done.burst_time)
        × (p.arrival_time + done.waiting_time ≡ p.start_time)
        × (p.start_time + done.burst_time ≡ ended)
        × ((row : Row) × (written ≡ rows ++ row ∷ [])
            × (row.turnaround_time ≡ done.turnaround_time)
            × (row.waiting_time ≡ done.waiting_time)
            × (row.burst_time ≡ done.burst_time)))
unfolding report
times_add_up ended exit p rows a b c =
    (omega arith, omega arith, omega arith, (_, refl, refl, refl, refl))
