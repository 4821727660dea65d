-- ===== src/Sched/Sjf/Times.antt =====
-- The times in the file that `ShortestJobFirst` writes.
use Prim.Native.String.{String}
use text.Mathlib.Text.{◌==◌ as str_eq}
use mathlib.Core.Option.{some-injective}
use simulating_the_functioni.Base.{
  ℕ, zero, suc, ◌+◌, ◌<◌, ◌^◌, ◌≡◌, refl, subst, Option, none, some, List, [], ◌∷◌, ◌++◌,
  Bool-cases, Option-cases, inl, inr, ◌==◌, length, get_elem?, arith,
}
use simulating_the_functioni.Base.Words.{u64, telescope}
use simulating_the_functioni.Sched.Sjf.{
  Process, Command, Row, State, add_to_queue_sjf, lookup, update_commands, update_queue,
  update_burst_times, handle_line, handle_input, execute_process_sjf, run_popped, is_empty_sjf,
  sjf_round, Round, shortest_job_first, begin,
}
use simulating_the_functioni.Base.{ltb}
use simulating_the_functioni.Sched.Sjf.{
  going, and_then, report, finish_round, args_fit, max_queue_size, new_process,
}
use simulating_the_functioni.Sched.Sjf.Outcomes.{IfGoing, and_then-IfGoing, IfGoing-going}
use simulating_the_functioni.Sched.Sjf.Waiting.{
  AllWaiting, AllWaiting-add, AllWaiting-remove_at, AllWaiting-update_queue, waiting_at,
}
use simulating_the_functioni.Sched.Sjf.Pop.{pop_shortest}

-- The process came at a 64-bit time.
abbrev Arrived : Process → Type 0
Arrived p = p.arrival_time < 2 ^ 64

-- Waiting and running make up the turnaround time.
abbrev pub AddsUp : Row → Type 0
AddsUp r =
    (r.turnaround_time ≡ u64 (r.waiting_time + r.burst_time)) × (r.response_time ≡ r.waiting_time)

abbrev pub AllAddUp : List Row → Type 0
AllAddUp [] = Unit {0}
AllAddUp (r ∷ rows) = AddsUp r × AllAddUp rows

-- The clock readings are 64-bit numbers.
abbrev pub AllLinesFit : List (String × ℕ × ℕ) → Type 0
AllLinesFit [] = Unit {0}
AllLinesFit ((c, now, later) ∷ lines) = (now < 2 ^ 64) × AllLinesFit lines

abbrev pub AllFit : List Round → Type 0
AllFit [] = Unit {0}
AllFit (r ∷ rounds) =
    AllLinesFit r.lines × (r.started < 2 ^ 64) × (r.ended < 2 ^ 64) × AllFit rounds

AllAddUp-snoc : (rows : List Row) (r : Row) → AllAddUp rows → AddsUp r → AllAddUp (rows ++ r ∷ [])
AllAddUp-snoc [] r all a = (a, tt)
AllAddUp-snoc (x ∷ rows) r all a = (all.0, AllAddUp-snoc rows r all.1 a)

record Inv (s : State) : Type 0 where
  arrived : AllWaiting Arrived s.queue
  add_up : AllAddUp s.rows

update_burst_times-Inv : (p : Process) (s : State) → Inv s → Inv (update_burst_times p s)
unfolding update_burst_times
update_burst_times-Inv p s v = go (lookup p.command table)
  where
    table : List Command
    table = update_commands p.command p.burst_time s.commands

    go :
        (o : Option ℕ)
        → Inv (elim o as (λ _. State) [
          | none ↦ record s { commands = table }
          | some burst ↦ record s { commands = table; queue = update_queue p.command burst s.queue }
        ])
    go none = record { arrived = v.arrived; add_up = v.add_up }
    go (some burst) = record {
      arrived =
          AllWaiting-update_queue Arrived (λ q b early. early) p.command burst s.queue v.arrived;
      add_up = v.add_up;
    }

handle_line-Inv :
    (c : String) (now later : ℕ) (s : State)
    → now < 2 ^ 64
    → Inv s
    → IfGoing Inv (handle_line c now later s)
unfolding handle_line
handle_line-Inv c now later s h v = elim (Option-cases (lookup c s.commands)) [
  | inl e ↦ elim (Bool-cases (ltb (length s.commands) max_queue_size)) [
    | inl room ↦ rw (e, room, handle_line) (record { arrived = add _ h; add_up = v.add_up })
    | inr full ↦ rw (e, full, handle_line) tt
  ]
  | inr (b, e) ↦ rw (e, handle_line) (record { arrived = add _ h; add_up = v.add_up })
]
  where
    add :
        (burst : ℕ)
        → now < 2 ^ 64
        → AllWaiting Arrived (add_to_queue_sjf later (new_process c now burst) s.queue)
    add burst early = AllWaiting-add Arrived later _ s.queue early v.arrived

handle_input-Inv :
    (lines : List (String × ℕ × ℕ)) (s : State)
    → AllLinesFit lines
    → Inv s
    → IfGoing Inv (handle_input lines s)
unfolding handle_input
handle_input-Inv [] s fit v = v
handle_input-Inv ((c, now, later) ∷ lines) s fit v = elim (Bool-cases (str_eq c "exit")) [
  | inl leaves ↦ rw leaves tt
  | inr stays ↦ rw stays (
      and_then-IfGoing Inv Inv (handle_line c now later s) (handle_input lines)
        (handle_line-Inv c now later s fit.0 v) (λ t w. handle_input-Inv lines t fit.1 w))
]

module _ (started ended after : ℕ) (exit : Option ℕ) (a : started < 2 ^ 64)
    (b : ended < 2 ^ 64) where
  popped-Inv :
      (s : State) (p : Process) (q : List Process)
      → Arrived p
      → AllWaiting Arrived q
      → Inv s
      → IfGoing Inv (run_popped started ended after exit s (some p, q))
  unfolding run_popped finish_round execute_process_sjf report
  popped-Inv s p q h all v = elim (Bool-cases (args_fit p.command)) [
    | inl fits ↦ rw fits (
        update_burst_times-Inv _ (record s { queue = q; rows = s.rows ++ _ })
          (record {
            arrived = all;
            add_up =
                AllAddUp-snoc s.rows _ v.add_up
                  (telescope p.arrival_time started ended h a b, refl);
          }))
    | inr long ↦ rw long tt
  ]

  run_popped-Inv :
      (s : State) (o : Option Process) (q : List Process)
      → ((p : Process) → o ≡ some p → Arrived p)
      → AllWaiting Arrived q
      → Inv s
      → IfGoing Inv (run_popped started ended after exit s (o, q))
  unfolding run_popped
  run_popped-Inv s none q h all v = v
  run_popped-Inv s (some p) q h all v = popped-Inv s p q (h p refl) all v

  sjf_round-Inv : (s : State) → Inv s → IfGoing Inv (sjf_round started ended after exit s)
  unfolding sjf_round is_empty_sjf
  sjf_round-Inv s v = elim (Bool-cases (length s.queue == 0)) [
    | inl e ↦ rw e v
    | inr e ↦
        let (i, _, pops) = pop_shortest s.queue (ground arith) in
        rw (e, pops)
          (run_popped-Inv s _ _ (λ p at. waiting_at Arrived s.queue i p v.arrived at)
            (AllWaiting-remove_at Arrived s.queue i v.arrived) v)
  ]

loop-Inv :
    (rounds : List Round) (s : State)
    → AllFit rounds
    → Inv s
    → IfGoing Inv (shortest_job_first rounds s)
unfolding shortest_job_first
loop-Inv [] s fit v = v
loop-Inv (r ∷ rounds) s fit v =
    and_then-IfGoing Inv Inv (handle_input r.lines s)
      (λ t. and_then (sjf_round r.started r.ended r.after r.exit t) (shortest_job_first rounds))
      (handle_input-Inv r.lines s fit.0 v)
      (λ t w.
        and_then-IfGoing Inv Inv (sjf_round r.started r.ended r.after r.exit t)
          (shortest_job_first rounds)
          (sjf_round-Inv r.started r.ended r.after r.exit fit.1 fit.2 t w)
          (λ u x. loop-Inv rounds u fit.3 x))

-- With clock readings of 64 bits, as long as the program goes on, with no `exit` read, no more than 100
-- different commands and no more than nine words in each that was run, in every row of the file the
-- turnaround time is the waiting time and the burst time together, modulo 2 ^ 64, and the response
-- time is the waiting time, whatever order the commands ran in.
pub rows_add_up :
    (rounds : List Round) (t : State)
    → AllFit rounds
    → shortest_job_first rounds begin ≡ going t
    → (i : ℕ) (r : Row) → get_elem? t.rows i ≡ some r
    → (r.turnaround_time ≡ u64 (r.waiting_time + r.burst_time)) × (r.response_time ≡ r.waiting_time)
rows_add_up rounds t fit goes =
    let start : Inv begin = record { arrived = tt; add_up = tt } in
    let v = IfGoing-going Inv _ t (loop-Inv rounds begin fit start) goes in row_at t.rows v.add_up
  where
    row_at :
        (rows : List Row) → AllAddUp rows → (i : ℕ) (r : Row) → get_elem? rows i ≡ some r → AddsUp r
    row_at [] all i r e = absurd (cc e)
    row_at (x ∷ rows) all zero r e = subst AddsUp (some-injective x r e) all.0
    row_at (x ∷ rows) all (suc i) r e = row_at rows all.1 i r e
