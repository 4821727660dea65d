-- ===== src/Sched/Sjf/Service.antt =====
-- A round of the shortest-job-first scheduler: a process leaves the queue, and its row is written.
use Prim.Native.String.{String}
use simulating_the_functioni.Base.{
  ℕ, zero, suc, ◌+◌, ◌<◌, ◌≡◌, refl, ap, Bool, false, Option, none, some, List, [], ◌∷◌, ◌++◌, ◌==◌,
  ◌-◌, if◌then◌else◌, length, length-append, get_elem?, arith, dec_lt,
}
use simulating_the_functioni.Base.Shift.{remove_at}
use simulating_the_functioni.Base.Counts.{tally, tally-append}
use simulating_the_functioni.Sched.Sjf.{
  Process, Command, State, lookup, update_commands, update_queue, update_burst_times, is_empty_sjf,
  sjf_round, run_popped, execute_process_sjf, Row, timed, failed,
}
use simulating_the_functioni.Base.{true, false}
use simulating_the_functioni.Sched.Sjf.{report, finish_round, args_fit, going}
use simulating_the_functioni.Sched.Sjf.Outcomes.{Goes, IfGoing-going}
use simulating_the_functioni.Sched.Sjf.Waiting.{
  AllWaiting, AllWaiting-remove_at, AllWaiting-update_queue, waiting_at,
}
use simulating_the_functioni.Sched.Sjf.Args.{IsShort, IsShort-args_fit}
use simulating_the_functioni.Sched.Sjf.Pop.{pop_shortest}
use simulating_the_functioni.Sched.Sjf.Rows.{row_of}
use simulating_the_functioni.Sched.Sjf.Bursts.{IsKnown, sjf_round-IsKnown}
use simulating_the_functioni.Sched.Sjf.Jobs.{is_of, Inv}

-- What is taken out at a place.
record Taken (q : List Process) (i : ℕ) : Type 0 where
  process : Process
  at : get_elem? q i ≡ some process
  out :
      (is : Process → Bool) → tally is q ≡ tally is (remove_at q i) + (if is process then 1 else 0)
  shorter : length q ≡ length (remove_at q i) + 1

taken : (q : List Process) (i : ℕ) → i < length q → Taken q i
taken [] i h = absurd (omega arith)
taken (p ∷ q) zero h = record {
  process = p;
  at = refl;
  out = λ is. omega arith;
  shorter = omega arith;
}
taken (p ∷ q) (suc i) h =
    let t = taken q i (omega arith) in
    record {
      process = t.process;
      at = t.at;
      out = λ is. omega (arith, t.out is);
      shorter = omega (arith, t.shorter);
    }

-- New averages leave the commands of the queue as they are.
tally-update_queue :
    (d c : String) (burst : ℕ) (q : List Process)
    → tally (is_of d) (update_queue c burst q) ≡ tally (is_of d) q
unfolding update_queue
tally-update_queue d c burst [] = refl
tally-update_queue d c burst (p ∷ q) = ground (arith, tally-update_queue d c burst q)

length-update_queue :
    (c : String) (burst : ℕ) (q : List Process) → length (update_queue c burst q) ≡ length q
unfolding update_queue
length-update_queue c burst [] = refl
length-update_queue c burst (p ∷ q) = ground (arith, length-update_queue c burst q)

length-update_commands :
    (c : String) (burst : ℕ) (table : List Command)
    → length (update_commands c burst table) ≡ length table
unfolding update_commands
length-update_commands c burst [] = refl
length-update_commands c burst (e ∷ es) = ground (arith, length-update_commands c burst es)

abbrev Short : Process → Type 0
Short p = IsShort p.command

-- What `update_burst_times` does not change.
record Same (s t : State) : Type 0 where
  queued : (c : String) → tally (is_of c) t.queue ≡ tally (is_of c) s.queue
  as_long : length t.queue ≡ length s.queue
  same_rows : t.rows ≡ s.rows
  tables : length t.commands ≡ length s.commands
  short : AllWaiting Short s.queue → AllWaiting Short t.queue

update_burst_times-Same : (p : Process) (s : State) → Same s (update_burst_times p s)
unfolding update_burst_times
update_burst_times-Same p s = go (lookup p.command table)
  where
    table : List Command
    table = update_commands p.command p.burst_time s.commands

    same_length : length table ≡ length s.commands
    same_length = length-update_commands p.command p.burst_time s.commands

    go :
        (o : Option ℕ)
        → Same s (elim o as (λ _. State) [
          | none ↦ record s { commands = table }
          | some burst ↦ record s { commands = table; queue = update_queue p.command burst s.queue }
        ])
    go none = record {
      queued = λ c. refl;
      as_long = refl;
      same_rows = refl;
      tables = same_length;
      short = λ all. all;
    }
    go (some burst) = record {
      queued = λ c. tally-update_queue c p.command burst s.queue;
      as_long = length-update_queue p.command burst s.queue;
      same_rows = refl;
      tables = same_length;
      short = AllWaiting-update_queue Short (λ q b few. few) p.command burst s.queue;
    }

-- A round takes one process out of a queue that is not empty, and writes its row.
record Served (s t : State) : Type 0 where
  each :
      (c : String)
      → tally (is_of c) t.queue + tally (row_of c) t.rows
        ≡ tally (is_of c) s.queue + tally (row_of c) s.rows
  shorter : length s.queue ≡ length t.queue + 1
  longer : length t.rows ≡ length s.rows + 1
  tables : length t.commands ≡ length s.commands
  short : AllWaiting Short s.queue → AllWaiting Short t.queue

module _ (started ended after : ℕ) (exit : Option ℕ) (s : State) where
  module _ (i : ℕ) (t : Taken s.queue i) where
    begun : Process
    begun = record t.process { start_time = started }

    row : Row
    row = record {
      command = t.process.command;
      failed = failed exit;
      burst_time = (timed begun ended).burst_time;
      turnaround_time = (timed begun ended).turnaround_time;
      waiting_time = (timed begun ended).waiting_time;
      response_time = (timed begun ended).response_time;
    }

    ran : State
    ran = record s { queue = remove_at s.queue i; rows = s.rows ++ row ∷ [] }

    over : State
    over = update_burst_times (timed (timed begun ended) after) ran

    -- A command whose words have room in `args` runs.
    run_popped-going :
        args_fit t.process.command ≡ true
        → run_popped started ended after exit s (some t.process, remove_at s.queue i) ≡ going over
    unfolding run_popped finish_round execute_process_sjf report begun row ran over
    run_popped-going fits = rw fits refl

    over-Served : Served s over
    unfolding begun row ran over
    over-Served =
        let u = update_burst_times-Same (timed (timed begun ended) after) ran in
        record {
          each = λ c. omega (
            arith,
            u.queued c,
            ap (tally (row_of c)) u.same_rows,
            tally-append (row_of c) s.rows (row ∷ []),
            t.out (is_of c),
          );
          shorter = omega (arith, u.as_long, t.shorter);
          longer = omega (arith, ap length u.same_rows, length-append {0} s.rows (row ∷ []));
          tables = u.tables;
          short = λ all. u.short (AllWaiting-remove_at Short s.queue i all);
        }

  sjf_round-Served :
      0 < length s.queue
      → AllWaiting Short s.queue
      → Goes (Served s) (sjf_round started ended after exit s)
  unfolding sjf_round is_empty_sjf
  sjf_round-Served some_left all =
      let (i, first, pops) = pop_shortest s.queue some_left in
      let t = taken s.queue i first.inside in
      let not_empty : (length s.queue == 0) ≡ false = ground arith in
      let fits =
        IsShort-args_fit t.process.command (waiting_at Short s.queue i t.process all t.at) in
      rw (not_empty, pops, t.at) (over i t, run_popped-going i t fits, over-Served i t)

  sjf_round-idle : length s.queue ≡ 0 → sjf_round started ended after exit s ≡ going s
  unfolding sjf_round is_empty_sjf
  sjf_round-idle none_left = ground arith

  -- A round keeps each command, and takes one out of the queue if there is one.
  pub sjf_round-Goes :
      (seen : List String)
      → Inv seen s
      → Goes
          (λ t. Inv seen t × (length t.queue ≡ length s.queue - 1))
          (sjf_round started ended after exit s)
  sjf_round-Goes seen inv = elim (dec_lt 0 (length s.queue)) [
    | yes h ↦
        let (t, e, v) = sjf_round-Served h inv.short in
        (
          t,
          e,
          (
            record {
              each = λ c. omega (arith, v.each c, inv.each c);
              total = omega (arith, v.shorter, v.longer, inv.total);
              known =
                  IfGoing-going IsKnown _ t (sjf_round-IsKnown started ended after exit s inv.known)
                    e;
              tables = omega (arith, v.tables, inv.tables);
              short = v.short inv.short;
            },
            omega (arith, v.shorter),
          ),
        )
    | no z ↦ (s, sjf_round-idle (omega arith), (inv, omega arith))
  ]
