-- ===== src/Sched/Sjf/Jobs.antt =====
-- The shortest-job-first scheduler: where a command is that was read, in the queue or in the file.
use Prim.Native.String.{String}
use text.Mathlib.Text.{◌==◌ as str_eq}
use simulating_the_functioni.Base.{
  ℕ, ◌+◌, ◌≤◌, ◌<◌, ◌≡◌, refl, sym, ap, subst, Bool, List, [], ◌∷◌, ◌++◌, Option-cases, inl, inr,
  ltb, length, length-append, arith,
}
use simulating_the_functioni.Base.Counts.{tally, tally-append}
use simulating_the_functioni.Sched.Sjf.{
  Process, Command, State, add_to_queue_sjf, lookup, max_queue_size, default_burst, new_process,
  handle_line,
}
use simulating_the_functioni.Base.{true}
use simulating_the_functioni.Sched.Sjf.Outcomes.{Goes, IfGoing-going}
use simulating_the_functioni.Sched.Sjf.Waiting.{AllWaiting, AllWaiting-snoc}
use simulating_the_functioni.Sched.Sjf.Args.{IsShort}
use simulating_the_functioni.Sched.Sjf.Rows.{row_of, one, count}
use simulating_the_functioni.Sched.Sjf.Bursts.{IsKnown, handle_line-IsKnown}

-- Whether a process is of a command.
abbrev pub is_of : String → Process → Bool
is_of c p = str_eq p.command c

-- The state behind the commands `seen`.
pub record Inv (seen : List String) (s : State) : Type 0 where
  pub each : (c : String) → tally (is_of c) s.queue + tally (row_of c) s.rows ≡ count c seen
  pub total : length s.queue + length s.rows ≡ length seen
  pub known : IsKnown s
  pub tables : length s.commands ≤ length seen
  pub short : AllWaiting (λ p. IsShort p.command) s.queue

-- What a line adds to the queue.
record Adds (c : String) (later : ℕ) (s t : State) : Type 0 where
  process : Process
  named : process.command ≡ c
  queued : t.queue ≡ s.queue ++ process ∷ []
  same_rows : t.rows ≡ s.rows
  tables : length t.commands ≤ length s.commands + 1

module _ (c : String) (now later : ℕ) (s : State) (room : length s.queue < max_queue_size)
    (places : length s.commands < max_queue_size) where
  queued_lem :
      (burst : ℕ) (table : List Command)
      → length table ≤ length s.commands + 1
      → Adds c later s (record s {
        queue = add_to_queue_sjf later (new_process c now burst) s.queue;
        commands = table;
      })
  unfolding add_to_queue_sjf
  queued_lem burst table le = record {
    process = record (new_process c now burst) { start_time = later };
    named = refl;
    queued = ground arith;
    same_rows = refl;
    tables = le;
  }

  handle_line-Adds : Goes (Adds c later s) (handle_line c now later s)
  unfolding handle_line
  handle_line-Adds =
      let in_tables : ltb (length s.commands) max_queue_size ≡ true = ground arith in
      elim (Option-cases (lookup c s.commands)) [
        | inl e ↦
            rw (e, in_tables, handle_line)
              (
                _,
                refl,
                queued_lem default_burst _ (
                    omega (
                      arith,
                      length-append {0} s.commands
                          ((record { name = c; burst = default_burst; count = 1 }) ∷ []),
                    )),
              )
        | inr (b, e) ↦ rw (e, handle_line) (_, refl, queued_lem b s.commands (omega arith))
      ]

-- A line that is read adds its command.
pub handle_line-Inv :
    (c : String) (now later : ℕ) (s : State) (seen : List String)
    → length seen < max_queue_size
    → IsShort c
    → Inv seen s
    → Goes (Inv (seen ++ c ∷ [])) (handle_line c now later s)
handle_line-Inv c now later s seen room few inv =
    let (t, e, a) =
      handle_line-Adds c now later s (omega (arith, inv.total)) (omega (arith, inv)) in
    (t, e, added t a (IfGoing-going IsKnown _ t (handle_line-IsKnown c now later s inv.known) e))
  where
    added : (t : State) → Adds c later s t → IsKnown t → Inv (seen ++ c ∷ []) t
    added t a known = record {
      each = λ d. omega (
        arith,
        inv.each d,
        ap (tally (is_of d)) a.queued,
        ap (tally (row_of d)) a.same_rows,
        tally-append (is_of d) s.queue (a.process ∷ []),
        tally-append (λ e. str_eq e d) seen (c ∷ []),
        ap (one d) a.named,
      );
      total = omega (
        arith,
        inv.total,
        ap length a.queued,
        ap length a.same_rows,
        length-append {0} s.queue (a.process ∷ []),
        length-append {0} seen (c ∷ []),
      );
      known = known;
      tables = omega (arith, inv.tables, a.tables, length-append {0} seen (c ∷ []));
      short = subst (AllWaiting (λ p. IsShort p.command)) (sym a.queued) (
          AllWaiting-snoc (λ p. IsShort p.command) s.queue a.process inv.short
            (subst IsShort (sym a.named) few));
    }
