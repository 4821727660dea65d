-- ===== src/Sched/OnlineMlfq/Conserved.antt =====
-- What the multi-level feedback queue of online_schedulers.h keeps: each command that was read is in the
-- queues or in the file.
use Prim.Native.String.{String}
use text.Mathlib.Text.{◌==◌ as str_eq}
use simulating_the_functioni.Base.{◌+◌, ◌≡◌, Bool, List, length}
use simulating_the_functioni.Sched.Queues.Levels.{size}
use simulating_the_functioni.Base.Counts.{tally}
use simulating_the_functioni.Sched.Queues.Tally.{tallies, IsLevelled}
use simulating_the_functioni.Sched.Sjf.Rows.{row_of, count}
use simulating_the_functioni.Sched.OnlineMlfq.{Process, prioritized, State}

-- Whether a process is of a command.
abbrev pub is_of : String → Process → Bool
is_of c p = str_eq p.command c

-- The state behind the commands `seen`.
pub record Inv (seen : List String) (s : State) : Type 0 where
  pub each : (c : String) → tallies (is_of c) s.queues + tally (row_of c) s.rows ≡ count c seen
  pub total : size s.queues + length s.rows ≡ length seen
  pub levels : IsLevelled prioritized s.queues
