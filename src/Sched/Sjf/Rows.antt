-- ===== src/Sched/Sjf/Rows.antt =====
-- How often a command was read, and how often it is in the file of online_schedulers.h.
use Prim.Native.String.{String}
use text.Mathlib.Text.{◌==◌ as str_eq}
use simulating_the_functioni.Base.{ℕ, Bool, List, if◌then◌else◌}
use simulating_the_functioni.Base.Counts.{tally}
use simulating_the_functioni.Sched.Sjf.{Row}

-- Whether a row of the file is of a command.
abbrev pub row_of : String → Row → Bool
row_of c r = str_eq r.command c

abbrev pub one : String → String → ℕ
one c d = if str_eq d c then 1 else 0

-- How often a command is in a list.
abbrev pub count : String → List String → ℕ
count c = tally (λ d. str_eq d c)
