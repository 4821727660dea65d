-- ===== src/Locks/ReaderPref/Log.antt =====
-- The lines that rwlock-reader-pref.c writes to output-reader-pref.txt.
use simulating_the_functioni.Base.{ℕ, ◌≤◌, ◌≡◌, List, [], ◌∷◌, ◌++◌, arith}
use simulating_the_functioni.Base.Counts.{total, le-total}
use simulating_the_functioni.Locks.Threads
use simulating_the_functioni.Locks.Threads.{System, Step, pick}
use simulating_the_functioni.Locks.ReaderPref.{Entry, reading, writing, Memory, Pc, Move, Reach}
use simulating_the_functioni.Locks.ReaderPref.Invariant.{Inv, Reach-Inv, counts_in, writes}

-- A reader's line counts the reader itself; a writer's line counts no reader.
abbrev pub IsTrue : Entry → Type 0
IsTrue (reading k) = 1 ≤ k
IsTrue (writing k) = k ≡ 0

abbrev pub AllTrue : List Entry → Type 0
AllTrue [] = Unit {0}
AllTrue (e ∷ es) = IsTrue e × AllTrue es

AllTrue-snoc : (es : List Entry) (e : Entry) → AllTrue es → IsTrue e → AllTrue (es ++ e ∷ [])
AllTrue-snoc [] e all h = (h, tt)
AllTrue-snoc (x ∷ es) e all h = (all.0, AllTrue-snoc es e all.1 h)

-- Only the two logging moves write to the log.
Move-AllTrue :
    {s : System Memory Pc} {m : Memory} {p q : Pc}
    → Inv s
    → Move s.mem p m q
    → counts_in p ≤ total counts_in s.threads
    → writes p ≤ total writes s.threads
    → AllTrue s.mem.log
    → AllTrue m.log
Move-AllTrue v Move.log_read c w all = AllTrue-snoc _ _ all (omega (arith, v))
Move-AllTrue v Move.log_write c w all = AllTrue-snoc _ _ all (omega (arith, v))
Move-AllTrue v _ c w all = all

-- In every reachable state, each line `Reading` of the log gives a number of readers that is at
-- least 1, and each line `Writing` gives 0.
pub log_is_true : (n m : ℕ) {s : System Memory Pc} → Reach n m s → AllTrue s.mem.log
log_is_true n m Threads.start = tt
log_is_true n m (Threads.later {t} r (pick i p at mv)) =
    Move-AllTrue (Reach-Inv n m r) mv (le-total counts_in t.threads i p at)
      (le-total writes t.threads i p at) (log_is_true n m r)
