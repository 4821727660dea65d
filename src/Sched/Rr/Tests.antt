-- ===== src/Sched/Rr/Tests.antt =====
-- Two processes under `RoundRobin` of Assignment-02-schedulers/offline_schedulers.h.
use simulating_the_functioni.Base.{ℕ, zero, suc, refl, true, ◌+◌, List, [], ◌∷◌, inl, inr, arith}
use simulating_the_functioni.Sched.Mlfq.{Process, new_process}
use simulating_the_functioni.Sched.Rr.{Reaped, still, exited, Turn, round_robin}
use simulating_the_functioni.Sched.Rr.Kept.{due}
use simulating_the_functioni.Sched.Rr.Ends.{AllDue, Ended, round_robin_ends}

abbrev fresh : Process
unfolding new_process
fresh = new_process 0 0

-- A turn of 10 ms from a time on.
abbrev turn : ℕ → Reaped → Turn
turn from reaped = record {
  launched = true;
  launched_at = from;
  context_start = from;
  context_end = from + 10;
  stopped = true;
  reaped = reaped;
  now = from + 10;
}

-- The second process exits in its first turn, the first one in its second.
abbrev turns : List Turn
turns = turn 100 still ∷ turn 110 (exited 0) ∷ turn 120 (exited 0) ∷ []

turns-AllDue : AllDue 2 turns
unfolding due
turns-AllDue zero lt = refl
turns-AllDue (suc zero) lt = refl
turns-AllDue (suc (suc j)) lt = absurd (omega (arith, lt))

round_robin_ends_example : Ended 2 (round_robin 100 turns (fresh ∷ fresh ∷ []))
round_robin_ends_example =
    round_robin_ends 100 turns (fresh ∷ fresh ∷ [])
      ((refl, refl, inl refl), ((refl, refl, inr refl), ((refl, refl, inr refl), tt))) turns-AllDue
