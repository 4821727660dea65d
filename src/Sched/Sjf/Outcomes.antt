-- ===== src/Sched/Sjf/Outcomes.antt =====
-- Predicates on the outcome of a part of the shortest-job-first scheduler.
use simulating_the_functioni.Base.{◌≡◌, ap, subst, ◌∙◌}
use simulating_the_functioni.Sched.Sjf.{State, Outcome, going, left, overruns, and_then}

-- If the program goes on, then in such a state.
abbrev pub IfGoing : (State → Type 0) → Outcome → Type 0
IfGoing P (going s) = P s
IfGoing P left = Unit {0}
IfGoing P overruns = Unit {0}

-- The program goes on, in such a state.
abbrev pub Goes : (State → Type 0) → Outcome → Type 0
Goes P o = (t : State) × (o ≡ going t) × P t

module _ (P Q : State → Type 0) where
  pub and_then-IfGoing :
      (o : Outcome) (f : State → Outcome)
      → IfGoing P o
      → ((t : State) → P t → IfGoing Q (f t))
      → IfGoing Q (and_then o f)
  and_then-IfGoing (going s) f h next = next s h
  and_then-IfGoing left f h next = tt
  and_then-IfGoing overruns f h next = tt

  pub and_then-Goes :
      (o : Outcome) (f : State → Outcome)
      → Goes P o
      → ((t : State) → P t → Goes Q (f t))
      → Goes Q (and_then o f)
  and_then-Goes o f (t, e, h) next =
      let (u, goes, after) = next t h in (u, ap (λ x. and_then x f) e ∙ goes, after)

pub IfGoing-going : (P : State → Type 0) (o : Outcome) (t : State) → IfGoing P o → o ≡ going t → P t
IfGoing-going P o t h e = subst (IfGoing P) e h
