-- ===== src/Sched/Rr/Ends.antt =====
-- `RoundRobin` ends: when every process gets a turn in which it exits with code 0, all are finished.
use simulating_the_functioni.Base.{
  ℕ, suc, ◌%◌, ◌<◌, ◌≡◌, refl, sym, ap, subst, ◌∙◌, true, false, Bool-cases, inl, inr, List, [],
  ◌∷◌, map, length, leb, if_true, if_false, arith,
}
use simulating_the_functioni.Base.Counts.{total, total_pos}
use simulating_the_functioni.Sched.Mlfq.{Process}
use simulating_the_functioni.Sched.Fcfs.{Row, write_csv}
use simulating_the_functioni.Sched.Rr.{
  Turn, State, prepare, rr_round, Outcome, follow, written, rr_loop, round_robin,
}
use simulating_the_functioni.Sched.Rr.Kept.{
  AllSmooth, Inv, due, to_go, errors, get_some, get_lt, round_lem,
}

-- What is said of each process at the end, in the array and in the file.
abbrev pub AllFinished : List Process → List Row → Type 0
AllFinished [] [] = Unit {0}
AllFinished (p ∷ ps) (r ∷ rows) =
    (p.finished ≡ true) × (r.finished ≡ true) × (r.error ≡ false) × AllFinished ps rows
AllFinished [] (r ∷ rows) = ⊥
AllFinished (p ∷ ps) [] = ⊥

-- The loop has ended, with the file for `n` processes that are all finished.
abbrev pub Ended : ℕ → Outcome → Type 0
Ended n o =
    (ps : List Process) × (o ≡ written ps (write_csv ps))
    × (length ps ≡ n)
    × AllFinished ps (write_csv ps)

all_finished :
    (ps : List Process) → total to_go ps ≡ 0 → total errors ps ≡ 0 → AllFinished ps (write_csv ps)
unfolding total
all_finished [] u e = tt
all_finished (p ∷ ps) u e =
    (ground arith, ground arith, ground arith, all_finished ps (ground arith) (ground arith))

-- The loop stops when the count says so, and then all are finished.
stop_lem :
    (n : ℕ) (turns : List Turn) (s : State) (o : Outcome)
    → Inv n s turns
    → leb (length s.processes) s.completed ≡ true
    → o ≡ written s.processes (write_csv s.processes)
    → Ended n o
stop_lem n turns s o inv e is = (
  s.processes,
  is,
  inv.size,
  all_finished s.processes (ground (arith, e, inv.size, inv.counted)) inv.no_errors,
)

loop_lem :
    (start n : ℕ) (turns : List Turn) (s : State)
    → Inv n s turns
    → AllSmooth turns
    → Ended n (rr_loop start turns s)
unfolding rr_loop due
loop_lem start n [] s inv smooth = elim (Bool-cases (leb (length s.processes) s.completed)) [
  | inl e ↦ stop_lem n [] s _ inv e (if_true _ _ e)
  | inr e ↦
      let (j, p, g, pos) = total_pos to_go s.processes (ground (arith, e, inv.size, inv.counted)) in
      absurd (cc (inv.later j p g (ground (arith, pos))))
]
loop_lem start n (t ∷ turns) s inv (now, smooth) =
    elim (Bool-cases (leb (length s.processes) s.completed)) [
      | inl e ↦ stop_lem n (t ∷ turns) s _ inv e (if_true _ _ e)
      | inr e ↦
          let at = s.i % length s.processes in
          let (p, here) = get_some s.processes at (ground (arith, e)) in
          let (r, is, kept) =
            round_lem start n s t turns at p inv now (ap (λ m. s.i % m) (sym inv.size)) here in
          subst (Ended n)
            (sym (
              if_false _ _ e
              ∙ ap (λ o. follow (rr_loop start turns) (rr_round start at t s o)) here
              ∙ ap (follow (rr_loop start turns)) is))
            (loop_lem start n turns r kept smooth)
    ]

-- Whether each process gets a turn in which it exits.
abbrev pub AllDue : ℕ → List Turn → Type 0
AllDue n turns = (j : ℕ) → j < n → due n 0 j turns ≡ true

prepared :
    (ps : List Process)
    → (total to_go (map prepare ps) ≡ length ps) × (total errors (map prepare ps) ≡ 0)
unfolding total
prepared [] = (refl, refl)
prepared (p ∷ ps) = let (a, b) = prepared ps in (omega (arith, a), omega (arith, b))

length-prepared : (ps : List Process) → length (map prepare ps) ≡ length ps
length-prepared [] = refl
length-prepared (p ∷ ps) = ap suc (length-prepared ps)

-- Let no `fork`, `kill` or `waitpid` fail and no process end other than by an exit with code 0. If each
-- process has, among the rounds that are its turn, one in which it exits, then the loop of `RoundRobin`
-- ends in these rounds and writes a file in which every process is finished and none is an error.
pub round_robin_ends :
    (start : ℕ) (turns : List Turn) (ps : List Process)
    → AllSmooth turns
    → AllDue (length ps) turns
    → Ended (length ps) (round_robin start turns ps)
unfolding round_robin
round_robin_ends start turns ps smooth all_due =
    loop_lem start (length ps) turns _
      (record {
        size = length-prepared ps;
        counted = omega (arith, (prepared ps).0);
        no_errors = (prepared ps).1;
        later = λ j p g u.
            all_due j (subst (λ m. j < m) (length-prepared ps) (get_lt (map prepare ps) j p g));
      })
      smooth
