-- ===== src/Sched/Rr/Kept.antt =====
-- What each round of `RoundRobin` keeps: how many processes are left, and that each of them is due to
-- exit in a later round.
use simulating_the_functioni.Base.{
  ℕ, zero, suc, ◌+◌, ◌%◌, ◌<◌, ◌≡◌, ◌≢◌, ◌⊎◌, refl, sym, ap, subst, ◌∙◌, Bool, true, false, ◌&&◌,
  ◌||◌, Bool-cases, inl, inr, some, List, [], ◌∷◌, length, length-set, get_elem?,
  get_elem?-set_self, set, ◌==◌, ==_iff, if◌then◌else◌, if_true, if_false, arith, ℕ_discrete,
}
use simulating_the_functioni.Base.Counts.{total, total-set}
use simulating_the_functioni.Sched.Mlfq.{Process}
use simulating_the_functioni.Sched.Rr.{
  Reaped, still, exited, signalled, failed, Turn, State, execute_command_rr, account, collect,
  run_turn, rr_round,
}

-- The process whose turn it is exits with code 0.
abbrev pub is_exit : Reaped → Bool
is_exit still = false
is_exit (exited code) = code == 0
is_exit signalled = false
is_exit failed = false

-- Nothing fails in a round, and a process that ends does so with code 0.
abbrev pub IsSmooth : Turn → Type 0
IsSmooth t = (t.launched ≡ true) × (t.stopped ≡ true) × ((t.reaped ≡ still) ⊎ (t.reaped ≡ exited 0))

abbrev pub AllSmooth : List Turn → Type 0
AllSmooth [] = Unit {0}
AllSmooth (t ∷ turns) = IsSmooth t × AllSmooth turns

-- Whether process `j` of `n` has a turn in which it exits, in rounds of which the first is `i`.
unfoldable pub due : (n i j : ℕ) → List Turn → Bool
due n i j [] = false
due n i j (t ∷ turns) = ((i % n == j) && is_exit t.reaped) || due n (suc i) j turns

abbrev pub to_go : Process → ℕ
to_go p = if p.finished then 0 else 1

abbrev pub errors : Process → ℕ
errors p = if p.error then 1 else 0

pub record Inv (n : ℕ) (s : State) (turns : List Turn) : Type 0 where
  pub size : length s.processes ≡ n
  pub counted : s.completed + total to_go s.processes ≡ n
  pub no_errors : total errors s.processes ≡ 0
  pub later :
      (j : ℕ) (p : Process)
      → get_elem? s.processes j ≡ some p
      → p.finished ≡ false
      → due n s.i j turns ≡ true

pub get_some :
    (xs : List Process) (i : ℕ) → i < length xs → (p : Process) × (get_elem? xs i ≡ some p)
get_some [] i h = absurd (omega arith)
get_some (x ∷ xs) zero h = (x, refl)
get_some (x ∷ xs) (suc i) h = get_some xs i (omega arith)

get_elem?-set_ne :
    (xs : List Process) (i j : ℕ) (v : Process) → i ≢ j → get_elem? (set xs i v) j ≡ get_elem? xs j
get_elem?-set_ne [] i j v h = refl
get_elem?-set_ne (x ∷ xs) zero zero v h = absurd (h refl)
get_elem?-set_ne (x ∷ xs) zero (suc j) v h = refl
get_elem?-set_ne (x ∷ xs) (suc i) zero v h = refl
get_elem?-set_ne (x ∷ xs) (suc i) (suc j) v h = get_elem?-set_ne xs i j v (λ e. h (ap suc e))

pub get_lt : (xs : List Process) (i : ℕ) (p : Process) → get_elem? xs i ≡ some p → i < length xs
get_lt [] i p h = absurd (cc h)
get_lt (x ∷ xs) zero p h = omega arith
get_lt (x ∷ xs) (suc i) p h = omega (arith, get_lt xs i p h)

execute_lem :
    (start : ℕ) (t : Turn) (p : Process)
    → t.launched ≡ true
    → t.stopped ≡ true
    → (q : Process) × (execute_command_rr start t p ≡ some q)
      × (q.finished ≡ p.finished)
      × (q.error ≡ p.error)
unfolding execute_command_rr
execute_lem start t p l s = (
  _,
  if_true {b = t.launched && t.stopped} _ _ (ground (arith, l, s)),
  ground arith,
  ground arith,
)

-- A process that is not the one whose turn it is, or that does not exit, is due later.
due_later :
    (n i j : ℕ) (t : Turn) (turns : List Turn)
    → due n i j (t ∷ turns) ≡ true
    → ((i % n == j) && is_exit t.reaped) ≡ false
    → due n (suc i) j turns ≡ true
unfolding due
due_later n i j t turns d ne = ground arith

module _ (n : ℕ) (s : State) (t : Turn) (turns : List Turn) (inv : Inv n s (t ∷ turns)) (at : ℕ)
    (p : Process) (is_at : s.i % n ≡ at) (here : get_elem? s.processes at ≡ some p) where
  skip-Inv : p.finished ≡ true → Inv n (record s { i = suc s.i }) turns
  skip-Inv f = record {
    size = inv.size;
    counted = inv.counted;
    no_errors = inv.no_errors;
    later = λ j q g u. due_later n s.i j t turns (inv.later j q g u) (not_here j q g u);
  }
    where
      not_here :
          (j : ℕ) (q : Process)
          → get_elem? s.processes j ≡ some q
          → q.finished ≡ false
          → ((s.i % n == j) && is_exit t.reaped) ≡ false
      not_here j q g u = elim (Bool-cases (s.i % n == j)) [
        | inl e ↦ absurd (cc (is_at, (==_iff (s.i % n) j).0 e, here, g, f, u))
        | inr ne ↦ ground (arith, ne)
      ]

  put-Inv :
      (q : Process) (more : ℕ)
      → q.error ≡ p.error
      → p.finished ≡ false
      → to_go q + more ≡ 1
      → (q.finished ≡ false → is_exit t.reaped ≡ false)
      → Inv n
          (record { processes = set s.processes at q; completed = s.completed + more; i = suc s.i })
          turns
  put-Inv q more e u m x = record {
    size = length-set s.processes at q ∙ inv.size;
    counted = ground (arith, total-set to_go s.processes at p q here, inv.counted);
    no_errors = ground (arith, total-set errors s.processes at p q here, inv.no_errors);
    later = others;
  }
    where
      others :
          (j : ℕ) (r : Process)
          → get_elem? (set s.processes at q) j ≡ some r
          → r.finished ≡ false
          → due n (suc s.i) j turns ≡ true
      others j r g v = elim (ℕ_discrete at j) [
        | yes e ↦
            due_later n s.i j t turns
              (inv.later j p (subst (λ a. get_elem? s.processes a ≡ some p) e here) u)
              (ground (arith, x (same e)))
        | no ne ↦
            due_later n s.i j t turns
              (inv.later j r (sym (get_elem?-set_ne s.processes at j q ne) ∙ g) v)
              (ground (arith, is_at, ne))
      ]
        where
          same : at ≡ j → q.finished ≡ false
          same e = cc (get_elem?-set_self s.processes at q (get_lt s.processes at p here), e, g, v)

-- A smooth turn of a process either leaves it as it is or finishes it.
collect_lem :
    (start : ℕ) (t : Turn) (p : Process)
    → (t.reaped ≡ still) ⊎ (t.reaped ≡ exited 0)
    → p.finished ≡ false
    → (q : Process) × (more : ℕ) × (collect start t t.reaped p ≡ (q, more))
      × (q.error ≡ p.error)
      × (to_go q + more ≡ 1)
      × (q.finished ≡ false → is_exit t.reaped ≡ false)
unfolding collect
collect_lem start t p (inl e) u =
    (p, 0, ap (λ r. collect start t r p) e, refl, ground (arith, u), λ _. ap is_exit e)
collect_lem start t p (inr e) u = (
  account start t (record p { finished = true }),
  1,
  ap (λ r. collect start t r p) e,
  refl,
  refl,
  λ no. absurd (cc no),
)

-- One round keeps the invariant.
pub round_lem :
    (start n : ℕ) (s : State) (t : Turn) (turns : List Turn) (at : ℕ) (p : Process)
    → Inv n s (t ∷ turns)
    → IsSmooth t
    → s.i % n ≡ at
    → get_elem? s.processes at ≡ some p
    → (r : State) × (rr_round start at t s (some p) ≡ some r) × Inv n r turns
unfolding rr_round run_turn
round_lem start n s t turns at p inv (l, st, ends) is_at here = elim (Bool-cases p.finished) [
  | inl f ↦ (_, if_true _ _ f, skip-Inv n s t turns inv at p is_at here f)
  | inr u ↦
      let (q, e, qf, qe) = execute_lem start t p l st in
      let (r, more, c, re, m, x) = collect_lem start t q ends (qf ∙ u) in
      (
        _,
        if_false _ _ u
            ∙ ap (run_turn start at t s) e
            ∙ ap
                (λ (z : Process × ℕ). some (record {
                  processes = set s.processes at z.0;
                  completed = s.completed + z.1;
                  i = suc s.i;
                }))
                c,
        put-Inv n s t turns inv at p is_at here r more (re ∙ qe) u m x,
      )
]
