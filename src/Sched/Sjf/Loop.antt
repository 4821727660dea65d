-- ===== src/Sched/Sjf/Loop.antt =====
-- The loop of `ShortestJobFirst`: it loses no command, and runs all of them when no more come in.
use Prim.Native.String.{String}
use text.Mathlib.Text.{◌==◌ as str_eq}
use simulating_the_functioni.Base.{
  ℕ, ◌+◌, ◌≤◌, ◌≡◌, refl, sym, ap, subst, ◌∙◌, false, List, [], ◌∷◌, ◌++◌, append_assoc, append-nil,
  length, length-append, arith,
}
use simulating_the_functioni.Base.Counts.{tally, tally-append, tally-le-length}
use simulating_the_functioni.Sched.Sjf.{
  State, max_queue_size, handle_line, handle_input, sjf_round, Round, shortest_job_first, begin,
}
use simulating_the_functioni.Sched.Sjf.Rows.{row_of, count}
use simulating_the_functioni.Sched.Sjf.Bursts.{IsKnown}
use simulating_the_functioni.Sched.Sjf.Jobs.{is_of, Inv, handle_line-Inv}
use simulating_the_functioni.Sched.Sjf.Service.{sjf_round-Goes}
use simulating_the_functioni.Base.{◌-◌}
use simulating_the_functioni.Sched.Sjf.{Outcome, going, left, overruns, and_then}
use simulating_the_functioni.Sched.Sjf.Outcomes.{Goes, and_then-Goes}
use simulating_the_functioni.Sched.Sjf.Args.{IsShort}

abbrev pub texts : List (String × ℕ × ℕ) → List String
texts [] = []
texts ((c, now, later) ∷ lines) = c ∷ texts lines

-- The lines of all rounds, in order.
abbrev pub all_texts : List Round → List String
all_texts [] = []
all_texts (r ∷ rounds) = texts r.lines ++ all_texts rounds

-- Each has at most nine words.
abbrev pub AllShort : List String → Type 0
AllShort [] = Unit {0}
AllShort (c ∷ cs) = IsShort c × AllShort cs

AllShort-append : (xs ys : List String) → AllShort (xs ++ ys) → AllShort xs × AllShort ys
AllShort-append [] ys all = (tt, all)
AllShort-append (x ∷ xs) ys all = let (a, b) = AllShort-append xs ys all.1 in ((all.0, a), b)

handle_input-Inv :
    (lines : List (String × ℕ × ℕ)) (s : State) (seen : List String)
    → count "exit" (texts lines) ≡ 0
    → AllShort (texts lines)
    → length seen + length (texts lines) ≤ max_queue_size
    → Inv seen s
    → Goes (Inv (seen ++ texts lines)) (handle_input lines s)
unfolding handle_input
handle_input-Inv [] s seen stays short few inv =
    (s, refl, subst (λ l. Inv l s) (sym (append-nil seen)) inv)
handle_input-Inv ((c, now, later) ∷ lines) s seen stays short few inv = rw going_on (
    subst (λ l. Goes (Inv l) (and_then (handle_line c now later s) (handle_input lines)))
      (append_assoc seen (c ∷ []) (texts lines))
      (and_then-Goes (Inv (seen ++ c ∷ [])) (Inv ((seen ++ c ∷ []) ++ texts lines))
        (handle_line c now later s) (handle_input lines)
        (handle_line-Inv c now later s seen (omega arith) short.0 inv)
        (λ t v.
          handle_input-Inv lines t (seen ++ c ∷ []) (ground arith) short.1
            (omega (arith, length-append {0} seen (c ∷ []))) v)))
  where
    going_on : str_eq c "exit" ≡ false
    going_on = ground arith

loop-Inv :
    (rounds : List Round) (s : State) (seen : List String)
    → count "exit" (all_texts rounds) ≡ 0
    → AllShort (all_texts rounds)
    → length seen + length (all_texts rounds) ≤ max_queue_size
    → Inv seen s
    → Goes (Inv (seen ++ all_texts rounds)) (shortest_job_first rounds s)
unfolding shortest_job_first
loop-Inv [] s seen stays short few inv = (s, refl, subst (λ l. Inv l s) (sym (append-nil seen)) inv)
loop-Inv (r ∷ rounds) s seen stays short few inv =
    subst (λ l. Goes (Inv l) (shortest_job_first (r ∷ rounds) s))
      (append_assoc seen (texts r.lines) (all_texts rounds))
      (and_then-Goes (Inv (seen ++ texts r.lines)) final (handle_input r.lines s) behind
        (handle_input-Inv r.lines s seen (omega (arith, split)) shorts.0
          (omega (arith, length-append {0} (texts r.lines) (all_texts rounds))) inv)
        (λ t v.
          let (u, e, (w, _)) =
            sjf_round-Goes r.started r.ended r.after r.exit t (seen ++ texts r.lines) v in
          and_then-Goes (Inv (seen ++ texts r.lines)) final
            (sjf_round r.started r.ended r.after r.exit t) (shortest_job_first rounds) (u, e, w)
            (λ x y.
              loop-Inv rounds x (seen ++ texts r.lines) (omega (arith, split)) shorts.1
                (omega (
                  arith,
                  length-append {0} (texts r.lines) (all_texts rounds),
                  length-append {0} seen (texts r.lines),
                ))
                y)))
  where
    final : State → Type 0
    final = Inv ((seen ++ texts r.lines) ++ all_texts rounds)

    behind : State → Outcome
    behind t = and_then (sjf_round r.started r.ended r.after r.exit t) (shortest_job_first rounds)

    shorts : AllShort (texts r.lines) × AllShort (all_texts rounds)
    shorts = AllShort-append (texts r.lines) (all_texts rounds) short

    split :
        count "exit" (texts r.lines ++ all_texts rounds)
        ≡ count "exit" (texts r.lines) + count "exit" (all_texts rounds)
    split = tally-append (λ d. str_eq d "exit") (texts r.lines) (all_texts rounds)

begin-Inv : Inv [] begin
begin-Inv = record { each = λ c. refl; total = refl; known = tt; tables = omega arith; short = tt }

-- Let at most 100 commands of at most nine words each, and no `exit`, be read. Whatever the clock and
-- the processes give, the scheduler goes on and writes within its arrays; after any number of rounds
-- each command is as often in the queue and in the rows of the file together as it was read, and there
-- is nothing else in them; and each waiting process has the average burst time that the table has for
-- its command.
pub commands_kept :
    (rounds : List Round)
    → count "exit" (all_texts rounds) ≡ 0
    → AllShort (all_texts rounds)
    → length (all_texts rounds) ≤ max_queue_size
    → (t : State) × (shortest_job_first rounds begin ≡ going t)
      × ((c : String)
          → tally (is_of c) t.queue + tally (row_of c) t.rows ≡ count c (all_texts rounds))
      × (length t.queue + length t.rows ≡ length (all_texts rounds))
      × IsKnown t
commands_kept rounds stays short few =
    let (t, e, inv) = loop-Inv rounds begin [] stays short (omega arith) begin-Inv in
    (t, e, inv.each, inv.total, inv.known)

-- Rounds in which no line can be read.
abbrev pub quiet : List Round → List Round
quiet [] = []
quiet (r ∷ rest) = (record r { lines = [] }) ∷ quiet rest

quiet_ends :
    (rest : List Round) (s : State) (seen : List String)
    → length s.queue ≤ length rest
    → Inv seen s
    → Goes (λ t. Inv seen t × (length t.queue ≡ 0)) (shortest_job_first (quiet rest) s)
unfolding shortest_job_first handle_input
quiet_ends [] s seen few inv = (s, refl, (inv, omega arith))
quiet_ends (r ∷ rest) s seen few inv =
    and_then-Goes (λ t. Inv seen t × (length t.queue ≡ length s.queue - 1))
      (λ t. Inv seen t × (length t.queue ≡ 0)) (sjf_round r.started r.ended r.after r.exit s)
      (shortest_job_first (quiet rest)) (sjf_round-Goes r.started r.ended r.after r.exit s seen inv)
      (λ t v. quiet_ends rest t seen (omega (arith, v.1)) v.0)

shortest_job_first-append :
    (rounds rest : List Round) (s : State)
    → shortest_job_first (rounds ++ rest) s
      ≡ and_then (shortest_job_first rounds s) (shortest_job_first rest)
unfolding shortest_job_first
shortest_job_first-append [] rest s = refl
shortest_job_first-append (r ∷ rounds) rest s =
    read (handle_input r.lines s) (shortest_job_first-append rounds rest)
  where
    next : State → Outcome
    next t = sjf_round r.started r.ended r.after r.exit t

    Later : Type 0
    Later =
        (t : State)
        → shortest_job_first (rounds ++ rest) t
          ≡ and_then (shortest_job_first rounds t) (shortest_job_first rest)

    ran :
        (o : Outcome)
        → Later
        → and_then o (shortest_job_first (rounds ++ rest))
          ≡ and_then (and_then o (shortest_job_first rounds)) (shortest_job_first rest)
    ran (going t) later = later t
    ran left later = refl
    ran overruns later = refl

    read :
        (o : Outcome)
        → Later
        → and_then o (λ t. and_then (next t) (shortest_job_first (rounds ++ rest)))
          ≡ and_then
              (and_then o (λ t. and_then (next t) (shortest_job_first rounds)))
              (shortest_job_first rest)
    read (going t) later = ran (next t) later
    read left later = refl
    read overruns later = refl

-- Let at most 100 commands of at most nine words each, and no `exit`, be read, and then at least as many
-- rounds follow in which nothing is read. Then the scheduler goes on and writes within its arrays, the
-- queue is empty in the end, and the file has as many rows of each command as it was read.
pub commands_run :
    (rounds rest : List Round)
    → count "exit" (all_texts rounds) ≡ 0
    → AllShort (all_texts rounds)
    → length (all_texts rounds) ≤ max_queue_size
    → length (all_texts rounds) ≤ length rest
    → (t : State) × (shortest_job_first (rounds ++ quiet rest) begin ≡ going t)
      × (length t.queue ≡ 0)
      × ((c : String) → tally (row_of c) t.rows ≡ count c (all_texts rounds))
commands_run rounds rest stays short few enough =
    let (s, reads, inv) = loop-Inv rounds begin [] stays short (omega arith) begin-Inv in
    let (t, ends, (after, none_left)) =
      quiet_ends rest s (all_texts rounds) (omega (arith, inv.total)) inv in
    (
      t,
      shortest_job_first-append rounds (quiet rest) begin
          ∙ ap (λ o. and_then o (shortest_job_first (quiet rest))) reads
          ∙ ends,
      none_left,
      λ c. omega (arith, after.each c, tally-le-length (is_of c) t.queue, none_left),
    )
