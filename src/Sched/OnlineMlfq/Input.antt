-- ===== src/Sched/OnlineMlfq/Input.antt =====
-- Reading the input adds one process for each command.
use Prim.Native.String.{String}
use text.Mathlib.Text.{◌==◌ as str_eq}
use simulating_the_functioni.Base.{
  ℕ, suc, ◌+◌, ◌≤◌, ◌<◌, ◌≡◌, refl, sym, ap, subst, Bool, true, false, ◌||◌, Option, none, some,
  List, [], ◌∷◌, ◌++◌, append_assoc, append-nil, if◌then◌else◌, length, length-append, arith,
}
use simulating_the_functioni.Sched.Queues.{max_queue_size}
use simulating_the_functioni.Base.Counts.{tally-append}
use simulating_the_functioni.Sched.Queues.Tally.{Added, add-Added}
use simulating_the_functioni.Sched.Sjf.{Command, lookup, default_burst}
use simulating_the_functioni.Sched.OnlineMlfq.{
  Process, prioritized, add_to_queue_mlfq, State, Quanta, Line, priority_of, new_process,
  handle_line, Outcome, going, left, handle_input, Turn,
}
use simulating_the_functioni.Sched.OnlineMlfq.Conserved.{is_of, Inv}

-- A line that is read adds one process.
module _ (k : Quanta) (line : Line) (s : State) (seen : List String) (inv : Inv seen s)
    (room : length seen < max_queue_size) where
  add_line :
      (average priority : ℕ) (table : List Command)
      → priority ≤ 2
      → Inv (seen ++ line.text ∷ []) (record s {
        queues = add_to_queue_mlfq (new_process line average priority) s.queues;
        commands = table;
      })
  add_line average priority table le = record {
    each = λ c.
        omega (
          arith,
          a.more (is_of c),
          inv.each c,
          tally-append (λ d. str_eq d c) seen (line.text ∷ []),
        );
    total = omega (arith, a.bigger, inv.total, length-append {0} seen (line.text ∷ []));
    levels = a.levels inv.levels;
  }
    where
      p : Process
      p = new_process line average priority

      a : Added prioritized p s.queues (add_to_queue_mlfq p s.queues)
      a = add-Added prioritized p s.queues le (omega (arith, inv.total))

  priority_of_le : (average : ℕ) → priority_of k average ≤ 2
  unfolding priority_of
  priority_of_le average = ground arith

  handle_line-Inv : (o : Option ℕ) → Inv (seen ++ line.text ∷ []) (handle_line k line s o)
  unfolding handle_line
  handle_line-Inv none = add_line default_burst 1 _ (omega arith)
  handle_line-Inv (some average) =
      add_line average (priority_of k average) s.commands (priority_of_le average)

-- The commands up to the first `exit`.
abbrev pub before_exit : List Line → List String
before_exit [] = []
before_exit (line ∷ lines) =
    let rest = before_exit lines in if str_eq line.text "exit" then [] else line.text ∷ rest

-- The lines of all reads, in order.
abbrev pub all_lines : List (Turn × List Line) → List Line
all_lines [] = []
all_lines ((turn, lines) ∷ more) = lines ++ all_lines more

abbrev pub state_of : Outcome → State
state_of (going s) = s
state_of (left s) = s

abbrev pub has_exit : List Line → Bool
has_exit [] = false
has_exit (line ∷ lines) =
    let rest = has_exit lines in if str_eq line.text "exit" then true else rest

pub before_exit-append :
    (lines more : List Line)
    → before_exit (lines ++ more)
      ≡ before_exit lines ++ (if has_exit lines then [] else before_exit more)
before_exit-append [] more = refl
before_exit-append (line ∷ lines) more =
    go (str_eq line.text "exit") (before_exit-append lines more)
  where
    go :
        (b : Bool)
        → before_exit (lines ++ more)
          ≡ before_exit lines ++ (if has_exit lines then [] else before_exit more)
        → (if b then [] else line.text ∷ before_exit (lines ++ more))
          ≡ (if b then [] else line.text ∷ before_exit lines)
            ++ (if (if b then true else has_exit lines) then [] else before_exit more)
    go true e = refl
    go false e = ap (λ l. line.text ∷ l) e

pub has_exit-append :
    (lines more : List Line) → has_exit (lines ++ more) ≡ (has_exit lines || has_exit more)
has_exit-append [] more = refl
has_exit-append (line ∷ lines) more = ground (arith, has_exit-append lines more)

-- Reading the lines adds the commands before the first `exit`, and leaves if there is one.
pub handle_input-Inv :
    (k : Quanta) (lines : List Line) (s : State) (seen : List String)
    → length seen + length (before_exit lines) ≤ max_queue_size
    → Inv seen s
    → Inv (seen ++ before_exit lines) (state_of (handle_input k lines s))
unfolding handle_input
handle_input-Inv k [] s seen few inv = subst (λ l. Inv l s) (sym (append-nil seen)) inv
handle_input-Inv k (line ∷ lines) s seen few inv = go (str_eq line.text "exit") few (λ room.
    handle_input-Inv k lines next (seen ++ line.text ∷ [])
      (omega (arith, room, length-append {0} seen (line.text ∷ [])))
      (handle_line-Inv k line s seen inv (omega (arith, room)) (lookup line.text s.commands)))
  where
    next : State
    next = handle_line k line s (lookup line.text s.commands)

    go :
        (b : Bool)
        → length seen + length (if b then [] else line.text ∷ before_exit lines) ≤ max_queue_size
        → (length seen + suc (length (before_exit lines)) ≤ max_queue_size
            → Inv
                ((seen ++ line.text ∷ []) ++ before_exit lines)
                (state_of (handle_input k lines next)))
        → Inv
            (seen ++ (if b then [] else line.text ∷ before_exit lines))
            (state_of (if b then left s else handle_input k lines next))
    go true room rest = subst (λ l. Inv l s) (sym (append-nil seen)) inv
    go false room rest =
        subst (λ l. Inv l (state_of (handle_input k lines next)))
          (append_assoc seen (line.text ∷ []) (before_exit lines)) (rest room)

abbrev pub has_left : Outcome → Bool
has_left (going s) = false
has_left (left s) = true

pub handle_input-exit :
    (k : Quanta) (lines : List Line) (s : State)
    → has_left (handle_input k lines s) ≡ has_exit lines
unfolding handle_input
handle_input-exit k [] s = refl
handle_input-exit k (line ∷ lines) s = go (str_eq line.text "exit") (handle_input-exit k lines next)
  where
    next : State
    next = handle_line k line s (lookup line.text s.commands)

    go :
        (b : Bool)
        → has_left (handle_input k lines next) ≡ has_exit lines
        → has_left (if b then left s else handle_input k lines next)
          ≡ (if b then true else has_exit lines)
    go true e = refl
    go false e = e
