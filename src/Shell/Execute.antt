-- ===== src/Shell/Execute.antt =====
-- The loop of `execute`: what it records, and when it ends.
use simulating_the_functioni.Base.{
  ◌≤◌, ◌<◌, ◌≡◌, refl, sym, ap, subst, ◌∙◌, Bool, true, false, Bool-cases, inl, inr, not, ◌||◌,
  Option, none, some, List, [], ◌∷◌, ◌++◌, append_assoc, append-nil, length, length-append, ◌==◌,
  ==_iff, if◌then◌else◌, arith,
}
use simulating_the_functioni.Shell.{
  State, World, Input, Next, goes_on, ended, add_to_history, perform_task, execute_line, execute,
}
use simulating_the_functioni.Shell.Strings.{Text}
use simulating_the_functioni.Shell.Tokens.{tokens, Succeeds, split_command_lem}
use simulating_the_functioni.Shell.Perform.{
  is_exit, SameHistory, perform_task_status, perform_task-SameHistory,
}

-- The lines that are read up to the first that ends the shell.
abbrev pub recorded_with : Option Text → List Text → List Text
recorded_with none later = later
recorded_with (some line) later = line ∷ (if is_exit (tokens line) then [] else later)

abbrev pub recorded : List Input → List Text
recorded [] = []
recorded (i ∷ inputs) = recorded_with i.line (recorded inputs)

-- Whether one of them does.
abbrev pub ends_with_line : Option Text → Bool
ends_with_line none = false
ends_with_line (some line) = is_exit (tokens line)

abbrev pub some_exit : List Input → Bool
some_exit [] = false
some_exit (i ∷ inputs) = ends_with_line i.line || some_exit inputs

-- `status` before the first round is whatever is in its memory; it is looked at if the first thing that is
-- read is the end of the input.
abbrev pub ends_with : (status : Bool) → Option Text → Bool
ends_with status none = not status
ends_with status (some line) = ends_with_line (some line)

abbrev pub recorded_from : (status : Bool) → Option Text → List Text → List Text
recorded_from status none later = if status then later else []
recorded_from status (some line) later = recorded_with (some line) later

-- Whether the loop ends, and what it records.
abbrev pub ends : (status : Bool) → List Input → Bool
ends status [] = false
ends status (i ∷ inputs) = ends_with status i.line || some_exit inputs

abbrev pub records : (status : Bool) → List Input → List Text
records status [] = []
records status (i ∷ inputs) = recorded_from status i.line (recorded inputs)

abbrev pub has_ended : Next → Bool
has_ended (goes_on status s) = false
has_ended (ended s) = true

abbrev pub state_of : Next → State
state_of (goes_on status s) = s
state_of (ended s) = s

abbrev pub AllSucceed : List Input → Type 0
AllSucceed [] = Unit {0}
AllSucceed (i ∷ inputs) = Succeeds i.allocations × AllSucceed inputs

-- The array of the history has room.
abbrev pub HasRoom : State → Type 0
HasRoom s = (length s.history ≤ s.history_capacity) × (0 < s.history_capacity)

-- What a state has recorded since another.
abbrev pub Records : State → List Text → State → Type 0
Records s ls t = (t.history ≡ s.history ++ ls) × HasRoom t

add_to_history-Records :
    (line : Text) (s : State) → HasRoom s → Records s (line ∷ []) (add_to_history line s)
unfolding add_to_history
add_to_history-Records line s room = elim (Bool-cases (length s.history == s.history_capacity)) [
  | inl full ↦ rw full (
    refl,
    (omega (arith, length-append {0} s.history (line ∷ []), (==_iff _ _).0 full), omega arith),
  )
  | inr part ↦
      rw part (refl, (omega (arith, length-append {0} s.history (line ∷ []), below part), room.1))
]
  where
    below : (length s.history == s.history_capacity) ≡ false → length s.history < s.history_capacity
    below ne = ground (arith, room)

-- The rest of the loop behind a round.
abbrev go_on : List Input → Next → Next
go_on inputs (ended t) = ended t
go_on inputs (goes_on false t) = ended t
go_on inputs (goes_on true t) = execute inputs true t

-- The outcome of the loop: whether it has ended, and what it has recorded.
abbrev pub Outcome : State → (ends : Bool) → List Text → Next → Type 0
Outcome s ends ls n = (has_ended n ≡ ends) × Records s ls (state_of n)

module _ (inputs : List Input)
    (later : (t : State)
      → HasRoom t
      → Outcome t (some_exit inputs) (recorded inputs) (execute inputs true t)) where
  -- A command, behind its line's record.
  performed :
      (w : World) (line : Text) (ws : List Text) (s t : State)
      → Records s (line ∷ []) t
      → Outcome s
          (is_exit ws || some_exit inputs)
          (line ∷ (if is_exit ws then [] else recorded inputs))
          (go_on inputs (let (again, u) = perform_task w line ws t in goes_on again u))
  performed w line ws s t r = elim (Bool-cases (is_exit ws)) [
    | inl e ↦ rw (e, status e) (refl, (same.0 ∙ r.0, room))
    | inr e ↦
        let (ends, records) = later u room in
        rw (e, status e)
          (
            ends,
            (
              records.0
                  ∙ ap (λ h. h ++ recorded inputs) (same.0 ∙ r.0)
                  ∙ append_assoc s.history (line ∷ []) (recorded inputs),
              records.1,
            ),
          )
  ]
    where
      u : State
      u = (perform_task w line ws t).1

      same : SameHistory t u
      same = perform_task-SameHistory w line ws t

      room : HasRoom u
      room = (omega (arith, r.1, ap length same.0, same.1), omega (arith, r.1, same.1))

      status : {c : Bool} → is_exit ws ≡ c → (perform_task w line ws t).0 ≡ not c
      status e = perform_task_status w line ws t ∙ ap not e

  round-Outcome :
      (i : Input) (o : Option Text) (b : Bool) (s : State)
      → Succeeds i.allocations
      → HasRoom s
      → Outcome s
          (ends_with b o || some_exit inputs)
          (recorded_from b o (recorded inputs))
          (go_on inputs (execute_line i o b s))
  round-Outcome i none true s good room = later s room
  round-Outcome i none false s good room = (refl, (sym (append-nil s.history), room))
  round-Outcome i (some line) b s good room = rw (split_command_lem i.allocations line good) (
      performed i.world line (tokens line) s (add_to_history line s)
        (add_to_history-Records line s room))

same_loop :
    (i : Input) (inputs : List Input) (b : Bool) (s : State) (ends : Bool) (ls : List Text)
    → Outcome s ends ls (go_on inputs (execute_line i i.line b s))
    → Outcome s ends ls (execute (i ∷ inputs) b s)
unfolding execute
same_loop i inputs b s ends ls h = go (execute_line i i.line b s) h
  where
    go :
        (n : Next)
        → Outcome s ends ls (go_on inputs n)
        → Outcome s ends ls (elim n [
          | ended t ↦ ended t
          | goes_on false t ↦ ended t
          | goes_on true t ↦ execute inputs true t
        ])
    go (ended t) h = h
    go (goes_on false t) h = h
    go (goes_on true t) h = h

ends-true : (inputs : List Input) → ends true inputs ≡ some_exit inputs
ends-true [] = refl
ends-true (i ∷ inputs) = go i.line
  where
    go :
        (o : Option Text)
        → (ends_with true o || some_exit inputs) ≡ (ends_with_line o || some_exit inputs)
    go none = refl
    go (some line) = refl

records-true : (inputs : List Input) → records true inputs ≡ recorded inputs
records-true [] = refl
records-true (i ∷ inputs) = go i.line
  where
    go :
        (o : Option Text)
        → recorded_from true o (recorded inputs) ≡ recorded_with o (recorded inputs)
    go none = refl
    go (some line) = refl

-- While its allocations succeed, the loop of `execute` puts each line that it reads into the history,
-- in order and none twice, up to the first line whose first word is `exit` and which has no word `|`.
-- With that line it ends. With any other line it goes on, and so it does at the end of the input, but
-- that it ends and records nothing where the end of the input is the first thing it reads and the
-- memory of `status`, which nothing has set by then, holds 0. The history's array has room for its
-- lines all the time.
pub execute_lem :
    (inputs : List Input) (status : Bool) (s : State)
    → AllSucceed inputs
    → HasRoom s
    → Outcome s (ends status inputs) (records status inputs) (execute inputs status s)
unfolding execute
execute_lem [] status s good room = (refl, (sym (append-nil s.history), room))
execute_lem (i ∷ inputs) status s good room =
    same_loop i inputs status s (ends status (i ∷ inputs)) (records status (i ∷ inputs)) (
      round-Outcome inputs
        (λ t r.
          subst (λ b. Outcome t b (recorded inputs) (execute inputs true t)) (ends-true inputs)
            (subst (λ ls. Outcome t (ends true inputs) ls (execute inputs true t))
              (records-true inputs) (execute_lem inputs true t good.1 r)))
        i i.line status s good.0 room)
