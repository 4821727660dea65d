-- ===== src/Shell.antt =====
-- The shell of Assignment-01-shell/2021MT10904_shell.c. The lines that are read, and what `malloc`,
-- `fork`, `chdir` and the like give, are arguments. An `int` is a number: the sizes here stay below
-- the memory's.
pub mod Execute
pub mod Cd
pub mod Perform
mod Tests
pub mod Strings
pub mod Tokens
use simulating_the_functioni.Base.{
  ℕ, zero, suc, ◌+◌, ◌*◌, Bool, true, false, not, ◌&&◌, ◌||◌, Option, none, some, List, [], ◌∷◌,
  ◌++◌, ltb, ◌==◌, if◌then◌else◌, length,
}
use simulating_the_functioni.Base.Shift.{drop_last}
use simulating_the_functioni.Shell.Strings.{Text, eq_text, strtok}

-- " \t\n"
abbrev pub is_blank : ℕ → Bool
is_blank c = (c == b' ') || (c == 9) || (c == 10)

-- The two loops of `split_command`, for at most as many tokens as the first argument. The first
-- counts.
pub count_tokens : ℕ → Text → ℕ → ℕ
count_tokens zero s tokens_count = tokens_count
count_tokens (suc n) s tokens_count = elim (strtok is_blank s) [
  | none ↦ tokens_count
  | some (token, rest) ↦ count_tokens n rest (suc tokens_count)
]

-- Whether each `strdup` and `malloc` of `split_command` succeeds, that of the i-th token by `token i`.
pub record Allocations : Type 0 where
  pub first_copy : Bool
  pub array : Bool
  pub second_copy : Bool
  pub token : ℕ → Bool

-- An exit of the process, NULL, or the array with its number of places.
pub data Split : Type 0 where
  exits : Split
  null : Split
  words : List Text → (places : ℕ) → Split

-- The second loop, with the tokens stored so far.
pub store_tokens : ℕ → (ℕ → Bool) → (places : ℕ) → Text → List Text → Split
store_tokens zero ok places s stored = words stored places
store_tokens (suc n) ok places s stored = elim (strtok is_blank s) [
  | none ↦ words stored places
  | some (token, rest) ↦ elim (ok (length stored)) [
    | true ↦ store_tokens n ok places rest (stored ++ token ∷ [])
    | false ↦ exits
  ]
]

pub split_command : Allocations → Text → Split
unfolding count_tokens store_tokens
split_command a s =
    if not a.first_copy
    then exits
    else if not a.array
    then null
    else if not a.second_copy
    then exits
    else store_tokens (suc (length s)) a.token (suc (count_tokens (suc (length s)) s 0)) s []

-- What the shell prints and runs, in order; `unread` is the first part of a pipe with no second.
pub data Event : Type 0 where
  invalid_command : Event
  home_not_set : Event
  printed : Text → Event
  ran : List Text → Event
  piped : (first second : Text) → Event
  unread : (first : Text) → Event

-- `history` up to `history_count`, its capacity, `prev_dir` and the working directory.
pub record State : Type 0 where
  pub history : List Text
  pub history_capacity : ℕ
  pub prev_dir : Text
  pub working_dir : Text
  pub events : List Event

abbrev pub emit : Event → State → State
emit e s = record s { events = s.events ++ e ∷ [] }

-- What the system gives: `getenv("HOME")`, the directory that `chdir` changes to from a directory, if
-- it succeeds, and whether `getcwd`, `pipe`, `fork` and the second `fork` of a pipe fail.
pub record World : Type 0 where
  pub home : Option Text
  pub chdir : Text → Text → Option Text
  pub getcwd_fails : Bool
  pub fork_fails : Bool
  pub second_fork_fails : Bool
  pub pipe_fails : Bool

-- `init_history`, with as much memory as it asks for
abbrev pub init_history : ℕ → (working_dir : Text) → State
init_history initial_capacity dir = record {
  history = [];
  history_capacity = initial_capacity;
  prev_dir = [];
  working_dir = dir;
  events = [];
}

abbrev pub resize_history : State → State
resize_history s = record s { history_capacity = s.history_capacity * 2 }

pub add_to_history : Text → State → State
add_to_history command s =
    let t = if length s.history == s.history_capacity then resize_history s else s in
    record t { history = t.history ++ command ∷ [] }

abbrev pub ends_with : ℕ → Text → Bool
ends_with q [] = false
ends_with q (c ∷ []) = c == q
ends_with q (c ∷ d ∷ s) = ends_with q (d ∷ s)

abbrev pub is_quoted : ℕ → Text → Bool
is_quoted q [] = false
is_quoted q (c ∷ s) = (c == q) && ends_with q (c ∷ s)

abbrev pub rest_of : Text → Text
rest_of [] = []
rest_of (c ∷ s) = s

abbrev pub unquote : Text → Text
unquote path = if is_quoted b'"' path || is_quoted 39 path then drop_last (rest_of path) else path

-- `shell_cd` from `getcwd` on; a path that is NULL cannot be changed to.
abbrev pub change_to : World → Option Text → State → State
change_to w none s = s
change_to w (some path) s = if w.getcwd_fails then s else elim (w.chdir s.working_dir path) [
  | none ↦ s
  | some dir ↦ record s { working_dir = dir; prev_dir = s.working_dir }
]

abbrev pub tilde : Text
tilde = b'~' ∷ []

abbrev pub dash : Text
dash = b'-' ∷ []

abbrev pub to_previous : World → State → State
to_previous w s = elim s.prev_dir [
  | [] ↦ elim w.home [ none ↦ emit home_not_set s | some home ↦ change_to w (some home) s ]
  | c ∷ dir ↦ change_to w (some (c ∷ dir)) s
]

-- `shell_cd` with its first argument.
pub shell_cd : World → Option Text → State → State
shell_cd w none s = change_to w w.home s
shell_cd w (some path) s =
    if eq_text path tilde
    then change_to w w.home s
    else if eq_text path dash
    then to_previous w s
    else change_to w (some (unquote path)) s

abbrev pub shell_pwd : World → State → State
shell_pwd w s =
    if w.getcwd_fails then emit invalid_command s else emit (printed (s.working_dir ++ 10 ∷ [])) s

abbrev pub concat : List Text → Text
concat [] = []
concat (t ∷ ts) = t ++ concat ts

-- `print_string_array` with an empty `ch`
abbrev pub shell_history : State → State
shell_history s = emit (printed (concat s.history)) s

abbrev pub name_cd : Text
name_cd = b'c' ∷ b'd' ∷ []

abbrev pub name_history : Text
name_history = b'h' ∷ b'i' ∷ b's' ∷ b't' ∷ b'o' ∷ b'r' ∷ b'y' ∷ []

abbrev pub name_exit : Text
name_exit = b'e' ∷ b'x' ∷ b'i' ∷ b't' ∷ []

abbrev pub name_pwd : Text
name_pwd = b'p' ∷ b'w' ∷ b'd' ∷ []

abbrev pub bar : Text
bar = b'|' ∷ []

-- The loop that looks for a pipe.
unfoldable pub has_bar : List Text → Bool
has_bar [] = false
has_bar (w ∷ ws) = eq_text w bar || has_bar ws

-- The parent's part of `perform_pipe_task`, which changes nothing of its own: what its two children
-- run, where `strtok` with "|" gives two parts.
abbrev pub pipe_parts : World → Option (Text × Text) → State → State
pipe_parts w none s = emit invalid_command s
pipe_parts w (some (command1, rest)) s = elim (strtok (λ c. c == b'|') rest) [
  | none ↦ emit invalid_command s
  | some (command2, _) ↦
      if w.pipe_fails || w.fork_fails
      then s
      else if w.second_fork_fails
      then emit (unread command1) s
      else emit (piped command1 command2) s
]

pub perform_pipe_task : World → Text → State → State
perform_pipe_task w command_string s = pipe_parts w (strtok (λ c. c == b'|') command_string) s

abbrev pub first_argument : List Text → Option Text
first_argument [] = none
first_argument (a ∷ as') = some a

-- The status, and the state behind the command.
pub perform_task : World → Text → List Text → State → Bool × State
perform_task w command_string [] s = (true, s)
perform_task w command_string (name ∷ args) s =
    if has_bar (name ∷ args)
    then (true, perform_pipe_task w command_string s)
    else if eq_text name_cd name
    then (true, shell_cd w (first_argument args) s)
    else if eq_text name_history name
    then (true, shell_history s)
    else if eq_text name_exit name
    then (false, s)
    else if eq_text name_pwd name
    then (true, shell_pwd w s)
    else if w.fork_fails
    then (true, emit invalid_command s)
    else (true, emit (ran (name ∷ args)) s)

-- One line of input: what is read, NULL at the end of the input, and the system's answers.
pub record Input : Type 0 where
  pub line : Option Text
  pub allocations : Allocations
  pub world : World

-- What a round ends with: the loop goes on with a status, or the process has ended.
pub data Next : Type 0 where
  goes_on : (status : Bool) → State → Next
  ended : State → Next

-- A round behind `split_command`.
abbrev pub perform_split : World → Text → (status : Bool) → State → Split → Next
perform_split w line status s exits = ended s
perform_split w line status s null = goes_on status s
perform_split w line status s (words array places) =
    let (again, t) = perform_task w line array s in goes_on again t

abbrev pub execute_line : Input → Option Text → (status : Bool) → State → Next
execute_line i none status s = goes_on status s
execute_line i (some line) status s =
    let t = add_to_history line s in
    perform_split i.world line status t (split_command i.allocations line)

-- The loop of `execute`, from a round on, for the rounds that input is given for.
pub execute : List Input → (status : Bool) → State → Next
execute [] status s = goes_on status s
execute (i ∷ inputs) status s = elim (execute_line i i.line status s) [
  | ended t ↦ ended t
  | goes_on false t ↦ ended t
  | goes_on true t ↦ execute inputs true t
]
