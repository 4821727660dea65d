-- ===== src/Shell/Tests.antt =====
-- The shell on a few lines, and the theorems on them.
use simulating_the_functioni.Base.{◌≡◌, refl, true, false, Option, none, some, List, [], ◌∷◌, arith}
use simulating_the_functioni.Shell.{
  State, World, Allocations, Input, words, split_command, init_history, shell_cd, dash, name_exit,
  name_pwd, has_bar, execute,
}
use simulating_the_functioni.Shell.Strings.{Text, eq_text}
use simulating_the_functioni.Shell.Tokens.{
  tokens, Succeeds, split_command_lem, line_of-split_command,
}
use simulating_the_functioni.Shell.Execute.{recorded, Outcome, execute_lem}
use simulating_the_functioni.Shell.Cd.{cd_back}

abbrev enough : Allocations
enough = record { first_copy = true; array = true; second_copy = true; token = λ _. true }

enough-Succeeds : Succeeds enough
enough-Succeeds = record { first_copy = refl; array = refl; second_copy = refl; token = λ i. refl }

-- " ls\t-l\n"
abbrev listing : Text
listing = b' ' ∷ b'l' ∷ b's' ∷ 9 ∷ b'-' ∷ b'l' ∷ 10 ∷ []

split_command_lem_example :
    split_command enough listing ≡ words ((b'l' ∷ b's' ∷ []) ∷ (b'-' ∷ b'l' ∷ []) ∷ []) 3
unfolding tokens
split_command_lem_example = split_command_lem enough listing enough-Succeeds

-- "ls -l\n"
line_of-split_command_example :
    split_command enough (b'l' ∷ b's' ∷ b' ' ∷ b'-' ∷ b'l' ∷ 10 ∷ [])
    ≡ words ((b'l' ∷ b's' ∷ []) ∷ (b'-' ∷ b'l' ∷ []) ∷ []) 3
line_of-split_command_example =
    line_of-split_command enough ((b'l' ∷ b's' ∷ [], b' ') ∷ (b'-' ∷ b'l' ∷ [], 10) ∷ [])
      enough-Succeeds ((refl, (refl, tt)), refl, ((refl, (refl, tt)), refl, tt))

-- Every directory is its own path from anywhere.
abbrev world : World
world = record {
  home = some (b'/' ∷ b'h' ∷ []);
  chdir = λ from to. some to;
  getcwd_fails = false;
  fork_fails = false;
  second_fork_fails = false;
  pipe_fails = false;
}

abbrev root : State
root = init_history 10 (b'/' ∷ [])

abbrev bin : Text
bin = b'/' ∷ b'b' ∷ []

cd_back_example :
    shell_cd world (some dash) (shell_cd world (some bin) root) ≡ record root { prev_dir = bin }
unfolding eq_text
cd_back_example = cd_back world bin bin root refl refl refl refl (λ e. cc e) refl

-- A listing, the end of the input once, `exit`, and a line that is not read.
abbrev input : Option Text → Input
input line = record { line = line; allocations = enough; world = world }

abbrev session : List Input
session = input (some listing) ∷ input none ∷ input (some name_exit) ∷ input (some name_pwd) ∷ []

session_records : recorded session ≡ listing ∷ name_exit ∷ []
unfolding tokens has_bar eq_text
session_records = refl

execute_lem_example : Outcome root true (listing ∷ name_exit ∷ []) (execute session false root)
unfolding tokens has_bar eq_text
execute_lem_example =
    execute_lem session false root
      (enough-Succeeds, (enough-Succeeds, (enough-Succeeds, (enough-Succeeds, tt)))) (omega arith)
