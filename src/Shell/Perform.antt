-- ===== src/Shell/Perform.antt =====
-- A command of the shell: its status, and what it leaves alone.
use simulating_the_functioni.Base.{
  ◌≡◌, refl, sym, ap, ap₂, ◌∙◌, Bool, true, false, Bool-cases, inl, inr, not, ◌&&◌, ◌||◌, Option,
  none, some, List, [], ◌∷◌, ◌==◌, ==_iff, if◌then◌else◌, arith,
}
use simulating_the_functioni.Shell.{
  State, World, shell_cd, change_to, perform_pipe_task, first_argument, has_bar, perform_task,
  name_cd, name_history, name_exit, tilde, dash, to_previous, emit, home_not_set, unquote,
  pipe_parts, invalid_command, unread, piped,
}
use simulating_the_functioni.Shell.Strings.{Text, eq_text, strtok}

pub eq_text_sound : (a b : Text) → eq_text a b ≡ true → a ≡ b
unfolding eq_text
eq_text_sound [] [] h = refl
eq_text_sound [] (y ∷ b) h = cc
eq_text_sound (x ∷ a) [] h = cc
eq_text_sound (x ∷ a) (y ∷ b) h =
    ap₂ ◌∷◌ ((==_iff x y).0 (ground arith)) (eq_text_sound a b (ground arith))

-- A command that ends the shell: `exit` first, and no pipe.
abbrev pub is_exit : List Text → Bool
is_exit [] = false
is_exit (name ∷ args) = not (has_bar (name ∷ args)) && eq_text name_exit name

-- A command leaves the history alone.
abbrev pub SameHistory : State → State → Type 0
SameHistory s t = (t.history ≡ s.history) × (t.history_capacity ≡ s.history_capacity)

change_to-SameHistory :
    (w : World) (path : Option Text) (s : State) → SameHistory s (change_to w path s)
change_to-SameHistory w none s = (refl, refl)
change_to-SameHistory w (some path) s = ground arith

to_previous-SameHistory : (w : World) (s : State) → SameHistory s (to_previous w s)
to_previous-SameHistory w s = go s.prev_dir w.home
  where
    go :
        (dir : Text) (home : Option Text)
        → SameHistory s (elim dir [
          | [] ↦ elim home [ none ↦ emit home_not_set s | some h ↦ change_to w (some h) s ]
          | c ∷ rest ↦ change_to w (some (c ∷ rest)) s
        ])
    go [] none = (refl, refl)
    go [] (some h) = change_to-SameHistory w (some h) s
    go (c ∷ rest) home = change_to-SameHistory w (some (c ∷ rest)) s

shell_cd-SameHistory :
    (w : World) (path : Option Text) (s : State) → SameHistory s (shell_cd w path s)
unfolding shell_cd
shell_cd-SameHistory w none s = change_to-SameHistory w w.home s
shell_cd-SameHistory w (some path) s = elim (Bool-cases (eq_text path tilde)) [
  | inl e ↦ rw e (change_to-SameHistory w w.home s)
  | inr e ↦ rw e (elim (Bool-cases (eq_text path dash)) [
    | inl f ↦ rw f (to_previous-SameHistory w s)
    | inr f ↦ rw f (change_to-SameHistory w (some (unquote path)) s)
  ])
]

perform_pipe_task-SameHistory :
    (w : World) (line : Text) (s : State) → SameHistory s (perform_pipe_task w line s)
unfolding perform_pipe_task
perform_pipe_task-SameHistory w line s = go (strtok (λ c. c == b'|') line)
  where
    with_second :
        (first : Text) (o : Option (Text × Text))
        → SameHistory s (elim o [
          | none ↦ emit invalid_command s
          | some (second, _) ↦
              if w.pipe_fails || w.fork_fails
              then s
              else if w.second_fork_fails
              then emit (unread first) s
              else emit (piped first second) s
        ])
    with_second first none = (refl, refl)
    with_second first (some (second, _)) = ground arith

    go : (o : Option (Text × Text)) → SameHistory s (pipe_parts w o s)
    go none = (refl, refl)
    go (some (first, rest)) = with_second first (strtok (λ c. c == b'|') rest)

-- Another builtin is not `exit`.
not_exit :
    (name : Text) (n : Text)
    → eq_text name_exit name ≡ false
    → eq_text name n ≡ true
    → eq_text name_exit n ≡ false
not_exit name n ne e = ap (eq_text name_exit) (sym (eq_text_sound name n e)) ∙ ne

pub perform_task_status :
    (w : World) (line : Text) (ws : List Text) (s : State)
    → (perform_task w line ws s).0 ≡ not (is_exit ws)
unfolding perform_task
perform_task_status w line [] s = refl
perform_task_status w line (name ∷ args) s =
    ground (arith, not_exit name_cd name cd_ne, not_exit name_history name history_ne)
  where
    cd_ne : eq_text name_exit name_cd ≡ false
    cd_ne = unfold eq_text in refl

    history_ne : eq_text name_exit name_history ≡ false
    history_ne = unfold eq_text in refl

pub perform_task-SameHistory :
    (w : World) (line : Text) (ws : List Text) (s : State)
    → SameHistory s (perform_task w line ws s).1
unfolding perform_task
perform_task-SameHistory w line [] s = (refl, refl)
perform_task-SameHistory w line (name ∷ args) s =
    ground (
      arith,
      perform_pipe_task-SameHistory w line s,
      shell_cd-SameHistory w (first_argument args) s,
    )
