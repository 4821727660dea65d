-- ===== src/Shell/Cd.antt =====
-- The builtin `cd`, which remembers the directory that it leaves.
use simulating_the_functioni.Base.{◌≡◌, ◌≢◌, refl, ap, ◌∙◌, false, some, [], ◌∷◌, arith}
use simulating_the_functioni.Shell.{State, World, change_to, unquote, tilde, dash, shell_cd}
use simulating_the_functioni.Shell.Strings.{Text, eq_text}

-- A change to a directory that works, and one that does not.
change_to-some :
    (w : World) (path dir : Text) (s : State)
    → w.getcwd_fails ≡ false
    → w.chdir s.working_dir path ≡ some dir
    → change_to w (some path) s ≡ record s { working_dir = dir; prev_dir = s.working_dir }
change_to-some w path dir s g c = ground arith

cd_there :
    (w : World) (path dir : Text) (s : State)
    → eq_text path tilde ≡ false
    → eq_text path dash ≡ false
    → w.getcwd_fails ≡ false
    → w.chdir s.working_dir (unquote path) ≡ some dir
    → shell_cd w (some path) s ≡ record s { working_dir = dir; prev_dir = s.working_dir }
unfolding shell_cd
cd_there w path dir s not_tilde not_dash g there =
    rw (not_tilde, not_dash) (change_to-some w (unquote path) dir s g there)

cd_dash :
    (w : World) (old dir : Text) (s : State)
    → w.getcwd_fails ≡ false
    → old ≢ []
    → w.chdir dir old ≡ some old
    → shell_cd w (some dash) (record s { working_dir = dir; prev_dir = old })
      ≡ record s { working_dir = old; prev_dir = dir }
unfolding shell_cd eq_text
cd_dash w [] dir s g ne back = absurd (ne refl)
cd_dash w (c ∷ old) dir s g ne back =
    change_to-some w (c ∷ old) (c ∷ old) (record s { working_dir = dir; prev_dir = c ∷ old }) g back

-- `cd` to a path and `cd -` behind it lead to the directory at first, and remember the other one, if
-- both changes work and that directory, which is not the empty text, is its own path.
pub cd_back :
    (w : World) (path dir : Text) (s : State)
    → eq_text path tilde ≡ false
    → eq_text path dash ≡ false
    → w.getcwd_fails ≡ false
    → w.chdir s.working_dir (unquote path) ≡ some dir
    → s.working_dir ≢ []
    → w.chdir dir s.working_dir ≡ some s.working_dir
    → shell_cd w (some dash) (shell_cd w (some path) s) ≡ record s { prev_dir = dir }
cd_back w path dir s not_tilde not_dash g there ne back =
    ap (shell_cd w (some dash)) (cd_there w path dir s not_tilde not_dash g there)
    ∙ cd_dash w s.working_dir dir s g ne back
