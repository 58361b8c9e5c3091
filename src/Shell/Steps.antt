-- ===== src/Shell/Steps.antt =====
-- How a run of commands of misc.c goes on behind a command whose run is known.
use cs5600_filesystem.Base.{◌≡◌, ◌∙◌, refl, List, [], ◌∷◌, ◌++◌, Bytes, ◌<◌, ◌+◌, length, lt→ltb}
use cs5600_filesystem.Names.{slash}
use cs5600_filesystem.State.{Fs}
use cs5600_filesystem.Shell.{Shell, Output, Act, Ran, ran, crash, then_do, more}
use cs5600_filesystem.Shell.Words.{fix_path}
use cs5600_filesystem.Shell.Dirs.{make_path}
use cs5600_filesystem.Shell.Files.{path_to}

module _ {A B : Type 0} {r : Ran A} {a : A} {sh : Shell} {s : Fs} where
  pub and_so :
      (k : A → Act B) {b : B} {sh' : Shell} {s' : Fs} {out : List Output}
      → r ≡ ran a sh s []
      → k a sh s ≡ ran b sh' s' out
      → then_do r k ≡ ran b sh' s' out
  and_so k e f = rw (e, then_do) (rw f refl)

-- A step before without an output.
pub more-nil : {A : Type 0} (r : Ran A) → more [] r ≡ r
more-nil (ran a sh s out) = refl
more-nil crash = refl

pub quiet : {A : Type 0} {r x : Ran A} → r ≡ x → more [] r ≡ x
quiet {r = r} e = more-nil r ∙ e

-- The path of a name in the current directory.
abbrev pub path_in : Shell → Bytes → Bytes
path_in sh name = fix_path (sh.cwd ++ slash ∷ name)

pub path_to-ok :
    (sh : Shell) (s : Fs) (name : Bytes)
    → length sh.cwd + 1 + length name < 128
    → path_to name sh s ≡ ran (path_in sh name) sh s []
unfolding path_to make_path
path_to-ok sh s name fits = rw (lt→ltb (length sh.cwd + 1 + length name) 128 fits) refl
