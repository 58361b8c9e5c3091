-- ===== src/Shell/Cd/Back.antt =====
-- `cd name` and `cd ..` behind it.
use cs5600_filesystem.Base.{
  ℕ, ◌≡◌, ◌≢◌, refl, sym, ap, ◌∙◌, true, false, [], ◌∷◌, arith, ◌==◌, Bytes, codes, bytes_eq,
  bytes_eq_iff, Bool-cases, inl, inr,
}
use cs5600_filesystem.Base.Int.{pos}
use cs5600_filesystem.Names.{slash}
use cs5600_filesystem.Names.Tokens.{IsPlain, tokens-IsPlain}
use cs5600_filesystem.State.{Fs}
use cs5600_filesystem.Shell.{ran, Shell, ◌>>◌}
use cs5600_filesystem.Shell.Words.{split, take}
use cs5600_filesystem.Shell.Words.Tokens.{words-tokens}
use cs5600_filesystem.Shell.Dirs.{do_cd}
use cs5600_filesystem.Shell.Cd.{cd_names, in_arrays, at_names}
use cs5600_filesystem.Shell.Cd.Goes.{join-spelled}
use cs5600_filesystem.Shell.Cd.Names.{IsShell, cd_run, do_cd-IsShell}
use cs5600_filesystem.Shell.Steps.{and_so}

split-single :
    (c : ℕ) (name : Bytes) → IsPlain (c ∷ name) → split (c ∷ name) 10 (codes "/") ≡ (c ∷ name) ∷ []
unfolding take
split-single c name plain = rw (words-tokens (c ∷ name), tokens-IsPlain c name plain) refl

cd_names-single :
    (c : ℕ) (name : Bytes) (sh : Shell)
    → IsPlain (c ∷ name)
    → c ∷ name ≢ codes ".."
    → cd_names (c ∷ name) sh.names ≡ (c ∷ name) ∷ sh.names
cd_names-single c name sh plain ne =
    let no_up : bytes_eq (c ∷ name) (codes "..") ≡ false =
      elim (Bool-cases (bytes_eq (c ∷ name) (codes ".."))) [
        | inl e ↦ absurd (ne ((bytes_eq_iff (c ∷ name) (codes "..")).0 e))
        | inr e ↦ e
      ] in
    let relative : (c == slash) ≡ false = ground (arith, plain.0) in
    rw (no_up, relative, split-single c name plain) refl

-- `cd name` and then `cd ..` lead back: for a name that is not empty, has no slash and is not "..",
-- with room for it in `paths` and `cwd`, both commands return 0, print nothing, and leave the
-- command line and the file system as they were.
pub do_cd-do_cd :
    (sh : Shell) (s : Fs) (c : ℕ) (name : Bytes)
    → IsShell sh
    → IsPlain (c ∷ name)
    → c ∷ name ≢ codes ".."
    → in_arrays ((c ∷ name) ∷ sh.names) ≡ true
    → (do_cd (c ∷ name) >> do_cd (codes "..")) sh s ≡ ran (pos 0) sh s []
do_cd-do_cd sh s c name is plain ne room =
    let inner : Shell = at_names sh ((c ∷ name) ∷ sh.names) in
    let names = cd_names-single c name sh plain ne in
    let down : do_cd (c ∷ name) sh s ≡ ran (pos 0) inner s [] =
      cd_run (c ∷ name) sh s true is (ap in_arrays names ∙ room)
      ∙ ap (λ ns. ran (pos 0) (at_names sh ns) s []) names in
    let up : do_cd (codes "..") inner s ≡ ran (pos 0) (at_names sh sh.names) s [] =
      cd_run (codes "..") inner s true (do_cd-IsShell (c ∷ name) sh inner s s (pos 0) [] is down).0
        is.room in
    and_so _ down (
      up
      ∙ ap (λ cwd. ran (pos 0) (record sh { cwd = cwd }) s []) (join-spelled sh.names ∙ sym is.cwd))
