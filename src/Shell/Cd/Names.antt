-- ===== src/Shell/Cd/Names.antt =====
-- The current directory of the command line: `cwd` is the path of the names in `paths`.
use mathlib.Core.List.{reverse-append}
use cs5600_filesystem.Base.{
  ◌≡◌, refl, sym, ap, ◌∙◌, Bool, true, false, List, [], ◌∷◌, ◌++◌, reverse, arith, ◌==◌, Bytes,
  codes, get_or, bytes_eq, if◌then◌else◌, subst, Bool-cases, List-cases, inl, inr,
}
use cs5600_filesystem.Base.Int.{ℤ, pos}
use cs5600_filesystem.Names.{slash, tokens}
use cs5600_filesystem.Names.Tokens.{tokens-append, tokens-IsPlain}
use cs5600_filesystem.Names.Tokens.Cons.{tokens-nil, tokens-slash_cons}
use cs5600_filesystem.State.{Fs}
use cs5600_filesystem.Shell.{Shell, Output, Ran, ran, crash}
use cs5600_filesystem.Shell.Words.{split}
use cs5600_filesystem.Shell.Words.Tokens.{AreNames, split-AreNames}
use cs5600_filesystem.Shell.Dirs.{join, tail, do_cd, get_cwd}
use cs5600_filesystem.Shell.Cd.Goes.{spelled, join-spelled}
use cs5600_filesystem.Shell.Cd.{
  put_names, cd_names, in_arrays, in_paths, at_names, start_names, do_cd-cd_names,
}

-- `cwd` is the path of the names in `paths`, both are inside of their arrays, and a name is not
-- empty and has no slash.
pub record IsShell (sh : Shell) : Type 0 where
  pub cwd : sh.cwd ≡ spelled (reverse sh.names)
  pub room : in_arrays sh.names ≡ true
  pub names : AreNames sh.names

put_names-AreNames :
    (ns names : List Bytes) → AreNames ns → AreNames names → AreNames (put_names ns names)
put_names-AreNames [] names h k = k
put_names-AreNames (n ∷ ns) names (is, h) k = put_names-AreNames ns (n ∷ names) h (is, k)

tail-AreNames : (names : List Bytes) → AreNames names → AreNames (tail names)
tail-AreNames [] h = tt
tail-AreNames (n ∷ names) h = h.1

start_names-AreNames :
    (dir : Bytes) (names : List Bytes) → AreNames names → AreNames (start_names dir names)
start_names-AreNames dir names h = elim (Bool-cases (get_or dir 0 0 == slash)) [
  | inl e ↦ rw e tt
  | inr e ↦ rw e h
]

cd_names-AreNames :
    (dir : Bytes) (names : List Bytes) → AreNames names → AreNames (cd_names dir names)
cd_names-AreNames dir names h = elim (Bool-cases (bytes_eq dir (codes ".."))) [
  | inl e ↦ rw e (tail-AreNames names h)
  | inr e ↦ rw e (
      put_names-AreNames (split dir 10 (codes "/")) (start_names dir names) (split-AreNames dir 10)
        (start_names-AreNames dir names h))
]

abbrev shell_of : {A : Type 0} → Shell → Ran A → Shell
shell_of d (ran a sh s out) = sh
shell_of d crash = d

in_arrays-in_paths : (names : List Bytes) → in_arrays names ≡ true → in_paths names ≡ true
in_arrays-in_paths names e = ground (arith, e)

pub cd_run :
    (dir : Bytes) (sh : Shell) (s : Fs) (b : Bool)
    → IsShell sh
    → in_arrays (cd_names dir sh.names) ≡ b
    → do_cd dir sh s ≡ (if b then ran (pos 0) (at_names sh (cd_names dir sh.names)) s [] else crash)
cd_run dir sh s b is e =
    do_cd-cd_names dir sh s (in_arrays-in_paths sh.names is.room)
    ∙ ap (λ b. if b then ran (pos 0) (at_names sh (cd_names dir sh.names)) s [] else crash) e

abbrev is_ran : {A : Type 0} → Ran A → Bool
is_ran (ran a sh s out) = true
is_ran crash = false

-- The tokens of the string for some names.
tokens-join : (names : List Bytes) → AreNames names → tokens (join names) ≡ reverse names
unfolding join
tokens-join [] h = tokens-nil
tokens-join ([] ∷ names) ((ne, _), h) = absurd (ne refl)
tokens-join ((c ∷ name) ∷ names) ((_, plain), h) = rw (reverse-append ((c ∷ name) ∷ []) names) (
    tokens-append (join names) (c ∷ name)
    ∙ ap (λ ts. ts ++ tokens (c ∷ name)) (tokens-join names h)
    ∙ ap (λ ts. reverse names ++ ts) (tokens-IsPlain c name plain))

get_cwd-tokens : (sh : Shell) → IsShell sh → tokens (get_cwd sh) ≡ reverse sh.names
unfolding get_cwd
get_cwd-tokens sh is = elim (List-cases sh.names) [
  | inl e ↦ rw (e, tokens-slash_cons []) tokens-nil
  | inr (n, ns, e) ↦ rw e (
      rw is.cwd
        (ap tokens (sym (join-spelled sh.names)) ∙ tokens-join sh.names is.names ∙ ap reverse e))
]

cd_names-IsShell :
    (dir : Bytes) (sh : Shell)
    → IsShell sh
    → in_arrays (cd_names dir sh.names) ≡ true
    → IsShell (at_names sh (cd_names dir sh.names))
cd_names-IsShell dir sh is e = record {
  cwd = join-spelled (cd_names dir sh.names);
  room = e;
  names = cd_names-AreNames dir sh.names is.names;
}

-- A `cd` that ends, in a command line whose names fit `paths` and whose `cwd` is their path from the
-- first one on, leaves them so: the names are not empty and have no slash, and all is inside of the
-- arrays. The path that `get_cwd` then gives to the other commands, "/" or `cwd`, is one along which
-- homework.c walks through exactly the names.
pub do_cd-IsShell :
    (dir : Bytes) (sh sh' : Shell) (s s' : Fs) (a : ℤ) (out : List Output)
    → IsShell sh
    → do_cd dir sh s ≡ ran a sh' s' out
    → IsShell sh' × (tokens (get_cwd sh') ≡ reverse sh'.names)
do_cd-IsShell dir sh sh' s s' a out is run = elim (Bool-cases (in_arrays (cd_names dir sh.names))) [
  | inl e ↦
      let same : at_names sh (cd_names dir sh.names) ≡ sh' =
        ap (shell_of sh) (sym (cd_run dir sh s true is e) ∙ run) in
      let is' : IsShell sh' = subst IsShell same (cd_names-IsShell dir sh is e) in
      (is', get_cwd-tokens sh' is')
  | inr e ↦
      let same : false ≡ true = ap is_ran (sym (cd_run dir sh s false is e) ∙ run) in
      absurd (ground arith)
]
