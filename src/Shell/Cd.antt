-- ===== src/Shell/Cd.antt =====
-- `do_cd` and `update_cwd`: the current directory as a list of names, and the string for it.
pub mod Goes
pub mod Names
pub mod Back
use mathlib.Core.List.{reverse-append, append_assoc, append-nil}
use cs5600_filesystem.Base.{
  ℕ, zero, suc, ◌+◌, ◌≤◌, ◌<◌, ◌≡◌, ◌≢◌, refl, sym, ap, ◌∙◌, Bool, true, false, ◌&&◌, List, [], ◌∷◌,
  ◌++◌, reverse, arith, ltb, leb, ◌==◌, Bytes, codes, length, get_or, All, bytes_eq, Bool-cases,
  inl, inr, if◌then◌else◌,
}
use cs5600_filesystem.Base.Int.{pos}
use cs5600_filesystem.Names.{slash, tokens}
use cs5600_filesystem.Names.Tokens.{IsPlain, tokens-append}
use cs5600_filesystem.Names.Tokens.Cons.{tokens-nil}
use cs5600_filesystem.State.{Fs}
use cs5600_filesystem.Shell.{Shell, Ran, ran, crash, then_do, more, pure, ◌>>◌}
use cs5600_filesystem.Shell.Words.{words, split}
use cs5600_filesystem.Shell.Dirs.{join, update_cwd, push_names, tail, do_cd}
use cs5600_filesystem.Shell.Steps.{and_so, more-nil, quiet}

-- The names of the path `dir` go behind those of the current directory.
abbrev pub put_names : List Bytes → List Bytes → List Bytes
put_names [] names = names
put_names (name ∷ rest) names = put_names rest (name ∷ names)

-- What `cd dir` means for a list of names, the last one first.
abbrev pub cd_names : (dir : Bytes) → List Bytes → List Bytes
cd_names dir names =
    if bytes_eq dir (codes "..")
    then tail names
    else put_names (split dir 10 (codes "/")) (if get_or dir 0 0 == slash then [] else names)

-- The rows of `paths` hold the names.
abbrev pub in_rows : List Bytes → Bool
in_rows [] = true
in_rows (name ∷ names) = ltb (length name) 44 && in_rows names

-- `paths` has the rows.
abbrev pub in_paths : List Bytes → Bool
in_paths names = leb (length names) 16 && in_rows names

-- `paths` and `cwd` have room for them.
abbrev pub in_arrays : List Bytes → Bool
in_arrays names = in_paths names && ltb (length (join names)) 128

abbrev pub at_names : Shell → List Bytes → Shell
at_names sh names = record sh { names = names; cwd = join names }

update_cwd-lem :
    (sh : Shell) (s : Fs)
    → update_cwd sh s ≡ (
        if ltb (length (join sh.names)) 128
        then ran tt (record sh { cwd = join sh.names }) s []
        else crash)
unfolding update_cwd
update_cwd-lem sh s = elim (Bool-cases (ltb (length (join sh.names)) 128)) [
  | inl e ↦ rw e refl
  | inr e ↦ rw e refl
]

in_rows-put_names :
    (ns names : List Bytes) → in_rows (put_names ns names) ≡ in_rows ns && in_rows names
in_rows-put_names [] names = refl
in_rows-put_names (n ∷ ns) names = ground (arith, in_rows-put_names ns (n ∷ names))

length-put_names : (ns names : List Bytes) → length (put_names ns names) ≡ length ns + length names
length-put_names [] names = omega arith
length-put_names (n ∷ ns) names = omega (arith, length-put_names ns (n ∷ names))

push_names-ok :
    (ns : List Bytes) (sh : Shell) (s : Fs)
    → in_paths (put_names ns sh.names) ≡ true
    → push_names ns sh s ≡ ran tt (record sh { names = put_names ns sh.names }) s []
unfolding push_names
push_names-ok [] sh s e = refl
push_names-ok (n ∷ ns) sh s e =
    let room : (ltb (length sh.names) 16 && ltb (length n) 44) ≡ true =
      ground (arith, in_rows-put_names ns (n ∷ sh.names), length-put_names ns (n ∷ sh.names)) in
    rw room (quiet (quiet (quiet (push_names-ok ns (record sh { names = n ∷ sh.names }) s e))))

push_names-crash :
    (ns : List Bytes) (sh : Shell) (s : Fs)
    → in_paths sh.names ≡ true
    → in_paths (put_names ns sh.names) ≡ false
    → push_names ns sh s ≡ crash
unfolding push_names
push_names-crash [] sh s now e = ground (arith, now, e)
push_names-crash (n ∷ ns) sh s now e =
    elim (Bool-cases (ltb (length sh.names) 16 && ltb (length n) 44)) [
      | inl room ↦
          let next : in_paths (n ∷ sh.names) ≡ true = ground (arith, now, room) in
          rw room (rw (push_names-crash ns (record sh { names = n ∷ sh.names }) s next e) refl)
      | inr room ↦ rw room refl
    ]

-- What `do_cd` leaves of the names at first.
abbrev start_names : (dir : Bytes) → List Bytes → List Bytes
start_names dir names = if get_or dir 0 0 == slash then [] else names

do_cd-up :
    (dir : Bytes) (sh : Shell) (s : Fs)
    → bytes_eq dir (codes "..") ≡ true
    → do_cd dir sh s
      ≡ then_do (update_cwd (record sh { names = tail sh.names }) s) (λ _. pure (pos 0))
unfolding do_cd
do_cd-up dir sh s e = rw e (more-nil _)

do_cd-down :
    (dir : Bytes) (sh : Shell) (s : Fs)
    → bytes_eq dir (codes "..") ≡ false
    → do_cd dir sh s
      ≡ then_do
          (push_names (split dir 10 (codes "/")) (record sh { names = start_names dir sh.names }) s)
          (λ _. update_cwd >> pure (pos 0))
unfolding do_cd
do_cd-down dir sh s e = rw e (
    ap (λ r. then_do r (λ _. update_cwd >> pure (pos 0)))
      (more-nil
        (push_names (split dir 10 (codes "/")) (record sh { names = start_names dir sh.names }) s)))

-- The last step of `do_cd`.
update_cwd-pure :
    (sh : Shell) (s : Fs)
    → in_paths sh.names ≡ true
    → then_do (update_cwd sh s) (λ _. pure (pos 0))
      ≡ (if in_arrays sh.names then ran (pos 0) (at_names sh sh.names) s [] else crash)
update_cwd-pure sh s e =
    rw (update_cwd-lem sh s, e)
      (elim (Bool-cases (ltb (length (join sh.names)) 128)) [
        | inl f ↦ rw f refl
        | inr f ↦ rw f refl
      ])

in_paths-tail : (names : List Bytes) → in_paths names ≡ true → in_paths (tail names) ≡ true
in_paths-tail [] e = refl
in_paths-tail (n ∷ names) e = ground (arith, e)

in_paths-start :
    (dir : Bytes) (names : List Bytes)
    → in_paths names ≡ true
    → in_paths (start_names dir names) ≡ true
in_paths-start dir names e = elim (Bool-cases (get_or dir 0 0 == slash)) [
  | inl f ↦ rw f refl
  | inr f ↦ rw f e
]

-- On rows that fit `paths`, `do_cd` is `cd_names` on the list of names.
pub do_cd-cd_names :
    (dir : Bytes) (sh : Shell) (s : Fs)
    → in_paths sh.names ≡ true
    → do_cd dir sh s ≡ (
        if in_arrays (cd_names dir sh.names)
        then ran (pos 0) (at_names sh (cd_names dir sh.names)) s []
        else crash)
do_cd-cd_names dir sh s e = elim (Bool-cases (bytes_eq dir (codes ".."))) [
  | inl f ↦
      do_cd-up dir sh s f
      ∙ rw f (update_cwd-pure (record sh { names = tail sh.names }) s (in_paths-tail sh.names e))
  | inr f ↦
      let names = put_names (split dir 10 (codes "/")) (start_names dir sh.names) in
      let begun = record sh { names = start_names dir sh.names } in
      elim (Bool-cases (in_paths names)) [
        | inl g ↦
            do_cd-down dir sh s f
            ∙ ap (λ r. then_do r (λ _. update_cwd >> pure (pos 0)))
                (push_names-ok (split dir 10 (codes "/")) begun s g)
            ∙ rw f (quiet (update_cwd-pure (record sh { names = names }) s g))
        | inr g ↦
            do_cd-down dir sh s f
            ∙ ap (λ r. then_do r (λ _. update_cwd >> pure (pos 0)))
                (push_names-crash (split dir 10 (codes "/")) begun s (in_paths-start dir sh.names e)
                  g)
            ∙ rw f (rw g refl)
      ]
]
