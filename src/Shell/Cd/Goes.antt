-- ===== src/Shell/Cd/Goes.antt =====
-- `do_cd` and `cwd`, against the path of the names from the first one on.
use mathlib.Core.List.{reverse-append, append_assoc, append-nil}
use cs5600_filesystem.Base.{
  ℕ, zero, suc, ◌≤◌, ◌≡◌, ◌≢◌, refl, sym, ap, ◌∙◌, Bool, true, ◌&&◌, List, [], ◌∷◌, ◌++◌, reverse,
  arith, ltb, ◌==◌, Bytes, codes, length, get_or, bytes_eq, bytes_eq_iff, Bool-cases, ◌⊎◌, inl, inr,
  if◌then◌else◌,
}
use cs5600_filesystem.Base.Int.{pos}
use cs5600_filesystem.Names.{slash, tokens}
use cs5600_filesystem.State.{Fs}
use cs5600_filesystem.Shell.{Shell, ran, crash}
use cs5600_filesystem.Shell.Words.{words, take, split}
use cs5600_filesystem.Shell.Words.Tokens.{words-tokens}
use cs5600_filesystem.Shell.Dirs.{join, tail, do_cd}
use cs5600_filesystem.Shell.Cd.{
  put_names, cd_names, in_arrays, in_paths, at_names, start_names, do_cd-cd_names,
}

-- The path of some names, from the first one on: a slash and the name, for each.
abbrev pub spelled : List Bytes → Bytes
spelled [] = []
spelled (name ∷ names) = slash ∷ name ++ spelled names

spelled-append : (xs ys : List Bytes) → spelled (xs ++ ys) ≡ spelled xs ++ spelled ys
spelled-append [] ys = refl
spelled-append (x ∷ xs) ys =
    ap (λ t. slash ∷ x ++ t) (spelled-append xs ys)
    ∙ ap (λ t. slash ∷ t) (sym (append_assoc x (spelled xs) (spelled ys)))

pub join-spelled : (names : List Bytes) → join names ≡ spelled (reverse names)
unfolding join
join-spelled [] = refl
join-spelled (name ∷ names) = rw (reverse-append (name ∷ []) names) (
    ap (λ t. t ++ slash ∷ name) (join-spelled names)
    ∙ ap (λ t. spelled (reverse names) ++ slash ∷ t) (sym (append-nil name))
    ∙ sym (spelled-append (reverse names) (name ∷ [])))

-- What `cd dir` makes of the names of the current directory, the last one first: ".." takes the last
-- one away if there is one; else the names of the path `dir`, ten at most, come behind them, or
-- alone if the path begins with a slash.
pub data Goes (dir : Bytes) : (old new : List Bytes) → Type 0 where
  at_root : dir ≡ codes ".." → Goes dir [] []
  up : (name : Bytes) (names : List Bytes) → dir ≡ codes ".." → Goes dir (name ∷ names) names
  down :
      (old new pushed dropped : List Bytes)
      → dir ≢ codes ".."
      → tokens dir ≡ pushed ++ dropped
      → length pushed ≤ 10
      → (dropped ≡ []) ⊎ (length pushed ≡ 10)
      → reverse new ≡ reverse (if get_or dir 0 0 == slash then [] else old) ++ pushed
      → Goes dir old new

take-cut :
    (n : ℕ) (ws : List Bytes)
    → (dropped : List Bytes) × (ws ≡ take n ws ++ dropped)
      × (length (take n ws) ≤ n)
      × ((dropped ≡ []) ⊎ (length (take n ws) ≡ n))
unfolding take
take-cut zero ws = (ws, refl, omega arith, inr refl)
take-cut (suc n) [] = ([], refl, omega arith, inl refl)
take-cut (suc n) (w ∷ ws) =
    let (dropped, e, le, ends) = take-cut n ws in
    (
      dropped,
      ap (λ t. w ∷ t) e,
      omega arith,
      elim ends [ inl none ↦ inl none | inr all ↦ inr (omega (arith, all)) ],
    )

reverse-put_names : (ns names : List Bytes) → reverse (put_names ns names) ≡ reverse names ++ ns
reverse-put_names [] names = sym (append-nil (reverse names))
reverse-put_names (n ∷ ns) names =
    reverse-put_names ns (n ∷ names)
    ∙ ap (λ t. t ++ ns) (reverse-append (n ∷ []) names)
    ∙ append_assoc (reverse names) (n ∷ []) ns

up-Goes : (dir : Bytes) (names : List Bytes) → dir ≡ codes ".." → Goes dir names (tail names)
up-Goes dir [] e = at_root e
up-Goes dir (name ∷ names) e = up name names e

pub cd_names-Goes : (dir : Bytes) (names : List Bytes) → Goes dir names (cd_names dir names)
cd_names-Goes dir names = elim (Bool-cases (bytes_eq dir (codes ".."))) [
  | inl e ↦ rw e (up-Goes dir names ((bytes_eq_iff dir (codes "..")).0 e))
  | inr e ↦
      let other : dir ≢ codes ".." =
        λ same. let yes = (bytes_eq_iff dir (codes "..")).1 same in cc (e, yes) in
      let (dropped, whole, le, ends) = take-cut 10 (words (codes "/") dir) in
      rw e (
        down names _ (split dir 10 (codes "/")) dropped other (sym (words-tokens dir) ∙ whole) le
          ends (reverse-put_names (split dir 10 (codes "/")) (start_names dir names)))
]

-- 16 names of less than 44 bytes, with a path of less than 128 bytes.
abbrev pub fits : List Bytes → Bool
fits names = in_paths names && ltb (length (spelled (reverse names))) 128

pub in_arrays-fits : (names : List Bytes) → in_arrays names ≡ fits names
in_arrays-fits names = ap (λ t. in_paths names && ltb (length t) 128) (join-spelled names)

-- On names that fit `paths`, `do_cd` goes to the names that `cd` means: it takes the last one away for
-- "..", and else puts the first ten names of the path behind the others, or behind none if the path
-- begins with a slash. If these names fit `paths`, and their path, each name behind a slash, fits
-- `cwd`, the command returns 0 and leaves them there, prints nothing, and the file system stays; else
-- it leaves one of the two arrays.
pub do_cd_lem :
    (dir : Bytes) (sh : Shell) (s : Fs)
    → in_paths sh.names ≡ true
    → (names : List Bytes) × Goes dir sh.names names
      × (do_cd dir sh s ≡ (
          if fits names
          then ran (pos 0) (record sh { names = names; cwd = spelled (reverse names) }) s []
          else crash))
do_cd_lem dir sh s e =
    let names : List Bytes = cd_names dir sh.names in
    (
      names,
      cd_names-Goes dir sh.names,
      do_cd-cd_names dir sh s e
          ∙ ap (λ b. if b then ran (pos 0) (at_names sh names) s [] else crash)
              (in_arrays-fits names)
          ∙ ap
              (λ t.
                if fits names
                then ran (pos 0) (record sh { names = names; cwd = t }) s []
                else crash)
              (join-spelled names),
    )
