-- ===== src/Shell.antt =====
-- The command line of misc.c: its state and the commands on it.
pub mod Words
pub mod Print
pub mod Dirs
pub mod Files
pub mod Loop
pub mod Steps
pub mod Show
pub mod Put
pub mod Cd
pub mod Lines
pub mod Main
use cs5600_filesystem.Base.{
  ℕ, Bool, true, false, Option, List, [], ◌∷◌, ◌++◌, Bytes, ltb, if◌then◌else◌,
}
use cs5600_filesystem.Base.Int.{ℤ}
use cs5600_filesystem.Ops.Read.{Buffer}
use cs5600_filesystem.State.{Fs, Env, Run, ok, fault, Cmd}

-- The globals of misc.c: the first `depth` rows of `paths`, the last one first, the string `cwd`, and
-- the buffer for reads and writes with its size.
pub record Shell : Type 0 where
  pub names : List Bytes
  pub cwd : Bytes
  pub blksiz : ℤ
  pub blkbuf : Buffer

-- What a command does outside of the image: it prints, or it has written a file of the host.
pub data Output : Type 0 where
  said : Bytes → Output
  stored : (name content : Bytes) → Output

-- The system calls: time and user, the content of a file of the host that can be opened, and whether
-- one can be opened to be written, which then takes every byte.
pub record Host : Type 0 where
  pub env : Env
  pub content : Bytes → Option Bytes
  pub can_write : Bytes → Bool
  pub strerror : ℤ → Bytes
  pub is_terminal : Bool

-- A command ends with a value, the two states and its outputs, or the process stops: an array of
-- misc.c is left, or the file system faults.
pub data Ran (A : Type 0) : Type 0 where
  ran : A → Shell → Fs → List Output → Ran A
  crash : Ran A

abbrev pub Act : Type 0 → Type 0
Act A = Shell → Fs → Ran A

abbrev pub more : {A : Type 0} → List Output → Ran A → Ran A
more out (ran a sh s out') = ran a sh s (out ++ out')
more out crash = crash

module _ {A B : Type 0} where
  abbrev pub then_do : Ran A → (A → Act B) → Ran B
  then_do (ran a sh s out) k = more out (k a sh s)
  then_do crash k = crash

  infixl 5 ◌>>=◌ ◌>>◌
  abbrev pub ◌>>=◌ : Act A → (A → Act B) → Act B
  m >>= k = λ sh s. then_do (m sh s) k

  abbrev pub ◌>>◌ : Act A → Act B → Act B
  m >> n = m >>= λ _. n

abbrev pub pure : {A : Type 0} → A → Act A
pure a sh s = ran a sh s []

abbrev pub stop : {A : Type 0} → Act A
stop sh s = crash

-- An operation of `fs_ops`.
abbrev pub after_run : {A : Type 0} → Shell → Run A → Ran A
after_run sh (ok a t) = ran a sh t []
after_run sh fault = crash

abbrev pub call : {A : Type 0} → Cmd A → Act A
call op sh s = after_run sh (op s)

abbrev pub say : Bytes → Act (Unit {0})
say text sh s = ran tt sh s (said text ∷ [])

abbrev pub get_shell : {A : Type 0} → (Shell → A) → Act A
get_shell f sh s = ran (f sh) sh s []

-- A write that stays inside of its array, or does not.
abbrev pub within : Bool → Act (Unit {0})
within true sh s = ran tt sh s []
within false sh s = crash
