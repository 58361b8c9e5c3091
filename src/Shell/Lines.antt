-- ===== src/Shell/Lines.antt =====
-- The loop of `cmdloop` over the lines of the input ends.
use cs5600_filesystem.Base.{
  ℕ, zero, suc, ◌+◌, ◌≤◌, ◌≡◌, refl, [], ◌∷◌, arith, ◌==◌, if◌then◌else◌, Bytes, codes, List, Bool,
  true, false, subst, length, Bool-cases, inl, inr,
}
use cs5600_filesystem.Shell.{Shell, Host, Output, said, Ran, ran, crash, more, then_do, pure}
use cs5600_filesystem.State.{Fs}
use cs5600_filesystem.Shell.Loop.{run_line, fgets, command_loop}

length-fgets : (room : ℕ) (input : Bytes) → length (fgets room input).1 ≤ length input
unfolding fgets
length-fgets zero input = omega arith
length-fgets (suc n) [] = omega arith
length-fgets (suc n) (c ∷ input) = elim (Bool-cases (c == b'\n')) [
  | inl e ↦ rw e (omega arith)
  | inr e ↦ rw e (omega (arith, length-fgets n input))
]

-- A line takes a byte at least.
length-fgets_cons : (n c : ℕ) (input : Bytes) → length (fgets (suc n) (c ∷ input)).1 ≤ length input
unfolding fgets
length-fgets_cons n c input = elim (Bool-cases (c == b'\n')) [
  | inl e ↦ rw e (omega arith)
  | inr e ↦ rw e (length-fgets n input)
]

abbrev prompt : Output
prompt = said (codes "cmd> ")

-- How the loop runs on an input, line by line, without a bound on the rounds: it ends at the end of the
-- input, behind `quit` or `exit`, or where a command stops the process.
pub data Serves (host : Host) : Bytes → Shell → Fs → Ran (Unit {0}) → Type 0 where
  at_end : (sh : Shell) (s : Fs) → Serves host [] sh s (ran tt sh s (prompt ∷ []))
  stops :
      (c : ℕ) (rest : Bytes) (sh : Shell) (s : Fs)
      → run_line host (fgets 127 (c ∷ rest)).0 sh s ≡ crash
      → Serves host (c ∷ rest) sh s crash
  quits :
      (c : ℕ) (rest : Bytes) (sh sh' : Shell) (s s' : Fs) (out : List Output)
      → run_line host (fgets 127 (c ∷ rest)).0 sh s ≡ ran false sh' s' out
      → Serves host (c ∷ rest) sh s (more (prompt ∷ []) (more out (ran tt sh' s' [])))
  goes_on :
      (c : ℕ) (rest : Bytes) (sh sh' : Shell) (s s' : Fs) (out : List Output) (r : Ran (Unit {0}))
      → run_line host (fgets 127 (c ∷ rest)).0 sh s ≡ ran true sh' s' out
      → Serves host (fgets 127 (c ∷ rest)).1 sh' s' r
      → Serves host (c ∷ rest) sh s (more (prompt ∷ []) (more out r))

-- One round, for each end of its line.
module _ (host : Host) (k c : ℕ) (rest : Bytes) (sh : Shell) (s : Fs)
    (left : (sh' : Shell) (s' : Fs)
      → Serves host
          (fgets 127 (c ∷ rest)).1
          sh'
          s'
          (command_loop k host (fgets 127 (c ∷ rest)).1 sh' s')) where
  round-Serves :
      (r : Ran Bool)
      → run_line host (fgets 127 (c ∷ rest)).0 sh s ≡ r
      → Serves host (c ∷ rest) sh s (
          more (prompt ∷ []) (
            then_do r
              λ go_on. if go_on then command_loop k host (fgets 127 (c ∷ rest)).1 else pure tt))
  round-Serves crash e = stops c rest sh s e
  round-Serves (ran true sh' s' out) e = goes_on c rest sh sh' s s' out _ e (left sh' s')
  round-Serves (ran false sh' s' out) e = quits c rest sh sh' s s' out e

command_loop-rounds :
    (host : Host) (n : ℕ) (input : Bytes) (sh : Shell) (s : Fs)
    → length input ≤ n
    → Serves host input sh s (command_loop (suc n) host input sh s)
unfolding command_loop
command_loop-rounds host n [] sh s le = at_end sh s
command_loop-rounds host zero (c ∷ rest) sh s le = absurd (omega arith)
command_loop-rounds host (suc n) (c ∷ rest) sh s le =
    round-Serves host (suc n) c rest sh s
      (λ sh' s'.
        command_loop-rounds host n (fgets 127 (c ∷ rest)).1 sh' s'
          (omega (arith, length-fgets_cons 126 c rest)))
      (run_line host (fgets 127 (c ∷ rest)).0 sh s) refl

-- The loop ends on every input, with one round for each byte and one more: the end of the input,
-- `quit` or `exit` is reached line by line, and the process stops only where a command stops it.
pub command_loop-Serves :
    (host : Host) (input : Bytes) (sh : Shell) (s : Fs)
    → Serves host input sh s (command_loop (length input + 1) host input sh s)
command_loop-Serves host input sh s =
    let rounds : suc (length input) ≡ length input + 1 = omega arith in
    subst (λ k. Serves host input sh s (command_loop k host input sh s)) rounds
      (command_loop-rounds host (length input) input sh s (omega arith))
