-- ===== src/Shell/Words/Ups.antt =====
-- `fix_path` takes every "../" out of a path, and does not go to the directory above.
use cs5600_filesystem.Base.{
  ℕ, zero, suc, ◌+◌, ◌≤◌, ◌≡◌, ◌≢◌, refl, sym, ap, ◌∙◌, none, some, [], ◌∷◌, ◌++◌, arith, Bytes,
  length, length-append, Option-cases, inl, inr,
}
use cs5600_filesystem.Shell.Words.{find_up, cut_ups, fix_path}

-- `p` with "../" between `before` and `behind`.
abbrev pub around : (before behind : Bytes) → Bytes
around before behind = before ++ b'.' ∷ b'.' ∷ b'/' ∷ behind

find_up-nil : find_up [] ≡ none
unfolding find_up
find_up-nil = refl

find_up-around :
    (p before behind : Bytes) → find_up p ≡ some (before, behind) → p ≡ around before behind
unfolding find_up
find_up-around [] x y e = ground arith
find_up-around (a ∷ []) x y e = ground arith
find_up-around (a ∷ b ∷ []) x y e = ground arith
find_up-around (a ∷ b ∷ c ∷ s) x y e = elim (Option-cases (find_up (b ∷ c ∷ s))) [
  | inl f ↦ ground (arith, e, f)
  | inr ((u, v), f) ↦ ground (arith, e, f, find_up-around (b ∷ c ∷ s) u v f)
]

find_up-finds : (before behind : Bytes) → find_up (around before behind) ≢ none
unfolding find_up
find_up-finds [] y = ground arith
find_up-finds (a ∷ []) y = ground arith
find_up-finds (a ∷ b ∷ []) y = ground arith
find_up-finds (a ∷ b ∷ c ∷ x) y = ground (arith, find_up-finds (b ∷ c ∷ x) y)

-- A path, and what is left of it after some occurrences of "../" were taken out, one by one.
pub data CutsTo : Bytes → Bytes → Type 0 where
  done : {p : Bytes} → CutsTo p p
  cut :
      {p q : Bytes} (before behind : Bytes)
      → p ≡ around before behind
      → CutsTo (before ++ behind) q
      → CutsTo p q

length-around :
    (before behind : Bytes) → length (around before behind) ≡ length (before ++ behind) + 3
length-around x y = omega (arith, length-append x (b'.' ∷ b'.' ∷ b'/' ∷ y), length-append x y)

cut_ups-none : (n : ℕ) (p : Bytes) → find_up p ≡ none → cut_ups (suc n) p ≡ p
unfolding cut_ups
cut_ups-none n p e = ground (arith, e)

cut_ups-some :
    (n : ℕ) (p x y : Bytes) → find_up p ≡ some (x, y) → cut_ups (suc n) p ≡ cut_ups n (x ++ y)
unfolding cut_ups
cut_ups-some n p x y e =
    ap (λ o. elim o as (λ _. Bytes) [ none ↦ p | some (a, b) ↦ cut_ups n (a ++ b) ]) e

cut_ups-ok :
    (n : ℕ) (p : Bytes) → length p ≤ n → CutsTo p (cut_ups n p) × (find_up (cut_ups n p) ≡ none)
unfolding cut_ups
cut_ups-ok zero [] le = (done, find_up-nil)
cut_ups-ok zero (c ∷ p) le = absurd (omega arith)
cut_ups-ok (suc n) p le = elim (Option-cases (find_up p)) [
  | inl e ↦ rw (cut_ups-none n p e) (done, e)
  | inr ((x, y), e) ↦
      let is : p ≡ around x y = find_up-around p x y e in
      let (cuts, no_up) = cut_ups-ok n (x ++ y) (omega (arith, length-around x y, ap length is)) in
      rw (cut_ups-some n p x y e) (cut x y is cuts, no_up)
]

-- The loop of `fix_path` ends; it takes occurrences of "../" out of the path, one by one, and what
-- is left has none.
pub fix_path_lem :
    (path : Bytes)
    → CutsTo path (fix_path path) × ((before behind : Bytes) → fix_path path ≢ around before behind)
unfolding fix_path
fix_path_lem path =
    let (cuts, no_up) = cut_ups-ok (length path) path (omega arith) in
    (cuts, λ x y e. find_up-finds x y (ap find_up (sym e) ∙ no_up))
