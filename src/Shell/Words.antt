-- ===== src/Shell/Words.antt =====
-- `split`, `fix_path`, `strtol` and `atoi`, as the command line of misc.c uses them.
pub mod Tokens
pub mod Ups
use cs5600_filesystem.Base.{
  ℕ, zero, suc, ◌+◌, ◌-◌, ◌*◌, ◌^◌, ◌%◌, Bool, true, false, ◌&&◌, ◌||◌, Option, none, some, List,
  [], ◌∷◌, ◌++◌, leb, ltb, ◌==◌, if◌then◌else◌, Bytes, length,
}
use cs5600_filesystem.Base.Int.{ℤ, pos, negsuc}

-- Is the byte one of `delim`?
abbrev pub is_one_of : ℕ → Bytes → Bool
is_one_of c [] = false
is_one_of c (d ∷ delim) = c == d || is_one_of c delim

start : ℕ → Bool → List Bytes → List Bytes
start c false ws = (c ∷ []) ∷ ws
start c true [] = (c ∷ []) ∷ []
start c true (w ∷ ws) = (c ∷ w) ∷ ws

-- Does the text go on with a byte that is no delimiter?
goes_on : Bytes → Bytes → Bool
goes_on delim [] = false
goes_on delim (c ∷ s) = if is_one_of c delim then false else true

-- What `strtok` returns, call by call.
unfoldable pub words : Bytes → Bytes → List Bytes
unfolding start goes_on
words delim [] = []
words delim (c ∷ s) =
    let rest = words delim s in if is_one_of c delim then rest else start c (goes_on delim s) rest

unfoldable pub take {ℓ} : {A : Type ℓ} → ℕ → List A → List A
take zero xs = []
take (suc n) [] = []
take (suc n) (x ∷ xs) = x ∷ take n xs

-- `split`: at most `n` words.
abbrev pub split : Bytes → (n : ℕ) → (delim : Bytes) → List Bytes
split p n delim = take n (words delim p)

-- `strstr(path, "../")`: what comes before the first occurrence, and what comes behind it.
unfoldable pub find_up : Bytes → Option (Bytes × Bytes)
find_up [] = none
find_up (a ∷ []) = none
find_up (a ∷ b ∷ []) = none
find_up (a ∷ b ∷ c ∷ s) =
    let rest = find_up (b ∷ c ∷ s) in
    if a == b'.' && b == b'.' && c == b'/'
    then some ([], s)
    else elim rest [ none ↦ none | some (before, behind) ↦ some (a ∷ before, behind) ]

-- The loop of `fix_path`. Each round takes three bytes out.
unfoldable pub cut_ups : (fuel : ℕ) → Bytes → Bytes
cut_ups zero path = path
cut_ups (suc n) path = elim (find_up path) [
  | none ↦ path
  | some (before, behind) ↦ cut_ups n (before ++ behind)
]

unfoldable pub fix_path : Bytes → Bytes
fix_path path = cut_ups (length path) path

-- The digits of `strtol` and `atoi` in a base of at most 10.
unfoldable pub digits : (base acc : ℕ) → Bytes → ℕ
digits base acc [] = acc
digits base acc (c ∷ s) = elim (leb b'0' c && ltb c (b'0' + base)) [
  | true ↦ digits base (acc * base + (c - b'0')) s
  | false ↦ acc
]

-- A value as `strtol` keeps it, in 64 bits, and as `int` then keeps it.
abbrev pub wrap : (minus : Bool) → ℕ → ℕ
wrap false n = (if ltb n (2 ^ 63) then n else 2 ^ 63 - 1) % 2 ^ 32
wrap true n = (2 ^ 64 - (if leb n (2 ^ 63) then n else 2 ^ 63)) % 2 ^ 32

-- `(int) strtol(s, NULL, base)`, as 32 bits. A word has no space in front; of the other bytes that
-- `strtol` skips there, a word can start with \v, \f and \r.
unfoldable pub to_int : (base : ℕ) → Bytes → ℕ
to_int base [] = 0
to_int base (c ∷ s) =
    let rest = to_int base s in
    if leb 11 c && leb c 13
    then rest
    else if c == b'-'
    then wrap true (digits base 0 s)
    else if c == b'+'
    then wrap false (digits base 0 s)
    else wrap false (digits base 0 (c ∷ s))
