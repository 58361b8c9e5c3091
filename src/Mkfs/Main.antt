-- ===== src/Mkfs/Main.antt =====
-- `parseint` and `main` of mkfs-x6.c: the arguments, and the image that is written for them.
pub mod Sizes
use cs5600_filesystem.Base.{
  ℕ, zero, suc, ◌+◌, ◌-◌, ◌*◌, ◌/◌, ◌%◌, ◌^◌, Bool, true, false, ◌&&◌, ◌||◌, Option, none, some,
  List, [], ◌∷◌, Bytes, codes, ltb, leb, ◌==◌, bytes_eq, get_or, if◌then◌else◌,
}
use cs5600_filesystem.Base.Int.{ℤ, pos, negsuc, ℤ_eq, signed32}
use cs5600_filesystem.Memory.{Area}
use cs5600_filesystem.Shell.Words.{wrap}
use cs5600_filesystem.Mkfs.{mkfs, inode_base}

-- The value of a byte as a digit of `strtol`, 36 where it is none.
unfoldable pub digit_value : ℕ → ℕ
digit_value c =
    if leb b'0' c && leb c b'9'
    then c - b'0'
    else if leb b'A' c && leb c b'Z'
    then c - b'A' + 10
    else if leb b'a' c && leb c b'z'
    then c - b'a' + 10
    else 36

-- The number that the first digits give, and what is behind them.
unfoldable pub read_digits : (base acc : ℕ) → Bytes → ℕ × Bytes
read_digits base acc [] = (acc, [])
read_digits base acc (c ∷ s) = elim (ltb (digit_value c) base) [
  | true ↦ read_digits base (acc * base + digit_value c) s
  | false ↦ (acc, c ∷ s)
]

abbrev pub tail : Bytes → Bytes
tail [] = []
tail (c ∷ s) = s

-- A number without a sign in base 0: "0x" and a digit, "0", or decimal.
unfoldable pub read_number : Bytes → ℕ × Bytes
read_number s =
    let x = get_or s 1 0 in
    if get_or s 0 0 == b'0'
    then (if (x == b'x' || x == b'X') && ltb (digit_value (get_or s 2 0)) 16
        then read_digits 16 0 (tail (tail s))
        else read_digits 8 0 s)
    else read_digits 10 0 s

-- `int n = strtol(s, &s, 0)`: the value as 32 bits, and the new `s`. Where there is no number the
-- value is 0, and `s` should be the old one; here it stands behind spaces and a sign.
unfoldable pub strtol : Bytes → ℕ × Bytes
strtol [] = (0, [])
strtol (c ∷ s) =
    let rest = strtol s in
    let (n, behind) = read_number s in
    let (n', behind') = read_number (c ∷ s) in
    if leb 9 c && leb c 13 || c == b' '
    then rest
    else if c == b'-'
    then (wrap true n, behind)
    else if c == b'+'
    then (wrap false n, behind)
    else (wrap false n', behind')

-- A product with `int` values; C does not say what one is that does not fit.
unfoldable pub scaled : (k : ℕ) → ℤ → Option ℤ
scaled k (pos n) = if ltb (n * k) (2 ^ 31) then some (pos (n * k)) else none
scaled k (negsuc n) = if leb (suc n * k) (2 ^ 31) then some (negsuc (suc n * k - 1)) else none

unfoldable pub parseint : Bytes → Option ℤ
parseint s =
    let (n, rest) = strtol s in
    let c = get_or rest 0 0 in
    if c == b'k' || c == b'K'
    then scaled 1024 (signed32 n)
    else if c == b'm' || c == b'M'
    then scaled (1024 * 1024) (signed32 n)
    else some (signed32 n)

-- The program prints its usage and exits with 1, stops by an assertion or where C promises nothing, or
-- writes an image of some blocks.
pub data Outcome : Type 0 where
  usage : Outcome
  stopped : Outcome
  written : (n_blks : ℕ) (image : Area) → Outcome

-- From the size on. The inodes, of which number 1 is written, lie inside of the allocation. After the
-- warning that the size is no multiple of a block the assertion at the end fails.
unfoldable pub make_image : (now : ℕ) → (size : ℤ) → Outcome
make_image now (negsuc n) = stopped
make_image now (pos size) =
    let n_blks = size / 1024 in
    if ltb (inode_base n_blks) n_blks && size == n_blks * 1024
    then written n_blks (mkfs n_blks now)
    else stopped

module _ (open_file : Bytes → Option ℕ) (now : ℕ) where
  -- The arguments behind the size: `open`, which gives the size of the file it finds or makes.
  unfoldable pub with_file : (size : ℤ) → List Bytes → Outcome
  with_file size (file ∷ []) = elim (open_file file) [
    | none ↦ usage
    | some st_size ↦
        make_image now (if ℤ_eq size (pos 0) then signed32 (st_size % 2 ^ 32) else size)
  ]
  with_file size [] = usage
  with_file size (a ∷ b ∷ rest) = usage

  -- `main`, with the arguments behind the program's name. Without any, `strcmp` gets a null pointer.
  unfoldable pub main_mkfs : List Bytes → Outcome
  main_mkfs [] = stopped
  main_mkfs (a ∷ []) = with_file (pos 0) (a ∷ [])
  main_mkfs (a ∷ b ∷ rest) =
      if bytes_eq a (codes "-size")
      then elim (parseint b) [ none ↦ stopped | some size ↦ with_file size rest ]
      else with_file (pos 0) (a ∷ b ∷ rest)
