-- ===== src/Shell/Print.antt =====
-- What the listings print: decimal numbers, `strmode`, and the sorted rows of `lsbuf`.
pub mod Rows
use cs5600_filesystem.Base.{
  ℕ, zero, suc, ◌+◌, ◌-◌, ◌*◌, ◌/◌, ◌%◌, ◌^◌, Bool, true, false, List, [], ◌∷◌, ◌++◌, ltb, leb,
  ◌==◌, if◌then◌else◌, Bytes, codes,
}
use cs5600_filesystem.Base.Int.{ℤ, pos, negsuc}
use cs5600_filesystem.State.Inode.{Stat, is_dir}

-- The decimal digits of a number, in front of a text; `fuel` digits are enough for a number below
-- 10 ^ fuel.
unfoldable pub decimal : (fuel n : ℕ) → Bytes → Bytes
decimal zero n rest = rest
decimal (suc k) n rest = elim (ltb n 10) [
  | true ↦ (b'0' + n) ∷ rest
  | false ↦ decimal k (n / 10) ((b'0' + n % 10) ∷ rest)
]

-- "%lld", for numbers of at most 20 digits.
abbrev pub print_int : ℤ → Bytes
print_int (pos n) = decimal 20 n []
print_int (negsuc n) = b'-' ∷ decimal 20 (n + 1) []

-- `(mask & mode) ? *str : '-'`, for the bit `k`
abbrev pub mode_char : (mode k c : ℕ) → ℕ
mode_char mode k c = if mode / 2 ^ k % 2 == 1 then c else b'-'

unfoldable pub strmode : ℕ → Bytes
strmode mode =
    (if is_dir mode then b'd' else b'-')
    ∷ mode_char mode 8 b'r'
    ∷ mode_char mode 7 b'w'
    ∷ mode_char mode 6 b'x'
    ∷ mode_char mode 5 b'r'
    ∷ mode_char mode 4 b'w'
    ∷ mode_char mode 3 b'x'
    ∷ mode_char mode 2 b'r'
    ∷ mode_char mode 1 b'w'
    ∷ mode_char mode 0 b'x'
    ∷ []

-- The rows that `filler` and `dashl_filler` make.
abbrev pub short_row : Bytes × Stat → Bytes
short_row (name, sb) = name ++ codes "\n"

abbrev pub long_row : Bytes × Stat → Bytes
long_row (name, sb) =
    name
    ++ (b' '
        ∷ (strmode sb.st_mode
            ++ (b' ' ∷ (print_int sb.st_size ++ (b' ' ∷ (print_int sb.st_blocks ++ codes "\n"))))))

-- `strcmp(a, b) <= 0`
unfoldable pub comes_before : Bytes → Bytes → Bool
comes_before [] b = true
comes_before (x ∷ a) [] = false
comes_before (x ∷ a) (y ∷ b) = let rest = comes_before a b in if x == y then rest else ltb x y

insert_row : Bytes → List Bytes → List Bytes
insert_row row [] = row ∷ []
insert_row row (r ∷ rows) =
    let rest = insert_row row rows in if comes_before row r then row ∷ r ∷ rows else r ∷ rest

-- `qsort` by `strcmp`: rows that compare equal are equal, so that there is one sorted order.
unfoldable pub sort_rows : List Bytes → List Bytes
unfolding insert_row
sort_rows [] = []
sort_rows (r ∷ rows) = insert_row r (sort_rows rows)

abbrev pub concat : List Bytes → Bytes
concat [] = []
concat (r ∷ rows) = r ++ concat rows
