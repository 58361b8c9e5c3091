-- ===== src/Shell/Print/Rows.antt =====
-- The rows that a listing prints are sorted.
use mathlib.Core.List.{Permᴰ}
use mathlib.Core.List.Permᴰ
use cs5600_filesystem.Base.{ℕ, ◌<◌, length, All, ◌≡◌, List, [], ◌∷◌, Bytes}
use cs5600_filesystem.Shell.{Shell}

-- The order of `strcmp`: a row is a beginning of the other, or has the smaller byte where they first
-- differ.
pub data Precedes : Bytes → Bytes → Type 0 where
  beginning : (b : Bytes) → Precedes [] b
  smaller : (x y : ℕ) (a b : Bytes) → x < y → Precedes (x ∷ a) (y ∷ b)
  same_byte : (x y : ℕ) (a b : Bytes) → x ≡ y → Precedes a b → Precedes (x ∷ a) (y ∷ b)

-- Each row precedes the next one, or is the same.
pub data IsSorted : List Bytes → Type 0 where
  none : IsSorted []
  one : (row : Bytes) → IsSorted (row ∷ [])
  more :
      (row next : Bytes) (rows : List Bytes)
      → Precedes row next
      → IsSorted (next ∷ rows)
      → IsSorted (row ∷ next ∷ rows)

-- The rows fit `lsbuf`, with 64 bytes for each.
abbrev pub AreShort : List Bytes → Type 0
AreShort rows = All (λ row. length row < 64) rows
