-- ===== src/Tree/Dirent.antt =====
-- `struct fs5600_dirent` of fs5600.h: 32 to a block, each a word with the bit-fields `valid` (bit 0),
-- `isDir` (bit 1) and `inode` (30 bits), and the 28 bytes of the name.
use cs5600_filesystem.Base.{
  ℕ, ◌+◌, ◌-◌, ◌*◌, ◌/◌, ◌%◌, Bool, ltb, ◌==◌, if◌then◌else◌, Bytes, get_or,
}
use cs5600_filesystem.Memory.{Block, word, set_word, byte_of, string_at}

unfoldable pub dir_valid : Block → ℕ → Bool
dir_valid dir i = word dir (8 * i) % 2 == 1

unfoldable pub dir_is_dir : Block → ℕ → Bool
dir_is_dir dir i = word dir (8 * i) / 2 % 2 == 1

unfoldable pub dir_inode : Block → ℕ → ℕ
dir_inode dir i = word dir (8 * i) / 4

unfoldable pub dir_name_is : Block → ℕ → Bytes → Bool
dir_name_is dir i name = string_at dir (32 * i + 4) name

pub record Dirent : Type 0 where
  pub valid : Bool
  pub is_dir : Bool
  pub inode : ℕ
  pub name : Bytes

abbrev pub bit : Bool → ℕ
bit b = if b then 1 else 0

abbrev pub header : Dirent → ℕ
header d = bit d.valid + 2 * bit d.is_dir + 4 * (d.inode % 1073741824)

-- `memcpy(&dir[i], &d, sizeof(struct fs5600_dirent))`, with the name padded by NULs.
unfoldable pub put_dirent : Block → ℕ → Dirent → Block
put_dirent dir i d o =
    if o / 32 == i
    then (if ltb (o % 32) 4 then byte_of (header d) (o % 32) else get_or d.name (o % 32 - 4) 0)
    else dir o

-- `dir[i].valid = 0`
unfoldable pub clear_valid : Block → ℕ → Block
clear_valid dir i = set_word dir (8 * i) (word dir (8 * i) / 2 * 2)
