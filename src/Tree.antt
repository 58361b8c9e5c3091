-- ===== src/Tree.antt =====
-- Directories and path translation: `struct fs5600_dirent`, `translate`, `inode_is_dir`,
-- `find_free_dirent_num`.
pub mod Dirent
pub mod Lookup
pub mod Entries
pub mod Leads
pub mod Total
pub mod Same
pub mod Held
pub mod Names
use cs5600_filesystem.Base.{
  ℕ, ◌+◌, ◌-◌, ◌*◌, ◌/◌, ◌%◌, ◌≡◌, Bool, true, false, not, ◌&&◌, Option, none, some, List, [], ◌∷◌,
  ltb, ◌==◌, if◌then◌else◌, Bytes,
}
use cs5600_filesystem.Base.Int.{ℤ, pos, ℤ_eq, enoent, enotdir}
use cs5600_filesystem.Base.Search.{first_index, last_index}
use cs5600_filesystem.Memory.{Block}
use cs5600_filesystem.Names.{tokens}
use cs5600_filesystem.State.{Fs, Cmd, ok, fault, pure, ◌>>=◌, ◌>>◌, gets}
use cs5600_filesystem.State.Device.{read_block}
use cs5600_filesystem.State.Inode.{field, w_direct, inode_at}
use cs5600_filesystem.Tree.Dirent.{dir_valid, dir_is_dir, dir_inode, dir_name_is}

-- The block `inode->direct[0]` of an inode.
unfoldable pub read_dir : ℕ → Cmd Block
read_dir inum s = read_block (field s inum w_direct) s

-- strcmp(dir[i].name, name) == 0 && dir[i].valid == 1
unfoldable pub matches : Block → Bytes → ℕ → Bool
matches dir name i = dir_name_is dir i name && dir_valid dir i

-- The search of `translate` has no `break`: the last entry that matches is taken.
unfoldable pub find_entry : Block → Bytes → Option ℕ
find_entry dir name = last_index 32 0 (matches dir name) none

-- The loop of `translate`, from the inode `inum` on; `valid` and `is_dir` are fields of
-- `*current_dir`.
unfoldable pub walk : List Bytes → (inum : ℕ) → (valid is_dir : Bool) → Cmd ℤ
walk [] inum valid is_dir = pure (pos inum)
walk (token ∷ rest) inum valid is_dir =
    if not valid then pure enoent else if not is_dir then pure enotdir else do
      father ← inode_at (pos inum)
      dir ← read_dir father
      elim (find_entry dir token) [
        | none ↦ pure enoent
        | some i ↦ walk rest (dir_inode dir i) (dir_valid dir i) (dir_is_dir dir i)
      ]

-- The inode number of a path, or -ENOENT or -ENOTDIR. The walk starts at inode 1.
unfoldable pub translate : Bytes → Cmd ℤ
translate path = walk (tokens path) 1 true true

-- `inode_is_dir`: the inode number, if the directory has a valid entry with it, or 0.
unfoldable pub inode_is_dir : (father_inum inum : ℤ) → Cmd ℕ
inode_is_dir father_inum inum = do
  father ← inode_at father_inum
  dir ← read_dir father
  elim (first_index 32 0 (λ i. dir_valid dir i && ℤ_eq (pos (dir_inode dir i)) inum)) [
    | none ↦ pure 0
    | some i ↦ pure (dir_inode dir i)
  ]

-- `find_free_dirent_num`: the first entry that is not valid; `none` for -1.
unfoldable pub find_free_dirent_num : ℕ → Cmd (Option ℕ)
find_free_dirent_num inum = do
  dir ← read_dir inum
  pure (first_index 32 0 (λ i. not (dir_valid dir i)))
