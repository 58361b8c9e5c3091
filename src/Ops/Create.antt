-- ===== src/Ops/Create.antt =====
-- `fs_mknod` and `fs_mkdir`.
use cs5600_filesystem.Base.{
  ℕ, ◌+◌, ◌*◌, ◌/◌, ◌%◌, Bool, true, false, not, Option, none, some, List, [], ◌∷◌, ltb, ◌==◌,
  if◌then◌else◌, Bytes, length,
}
use cs5600_filesystem.Base.Int.{
  ℤ, pos, negsuc, exceeds, is_negative, enotdir, eexist, enospc, einval, lookup_failed,
}
use cs5600_filesystem.Memory.{zero_block}
use cs5600_filesystem.Names.{trancate_path, get_name}
use cs5600_filesystem.State.{Env, Cmd, ok, fault, pure, ◌>>=◌, ◌>>◌, gets}
use cs5600_filesystem.State.Device.{write_block}
use cs5600_filesystem.State.Bitmap.{
  index, set_inode_bit, set_block_bit, update_bitmap, find_free_block_number,
  find_free_inode_map_bit,
}
use cs5600_filesystem.State.Inode.{
  field, w_direct, w_mode, inode_at, put_inode, update_inode, is_dir, is_reg,
}
use cs5600_filesystem.Tree.{read_dir, translate, find_free_dirent_num}
use cs5600_filesystem.Tree.Dirent.{Dirent, put_dirent}

-- A string that the code finds by an address outside of the path, where `get_name` fails.
abbrev pub or_fault : {A : Type 0} → Option A → Cmd A
or_fault none = λ _. fault
or_fault (some a) = pure a

abbrev pub assert : Bool → Cmd (Unit {0})
assert b s = if b then ok tt s else fault

-- The words of `struct fs5600_inode new_inode`.
abbrev pub new_inode : Env → (mode direct_0 : ℕ) → List ℕ
new_inode env mode direct_0 =
    (env.uid % 65536 + 65536 * (env.gid % 65536)) ∷ mode ∷ env.now ∷ env.now ∷ 0 ∷ direct_0 ∷ []

abbrev pub new_dirent : (is_dir : Bool) (inum : ℕ) (name : Bytes) → Dirent
new_dirent is_dir inum name = record { valid = true; is_dir = is_dir; inode = inum; name = name }

-- The inode is marked in the map, stored in memory, and both go to the disk.
unfoldable pub store_inode : ℕ → List ℕ → Cmd (Unit {0})
store_inode inum words = do
  set_inode_bit inum
  update_bitmap
  n ← inode_at (pos inum)
  put_inode n words
  update_inode n

-- The entry number `i` of the directory `father` becomes a new one.
unfoldable pub add_entry : (father i : ℕ) → (is_dir : Bool) → (inum : ℕ) → Bytes → Cmd (Unit {0})
add_entry father i is_dir inum path = do
  name ← or_fault (get_name path)
  assert (ltb (length name) 28)
  dir ← read_dir father
  blk ← gets (λ s. field s father w_direct)
  write_block blk (put_dirent dir i (new_dirent is_dir inum name))

-- From the search for a free inode on.
unfoldable pub make_node : Env → (path : Bytes) → (mode father i : ℕ) → Cmd ℤ
make_node env path mode father i = do
  free_inum ← find_free_inode_map_bit
  if is_negative free_inum then pure enospc else do
    inum ← index free_inum
    store_inode inum (new_inode env mode 0)
    add_entry father i false inum path
    pure (pos 0)

unfoldable pub fs_mknod : Env → Bytes → (mode : ℕ) → Cmd ℤ
fs_mknod env path mode = if not (is_reg mode) then pure einval else elim (trancate_path path) [
  | none ↦ pure (negsuc 0)
  | some father_path ↦ do
    dir_inum ← translate father_path
    if lookup_failed dir_inum then pure dir_inum else do
      inum ← translate path
      if exceeds inum 0 then pure eexist else do
        father ← inode_at dir_inum
        free ← find_free_dirent_num father
        elim free [ none ↦ pure enospc | some i ↦ make_node env path mode father i ]
]

-- `mode | S_IFDIR`: bit 14.
abbrev pub or_ifdir : ℕ → ℕ
or_ifdir mode = if mode / 16384 % 2 == 1 then mode else mode + 16384

-- From the search for a free block on. Its result is not checked before FD_SET.
unfoldable pub make_dir : Env → (path : Bytes) → (mode father i : ℕ) → Cmd ℤ
make_dir env path mode father i = do
  free_blk_num ← find_free_block_number
  blk ← index free_blk_num
  set_block_bit blk
  update_bitmap
  write_block blk zero_block
  free_inum ← find_free_inode_map_bit
  if is_negative free_inum then pure enospc else do
    inum ← index free_inum
    store_inode inum (new_inode env mode blk)
    add_entry father i true inum path
    pure (pos 0)

unfoldable pub fs_mkdir : Env → Bytes → (mode : ℕ) → Cmd ℤ
fs_mkdir env path permissions =
    let mode = or_ifdir permissions in
    if not (is_dir mode) then pure einval else elim (trancate_path path) [
      | none ↦ pure (negsuc 0)
      | some father_path ↦ do
        dir_inum ← translate father_path
        if lookup_failed dir_inum then pure dir_inum else do
          inum ← translate path
          if exceeds inum 0 then pure eexist else do
            father ← inode_at dir_inum
            free ← find_free_dirent_num father
            elim free [
              | none ↦ pure enospc
              | some i ↦ do
                father_mode ← gets (λ s. field s father w_mode)
                if not (is_dir father_mode) then pure enotdir else make_dir env path mode father i
            ]
    ]
