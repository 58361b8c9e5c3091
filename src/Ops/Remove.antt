-- ===== src/Ops/Remove.antt =====
-- `fs_truncate` with `truncate_2nd_level` and `truncate_3rd_level`, `fs_unlink` and `fs_rmdir`.
use cs5600_filesystem.Base.{
  ℕ, zero, suc, ◌+◌, Bool, true, false, not, ◌&&◌, none, some, ◌==◌, if◌then◌else◌, Bytes,
}
use cs5600_filesystem.Base.Int.{
  ℤ, pos, exceeds, signed32, ℤ_eq, enoent, enotdir, einval, eisdir, enotempty, lookup_failed,
}
use cs5600_filesystem.Base.Search.{first_index}
use cs5600_filesystem.Memory.{Block, word}
use cs5600_filesystem.Names.{trancate_path, get_name, strip}
use cs5600_filesystem.State.{Cmd, ok, pure, ◌>>=◌, ◌>>◌, gets}
use cs5600_filesystem.State.Device.{read_block, write_block}
use cs5600_filesystem.State.Bitmap.{set_inode_bit, clr_inode_bit, clr_block_bit, update_bitmap}
use cs5600_filesystem.State.Inode.{
  field, set_field, w_direct, w_mode, w_size, w_indir_1, w_indir_2, inode_at, update_inode, is_dir,
  is_reg,
}
use cs5600_filesystem.Tree.{read_dir, translate}
use cs5600_filesystem.Tree.Dirent.{dir_valid, dir_name_is, clear_valid}
use cs5600_filesystem.Ops.Create.{or_fault}

-- The loop over the direct blocks, from number `i` on. It stops at the first zero.
unfoldable pub truncate_direct : (rounds i inum : ℕ) → Cmd (Unit {0})
truncate_direct zero i inum = pure tt
truncate_direct (suc n) i inum = do
  blk ← gets (λ s. field s inum (w_direct + i))
  set_field inum (w_direct + i) 0
  if blk == 0 then pure tt else do clr_block_bit blk; update_bitmap; truncate_direct n (i + 1) inum

-- The loop over the entries of an indirect block, from number `i` on.
unfoldable pub clear_entries : (rounds i : ℕ) → Block → Cmd (Unit {0})
clear_entries zero i blk = pure tt
clear_entries (suc n) i blk =
    if word blk i == 0 then pure tt else do clr_block_bit (word blk i); clear_entries n (i + 1) blk

unfoldable pub truncate_2nd_level : ℕ → Cmd (Unit {0})
truncate_2nd_level root = do
  blk ← read_block root
  clear_entries 256 0 blk
  clr_block_bit root
  update_bitmap

unfoldable pub truncate_trees : (rounds i : ℕ) → Block → Cmd (Unit {0})
truncate_trees zero i blk = pure tt
truncate_trees (suc n) i blk =
    if word blk i == 0
    then pure tt
    else do truncate_2nd_level (word blk i); truncate_trees n (i + 1) blk

unfoldable pub truncate_3rd_level : ℕ → Cmd (Unit {0})
truncate_3rd_level root = do
  blk ← read_block root
  truncate_trees 256 0 blk
  clr_block_bit root
  update_bitmap

-- `if (inode->size > bound) free_tree(inode->field)`
abbrev pub when_larger : (inum bound f : ℕ) → (ℕ → Cmd (Unit {0})) → Cmd (Unit {0})
when_larger inum bound f free_tree s =
    if exceeds (signed32 (field s inum w_size)) bound then free_tree (field s inum f) s else ok tt s

-- What follows the checks of `fs_truncate`.
unfoldable pub truncate_inode : ℕ → Cmd ℤ
truncate_inode inum = do
  truncate_direct 6 0 inum
  when_larger inum 6144 w_indir_1 truncate_2nd_level
  when_larger inum 268288 w_indir_2 truncate_3rd_level
  set_field inum w_size 0
  set_field inum w_indir_1 0
  set_field inum w_indir_2 0
  update_inode inum
  pure (pos 0)

unfoldable pub fs_truncate : Bytes → (len : ℤ) → Cmd ℤ
fs_truncate path len = if not (ℤ_eq len (pos 0)) then pure einval else do
  inum ← translate path
  if lookup_failed inum then pure inum else do
    n ← inode_at inum
    mode ← gets (λ s. field s n w_mode)
    if is_dir mode then pure eisdir else truncate_inode n

-- The valid entries of that name become invalid; the flag says whether there was one.
unfoldable pub remove_entries : (rounds i : ℕ) → Bytes → Block × Bool → Block × Bool
remove_entries zero i name (dir, found) = (dir, found)
remove_entries (suc n) i name (dir, found) =
    remove_entries n (i + 1) name (
      if dir_name_is dir i name && dir_valid dir i then (clear_valid dir i, true) else (dir, found))

-- The father's directory block is read, changed and written back.
unfoldable pub drop_name : (father : ℕ) → Bytes → Cmd Bool
drop_name father name = do
  dir ← read_dir father
  blk ← gets (λ s. field s father w_direct)
  let (dir', found) = remove_entries 32 0 name (dir, false)
  write_block blk dir'
  pure found

unfoldable pub fs_unlink : Bytes → Cmd ℤ
fs_unlink path = do
  inum ← translate path
  if lookup_failed inum then pure inum else do
    n ← inode_at inum
    mode ← gets (λ s. field s n w_mode)
    if is_dir mode then pure eisdir else do
      truncate_result ← fs_truncate path (pos 0)
      if not (ℤ_eq truncate_result (pos 0)) then pure truncate_result else do
        father_path ← or_fault (trancate_path path)
        father_inum ← translate father_path
        clr_inode_bit n
        update_bitmap
        name ← or_fault (get_name path)
        father ← inode_at father_inum
        found ← drop_name father name
        if not found then pure enoent else pure (pos 0)

-- Both FD_SET calls of `fs_rmdir` are on `inode_map`.
unfoldable pub fs_rmdir : Bytes → Cmd ℤ
fs_rmdir path = do
  inum ← translate path
  if lookup_failed inum then pure inum else do
    n ← inode_at inum
    mode ← gets (λ s. field s n w_mode)
    if is_reg mode then pure enotdir else do
      father_path ← or_fault (trancate_path path)
      dir ← read_dir n
      elim (first_index 32 0 (dir_valid dir)) [
        | some i ↦ pure enotempty
        | none ↦ do
          blk ← gets (λ s. field s n w_direct)
          set_inode_bit blk
          update_bitmap
          set_inode_bit n
          update_bitmap
          name ← or_fault (get_name (strip path))
          father_inum ← translate father_path
          father ← inode_at father_inum
          found ← drop_name father name
          pure (pos 0)
      ]
