-- ===== src/Ops/Rename.antt =====
-- `fs_rename`.
use cs5600_filesystem.Base.{
  ℕ, zero, suc, ◌+◌, ◌*◌, true, false, not, ◌&&◌, ltb, if◌then◌else◌, Bytes, length, get_or,
  bytes_eq,
}
use cs5600_filesystem.Base.Int.{ℤ, pos, exceeds, is_negative, ℤ_eq, eexist, einval}
use cs5600_filesystem.Memory.{Block}
use cs5600_filesystem.Names.{trancate_path, get_name}
use cs5600_filesystem.State.{Cmd, fault, pure, ◌>>=◌, ◌>>◌, gets}
use cs5600_filesystem.State.Device.{write_block}
use cs5600_filesystem.State.Inode.{field, w_direct, inode_at}
use cs5600_filesystem.Tree.{read_dir, translate}
use cs5600_filesystem.Tree.Dirent.{dir_valid, dir_name_is}
use cs5600_filesystem.Ops.Create.{or_fault}
use cs5600_filesystem.Memory.{copy_bytes}

-- `strncpy(dir[i].name, name, strlen(name)); dir[i].name[strlen(name)] = 0`. The length of the name
-- is not checked; a name that ends behind the block is written outside of the allocation.
unfoldable pub put_name : Block → (i : ℕ) → Bytes → Block
put_name dir i name = copy_bytes dir (32 * i + 4) (length name + 1) (λ o. get_or name o 0)

-- The loop over the entries, from number `i` on, on the directory's copy in memory.
unfoldable pub rename_entries : (rounds i blk : ℕ) → (src dst : Bytes) → Block → Cmd (Unit {0})
rename_entries zero i blk src dst dir = pure tt
rename_entries (suc n) i blk src dst dir = elim (dir_valid dir i && dir_name_is dir i src) [
  | false ↦ rename_entries n (i + 1) blk src dst dir
  | true ↦
      if ltb (32 * i + 4 + length dst) 1024
      then (do
        write_block blk (put_name dir i dst)
        rename_entries n (i + 1) blk src dst (put_name dir i dst))
      else λ _. fault
]

-- Where `trancate_path` fails, the code frees pointers that were never set.
unfoldable pub fs_rename : (src_path dst_path : Bytes) → Cmd ℤ
fs_rename src_path dst_path = do
  src_inum ← translate src_path
  dst_inum ← translate dst_path
  if is_negative src_inum then pure src_inum else if exceeds dst_inum 0 then pure eexist else do
    src_father ← or_fault (trancate_path src_path)
    dst_father ← or_fault (trancate_path dst_path)
    if not (bytes_eq src_father dst_father) then pure einval else do
      father_inum ← translate src_father
      if ℤ_eq father_inum (pos 0) then pure father_inum else do
        src_name ← or_fault (get_name src_path)
        dst_name ← or_fault (get_name dst_path)
        father ← inode_at father_inum
        dir ← read_dir father
        blk ← gets (λ s. field s father w_direct)
        rename_entries 32 0 blk src_name dst_name dir
        pure (pos 0)
