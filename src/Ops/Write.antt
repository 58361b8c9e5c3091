-- ===== src/Ops/Write.antt =====
-- `fs_write` and its three levels. Each returns the number of bytes written.
use cs5600_filesystem.Base.{
  ℕ, zero, suc, ◌+◌, ◌-◌, ◌/◌, ◌%◌, ◌^◌, Bool, not, ◌&&◌, ◌||◌, Option, none, some, ltb, leb, ◌==◌,
  if◌then◌else◌, Bytes,
}
use cs5600_filesystem.Base.Int.{ℤ, pos, negsuc, exceeds, is_negative, signed32, ℤ_eq, einval}
use cs5600_filesystem.Memory.{Block, word, set_word, copy_bytes}
use cs5600_filesystem.State.{Cmd, ok, pure, ◌>>=◌, ◌>>◌, gets}
use cs5600_filesystem.State.Device.{read_block, write_block}
use cs5600_filesystem.State.Bitmap.{index, set_block_bit, update_bitmap, find_free_block_number}
use cs5600_filesystem.State.Inode.{
  field, set_field, w_direct, w_size, w_indir_1, w_indir_2, inode_at, update_inode,
}
use cs5600_filesystem.Ops.Read.{Buffer, chunk}
use cs5600_filesystem.Tree.{translate}

-- FD_SET(blk_num, block_map), and the maps go to the disk.
unfoldable pub mark_block : ℕ → Cmd (Unit {0})
mark_block blk = set_block_bit blk >> update_bitmap

-- A block is read, `len` bytes of it from `off` on are replaced, and it is written back.
unfoldable pub patch_block : (blk off len : ℕ) → (at : ℕ) → Buffer → Cmd (Unit {0})
patch_block blk off len at buf = do
  old ← read_block blk
  write_block blk (copy_bytes old off len (λ o. buf (at + o)))

-- A free block for the pointer `f` of an inode that holds zero; `none` if there is none.
unfoldable pub alloc_field : (inum f : ℕ) → Cmd (Option ℕ)
alloc_field inum f = do
  old ← gets (λ s. field s inum f)
  if not (old == 0) then pure (some old) else do
    blk_num ← find_free_block_number
    if is_negative blk_num then pure none else do
      blk ← index blk_num
      set_field inum f blk
      update_inode inum
      mark_block blk
      pure (some blk)

-- The same for the entry `i` of the indirect block `root`, of which `tree` is the copy in memory.
unfoldable pub alloc_entry : (root i : ℕ) → Block → Cmd (Option (ℕ × Block))
alloc_entry root i tree = if not (word tree i == 0) then pure (some (word tree i, tree)) else do
  blk_num ← find_free_block_number
  if is_negative blk_num then pure none else do
    blk ← index blk_num
    write_block root (set_word tree i blk)
    mark_block blk
    pure (some (blk, set_word tree i blk))

-- The loop of `fs_write_1st_level`, at direct block `i`.
unfoldable pub write_direct : (rounds i inum off len at done : ℕ) → Buffer → Cmd ℕ
write_direct zero i inum off len at done buf = pure done
write_direct (suc n) i inum off len at done buf = if len == 0 then pure done else do
  let size = chunk 1024 off len
  target ← alloc_field inum (w_direct + i)
  elim target [
    | none ↦ pure done
    | some blk ↦ do
      patch_block blk off size at buf
      write_direct n (i + 1) inum 0 (len - size) (at + size) (done + size) buf
  ]

unfoldable pub fs_write_1st_level : (inum offset len at : ℕ) → Buffer → Cmd ℕ
fs_write_1st_level inum offset len at buf =
    write_direct (6 - offset / 1024) (offset / 1024) inum (offset % 1024) len at 0 buf

-- The loop of `fs_write_2nd_level`, at entry `i`.
unfoldable pub write_indirect :
    (rounds i root : ℕ) → (tree : Block) → (off len at done : ℕ) → Buffer → Cmd ℕ
write_indirect zero i root tree off len at done buf = pure done
write_indirect (suc n) i root tree off len at done buf = if len == 0 then pure done else do
  let size = chunk 1024 off len
  target ← alloc_entry root i tree
  elim target [
    | none ↦ pure done
    | some (blk, tree') ↦ do
      patch_block blk off size at buf
      write_indirect n (i + 1) root tree' 0 (len - size) (at + size) (done + size) buf
  ]

unfoldable pub fs_write_2nd_level : (root offset len at : ℕ) → Buffer → Cmd ℕ
fs_write_2nd_level root offset len at buf = do
  tree ← read_block root
  let h1t_offset = offset - 6144
  write_indirect (256 - h1t_offset / 1024) (h1t_offset / 1024) root tree (h1t_offset % 1024) len at
      0 buf

-- The loop of `fs_write_3rd_level`, at entry `i`. It goes on by the bytes that were written.
unfoldable pub write_trees :
    (rounds i root : ℕ) → (tree : Block) → (off len at done : ℕ) → Buffer → Cmd ℕ
write_trees zero i root tree off len at done buf = pure done
write_trees (suc n) i root tree off len at done buf = if len == 0 then pure done else do
  let size = chunk 262144 off len
  target ← alloc_entry root i tree
  elim target [
    | none ↦ pure done
    | some (blk, tree') ↦ do
      written ← fs_write_2nd_level blk (off + 6144) size at buf
      if written == 0
          then pure done
          else write_trees n (i + 1) root tree' 0 (len - size) (at + written) (done + written) buf
  ]

unfoldable pub fs_write_3rd_level : (root offset len at : ℕ) → Buffer → Cmd ℕ
fs_write_3rd_level root offset len at buf = do
  tree ← read_block root
  let h2t_offset = offset - 6144 - 262144
  write_trees (256 - h2t_offset / 262144) (h2t_offset / 262144) root tree (h2t_offset % 262144) len
      at 0 buf

-- A level behind a pointer of the inode, which is set first; `none` if no block is free.
abbrev pub tree_level :
    Bool
    → (inum f : ℕ) → ((root offset len at : ℕ) → Buffer → Cmd ℕ)
    → (offset len at : ℕ) → Buffer
    → Cmd (Option ℕ)
tree_level applies inum f write offset len at buf = if not applies then pure (some 0) else do
  root ← alloc_field inum f
  elim root [ none ↦ pure none | some blk ↦ do n ← write blk offset len at buf; pure (some n) ]

-- `if (tmp_offset > inode->size)`: the size grows to the end of what was written.
unfoldable pub grow : (inum end : ℕ) → Cmd (Unit {0})
grow inum end s =
    if exceeds (signed32 (field s inum w_size)) end
      || ℤ_eq (signed32 (field s inum w_size)) (pos end)
    then ok tt s
    else (set_field inum w_size end >> update_inode inum) s

unfoldable pub write_levels : (inum offset len : ℕ) → Buffer → Cmd ℕ
write_levels inum offset len buf = do
  n ← if ltb offset 6144 then fs_write_1st_level inum offset len 0 buf else pure 0
  let o1 = offset + n
  let l1 = len - n
  second ← tree_level (leb 6144 o1 && ltb o1 268288) inum w_indir_1 fs_write_2nd_level o1 l1 n buf
  elim second [
    | none ↦ pure n
    | some m ↦ do
      let o2 = o1 + m
      let l2 = l1 - m
      third ←
          tree_level (leb 268288 o2 && leb o2 67377152) inum w_indir_2 fs_write_3rd_level o2 l2
            (n + m) buf
      elim third [ none ↦ pure (n + m) | some k ↦ do grow inum (o2 + k); pure (n + m + k) ]
  ]

-- `int tmp_len = len` keeps 32 bits; no loop runs for a length below zero.
abbrev pub int_length : ℕ → ℕ
int_length len = elim (signed32 (len % 2 ^ 32)) [ pos n ↦ n | negsuc _ ↦ 0 ]

-- `offset > inode->size` is a test on signed numbers. An error of `translate` is not looked at.
unfoldable pub fs_write : Bytes → (len offset : ℕ) → Buffer → Cmd ℤ
fs_write path len offset buf = do
  inum ← translate path
  if ℤ_eq inum (pos 0) then pure inum else do
    n ← inode_at inum
    size ← gets (λ s. signed32 (field s n w_size))
    if not (exceeds size offset || ℤ_eq size (pos offset))
        then pure einval
        else do count ← write_levels n offset (int_length len) buf; pure (pos count)
