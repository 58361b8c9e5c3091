-- ===== src/State/Bitmap.antt =====
-- The two allocation maps in memory, their copy on the disk, and the searches for a free block and
-- a free inode.
use Prim.Native.Nat.{min}
use cs5600_filesystem.Base.{ℕ, ◌+◌, ◌-◌, ◌*◌, not, none, some, ltb, if◌then◌else◌}
use cs5600_filesystem.Base.Int.{ℤ, pos, negsuc, enospc}
use cs5600_filesystem.Base.Search.{first_index}
use cs5600_filesystem.Memory.{zero_block, fd_isset, fd_set, fd_clr}
use cs5600_filesystem.State.{Cmd, ok, fault, pure, ◌>>◌}
use cs5600_filesystem.State.Device.{image_write, write_block}

-- An `int` as the index of an array: below zero lies another allocation.
abbrev pub index : ℤ → Cmd ℕ
index (pos i) = pure i
index (negsuc i) = λ _. fault

-- FD_SET(i, inode_map), FD_SET(i, block_map) and FD_CLR on both. A map of `sz` blocks has
-- `sz * 1024 * 8` bits.
unfoldable pub set_inode_bit : ℕ → Cmd (Unit {0})
set_inode_bit i s =
    if ltb i (s.inode_map_sz * 8192)
    then ok tt (record s { inode_map = fd_set i s.inode_map })
    else fault

unfoldable pub clr_inode_bit : ℕ → Cmd (Unit {0})
clr_inode_bit i s =
    if ltb i (s.inode_map_sz * 8192)
    then ok tt (record s { inode_map = fd_clr i s.inode_map })
    else fault

unfoldable pub set_block_bit : ℕ → Cmd (Unit {0})
set_block_bit i s =
    if ltb i (s.block_map_sz * 8192)
    then ok tt (record s { block_map = fd_set i s.block_map })
    else fault

unfoldable pub clr_block_bit : ℕ → Cmd (Unit {0})
clr_block_bit i s =
    if ltb i (s.block_map_sz * 8192)
    then ok tt (record s { block_map = fd_clr i s.block_map })
    else fault

unfoldable pub update_bitmap : Cmd (Unit {0})
update_bitmap s =
    (image_write 1 s.inode_map_sz s.inode_map
        >> image_write (1 + s.inode_map_sz) s.block_map_sz s.block_map)
      s

-- The number of the free block is returned once the block is zeroed.
unfoldable pub find_free_block_number : Cmd ℤ
find_free_block_number s =
    elim (first_index (min (s.block_map_sz * 8192) s.num_of_blocks) 0
      (λ i. not (fd_isset i s.block_map))) [
        | none ↦ ok enospc s
        | some i ↦ (write_block i zero_block >> pure (pos i)) s
      ]

unfoldable pub find_free_inode_map_bit : Cmd ℤ
find_free_inode_map_bit s =
    elim (first_index (s.inode_map_sz * 8192 - 2) 2 (λ i. not (fd_isset i s.inode_map))) [
      | none ↦ ok enospc s
      | some i ↦ ok (pos i) s
    ]
