-- ===== src/State/Device.antt =====
-- The block device: `image_read` and `image_write` of image.c, and `fs_init` of homework.c.
use cs5600_filesystem.Base.{
  ℕ, ◌+◌, ◌-◌, ◌/◌, Option, none, some, not, ◌&&◌, ltb, leb, ◌==◌, if◌then◌else◌,
}
use cs5600_filesystem.Memory.{Block, Area, word}
use cs5600_filesystem.State.{Cmd, ok, fault, pure, ◌>>=◌}

-- `len` blocks from block `first` on. Block numbers come from `uint32_t` fields; those from 2^31 on
-- are negative as `int`, and here beyond the end of the image: both fail the assertion.
unfoldable pub image_read : (first len : ℕ) → Cmd Area
image_read first len s = if leb (first + len) s.nblks then ok (λ k. s.disk (first + k)) s else fault

unfoldable pub image_write : (first len : ℕ) → Area → Cmd (Unit {0})
image_write first len buf s =
    if not (first == 0) && leb (first + len) s.nblks
    then ok tt (record s {
      disk = λ b. if leb first b && ltb b (first + len) then buf (b - first) else s.disk b;
    })
    else fault

-- `image_create`, for the file as `open` and `fstat` find it: its size in bytes and its blocks. If
-- it cannot be opened, an assertion fails; bytes beyond the last full block are ignored.
unfoldable pub image_create : Option (ℕ × Area) → Cmd (Unit {0})
image_create none s = fault
image_create (some (size, blocks)) s = ok tt (record s { nblks = size / 1024; disk = blocks })

-- The calls with a length of one block.
unfoldable pub read_block : ℕ → Cmd Block
read_block b = do a ← image_read b 1; pure (a 0)

unfoldable pub write_block : ℕ → Block → Cmd (Unit {0})
write_block b blk = image_write b 1 (λ _. blk)

-- The superblock's words: magic, inode_map_sz, inode_region_sz, block_map_sz, num_blocks,
-- root_inode. The sizes are taken to be small enough that their sums fit an `int`.
unfoldable pub fs_init : Cmd (Unit {0})
fs_init = do
  sb ← read_block 0
  let inode_map_sz = word sb 1
  let inode_region_sz = word sb 2
  let block_map_sz = word sb 3
  inode_map ← image_read 1 inode_map_sz
  block_map ← image_read (inode_map_sz + 1) block_map_sz
  inode_region ← image_read (1 + inode_map_sz + block_map_sz) inode_region_sz
  λ s. ok tt (record {
    nblks = s.nblks;
    disk = s.disk;
    inode_map = inode_map;
    block_map = block_map;
    inode_map_sz = inode_map_sz;
    block_map_sz = block_map_sz;
    num_of_blocks = word sb 4;
    inode_region = inode_region;
    inode_region_sz = inode_region_sz;
  })
