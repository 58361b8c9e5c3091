-- ===== src/Ops/Content.antt =====
-- The content of a file: which block holds which of its bytes.
pub mod Copy
pub mod Loops
pub mod Whole
pub mod Total
use cs5600_filesystem.Base.{ℕ, ◌+◌, ◌-◌, ◌*◌, ◌/◌, ◌%◌, ◌≤◌, ◌<◌, ◌≢◌, ltb, if◌then◌else◌}
use cs5600_filesystem.Memory.{word}
use cs5600_filesystem.State.{Fs}
use cs5600_filesystem.State.Inode.{field, w_direct, w_indir_1, w_indir_2}

-- The block with the number `j` of a file: the 6 direct ones, then the 256 of `indir_1`, then those
-- of the 256 trees of `indir_2`.
unfoldable pub block_of : Fs → (inum j : ℕ) → ℕ
block_of s inum j =
    if ltb j 6
    then field s inum (w_direct + j)
    else if ltb j 262
    then word (s.disk (field s inum w_indir_1)) (j - 6)
    else word (s.disk (word (s.disk (field s inum w_indir_2)) ((j - 262) / 256))) ((j - 262) % 256)

-- The byte of a file at an offset.
unfoldable pub file_byte : Fs → (inum o : ℕ) → ℕ
file_byte s inum o = s.disk (block_of s inum (o / 1024)) (o % 1024)

-- The blocks for the bytes below `size` are set, and they and the indirect blocks that lead there
-- are on the image. The indirect block behind a full level is read with it.
pub record HasBlocks (s : Fs) (inum size : ℕ) : Type 0 where
  pub block :
      (j : ℕ) → j * 1024 < size → (block_of s inum j ≢ 0) × (block_of s inum j + 1 ≤ s.nblks)
  pub second : 6144 ≤ size → field s inum w_indir_1 + 1 ≤ s.nblks
  pub third : 268288 ≤ size → field s inum w_indir_2 + 1 ≤ s.nblks
  pub tree :
      (i : ℕ) → 268288 + i * 262144 < size → word (s.disk (field s inum w_indir_2)) i + 1 ≤ s.nblks
