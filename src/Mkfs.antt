-- ===== src/Mkfs.antt =====
-- `main` of mkfs-x6.c, from the size of the image on: the blocks of an empty file system.
pub mod Fresh
pub mod Main
use cs5600_filesystem.Base.{
  ℕ, zero, suc, ◌+◌, ◌-◌, ◌*◌, ◌/◌, List, [], ◌∷◌, ltb, ◌==◌, if◌then◌else◌,
}
use cs5600_filesystem.Memory.{Block, Area, zero_block, set_word, store_words, fd_set}

-- DIV_ROUND_UP(n, m)
abbrev pub div_round_up : ℕ → ℕ → ℕ
div_round_up n m = (n + m - 1) / m

-- The layout of an image of `n_blks` blocks.
abbrev pub n_map_blks : ℕ → ℕ
n_map_blks n_blks = div_round_up n_blks 8192

abbrev pub n_inos : ℕ → ℕ
n_inos n_blks = n_blks / 4

abbrev pub n_ino_map_blks : ℕ → ℕ
n_ino_map_blks n_blks = div_round_up (n_inos n_blks) 8192

abbrev pub n_ino_blks : ℕ → ℕ
n_ino_blks n_blks = div_round_up (n_inos n_blks * 64) 1024

abbrev pub block_map_base : ℕ → ℕ
block_map_base n_blks = 1 + n_ino_map_blks n_blks

abbrev pub inode_base : ℕ → ℕ
inode_base n_blks = block_map_base n_blks + n_map_blks n_blks

abbrev pub rootdir_base : ℕ → ℕ
rootdir_base n_blks = inode_base n_blks + n_ino_blks n_blks

abbrev pub zero_area : Area
zero_area k = zero_block

-- for (i = 0; i < n; i++) FD_SET(i, map);
unfoldable pub mark_below : ℕ → Area → Area
mark_below zero m = m
mark_below (suc n) m = fd_set n (mark_below n m)

unfoldable pub superblock : ℕ → Block
superblock n_blks =
    set_word
      (set_word
        (set_word
          (set_word (set_word (set_word zero_block 0 0x37363030) 1 (n_ino_map_blks n_blks)) 2
            (n_ino_blks n_blks))
          3 (n_map_blks n_blks))
        4 n_blks)
      5 1

-- The root directory's inode, number 1, at the time `t`.
abbrev pub root_inode : (n_blks t : ℕ) → List ℕ
root_inode n_blks t = (1001 + 65536 * 125) ∷ 0o40777 ∷ t ∷ t ∷ 1024 ∷ rootdir_base n_blks ∷ []

unfoldable pub mkfs : (n_blks t : ℕ) → Area
mkfs n_blks t b =
    if b == 0
    then superblock n_blks
    else if ltb b (block_map_base n_blks)
    then mark_below 2 zero_area (b - 1)
    else if ltb b (inode_base n_blks)
    then mark_below (rootdir_base n_blks + 1) zero_area (b - block_map_base n_blks)
    else if b == inode_base n_blks
    then store_words zero_block 1 (root_inode n_blks t)
    else zero_block
