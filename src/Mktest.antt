-- ===== src/Mktest.antt =====
-- `main` of mktest.c: the blocks of the test image, in the order in which the code takes them with
-- `ptr`. The file operations are not modelled.
pub mod Image
pub mod Blocks
pub mod Files
use Prim.Native.Nat.{◌^◌}
use cs5600_filesystem.Base.{
  ℕ, zero, suc, ◌+◌, ◌-◌, ◌*◌, ◌/◌, ◌≤◌, Bool, true, false, ◌&&◌, List, [], ◌∷◌, ltb, leb, ◌==◌,
  if◌then◌else◌, Bytes, codes,
}
use cs5600_filesystem.Memory.{Block, Area, zero_block, set_word, store_words, fd_set}
use cs5600_filesystem.Mkfs.{zero_area, mark_below}
use cs5600_filesystem.Tree.Dirent.{Dirent, put_dirent}

abbrev pub n_blks : ℕ
n_blks = 1024

abbrev pub n_inos : ℕ
n_inos = 64

abbrev pub n_ino_blks : ℕ
n_ino_blks = n_inos * 64 / 1024

-- Block 0 is the superblock, 1 the inode map, 2 the block map, and the inodes stand from 3 on.
abbrev pub inodes_blk : ℕ
inodes_blk = 3

abbrev pub root_blk : ℕ
root_blk = inodes_blk + 4

abbrev pub f1_blk : ℕ
f1_blk = root_blk + 1

abbrev pub d1_blk : ℕ
d1_blk = f1_blk + 1

abbrev pub f2_blk1 : ℕ
f2_blk1 = d1_blk + 1

abbrev pub f2_blk2 : ℕ
f2_blk2 = f2_blk1 + 1

abbrev pub f4_indir_blk : ℕ
f4_indir_blk = f2_blk2 + 1

abbrev pub f4_blk0 : ℕ
f4_blk0 = f4_indir_blk + 1

abbrev pub f5_indir_1 : ℕ
f5_indir_1 = f4_blk0 + 7

abbrev pub f5_indir_2 : ℕ
f5_indir_2 = f5_indir_1 + 1

abbrev pub f5_indir_2_0 : ℕ
f5_indir_2_0 = f5_indir_2 + 1

abbrev pub f5_blk0 : ℕ
f5_blk0 = f5_indir_2_0 + 1

abbrev pub end_blk : ℕ
end_blk = f5_blk0 + 270

-- The inode numbers, as `inum++` gives them.
abbrev pub root_inum : ℕ
root_inum = 1

abbrev pub f1_inode : ℕ
f1_inode = 2

abbrev pub d1_inode : ℕ
d1_inode = 3

abbrev pub f2_inode : ℕ
f2_inode = 4

abbrev pub f3_inode : ℕ
f3_inode = 5

abbrev pub f4_inode : ℕ
f4_inode = 6

abbrev pub f5_inode : ℕ
f5_inode = 7

abbrev inum : ℕ
inum = 8

abbrev t : ℕ
t = 0x50000000

unfoldable pub test_superblock : Block
test_superblock =
    set_word
      (set_word
        (set_word (set_word (set_word (set_word zero_block 0 0x37363030) 1 1) 2 n_ino_blks) 3 1) 4
        n_blks)
      5 1

-- An inode with uid and gid 1000, the words behind `size` in a list.
abbrev inode : (mode time size : ℕ) → List ℕ → List ℕ
inode mode time size blocks = (1000 + 65536 * 1000) ∷ mode ∷ time ∷ time ∷ size ∷ blocks

-- direct[0] to direct[5] = blk, …, blk + 5, as the loops set them, and the two indirect blocks.
abbrev six_from : (blk indir_1 indir_2 : ℕ) → List ℕ
six_from blk indir_1 indir_2 =
    blk ∷ (blk + 1) ∷ (blk + 2) ∷ (blk + 3) ∷ (blk + 4) ∷ (blk + 5) ∷ indir_1 ∷ indir_2 ∷ []

unfoldable pub test_inodes : Block
test_inodes =
    store_words
      (store_words
        (store_words
          (store_words
            (store_words
              (store_words (store_words zero_block root_inum (inode 0o40777 t 1024 (root_blk ∷ [])))
                f1_inode (inode 0o100777 (t + 200) 1000 (f1_blk ∷ [])))
              d1_inode (inode 0o40755 (t + 400) 0 (d1_blk ∷ [])))
            f2_inode (inode 0o100777 (t + 200) 2012 (f2_blk2 ∷ f2_blk1 ∷ [])))
          f3_inode (inode 0o100777 (t + 200) 0 []))
        f4_inode (inode 0o100777 (t + 300) (6 * 1024 + 500) (six_from f4_blk0 f4_indir_blk 0)))
      f5_inode
      (inode 0o100777 (t + 300) (269 * 1024 + 721) (six_from f5_blk0 f5_indir_1 f5_indir_2))

abbrev dirent : (valid is_dir : Bool) → (inode : ℕ) → Bytes → Dirent
dirent valid is_dir inode name = record {
  valid = valid;
  is_dir = is_dir;
  inode = inode;
  name = name;
}

unfoldable pub root_de : Block
root_de =
    put_dirent
      (put_dirent
        (put_dirent
          (put_dirent (put_dirent zero_block 0 (dirent false false 1717 (codes "file.A"))) 1
            (dirent true false f1_inode (codes "file.A")))
          3 (dirent false true f1_inode (codes "dir1")))
        5 (dirent true true d1_inode (codes "dir1")))
      6 (dirent true false f4_inode (codes "file.7"))

unfoldable pub d1_de : Block
d1_de =
    put_dirent
      (put_dirent (put_dirent zero_block 3 (dirent true false f2_inode (codes "file.2"))) 4
        (dirent true false f3_inode (codes "file.0")))
      6 (dirent true false f5_inode (codes "file.270"))

-- for (i = 0; i < n; i++) indir[i] = blk++;
unfoldable pub count_up : (n blk : ℕ) → Block
count_up zero blk = zero_block
count_up (suc n) blk = set_word (count_up n blk) n (blk + n)

-- memset(p, c, len), for `p` the start of the block `blk`: the blocks from there on.
unfoldable pub fill_from : (blk len c : ℕ) → Area
fill_from blk len c b o = if ltb ((b - blk) * 1024 + o) len then c else 0

unfoldable pub mktest : Area
mktest b =
    if b == 0
    then test_superblock
    else if b == 1
    then mark_below inum zero_area 0
    else if b == 2
    then mark_below end_blk zero_area 0
    else if b == inodes_blk
    then test_inodes
    else if ltb b root_blk
    then zero_block
    else if b == root_blk
    then root_de
    else if b == f1_blk
    then fill_from f1_blk 1000 b'A' b
    else if b == d1_blk
    then d1_de
    else if ltb b f4_indir_blk
    then fill_from f2_blk1 (2 * 1024) b'2' b
    else if b == f4_indir_blk
    then count_up 1 (f4_blk0 + 6)
    else if ltb b f5_indir_1
    then fill_from f4_blk0 (6 * 1024 + 500) b'4' b
    else if b == f5_indir_1
    then count_up 256 (f5_blk0 + 6)
    else if b == f5_indir_2
    then count_up 1 f5_indir_2_0
    else if b == f5_indir_2_0
    then count_up 8 (f5_blk0 + 262)
    else if ltb b end_blk
    then fill_from f5_blk0 (269 * 1024 + 721) b'K' b
    else zero_block
