-- ===== src/ReadImg.antt =====
-- `main` of read-img.c, from the image in memory on: the walk over the directory tree and the
-- report. A line of the report is a value with what `printf` gets.
pub mod Told
pub mod Walk
pub mod Lost
pub mod Fuel
use Prim.Native.Nat.{◌^◌}
use cs5600_filesystem.Base.{
  ℕ, zero, suc, ◌+◌, ◌-◌, ◌*◌, ◌/◌, ◌%◌, Bool, true, false, not, ◌&&◌, Option, none, some, List, [],
  ◌∷◌, ◌++◌, ltb, leb, ◌==◌, if◌then◌else◌, Bytes,
}
use cs5600_filesystem.Memory.{Block, Area, word, fd_isset, fd_set}
use cs5600_filesystem.State.Inode.{is_dir, w_ids, w_mode, w_size, w_direct, w_indir_1, w_indir_2}
use cs5600_filesystem.Tree.Dirent.{dir_valid, dir_is_dir, dir_inode}
use cs5600_filesystem.Ops.Attr.{c_string}
use cs5600_filesystem.Mkfs.{zero_area}

-- The image: `nblks` full blocks.
pub record Image : Type 0 where
  pub nblks : ℕ
  pub disk : Area

pub data Line : Type 0 where
  superblock : (magic inode_map_sz block_map_sz inode_region_sz num_blocks root_inode : ℕ) → Line
  allocated_inode allocated_block : ℕ → Line
  file : (inum uid gid mode size : ℕ) → Line
  blk : ℕ → Line
  marked_free : (blk : ℕ) → Line
  at_indir_1 at_indir_2 : ℕ → Line
  at_indir_2_entry : (i blk : ℕ) → Line
  not_directory : (inum : ℕ) → Line
  directory : (inum : ℕ) → Line
  dirent : (is_dir : Bool) → (inum : ℕ) → (name : Bytes) → Line
  invalid_inode : ℕ → Line
  inode_marked_free : ℕ → Line
  unreachable_inode unreachable_block : ℕ → Line

-- The two maps that `main` fills, the part of `inode_list` from `tail` to `head`, the value of
-- `head`, and the report so far, its last line first.
pub record Scan : Type 0 where
  pub blkmap : Area
  pub imap : Area
  pub inode_list : List (Bool × ℕ)
  pub head : ℕ
  pub lines : List Line

-- A step stops the process where it leaves the image or an array.
abbrev pub Step : Type 0
Step = Scan → Option Scan

infixl 5 ◌>>◌
abbrev pub ◌>>◌ : Step → Step → Step
(f >> g) sc = elim (f sc) [ none ↦ none | some sc' ↦ g sc' ]

abbrev pub skip : Step
skip sc = some sc

abbrev pub print : Line → Step
print line sc = some (record sc { lines = line ∷ sc.lines })

abbrev pub need : Bool → Step
need b sc = if b then some sc else none

module _ (img : Image) where
  abbrev sb : ℕ → ℕ
  sb i = word (img.disk 0) i

  abbrev pub inode_map_sz : ℕ
  inode_map_sz = sb 1

  abbrev pub inode_region_sz : ℕ
  inode_region_sz = sb 2

  abbrev pub block_map_sz : ℕ
  block_map_sz = sb 3

  -- `(void *) disk + FS_BLOCK_SIZE`, and what follows it.
  abbrev pub inode_map : Area
  inode_map k = img.disk (1 + k)

  abbrev pub block_map : Area
  block_map k = img.disk (1 + inode_map_sz + k)

  abbrev inodes : Area
  inodes k = img.disk (1 + inode_map_sz + block_map_sz + k)

  abbrev inode_field : (inum f : ℕ) → ℕ
  inode_field inum f = word (inodes (inum / 16)) (16 * (inum % 16) + f)

  -- Is the block part of the image?
  abbrev has_block : ℕ → Bool
  has_block b = ltb b img.nblks

  -- Is the number one of `blkmap` and `imap`, of size / 8192 bytes each?
  abbrev in_map : ℕ → Bool
  in_map i = ltb (i / 8) (img.nblks / 8)

  -- FD_SET(b, blkmap), and the test whether the block is marked free
  abbrev pub mark_block : ℕ → Step
  mark_block b =
      (λ sc. some (record sc { blkmap = fd_set b sc.blkmap }))
      >> (if fd_isset b block_map then skip else print (marked_free b))

  unfoldable pub check_block : ℕ → Step
  check_block b = need (in_map b && has_block (1 + inode_map_sz + b / 8192)) >> mark_block b

  -- The loops over the pointers `ptr i`, `ptr (i + 1)`, … to blocks.
  unfoldable pub check_row : (rounds i : ℕ) → (ptr : ℕ → ℕ) → Step
  check_row zero i ptr = skip
  check_row (suc n) i ptr =
      (if ptr i == 0 then skip else print (blk (ptr i)) >> check_block (ptr i))
      >> check_row n (i + 1) ptr

  -- The loop over the entries of `indir_2`, which ends at the first 0.
  unfoldable pub check_trees : (rounds i : ℕ) → (ptr : ℕ → ℕ) → Step
  check_trees zero i ptr = skip
  check_trees (suc n) i ptr =
      let rest = check_trees n (i + 1) ptr in
      if ptr i == 0
      then skip
      else print (at_indir_2_entry i (ptr i))
        >> need (has_block (ptr i))
        >> check_row 256 0 (word (img.disk (ptr i)))
        >> rest

  -- `disk + b * FS_BLOCK_SIZE`, a product of 32 bits.
  abbrev wrapped : ℕ → ℕ
  wrapped b = b % 2 ^ 22

  unfoldable pub read_file : (inum : ℕ) → Step
  read_file inum =
      let indir_1 = inode_field inum w_indir_1 in
      let indir_2 = inode_field inum w_indir_2 in
      print (
        file inum (inode_field inum w_ids % 65536) (inode_field inum w_ids / 65536)
          (inode_field inum w_mode) (inode_field inum w_size))
      >> check_row 6 0 (λ i. inode_field inum (w_direct + i))
      >> (if indir_1 == 0
          then skip
          else print (at_indir_1 indir_1)
            >> need (has_block (wrapped indir_1))
            >> check_row 256 0 (word (img.disk (wrapped indir_1))))
      >> (if indir_2 == 0
          then skip
          else print (at_indir_2 indir_2)
            >> need (has_block (wrapped indir_2))
            >> check_trees 256 0 (word (img.disk (wrapped indir_2))))

  -- `inode_list[head++] = …`: 100 entries.
  unfoldable pub push : (is_dir : Bool) → (inum : ℕ) → Step
  push is_dir inum = (λ sc. need (ltb sc.head 100) sc) >> (λ sc.
      some (record sc { inode_list = sc.inode_list ++ (is_dir, inum) ∷ []; head = sc.head + 1 }))

  -- FD_SET(j, imap), and the test whether the inode is marked free
  abbrev pub mark_inode : ℕ → Step
  mark_inode j =
      (λ sc. some (record sc { imap = fd_set j sc.imap }))
      >> (if fd_isset j inode_map then skip else print (inode_marked_free j))

  unfoldable pub check_inode : ℕ → Step
  check_inode j = need (in_map j && has_block (1 + j / 8192)) >> mark_inode j

  -- The loop over the entries of a directory, from entry `i` on.
  unfoldable pub read_entries : (rounds i : ℕ) → (de : Block) → Step
  read_entries zero i de = skip
  read_entries (suc n) i de =
      (if not (dir_valid de i)
        then skip
        else print
            (dirent (dir_is_dir de i) (dir_inode de i) (c_string (1020 - 32 * i) (32 * i + 4) de))
          >> (if leb (inode_region_sz * 16) (dir_inode de i)
              then print (invalid_inode (dir_inode de i))
              else check_inode (dir_inode de i) >> push (dir_is_dir de i) (dir_inode de i)))
      >> read_entries n (i + 1) de

  unfoldable pub read_directory : (inum : ℕ) → Step
  read_directory inum =
      let b = inode_field inum w_direct in
      if not (is_dir (inode_field inum w_mode))
      then print (not_directory inum)
      else print (directory inum)
        >> check_block b
        >> need (has_block (wrapped b))
        >> read_entries 32 0 (img.disk (wrapped b))

  -- One entry of `inode_list`.
  abbrev pub read_entry : (dir : Bool) → (inum : ℕ) → Step
  read_entry dir inum =
      need (has_block (1 + inode_map_sz + block_map_sz + inum / 16))
      >> (if dir then read_directory inum else read_file inum)

  -- The loop over `inode_list`; every round takes one entry out, and 100 fit in.
  unfoldable pub read_tree : (fuel : ℕ) → Step
  read_tree zero sc = none
  read_tree (suc k) sc = elim sc.inode_list [
    | [] ↦ some sc
    | (dir, inum) ∷ rest ↦ (read_entry dir inum >> read_tree k) (record sc { inode_list = rest })
  ]

  -- The numbers from `i` on that are in a map.
  unfoldable pub list_map : (rounds i : ℕ) → Area → (ℕ → Line) → Step
  list_map zero i map line = skip
  list_map (suc n) i map line =
      (if fd_isset i map then print (line i) else skip) >> list_map n (i + 1) map line

  -- The last two loops: the numbers in the first map, but not in the second.
  abbrev pub list_one : (i : ℕ) → (found marked : Area) → (ℕ → Line) → Step
  list_one i found marked line =
      if fd_isset i found && not (fd_isset i marked) then print (line i) else skip

  unfoldable pub list_unreachable : (rounds i : ℕ) → (found marked : Area) → (ℕ → Line) → Step
  list_unreachable zero i found marked line = skip
  list_unreachable (suc n) i found marked line =
      need (in_map i)
      >> list_one i found marked line
      >> list_unreachable n (i + 1) found marked line

  unfoldable pub list_allocated : Step
  list_allocated =
      print (superblock (sb 0) inode_map_sz block_map_sz inode_region_sz (sb 4) (sb 5))
      >> need (leb (1 + inode_map_sz) img.nblks)
      >> list_map (inode_map_sz * 8192) 0 inode_map allocated_inode
      >> need (leb (1 + inode_map_sz + block_map_sz) img.nblks)
      >> list_map (block_map_sz * 8192) 0 block_map allocated_block

  unfoldable pub list_lost : Step
  list_lost sc =
      let first_blk = 1 + inode_map_sz + block_map_sz + inode_region_sz in
      (list_unreachable (inode_region_sz * 16 - 1) 1 sc.imap inode_map unreachable_inode
          >> list_unreachable (sb 4 - first_blk) first_blk sc.blkmap block_map unreachable_block)
        sc

  abbrev pub start : Scan
  start = record { blkmap = zero_area; imap = zero_area; inode_list = []; head = 0; lines = [] }

  unfoldable pub read_img : Option (List Line)
  read_img = elim ((list_allocated >> push true 1 >> read_tree 101 >> list_lost) start) [
    | none ↦ none
    | some sc ↦ some sc.lines
  ]
