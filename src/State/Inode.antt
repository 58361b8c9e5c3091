-- ===== src/State/Inode.antt =====
-- Inodes in memory: `struct fs5600_inode` is 16 words of 4 bytes, 16 inodes to a block.
use Prim.Native.Nat.{◌^◌}
use cs5600_filesystem.Base.{ℕ, ◌+◌, ◌*◌, ◌/◌, ◌%◌, Bool, List, ltb, ◌==◌, if◌then◌else◌}
use cs5600_filesystem.Base.Int.{ℤ, pos, negsuc, signed32, quot}
use cs5600_filesystem.Memory.{word, set_word, store_words}
use cs5600_filesystem.State.{Fs, Cmd, ok, fault}
use cs5600_filesystem.State.Device.{write_block}

-- The words of an inode. The first holds `uid` in its lower and `gid` in its upper half.
abbrev pub w_ids : ℕ
w_ids = 0

abbrev pub w_mode : ℕ
w_mode = 1

abbrev pub w_ctime : ℕ
w_ctime = 2

abbrev pub w_mtime : ℕ
w_mtime = 3

abbrev pub w_size : ℕ
w_size = 4

abbrev pub w_direct : ℕ
w_direct = 5

abbrev pub w_indir_1 : ℕ
w_indir_1 = 11

abbrev pub w_indir_2 : ℕ
w_indir_2 = 12

-- `inode_region[inum].field`
unfoldable pub field : Fs → (inum f : ℕ) → ℕ
field s inum f = word (s.inode_region (inum / 16)) (16 * (inum % 16) + f)

-- `inode_region[inum].field = v`
unfoldable pub set_field : (inum f v : ℕ) → Cmd (Unit {0})
set_field inum f v s = ok tt (record s {
  inode_region = λ k.
      if k == inum / 16
      then set_word (s.inode_region k) (16 * (inum % 16) + f) v
      else s.inode_region k;
})

-- `&inode_region[inum]`, where the inode is then read or written.
unfoldable pub inode_at : ℤ → Cmd ℕ
inode_at (pos inum) s = if ltb inum (s.inode_region_sz * 16) then ok inum s else fault
inode_at (negsuc _) s = fault

-- `memcpy(&inode_region[inum], &new_inode, sizeof(struct fs5600_inode))`, the new inode given by
-- its words; the words behind the list are zero, as in a C initializer.
unfoldable pub put_inode : ℕ → List ℕ → Cmd (Unit {0})
put_inode inum words s = ok tt (record s {
  inode_region = λ k.
      if k == inum / 16 then store_words (s.inode_region k) (inum % 16) words else s.inode_region k;
})

-- The inode block that holds `inum` goes to the disk.
unfoldable pub update_inode : ℕ → Cmd (Unit {0})
update_inode inum s =
    write_block (1 + s.inode_map_sz + s.block_map_sz + inum / 16) (s.inode_region (inum / 16)) s

-- S_ISDIR and S_ISREG of <sys/stat.h>: bits 12 to 15 of the mode.
abbrev pub is_dir : ℕ → Bool
is_dir mode = mode / 4096 % 16 == 4

abbrev pub is_reg : ℕ → Bool
is_reg mode = mode / 4096 % 16 == 8

-- `struct stat`, as far as the code fills it.
pub record Stat : Type 0 where
  pub st_mode : ℕ
  pub st_uid : ℕ
  pub st_gid : ℕ
  pub st_size : ℤ
  pub st_blocks : ℤ
  pub st_nlink : ℕ
  pub st_atime : ℕ
  pub st_ctime : ℕ
  pub st_mtime : ℕ

unfoldable pub set_attr : Fs → ℕ → Stat
set_attr s inum = record {
  st_mode = field s inum w_mode;
  st_uid = field s inum w_ids % 65536;
  st_gid = field s inum w_ids / 65536;
  st_size = signed32 (field s inum w_size);
  st_blocks = quot (signed32 ((field s inum w_size + 1023) % 2 ^ 32)) 1024;
  st_nlink = 1;
  st_atime = field s inum w_mtime;
  st_ctime = field s inum w_ctime;
  st_mtime = field s inum w_mtime;
}
