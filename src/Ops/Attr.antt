-- ===== src/Ops/Attr.antt =====
-- `fs_getattr`, `fs_readdir`, `fs_chmod`, `fs_utime` and `fs_statfs`. What they return below zero is
-- an error code.
use cs5600_filesystem.Base.{
  ℕ, zero, suc, ◌+◌, ◌-◌, ◌*◌, Bool, true, not, Option, none, some, List, [], ◌∷◌, ◌==◌,
  if◌then◌else◌, Bytes,
}
use cs5600_filesystem.Base.Int.{ℤ, pos, is_negative, ℤ_eq, enotdir, lookup_failed}
use cs5600_filesystem.Memory.{Block}
use cs5600_filesystem.Names.{trancate_path}
use cs5600_filesystem.State.{Cmd, ok, pure, ◌>>=◌, ◌>>◌, gets}
use cs5600_filesystem.State.Device.{fs_init}
use cs5600_filesystem.State.Inode.{
  field, set_field, w_mode, w_mtime, inode_at, update_inode, is_dir, Stat, set_attr,
}
use cs5600_filesystem.Tree.{read_dir, translate, inode_is_dir}
use cs5600_filesystem.Tree.Dirent.{dir_valid, dir_inode}

-- The disk is read again first.
unfoldable pub fs_getattr : Bytes → Cmd (ℤ × Option Stat)
fs_getattr path = do
  fs_init
  inum ← translate path
  if lookup_failed inum
      then pure (inum, none)
      else do n ← inode_at inum; λ s. ok (pos 0, some (set_attr s n)) s

-- The C string at an offset of a block, up to the end of the block.
unfoldable pub c_string : (fuel start : ℕ) → Block → Bytes
c_string zero start blk = []
c_string (suc n) start blk =
    let rest = c_string n (start + 1) blk in if blk start == 0 then [] else blk start ∷ rest

-- The calls of `filler`, from entry `i` on.
unfoldable pub list_entries : (rounds i : ℕ) → Block → Cmd (List (Bytes × Stat))
list_entries zero i dir = pure []
list_entries (suc n) i dir =
    let rest = list_entries n (i + 1) dir in
    if not (dir_valid dir i) then rest else do
      inum ← inode_at (pos (dir_inode dir i))
      stat ← gets (λ s. set_attr s inum)
      more ← rest
      pure ((c_string (1020 - 32 * i) (32 * i + 4) dir, stat) ∷ more)

-- `father_inum` is 0 where the path has no father.
unfoldable pub father_of : Bytes → Cmd ℤ
father_of path = elim (trancate_path path) [ none ↦ pure (pos 0) | some father ↦ translate father ]

unfoldable pub is_listed : (father_inum inum : ℤ) → Cmd Bool
is_listed father_inum inum =
    if ℤ_eq father_inum (pos 0)
    then pure true
    else do found ← inode_is_dir father_inum inum; pure (not (found == 0))

unfoldable pub fs_readdir : Bytes → Cmd (ℤ × List (Bytes × Stat))
fs_readdir path = do
  father_inum ← father_of path
  inum ← translate path
  if lookup_failed inum then pure (inum, []) else do
    listed ← is_listed father_inum inum
    if not listed then pure (enotdir, []) else do
      n ← inode_at inum
      mode ← gets (λ s. field s n w_mode)
      if not (is_dir mode)
          then pure (enotdir, [])
          else do dir ← read_dir n; entries ← list_entries 32 0 dir; pure (pos 0, entries)

unfoldable pub fs_chmod : Bytes → (mode : ℕ) → Cmd ℤ
fs_chmod path mode = do
  inum ← translate path
  if is_negative inum
      then pure inum
      else do n ← inode_at inum; set_field n w_mode mode; update_inode n; pure (pos 0)

unfoldable pub fs_utime : Bytes → (modtime : ℕ) → Cmd ℤ
fs_utime path modtime = do
  inum ← translate path
  if is_negative inum
      then pure inum
      else do n ← inode_at inum; set_field n w_mtime modtime; update_inode n; pure (pos 0)

-- `struct statvfs`, as far as the code fills it.
pub record StatVfs : Type 0 where
  pub f_bsize : ℕ
  pub f_blocks : ℕ
  pub f_bfree : ℕ
  pub f_bavail : ℕ
  pub f_namemax : ℕ

unfoldable pub fs_statfs : StatVfs
fs_statfs = record { f_bsize = 1024; f_blocks = 0; f_bfree = 0; f_bavail = 0; f_namemax = 27 }
