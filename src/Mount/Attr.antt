-- ===== src/Mount/Attr.antt =====
-- The commands that only read, the write of a directory block, `fs_chmod` and `fs_utime` and the invariant.
use cs5600_filesystem.Base.{ℕ, ◌*◌, ◌≤◌, ◌<◌, ◌≡◌, refl, ◌⊎◌, arith, if◌then◌else◌, inl, inr, Bytes}
use cs5600_filesystem.Base.Int.{ℤ, pos, negsuc, is_negative}
use cs5600_filesystem.Memory.{Block}
use cs5600_filesystem.State.{Run-cases, Fs, pure, ◌>>=◌, ◌>>◌}
use cs5600_filesystem.State.Device.{read_block, write_block}
use cs5600_filesystem.State.Bitmap.{index, find_free_inode_map_bit}
use cs5600_filesystem.State.Inode.{
  field, w_direct, w_mode, w_mtime, inode_at, update_inode, set_field,
}
use cs5600_filesystem.State.Post.{
  Post, returns, faults, bind, mono, branch, inode_at-Post, read_block-Post, write_block-Post,
}
use cs5600_filesystem.State.Alloc.{find_free_inode_map_bit-Post}
use cs5600_filesystem.Tree.{translate, read_dir, find_free_dirent_num}
use cs5600_filesystem.Mount.{data_start, IsMounted}
use cs5600_filesystem.Mount.Steps.{put_disk-IsMounted}
use cs5600_filesystem.Mount.Inodes.{set_field-IsDirty, update_inode-IsMounted}
use cs5600_filesystem.Tree.Lookup.{translate-same}
use cs5600_filesystem.Ops.Attr.{fs_chmod, fs_utime}

module _ {g : Fs} where
  pub translate-IsMounted :
      {s : Fs} (path : Bytes) → IsMounted g s → Post (λ _. IsMounted g) (translate path s)
  translate-IsMounted {s} path h = elim (Run-cases (translate path s)) [
    | inl e ↦ rw e faults
    | inr (r, s', e) ↦ rw e (returns (rw (translate-same s path e) h))
  ]

  pub inode_at-IsMounted :
      {s : Fs} (inum : ℤ)
      → IsMounted g s
      → Post (λ n s'. IsMounted g s' × (n < g.inode_region_sz * 16)) (inode_at inum s)
  inode_at-IsMounted {s} inum h =
      mono (inode_at-Post s inum) λ n s' (same, is, lt). (rw same h, omega (arith, h.sound.sized))

  pub read_block-IsMounted :
      {s : Fs} (b : ℕ) → IsMounted g s → Post (λ _. IsMounted g) (read_block b s)
  read_block-IsMounted {s} b h = mono (read_block-Post s b) λ _ s' same. rw same h

  pub read_dir-IsMounted : {s : Fs} (n : ℕ) → IsMounted g s → Post (λ _. IsMounted g) (read_dir n s)
  unfolding read_dir
  read_dir-IsMounted {s} n h = read_block-IsMounted (field s n w_direct) h

  pub index-IsMounted :
      {s : Fs} (i : ℤ) → IsMounted g s → Post (λ n s'. IsMounted g s' × (i ≡ pos n)) (index i s)
  index-IsMounted (pos n) h = returns (h, refl)
  index-IsMounted (negsuc n) h = faults

  pub find_free_inode_map_bit-IsMounted :
      {s : Fs} → IsMounted g s → Post (λ _. IsMounted g) (find_free_inode_map_bit s)
  find_free_inode_map_bit-IsMounted {s} h =
      mono (find_free_inode_map_bit-Post s) λ _ s' same. rw same h

  pub find_free_dirent_num-IsMounted :
      {s : Fs} (n : ℕ) → IsMounted g s → Post (λ _. IsMounted g) (find_free_dirent_num n s)
  unfolding find_free_dirent_num
  find_free_dirent_num-IsMounted n h = bind (read_dir-IsMounted n h) λ dir s' h'. returns h'

  -- The write of a directory's block: block 0 is refused by the device.
  pub write_good-IsMounted :
      {s : Fs} (b : ℕ) (blk : Block)
      → (b ≡ 0) ⊎ (data_start g ≤ b)
      → IsMounted g s
      → Post (λ _. IsMounted g) (write_block b blk s)
  write_good-IsMounted {s} b blk good h =
      mono (write_block-Post s b blk)
        λ _ s' (ne, fits, e). rw e (put_disk-IsMounted b blk (ground (arith, good)) h)

  pub write_dir-IsMounted :
      {s : Fs} (n : ℕ) (blk : Block)
      → n < g.inode_region_sz * 16
      → IsMounted g s
      → Post (λ _. IsMounted g) (write_block (field s n w_direct) blk s)
  write_dir-IsMounted {s} n blk lt h =
      write_good-IsMounted (field s n w_direct) blk (h.sound.pointed n 0 lt (omega arith)) h

  -- A field other than the pointers is set, and the inode is saved.
  set_attribute-IsMounted :
      {s : Fs} (path : Bytes) (f v : ℕ)
      → f < 5
      → IsMounted g s
      → Post
          (λ _. IsMounted g)
          ((do
            inum ← translate path
            if is_negative inum
                then pure inum
                else do n ← inode_at inum; set_field n f v; update_inode n; pure (pos 0))
            s)
  set_attribute-IsMounted path f v small h = bind (translate-IsMounted path h) λ inum s₁ h₁.
      branch (is_negative inum) _ _ s₁ (λ _. returns h₁)
        λ _. bind (inode_at-IsMounted inum h₁) λ n s₂ (h₂, lt).
          bind (set_field-IsDirty n f v (omega arith) (λ j six e. absurd (omega arith)) h₂)
            λ _ s₃ d. bind (update_inode-IsMounted n lt d) λ _ s₄ h₄. returns h₄

  -- `fs_chmod` leaves a mounted file system mounted, on every branch that returns: the
  -- disk's copies of the maps and of the inodes agree with the memory, the sizes stay, the superblock,
  -- the maps and the inodes stay marked as used, and no inode's direct block lies among them.
  pub fs_chmod-IsMounted :
      {s : Fs} (path : Bytes) (mode : ℕ)
      → IsMounted g s
      → Post (λ _. IsMounted g) (fs_chmod path mode s)
  unfolding fs_chmod
  fs_chmod-IsMounted path mode h = set_attribute-IsMounted path w_mode mode (omega arith) h

  -- `fs_utime` leaves a mounted file system mounted, on every branch that returns: the
  -- disk's copies of the maps and of the inodes agree with the memory, the sizes stay, the superblock,
  -- the maps and the inodes stay marked as used, and no inode's direct block lies among them.
  pub fs_utime-IsMounted :
      {s : Fs} (path : Bytes) (modtime : ℕ)
      → IsMounted g s
      → Post (λ _. IsMounted g) (fs_utime path modtime s)
  unfolding fs_utime
  fs_utime-IsMounted path modtime h = set_attribute-IsMounted path w_mtime modtime (omega arith) h
