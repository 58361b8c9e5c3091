-- ===== src/Mount/Rename.antt =====
-- `fs_rename` and `fs_rmdir` and the invariant.
use cs5600_filesystem.Base.{
  ℕ, zero, suc, ◌+◌, ◌*◌, ◌≤◌, ◌<◌, ◌≡◌, ◌⊎◌, false, not, ◌&&◌, arith, ltb, Bool-cases, inl, inr,
  Bytes, length, bytes_eq,
}
use cs5600_filesystem.Base.Int.{pos, is_negative, exceeds, lookup_failed, ℤ_eq}
use cs5600_filesystem.Memory.{Block}
use cs5600_filesystem.Names.{trancate_path, get_name, strip}
use cs5600_filesystem.State.{Fs}
use cs5600_filesystem.State.Inode.{field, w_direct, w_mode, is_reg}
use cs5600_filesystem.State.Post.{Post, returns, faults, bind, branch, on_option}
use cs5600_filesystem.Tree.Dirent.{dir_valid, dir_name_is}
use cs5600_filesystem.Mount.{data_start, IsMounted}
use cs5600_filesystem.Mount.Steps.{set_inode_bit-IsSound, update_bitmap-IsMounted}
use cs5600_filesystem.Base.Search.{first_index}
use cs5600_filesystem.Mount.Attr.{
  translate-IsMounted, inode_at-IsMounted, read_dir-IsMounted, write_good-IsMounted,
  write_dir-IsMounted,
}
use cs5600_filesystem.Mount.Create.{or_fault-IsMounted}
use cs5600_filesystem.Ops.Remove.{drop_name, remove_entries, fs_rmdir}
use cs5600_filesystem.Ops.Rename.{put_name, rename_entries, fs_rename}

module _ {g : Fs} where
  rename_entries-IsMounted :
      {s : Fs} (n i b : ℕ) (src dst : Bytes) (dir : Block)
      → (b ≡ 0) ⊎ (data_start g ≤ b)
      → IsMounted g s
      → Post (λ _. IsMounted g) (rename_entries n i b src dst dir s)
  unfolding rename_entries
  rename_entries-IsMounted zero i b src dst dir good h = returns h
  rename_entries-IsMounted {s} (suc n) i b src dst dir good h =
      elim (Bool-cases (dir_valid dir i && dir_name_is dir i src)) [
        | inr e ↦ rw (e, rename_entries) (rename_entries-IsMounted n (i + 1) b src dst dir good h)
        | inl e ↦
            rw (e, rename_entries)
              (branch (ltb (32 * i + 4 + length dst) 1024) _ _ s
                (λ _. bind (write_good-IsMounted b (put_name dir i dst) good h) λ _ s' h'.
                  rename_entries-IsMounted n (i + 1) b src dst (put_name dir i dst) good h')
                (λ _. faults))
      ]

  -- `fs_rename` leaves a mounted file system mounted, on every branch that returns: the
  -- disk's copies of the maps and of the inodes agree with the memory, the sizes stay, the superblock,
  -- the maps and the inodes stay marked as used, and no inode's direct block lies among them.
  pub fs_rename-IsMounted :
      {s : Fs} (src_path dst_path : Bytes)
      → IsMounted g s
      → Post (λ _. IsMounted g) (fs_rename src_path dst_path s)
  unfolding fs_rename
  fs_rename-IsMounted src_path dst_path h = bind (translate-IsMounted src_path h) λ src_inum s₁ h₁.
      bind (translate-IsMounted dst_path h₁) λ dst_inum s₂ h₂.
        branch (is_negative src_inum) _ _ s₂ (λ _. returns h₂)
          λ _.
            branch (exceeds dst_inum 0) _ _ s₂ (λ _. returns h₂)
              λ _. bind (or_fault-IsMounted (trancate_path src_path) h₂) λ src_father s₃ h₃.
                bind (or_fault-IsMounted (trancate_path dst_path) h₃) λ dst_father s₄ h₄.
                  branch (not (bytes_eq src_father dst_father)) _ _ s₄ (λ _. returns h₄)
                    λ _. bind (translate-IsMounted src_father h₄) λ father_inum s₅ h₅.
                      branch (ℤ_eq father_inum (pos 0)) _ _ s₅ (λ _. returns h₅)
                        λ _. bind (or_fault-IsMounted (get_name src_path) h₅) λ src_name s₆ h₆.
                          bind (or_fault-IsMounted (get_name dst_path) h₆) λ dst_name s₇ h₇.
                            bind (inode_at-IsMounted father_inum h₇) λ father s₈ (h₈, lt).
                              bind (read_dir-IsMounted father h₈) λ dir s₉ h₉.
                                bind
                                  (rename_entries-IsMounted 32 0 (field s₉ father w_direct) src_name
                                    dst_name dir (h₉.sound.pointed father 0 lt (omega arith)) h₉)
                                  λ _ s₁₀ h₁₀. returns h₁₀

  pub drop_name-IsMounted :
      {s : Fs} (father : ℕ) (name : Bytes)
      → father < g.inode_region_sz * 16
      → IsMounted g s
      → Post (λ _. IsMounted g) (drop_name father name s)
  unfolding drop_name
  drop_name-IsMounted father name lt h = bind (read_dir-IsMounted father h) λ dir s₁ h₁.
      bind (write_dir-IsMounted father (remove_entries 32 0 name (dir, false)).0 lt h₁)
        λ _ s₂ h₂. returns h₂

  -- `fs_rmdir` leaves a mounted file system mounted, on every branch that returns: the
  -- disk's copies of the maps and of the inodes agree with the memory, the sizes stay, the superblock,
  -- the maps and the inodes stay marked as used, and no inode's direct block lies among them.
  pub fs_rmdir-IsMounted :
      {s : Fs} (path : Bytes) → IsMounted g s → Post (λ _. IsMounted g) (fs_rmdir path s)
  unfolding fs_rmdir
  fs_rmdir-IsMounted path h = bind (translate-IsMounted path h) λ inum s₁ h₁.
      branch (lookup_failed inum) _ _ s₁ (λ _. returns h₁)
        λ _. bind (inode_at-IsMounted inum h₁) λ n s₂ (h₂, lt).
          branch (is_reg (field s₂ n w_mode)) _ _ s₂ (λ _. returns h₂)
            λ _. bind (or_fault-IsMounted (trancate_path path) h₂) λ father_path s₃ h₃.
              bind (read_dir-IsMounted n h₃) λ dir s₄ h₄.
                on_option (first_index 32 0 (dir_valid dir)) _ _ s₄
                  (λ _. bind (set_inode_bit-IsSound (field s₄ n w_direct) h₄.sound) λ _ s₅ h₅.
                    bind (update_bitmap-IsMounted h₅) λ _ s₆ h₆.
                      bind (set_inode_bit-IsSound n h₆.sound) λ _ s₇ h₇.
                        bind (update_bitmap-IsMounted h₇) λ _ s₈ h₈.
                          bind (or_fault-IsMounted (get_name (strip path)) h₈) λ name s₉ h₉.
                            bind (translate-IsMounted father_path h₉) λ father_inum t₁ k₁.
                              bind (inode_at-IsMounted father_inum k₁) λ father t₂ (k₂, lt').
                                bind (drop_name-IsMounted father name lt' k₂)
                                  λ found t₃ k₃. returns k₃)
                  (λ i _. returns h₄)
