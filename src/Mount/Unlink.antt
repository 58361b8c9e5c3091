-- ===== src/Mount/Unlink.antt =====
-- `fs_unlink` on files without indirect blocks, and the invariant.
use cs5600_filesystem.Base.{ℕ, ◌*◌, ◌≤◌, ◌<◌, not, Bytes}
use cs5600_filesystem.Base.Int.{pos, ℤ_eq, lookup_failed}
use cs5600_filesystem.Names.{trancate_path, get_name}
use cs5600_filesystem.State.{Fs}
use cs5600_filesystem.State.Inode.{field, w_size, w_mode, is_dir}
use cs5600_filesystem.State.Post.{Post, returns, bind, branch, inode_at-Post}
use cs5600_filesystem.Mount.{IsMounted}
use cs5600_filesystem.Mount.Steps.{clr_inode_bit-IsSound, update_bitmap-IsMounted}
use cs5600_filesystem.Mount.Attr.{translate-IsMounted, inode_at-IsMounted}
use cs5600_filesystem.Mount.Create.{or_fault-IsMounted}
use cs5600_filesystem.Mount.Rename.{drop_name-IsMounted}
use cs5600_filesystem.Mount.Truncate.{fs_truncate-IsMounted}
use cs5600_filesystem.Ops.Remove.{fs_unlink}
use cs5600_filesystem.Ops.Errors.{translate-Looks}

module _ {g : Fs} where
  -- `fs_unlink` leaves a mounted file system mounted, on every branch that returns, if no inode has
  -- more than 6144 bytes, that is, if no file has indirect blocks: the disk's copies of the maps and of
  -- the inodes agree with the memory, the sizes stay, the superblock, the maps and the inodes stay
  -- marked as used, and no inode's direct block lies among them.
  pub fs_unlink-IsMounted :
      {s : Fs} (path : Bytes)
      → ((n : ℕ) → n < g.inode_region_sz * 16 → field s n w_size ≤ 6144)
      → IsMounted g s
      → Post (λ _. IsMounted g) (fs_unlink path s)
  unfolding fs_unlink
  fs_unlink-IsMounted {s} path small h = bind (translate-Looks s path) λ inum s₁ e₁. rw e₁ (
      branch (lookup_failed inum) _ _ s (λ _. returns h)
        λ _. bind (inode_at-Post s inum) λ n s₂ (same, is, lt). rw same (
          branch (is_dir (field s n w_mode)) _ _ s (λ _. returns h)
            λ _. bind (fs_truncate-IsMounted path (pos 0) small h) λ r s₃ h₃.
              branch (not (ℤ_eq r (pos 0))) _ _ s₃ (λ _. returns h₃)
                λ _. bind (or_fault-IsMounted (trancate_path path) h₃) λ father_path s₄ h₄.
                  bind (translate-IsMounted father_path h₄) λ father_inum s₅ h₅.
                    bind (clr_inode_bit-IsSound n h₅.sound) λ _ s₆ h₆.
                      bind (update_bitmap-IsMounted h₆) λ _ s₇ h₇.
                        bind (or_fault-IsMounted (get_name path) h₇) λ name s₈ h₈.
                          bind (inode_at-IsMounted father_inum h₈) λ father s₉ (h₉, lt').
                            bind (drop_name-IsMounted father name lt' h₉) λ found t₁ k₁.
                              branch (not found) _ _ t₁ (λ _. returns k₁) (λ _. returns k₁)))
