-- ===== src/Ops/Rmdir.antt =====
-- What `fs_rmdir` does to the two maps.
use cs5600_filesystem.Base.{ℕ, ◌*◌, ◌≡◌, refl, inl, inr, true, Bytes, arith, ltb, Bool-cases}
use cs5600_filesystem.Base.Int.{lookup_failed}
use cs5600_filesystem.Base.Search.{first_index}
use cs5600_filesystem.Memory.{fd_isset, fd_isset-fd_set}
use cs5600_filesystem.Names.{trancate_path, get_name, strip}
use cs5600_filesystem.State.{Fs, Run}
use cs5600_filesystem.State.Bitmap.{set_inode_bit, update_bitmap}
use cs5600_filesystem.State.Inode.{field, w_mode, w_direct, is_reg}
use cs5600_filesystem.State.Post.{
  Post, returns, faults, bind, mono, branch, on_option, write_block-Post,
}
use cs5600_filesystem.Mount.Steps.{update_bitmap-Post}
use cs5600_filesystem.Tree.Dirent.{dir_valid}
use cs5600_filesystem.Ops.Remove.{drop_name, fs_rmdir}
use cs5600_filesystem.Ops.Errors.{
  Looks, translate-Looks, inode_at-Looks, read_dir-Looks, or_fault-Looks,
}

-- No block and no inode has become free, and no block has become used.
pub record FreesNothing (s t : Fs) : Type 0 where
  pub block_map : t.block_map ≡ s.block_map
  pub inode_map : (i : ℕ) → fd_isset i s.inode_map ≡ true → fd_isset i t.inode_map ≡ true

module _ {s₀ : Fs} where
  looked :
      {A : Type 0} {s : Fs} {run : Run A}
      → FreesNothing s₀ s
      → Looks s run
      → Post (λ _. FreesNothing s₀) run
  looked h looks = mono looks λ a t e. rw e h

  set_inode_bit-FreesNothing :
      {s : Fs} (i : ℕ) → FreesNothing s₀ s → Post (λ _. FreesNothing s₀) (set_inode_bit i s)
  unfolding set_inode_bit
  set_inode_bit-FreesNothing {s} i h = elim (Bool-cases (ltb i (s.inode_map_sz * 8192))) [
    | inr e ↦ rw e faults
    | inl e ↦ rw e (
        returns (record {
          block_map = h.block_map;
          inode_map = λ j used. ground (arith, fd_isset-fd_set i j s.inode_map, h.inode_map j used);
        }))
  ]

  update_bitmap-FreesNothing :
      {s : Fs} → FreesNothing s₀ s → Post (λ _. FreesNothing s₀) (update_bitmap s)
  update_bitmap-FreesNothing {s} h =
      mono (update_bitmap-Post s)
        λ _ t e. rw e (record { block_map = h.block_map; inode_map = h.inode_map })

  drop_name-FreesNothing :
      {s : Fs} (father : ℕ) (name : Bytes)
      → FreesNothing s₀ s
      → Post (λ _. FreesNothing s₀) (drop_name father name s)
  unfolding drop_name
  drop_name-FreesNothing {s} father name h = bind (looked h (read_dir-Looks s father)) λ dir s₁ h₁.
      bind
        (mono (write_block-Post s₁ _ _)
          λ _ t e. rw e.2 (record { block_map = h₁.block_map; inode_map = h₁.inode_map }))
        λ _ s₂ h₂. returns h₂

-- `fs_rmdir`, if it returns, has freed nothing: the block map is the one before the call, and every
-- inode that was in use is still in use.
pub fs_rmdir-FreesNothing :
    (s : Fs) (path : Bytes) → Post (λ _ t. FreesNothing s t) (fs_rmdir path s)
unfolding fs_rmdir
fs_rmdir-FreesNothing s path =
    let start : FreesNothing s s = record { block_map = refl; inode_map = λ i used. used } in
    bind (looked start (translate-Looks s path)) λ inum s₁ h₁.
      branch (lookup_failed inum) _ _ s₁ (λ _. returns h₁)
        λ _. bind (looked h₁ (inode_at-Looks s₁ inum)) λ n s₂ h₂.
          branch (is_reg (field s₂ n w_mode)) _ _ s₂ (λ _. returns h₂)
            λ _. bind (looked h₂ (or_fault-Looks s₂ (trancate_path path))) λ father_path s₃ h₃.
              bind (looked h₃ (read_dir-Looks s₃ n)) λ dir s₄ h₄.
                on_option (first_index 32 0 (dir_valid dir)) _ _ s₄
                  (λ _. bind (set_inode_bit-FreesNothing (field s₄ n w_direct) h₄) λ _ s₅ h₅.
                    bind (update_bitmap-FreesNothing h₅) λ _ s₆ h₆.
                      bind (set_inode_bit-FreesNothing n h₆) λ _ s₇ h₇.
                        bind (update_bitmap-FreesNothing h₇) λ _ s₈ h₈.
                          bind (looked h₈ (or_fault-Looks s₈ (get_name (strip path)))) λ name s₉ h₉.
                            bind (looked h₉ (translate-Looks s₉ father_path)) λ father_inum t₁ k₁.
                              bind (looked k₁ (inode_at-Looks t₁ father_inum)) λ father t₂ k₂.
                                bind (drop_name-FreesNothing father name k₂) λ _ t₃ k₃. returns k₃)
                  (λ i _. returns h₄)
