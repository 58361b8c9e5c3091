-- ===== src/Mount/Create.antt =====
-- `fs_mknod` and `fs_mkdir` and the invariant.
use cs5600_filesystem.Base.{
  ℕ, zero, suc, ◌+◌, ◌*◌, ◌%◌, ◌^◌, ◌≤◌, ◌<◌, ◌≡◌, refl, ◌⊎◌, Bool, true, false, not, Option, none,
  some, List, arith, ltb, ◌==◌, if◌then◌else◌, inl, inr, get_or, Bytes, length,
}
use cs5600_filesystem.Base.Int.{pos, is_negative, exceeds, lookup_failed}
use cs5600_filesystem.Memory.{zero_block}
use cs5600_filesystem.Names.{trancate_path, get_name}
use cs5600_filesystem.State.{Fs, Env}
use cs5600_filesystem.State.Inode.{field, w_direct, w_mode, is_dir, is_reg}
use cs5600_filesystem.State.Post.{Post, returns, faults, bind, branch, on_option}
use cs5600_filesystem.Mount.{data_start, IsMounted, IsGoodField}
use cs5600_filesystem.Mount.Steps.{
  write_block-IsMounted, set_inode_bit-IsSound, set_block_bit-IsSound, update_bitmap-IsMounted,
}
use cs5600_filesystem.Mount.Inodes.{
  put_inode-IsDirty, update_inode-IsMounted, find_free_block_number-IsMounted,
}
use cs5600_filesystem.Mount.Attr.{
  translate-IsMounted, inode_at-IsMounted, read_dir-IsMounted, index-IsMounted,
  find_free_inode_map_bit-IsMounted, write_dir-IsMounted, find_free_dirent_num-IsMounted,
}
use cs5600_filesystem.Ops.Create.{
  or_fault, assert, new_inode, store_inode, add_entry, make_node, make_dir, fs_mknod, fs_mkdir,
  or_ifdir,
}

-- Of the direct blocks only the first is set.
pub new_inode-direct :
    (env : Env) (mode blk j : ℕ)
    → j < 6
    → get_or (new_inode env mode blk) (w_direct + j) 0 ≡ (if j == 0 then blk else 0)
new_inode-direct env mode blk zero lt = refl
new_inode-direct env mode blk (suc zero) lt = refl
new_inode-direct env mode blk (suc (suc zero)) lt = refl
new_inode-direct env mode blk (suc (suc (suc zero))) lt = refl
new_inode-direct env mode blk (suc (suc (suc (suc zero)))) lt = refl
new_inode-direct env mode blk (suc (suc (suc (suc (suc zero))))) lt = refl
new_inode-direct env mode blk (suc (suc (suc (suc (suc (suc j)))))) lt = absurd (omega arith)

-- The words of a new inode point to nothing, or to a data block.
new_inode-IsGoodField :
    (g : Fs) (env : Env) (mode blk : ℕ)
    → (blk % 2 ^ 32 ≡ 0) ⊎ (data_start g ≤ blk % 2 ^ 32)
    → (j : ℕ) → j < 6
    → IsGoodField g (w_direct + j) (get_or (new_inode env mode blk) (w_direct + j) 0)
new_inode-IsGoodField g env mode blk good j lt k lt' e =
    rw (new_inode-direct env mode blk j lt) (ground arith)

module _ {g : Fs} where
  pub or_fault-IsMounted :
      {A : Type 0} {s : Fs} (o : Option A) → IsMounted g s → Post (λ _. IsMounted g) (or_fault o s)
  or_fault-IsMounted none h = faults
  or_fault-IsMounted (some a) h = returns h

  assert-IsMounted : {s : Fs} (b : Bool) → IsMounted g s → Post (λ _. IsMounted g) (assert b s)
  assert-IsMounted true h = returns h
  assert-IsMounted false h = faults

  store_inode-IsMounted :
      {s : Fs} (inum : ℕ) (words : List ℕ)
      → ((j : ℕ) → j < 6 → IsGoodField g (w_direct + j) (get_or words (w_direct + j) 0))
      → IsMounted g s
      → Post (λ _. IsMounted g) (store_inode inum words s)
  unfolding store_inode
  store_inode-IsMounted inum words good h = bind (set_inode_bit-IsSound inum h.sound) λ _ s₁ h₁.
      bind (update_bitmap-IsMounted h₁) λ _ s₂ h₂.
        bind (inode_at-IsMounted (pos inum) h₂) λ n s₃ (h₃, lt).
          bind (put_inode-IsDirty n words good h₃) λ _ s₄ d. update_inode-IsMounted n lt d

  add_entry-IsMounted :
      {s : Fs} (father i : ℕ) (is_dir : Bool) (inum : ℕ) (path : Bytes)
      → father < g.inode_region_sz * 16
      → IsMounted g s
      → Post (λ _. IsMounted g) (add_entry father i is_dir inum path s)
  unfolding add_entry
  add_entry-IsMounted father i is_dir inum path lt h =
      bind (or_fault-IsMounted (get_name path) h) λ name s₁ h₁.
        bind (assert-IsMounted (ltb (length name) 28) h₁) λ _ s₂ h₂.
          bind (read_dir-IsMounted father h₂) λ dir s₃ h₃. write_dir-IsMounted father _ lt h₃

  make_node-IsMounted :
      {s : Fs} (env : Env) (path : Bytes) (mode father i : ℕ)
      → father < g.inode_region_sz * 16
      → IsMounted g s
      → Post (λ _. IsMounted g) (make_node env path mode father i s)
  unfolding make_node
  make_node-IsMounted env path mode father i lt h =
      bind (find_free_inode_map_bit-IsMounted h) λ free s₁ h₁.
        branch (is_negative free) _ _ s₁ (λ _. returns h₁)
          λ _. bind (index-IsMounted free h₁) λ inum s₂ (h₂, _).
            bind
              (store_inode-IsMounted inum (new_inode env mode 0)
                (new_inode-IsGoodField g env mode 0 (inl refl)) h₂)
              λ _ s₃ h₃.
                bind (add_entry-IsMounted father i false inum path lt h₃) λ _ s₄ h₄. returns h₄

  make_dir-IsMounted :
      {s : Fs} (env : Env) (path : Bytes) (mode father i : ℕ)
      → father < g.inode_region_sz * 16
      → IsMounted g s
      → Post (λ _. IsMounted g) (make_dir env path mode father i s)
  unfolding make_dir
  make_dir-IsMounted env path mode father i lt h =
      bind (find_free_block_number-IsMounted h) λ r s₁ (h₁, found).
        bind (index-IsMounted r h₁) λ blk s₂ (h₂, is).
          let far : (data_start g ≤ blk) × (blk < 2 ^ 31) = ground (arith, found) in
          bind (set_block_bit-IsSound blk h₂.sound) λ _ s₃ h₃.
            bind (update_bitmap-IsMounted h₃) λ _ s₄ h₄.
              bind (write_block-IsMounted blk zero_block far.0 h₄) λ _ s₅ h₅.
                bind (find_free_inode_map_bit-IsMounted h₅) λ free s₆ h₆.
                  branch (is_negative free) _ _ s₆ (λ _. returns h₆)
                    λ _. bind (index-IsMounted free h₆) λ inum s₇ (h₇, _).
                      bind
                        (store_inode-IsMounted inum (new_inode env mode blk)
                          (new_inode-IsGoodField g env mode blk (inr (omega arith))) h₇)
                        λ _ s₈ h₈.
                          bind (add_entry-IsMounted father i true inum path lt h₈)
                            λ _ s₉ h₉. returns h₉

  -- `fs_mknod` leaves a mounted file system mounted, on every branch that returns: the
  -- disk's copies of the maps and of the inodes agree with the memory, the sizes stay, the superblock,
  -- the maps and the inodes stay marked as used, and no inode's direct block lies among them.
  pub fs_mknod-IsMounted :
      {s : Fs} (env : Env) (path : Bytes) (mode : ℕ)
      → IsMounted g s
      → Post (λ _. IsMounted g) (fs_mknod env path mode s)
  unfolding fs_mknod
  fs_mknod-IsMounted {s} env path mode h =
      branch (not (is_reg mode)) _ _ s (λ _. returns h)
        λ _.
          on_option (trancate_path path) _ _ s (λ _. returns h)
            λ father_path _. bind (translate-IsMounted father_path h) λ dir_inum s₁ h₁.
              branch (lookup_failed dir_inum) _ _ s₁ (λ _. returns h₁)
                λ _. bind (translate-IsMounted path h₁) λ inum s₂ h₂.
                  branch (exceeds inum 0) _ _ s₂ (λ _. returns h₂)
                    λ _. bind (inode_at-IsMounted dir_inum h₂) λ father s₃ (h₃, lt).
                      bind (find_free_dirent_num-IsMounted father h₃) λ free s₄ h₄.
                        on_option free _ _ s₄ (λ _. returns h₄)
                          λ i _. make_node-IsMounted env path mode father i lt h₄

  -- `fs_mkdir` leaves a mounted file system mounted, on every branch that returns: the
  -- disk's copies of the maps and of the inodes agree with the memory, the sizes stay, the superblock,
  -- the maps and the inodes stay marked as used, and no inode's direct block lies among them.
  pub fs_mkdir-IsMounted :
      {s : Fs} (env : Env) (path : Bytes) (mode : ℕ)
      → IsMounted g s
      → Post (λ _. IsMounted g) (fs_mkdir env path mode s)
  unfolding fs_mkdir
  fs_mkdir-IsMounted {s} env path mode h =
      branch (not (is_dir (or_ifdir mode))) _ _ s (λ _. returns h)
        λ _.
          on_option (trancate_path path) _ _ s (λ _. returns h)
            λ father_path _. bind (translate-IsMounted father_path h) λ dir_inum s₁ h₁.
              branch (lookup_failed dir_inum) _ _ s₁ (λ _. returns h₁)
                λ _. bind (translate-IsMounted path h₁) λ inum s₂ h₂.
                  branch (exceeds inum 0) _ _ s₂ (λ _. returns h₂)
                    λ _. bind (inode_at-IsMounted dir_inum h₂) λ father s₃ (h₃, lt).
                      bind (find_free_dirent_num-IsMounted father h₃) λ free s₄ h₄.
                        on_option free _ _ s₄ (λ _. returns h₄)
                          λ i _.
                            branch (not (is_dir (field s₄ father w_mode))) _ _ s₄ (λ _. returns h₄)
                              λ _. make_dir-IsMounted env path (or_ifdir mode) father i lt h₄
