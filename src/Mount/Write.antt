-- ===== src/Mount/Write.antt =====
-- `fs_write` inside of the first 6144 bytes of a file, which its direct blocks hold, and the
-- invariant.
use cs5600_filesystem.Base.{
  ℕ, zero, suc, ◌+◌, ◌-◌, ◌*◌, ◌/◌, ◌%◌, ◌^◌, ◌≤◌, ◌<◌, ◌≡◌, inl, inr, true, false, not, ◌&&◌, ◌||◌,
  some, arith, ltb, leb, ◌==◌, Bytes, Bool-cases,
}
use cs5600_filesystem.Base.Int.{ℤ, pos, negsuc, exceeds, is_negative, ℤ_eq, signed32}
use cs5600_filesystem.State.{Fs}
use cs5600_filesystem.State.Inode.{field, w_direct, w_size}
use cs5600_filesystem.State.Post.{Post, returns, bind, mono, branch, on_option}
use cs5600_filesystem.Mount.{data_start, IsMounted}
use cs5600_filesystem.Mount.Steps.{
  write_block-IsMounted, set_block_bit-IsSound, update_bitmap-IsMounted,
}
use cs5600_filesystem.Mount.Inodes.{
  set_field-IsDirty, update_inode-IsMounted, find_free_block_number-IsMounted,
}
use cs5600_filesystem.Mount.Attr.{
  translate-IsMounted, inode_at-IsMounted, read_block-IsMounted, index-IsMounted,
}
use cs5600_filesystem.Ops.Read.{Buffer, chunk}
use cs5600_filesystem.Ops.Content.Copy.{chunk-bounds}
use cs5600_filesystem.Ops.Write.{
  mark_block, patch_block, alloc_field, write_direct, fs_write_1st_level, grow, write_levels,
  int_length, fs_write,
}
use cs5600_filesystem.Ops.Overwrite.Total.{int_length-small}

ℤ_eq-zero : (r : ℤ) → ℤ_eq r (pos 0) ≡ true → (n : ℕ) → r ≡ pos n → n ≡ 0
ℤ_eq-zero (pos a) e n is = let same : a ≡ n = cc in ground arith
ℤ_eq-zero (negsuc a) e n is = cc

module _ {g : Fs} where
  mark_block-IsMounted : {s : Fs} (b : ℕ) → IsMounted g s → Post (λ _. IsMounted g) (mark_block b s)
  unfolding mark_block
  mark_block-IsMounted b h =
      bind (set_block_bit-IsSound b h.sound) λ _ s₁ h₁. update_bitmap-IsMounted h₁

  pub patch_block-IsMounted :
      {s : Fs} (b off len at : ℕ) (buf : Buffer)
      → data_start g ≤ b
      → IsMounted g s
      → Post (λ _. IsMounted g) (patch_block b off len at buf s)
  unfolding patch_block
  patch_block-IsMounted b off len at buf far h =
      bind (read_block-IsMounted b h) λ old s₁ h₁. write_block-IsMounted b _ far h₁

  -- The block of a direct pointer, an old one or a new one, lies behind the metadata.
  pub alloc_direct-IsMounted :
      {s : Fs} (n j : ℕ)
      → n < g.inode_region_sz * 16
      → j < 6
      → IsMounted g s
      → Post
          (λ o t. IsMounted g t × ((b : ℕ) → o ≡ some b → data_start g ≤ b))
          (alloc_field n (w_direct + j) s)
  unfolding alloc_field
  alloc_direct-IsMounted {s} n j lt six h =
      let old : ℕ = field s n (w_direct + j) in
      let lies = h.sound.pointed n j lt six in
      branch (not (old == 0)) _ _ s
        (λ is_set.
          returns (h, λ b e. let same : old ≡ b = cc in ground (arith, same, lies, is_set)))
        λ _. bind (find_free_block_number-IsMounted h) λ r s₁ (h₁, found).
          branch (is_negative r) _ _ s₁ (λ _. returns (h₁, λ b e. absurd cc))
            λ _. bind (index-IsMounted r h₁) λ blk s₂ (h₂, is).
              let far : (data_start g ≤ blk) × (blk < 2 ^ 31) = ground (arith, found) in
              bind
                (set_field-IsDirty n (w_direct + j) blk (omega arith)
                  (λ k six' e. inr (omega arith)) h₂)
                λ _ s₃ d. bind (update_inode-IsMounted n lt d) λ _ s₄ h₄.
                  bind (mark_block-IsMounted blk h₄)
                    λ _ s₅ h₅. returns (h₅, λ b e. let same : blk ≡ b = cc in omega (arith, far))

  write_direct-IsMounted :
      {s : Fs} (rounds i n off len at done : ℕ) (buf : Buffer)
      → i + rounds ≡ 6
      → off < 1024
      → n < g.inode_region_sz * 16
      → IsMounted g s
      → Post
          (λ m t. IsMounted g t × (m ≤ done + len))
          (write_direct rounds i n off len at done buf s)
  unfolding write_direct
  write_direct-IsMounted zero i n off len at done buf count in_block lt h = returns (h, omega arith)
  write_direct-IsMounted {s} (suc r) i n off len at done buf count in_block lt h =
      branch (len == 0) _ _ s (λ _. returns (h, omega arith))
        λ _. bind (alloc_direct-IsMounted n i lt (omega arith) h) λ o s₁ (h₁, far).
          on_option o _ _ s₁ (λ _. returns (h₁, omega arith))
            λ blk e.
              bind (patch_block-IsMounted blk off (chunk 1024 off len) at buf (far blk e) h₁)
                λ _ s₂ h₂.
                  mono
                    (write_direct-IsMounted r (i + 1) n 0 (len - chunk 1024 off len)
                      (at + chunk 1024 off len) (done + chunk 1024 off len) buf (omega arith)
                      (omega arith) lt h₂)
                    λ m t (h₃, le). (h₃, omega (arith, le, chunk-bounds 1024 off len in_block))

  fs_write_1st_level-IsMounted :
      {s : Fs} (n offset len at : ℕ) (buf : Buffer)
      → offset < 6144
      → n < g.inode_region_sz * 16
      → IsMounted g s
      → Post (λ m t. IsMounted g t × (m ≤ len)) (fs_write_1st_level n offset len at buf s)
  unfolding fs_write_1st_level
  fs_write_1st_level-IsMounted n offset len at buf before lt h =
      mono
        (write_direct-IsMounted (6 - offset / 1024) (offset / 1024) n (offset % 1024) len at 0 buf
          (omega arith) (omega arith) lt h)
        λ m t (h', le). (h', omega arith)

  pub grow-IsMounted :
      {s : Fs} (n end : ℕ)
      → n < g.inode_region_sz * 16
      → IsMounted g s
      → Post (λ _. IsMounted g) (grow n end s)
  unfolding grow
  grow-IsMounted {s} n end lt h =
      let size : ℤ = signed32 (field s n w_size) in
      elim (Bool-cases (exceeds size end || ℤ_eq size (pos end))) [
        | inl e ↦ rw e (returns h)
        | inr e ↦ rw e (
            bind (set_field-IsDirty n w_size end (omega arith) (λ j six e. absurd (omega arith)) h)
              λ _ s₁ d. update_inode-IsMounted n lt d)
      ]

  write_levels-IsMounted :
      {s : Fs} (n offset len : ℕ) (buf : Buffer)
      → offset + len < 6144
      → n < g.inode_region_sz * 16
      → IsMounted g s
      → Post (λ m t. IsMounted g t × (m ≤ len)) (write_levels n offset len buf s)
  unfolding write_levels
  write_levels-IsMounted {s} n offset len buf before lt h =
      let first : ltb offset 6144 ≡ true = ground arith in
      rw first (
        bind (fs_write_1st_level-IsMounted n offset len 0 buf (omega arith) lt h) λ m s₁ (h₁, le).
          let no_second : (leb 6144 (offset + m) && ltb (offset + m) 268288) ≡ false =
            ground arith in
          let no_third : (leb 268288 (offset + m + 0) && leb (offset + m + 0) 67377152) ≡ false =
            ground arith in
          rw no_second (
            rw no_third (
              bind (grow-IsMounted n (offset + m + 0 + 0) lt h₁)
                λ _ s₂ h₂. returns (h₂, omega arith))))

  -- `fs_write`, where the request ends before byte 6144 (offset plus length is less than 6144),
  -- leaves a mounted file system mounted, on every branch that returns, also where it allocates
  -- blocks, runs out of them, or makes the file grow: the disk's copies of the maps and of the
  -- inodes agree with the memory, the sizes stay, the superblock, the maps and the inodes stay
  -- marked as used, and no inode's direct block lies among them. It never returns more than the
  -- number of bytes asked for.
  pub fs_write-IsMounted :
      {s : Fs} (path : Bytes) (len offset : ℕ) (buf : Buffer)
      → offset + len < 6144
      → IsMounted g s
      → Post
          (λ r t. IsMounted g t × ((n : ℕ) → r ≡ pos n → n ≤ len))
          (fs_write path len offset buf s)
  unfolding fs_write
  fs_write-IsMounted {s} path len offset buf before h =
      let length : int_length len ≡ len = int_length-small len (omega arith) in
      bind (translate-IsMounted path h) λ inum s₁ h₁.
        branch (ℤ_eq inum (pos 0)) _ _ s₁
          (λ e. returns (h₁, λ n is. omega (arith, ℤ_eq-zero inum e n is)))
          λ _. bind (inode_at-IsMounted inum h₁) λ n s₂ (h₂, lt).
            let size : ℤ = signed32 (field s₂ n w_size) in
            branch (not (exceeds size offset || ℤ_eq size (pos offset))) _ _ s₂
              (λ _. returns (h₂, λ m e. absurd cc))
              λ _. rw length (
                bind (write_levels-IsMounted n offset len buf before lt h₂)
                  λ m s₃ (h₃, le). returns (h₃, λ k e. let same : m ≡ k = cc in omega arith))
