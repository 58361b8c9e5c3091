-- ===== src/Mount/Keeps/Writes.antt =====
-- `fs_write` before byte 6144 of a file.
use cs5600_filesystem.Base.{
  ℕ, zero, suc, ◌+◌, ◌-◌, ◌/◌, ◌%◌, ◌≤◌, ◌<◌, ◌≡◌, true, false, ◌&&◌, ◌||◌, Bytes, arith, not,
  Bool-cases, inl, inr, ltb, leb, ◌==◌,
}
use cs5600_filesystem.Base.Int.{ℤ, pos, exceeds, signed32, ℤ_eq}
use cs5600_filesystem.State.{Fs}
use cs5600_filesystem.State.Inode.{field, w_direct, w_size}
use cs5600_filesystem.State.Post.{Post, returns, bind, mono, branch, on_option}
use cs5600_filesystem.Mount.Keeps.{Changes, Keeps}
use cs5600_filesystem.Mount.Keeps.Prims.{
  keeps, Keeps-translate, Keeps-inode_at, Keeps-set_field, Keeps-update_inode,
}
use cs5600_filesystem.Ops.Content.Copy.{chunk-bounds}
use cs5600_filesystem.Ops.Read.{Buffer, chunk}
use cs5600_filesystem.Ops.Write.{
  mark_block, patch_block, alloc_field, write_direct, fs_write_1st_level, grow, write_levels,
  int_length, fs_write,
}
use cs5600_filesystem.Ops.Overwrite.Total.{int_length-small}

module _ {s₀ : Fs} where
  Keeps-mark_block : (b : ℕ) → Keeps (Changes s₀) (mark_block b)
  unfolding mark_block
  Keeps-mark_block b = search keeps

  Keeps-patch_block :
      (b off len at : ℕ) (buf : Buffer) → Keeps (Changes s₀) (patch_block b off len at buf)
  unfolding patch_block
  Keeps-patch_block b off len at buf = search keeps

  Keeps-alloc_direct : (n j : ℕ) → j < 6 → Keeps (Changes s₀) (alloc_field n (w_direct + j))
  unfolding alloc_field
  Keeps-alloc_direct n j six =
      let set = λ (b : ℕ).
        Keeps-set_field {s₀ = s₀} n (w_direct + j) b (omega arith) (λ e. absurd (omega arith)) in
      search (keeps, Keeps-mark_block, set) depth 60

  -- The bytes that a level writes are at most those asked for.
  write_direct-Changes :
      {s : Fs} (rounds i n off len at done : ℕ) (buf : Buffer)
      → i + rounds ≡ 6
      → off < 1024
      → Changes s₀ s
      → Post
          (λ m t. Changes s₀ t × (m ≤ done + len))
          (write_direct rounds i n off len at done buf s)
  unfolding write_direct
  write_direct-Changes zero i n off len at done buf count in_block h = returns (h, omega arith)
  write_direct-Changes {s} (suc r) i n off len at done buf count in_block h =
      branch (len == 0) _ _ s (λ _. returns (h, omega arith))
        λ _. bind ((Keeps-alloc_direct n i (omega arith)).at h) λ o s₁ h₁.
          on_option o _ _ s₁ (λ _. returns (h₁, omega arith))
            λ blk e. bind ((Keeps-patch_block blk off (chunk 1024 off len) at buf).at h₁) λ _ s₂ h₂.
              mono
                (write_direct-Changes r (i + 1) n 0 (len - chunk 1024 off len)
                  (at + chunk 1024 off len) (done + chunk 1024 off len) buf (omega arith)
                  (omega arith) h₂)
                λ m t (h₃, le). (h₃, omega (arith, le, chunk-bounds 1024 off len in_block))

  grow-Changes :
      {s : Fs} (n end : ℕ) → end ≤ 6144 → Changes s₀ s → Post (λ _. Changes s₀) (grow n end s)
  unfolding grow
  grow-Changes {s} n end small h =
      let size : ℤ = signed32 (field s n w_size) in
      elim (Bool-cases (exceeds size end || ℤ_eq size (pos end))) [
        | inl e ↦ rw e (returns h)
        | inr e ↦ rw e (
            bind ((Keeps-set_field n w_size end (omega arith) λ e. small).at h)
              λ _ s₁ h₁. (Keeps-update_inode n).at h₁)
      ]

  write_levels-Changes :
      {s : Fs} (n offset len : ℕ) (buf : Buffer)
      → offset + len < 6144
      → Changes s₀ s
      → Post (λ _. Changes s₀) (write_levels n offset len buf s)
  unfolding write_levels fs_write_1st_level
  write_levels-Changes {s} n offset len buf before h =
      let first : ltb offset 6144 ≡ true = ground arith in
      rw first (
        bind
          (write_direct-Changes (6 - offset / 1024) (offset / 1024) n (offset % 1024) len 0 0 buf
            (omega arith) (omega arith) h)
          λ m s₁ (h₁, le).
            let no_second : (leb 6144 (offset + m) && ltb (offset + m) 268288) ≡ false =
              ground arith in
            let no_third : (leb 268288 (offset + m + 0) && leb (offset + m + 0) 67377152) ≡ false =
              ground arith in
            rw no_second (
              rw no_third (
                bind (grow-Changes n (offset + m + 0 + 0) (omega arith) h₁) λ _ s₂ h₂. returns h₂)))

  pub Keeps-fs_write :
      (path : Bytes) (len offset : ℕ) (buf : Buffer)
      → offset + len < 6144
      → Keeps (Changes s₀) (fs_write path len offset buf)
  unfolding fs_write
  Keeps-fs_write path len offset buf before = record {
    at = λ {s} h.
        let length : int_length len ≡ len = int_length-small len (omega arith) in
        bind ((Keeps-translate path).at h) λ inum s₁ h₁.
          branch (ℤ_eq inum (pos 0)) _ _ s₁ (λ e. returns h₁)
            λ _. bind ((Keeps-inode_at inum).at h₁) λ n s₂ h₂.
              let size : ℤ = signed32 (field s₂ n w_size) in
              branch (not (exceeds size offset || ℤ_eq size (pos offset))) _ _ s₂ (λ _. returns h₂)
                λ _.
                  rw length
                    (bind (write_levels-Changes n offset len buf before h₂) λ m s₃ h₃. returns h₃);
  }
