-- ===== src/Mount/Truncate.antt =====
-- `fs_truncate` on files without indirect blocks, and the invariant.
use cs5600_filesystem.Base.{
  ℕ, zero, suc, ◌+◌, ◌*◌, ◌/◌, ◌^◌, ◌≤◌, ◌<◌, ◌≡◌, ◌≢◌, refl, inl, inr, true, false, not, arith,
  ltb, ◌==◌, Bool-cases, Bytes,
}
use cs5600_filesystem.Base.Int.{ℤ, pos, ℤ_eq, lookup_failed}
use cs5600_filesystem.Memory.{fd_clr, fd_isset-fd_clr}
use cs5600_filesystem.State.{Fs, Cmd}
use cs5600_filesystem.State.Bitmap.{clr_block_bit, update_bitmap}
use cs5600_filesystem.State.Inode.{
  field, set_field, w_direct, w_size, w_mode, w_indir_1, w_indir_2, is_dir,
}
use cs5600_filesystem.State.Post.{
  Post, returns, faults, bind, mono, branch, saved, with_field, set_field-ok, field-with_field,
  inode_at-Post,
}
use cs5600_filesystem.Mount.{
  data_start, IsMounted, IsDirty, IsSized, IsReserved, IsPointed, AreInodesSavedBut, IsGoodField,
}
use cs5600_filesystem.Mount.Steps.{update_bitmap-Post}
use cs5600_filesystem.Mount.Inodes.{update_inode-IsMounted}
use cs5600_filesystem.Ops.Remove.{
  truncate_direct, when_larger, truncate_2nd_level, truncate_3rd_level, truncate_inode, fs_truncate,
}
use cs5600_filesystem.Ops.Errors.{translate-Looks}

-- What holds while an inode of block `m` and the maps are both ahead of the disk.
record IsOpen (m : ℕ) (g s : Fs) : Type 0 where
  sized : IsSized g s
  reserved : IsReserved g s
  pointed : IsPointed g s
  inodes : AreInodesSavedBut m g s

-- A mounted file system, but for the inode block of `n`, whose size is `z`.
abbrev IsCut : (n z : ℕ) → Fs → Fs → Type 0
IsCut n z g s = IsDirty (n / 16) g s × (field s n w_size ≡ z)

module _ {g : Fs} where
  set_field-Dirty :
      {s : Fs} (n f v : ℕ)
      → f < 16
      → IsGoodField g f v
      → IsDirty (n / 16) g s
      → IsDirty (n / 16) g (with_field s n f v)
  set_field-Dirty {s} n f v small good h = record {
    sized = h.sized;
    reserved = h.reserved;
    pointed = λ m j lt six.
        ground (arith, field-with_field s n m f (w_direct + j) v, good j six, h.pointed m j lt six);
    maps = record { inode_map = h.maps.inode_map; block_map = h.maps.block_map };
    inodes = λ k lt ne. ground (arith, h.inodes k lt ne);
  }

  clr_block_map-IsOpen :
      {s : Fs} (m i : ℕ)
      → data_start g ≤ i
      → IsDirty m g s
      → IsOpen m g (record s { block_map = fd_clr i s.block_map })
  unfolding field
  clr_block_map-IsOpen {s} m i far h = record {
    sized = h.sized;
    reserved = λ j lt. ground (arith, fd_isset-fd_clr i j s.block_map, h.reserved j lt);
    pointed = h.pointed;
    inodes = h.inodes;
  }

  saved-IsDirty : {s : Fs} (m : ℕ) → IsOpen m g s → IsDirty m g (saved s)
  unfolding field
  saved-IsDirty {s} m h = record {
    sized = h.sized;
    reserved = h.reserved;
    pointed = h.pointed;
    maps = record { inode_map = λ k lt. ground arith; block_map = λ k lt. ground arith };
    inodes = λ k lt ne. ground (arith, h.inodes k lt ne);
  }

  clr_block_bit-IsOpen :
      {s : Fs} (n z i : ℕ)
      → data_start g ≤ i
      → IsCut n z g s
      → Post (λ _ t. IsOpen (n / 16) g t × (field t n w_size ≡ z)) (clr_block_bit i s)
  unfolding clr_block_bit field
  clr_block_bit-IsOpen {s} n z i far (h, e) = elim (Bool-cases (ltb i (s.block_map_sz * 8192))) [
    | inr out ↦ rw out faults
    | inl inside ↦ rw inside (returns (clr_block_map-IsOpen (n / 16) i far h, e))
  ]

  update_bitmap-IsCut :
      {s : Fs} (n z : ℕ)
      → IsOpen (n / 16) g s
      → field s n w_size ≡ z
      → Post (λ _. IsCut n z g) (update_bitmap s)
  unfolding field
  update_bitmap-IsCut {s} n z h e =
      mono (update_bitmap-Post s) λ _ t same. rw same (saved-IsDirty (n / 16) h, e)

  set_field-IsCut :
      {s : Fs} (n z f v : ℕ)
      → f < 16
      → f ≢ w_size
      → IsGoodField g f v
      → IsCut n z g s
      → Post (λ _. IsCut n z g) (set_field n f v s)
  set_field-IsCut {s} n z f v small other good (h, e) = rw (set_field-ok s n f v) (
      returns
        (set_field-Dirty n f v small good h, ground (arith, field-with_field s n n f w_size v, e)))

  truncate_direct-IsCut :
      {s : Fs} (rounds i n z : ℕ)
      → i + rounds ≡ 6
      → n < g.inode_region_sz * 16
      → IsCut n z g s
      → Post (λ _. IsCut n z g) (truncate_direct rounds i n s)
  unfolding truncate_direct
  truncate_direct-IsCut zero i n z count lt h = returns h
  truncate_direct-IsCut {s} (suc r) i n z count lt h =
      let blk : ℕ = field s n (w_direct + i) in
      let where_it_lies = h.0.pointed n i lt (omega arith) in
      bind
        (set_field-IsCut n z (w_direct + i) 0 (omega arith) (λ e. absurd (omega arith))
          (λ j six e. inl refl) h)
        λ _ s₁ h₁.
          branch (blk == 0) _ _ s₁ (λ _. returns h₁)
            λ some_block.
              bind (clr_block_bit-IsOpen n z blk (ground (arith, where_it_lies, some_block)) h₁)
                λ _ s₂ (h₂, e).
                  bind (update_bitmap-IsCut n z h₂ e)
                    λ _ s₃ h₃. truncate_direct-IsCut r (i + 1) n z (omega arith) lt h₃

  set_size-IsDirty :
      {s : Fs} (n z v : ℕ) → IsCut n z g s → Post (λ _. IsDirty (n / 16) g) (set_field n w_size v s)
  set_size-IsDirty {s} n z v (h, e) =
      rw (set_field-ok s n w_size v)
        (returns (set_field-Dirty n w_size v (omega arith) (λ j six e. absurd (omega arith)) h))

  clear_field-IsDirty :
      {s : Fs} (n f : ℕ)
      → f < 16
      → IsDirty (n / 16) g s
      → Post (λ _. IsDirty (n / 16) g) (set_field n f 0 s)
  clear_field-IsDirty {s} n f small h =
      rw (set_field-ok s n f 0) (returns (set_field-Dirty n f 0 small (λ j six e. inl refl) h))

  -- A tree of blocks is left alone where the size says that there is none.
  when_larger-IsCut :
      {s : Fs} (n z bound f : ℕ) (free_tree : ℕ → Cmd (Unit {0}))
      → z ≤ bound
      → z < 2 ^ 31
      → IsCut n z g s
      → Post (λ _. IsCut n z g) (when_larger n bound f free_tree s)
  when_larger-IsCut {s} n z bound f free_tree le small (h, e) =
      let fits : ltb z (2 ^ 31) ≡ true = ground arith in
      let no : ltb bound z ≡ false = ground arith in rw e (rw fits (rw no (returns (h, e))))

  truncate_inode-IsMounted :
      {s : Fs} (n : ℕ)
      → n < g.inode_region_sz * 16
      → field s n w_size ≤ 6144
      → IsMounted g s
      → Post (λ _. IsMounted g) (truncate_inode n s)
  unfolding truncate_inode
  truncate_inode-IsMounted {s} n lt small h =
      let z : ℕ = field s n w_size in
      let start : IsDirty (n / 16) g s = record {
        sized = h.sound.sized;
        reserved = h.sound.reserved;
        pointed = h.sound.pointed;
        maps = h.maps;
        inodes = λ k lt ne. h.sound.inodes k lt;
      } in
      bind (truncate_direct-IsCut 6 0 n z (omega arith) lt (start, refl)) λ _ s₁ h₁.
        bind (when_larger-IsCut n z 6144 w_indir_1 truncate_2nd_level small (omega arith) h₁)
          λ _ s₂ h₂.
            bind
              (when_larger-IsCut n z 268288 w_indir_2 truncate_3rd_level (omega arith) (omega arith)
                h₂)
              λ _ s₃ h₃. bind (set_size-IsDirty n z 0 h₃) λ _ s₄ h₄.
                bind (clear_field-IsDirty n w_indir_1 (omega arith) h₄) λ _ s₅ h₅.
                  bind (clear_field-IsDirty n w_indir_2 (omega arith) h₅)
                    λ _ s₆ h₆. bind (update_inode-IsMounted n lt h₆) λ _ s₇ h₇. returns h₇

  -- `fs_truncate` leaves a mounted file system mounted, on every branch that returns, if no inode has
  -- more than 6144 bytes, that is, if no file has indirect blocks: the disk's copies of the maps and of
  -- the inodes agree with the memory, the sizes stay, the superblock, the maps and the inodes stay
  -- marked as used, and no inode's direct block lies among them.
  pub fs_truncate-IsMounted :
      {s : Fs} (path : Bytes) (len : ℤ)
      → ((n : ℕ) → n < g.inode_region_sz * 16 → field s n w_size ≤ 6144)
      → IsMounted g s
      → Post (λ _. IsMounted g) (fs_truncate path len s)
  unfolding fs_truncate
  fs_truncate-IsMounted {s} path len small h =
      branch (not (ℤ_eq len (pos 0))) _ _ s (λ _. returns h)
        λ _. bind (translate-Looks s path) λ inum s₁ e₁. rw e₁ (
          branch (lookup_failed inum) _ _ s (λ _. returns h)
            λ _. bind (inode_at-Post s inum) λ n s₂ (same, is, lt). rw same (
              let inside : n < g.inode_region_sz * 16 = omega (arith, h.sound.sized, lt) in
              branch (is_dir (field s n w_mode)) _ _ s (λ _. returns h)
                λ _. truncate_inode-IsMounted n inside (small n inside) h))
