-- ===== src/Mount/Steps.antt =====
-- The primitive commands and the invariant.
use cs5600_filesystem.Base.{
  ℕ, ◌+◌, ◌*◌, ◌≤◌, ◌≡◌, refl, not, ◌&&◌, arith, ltb, leb, ◌==◌, Bool-cases, inl, inr,
}
use cs5600_filesystem.Memory.{Block, fd_set, fd_clr, fd_isset-fd_set}
use cs5600_filesystem.State.{Fs}
use cs5600_filesystem.State.Device.{image_write, write_block}
use cs5600_filesystem.State.Bitmap.{set_inode_bit, set_block_bit, clr_inode_bit, update_bitmap}
use cs5600_filesystem.State.Inode.{field}
use cs5600_filesystem.State.Post.{Post, returns, faults, mono, saved, put_disk, write_block-Post}
use cs5600_filesystem.Mount.{data_start, IsSound, IsMounted}

pub update_bitmap-Post : (s : Fs) → Post (λ _ s'. s' ≡ saved s) (update_bitmap s)
unfolding update_bitmap image_write
update_bitmap-Post s = elim (Bool-cases (leb (1 + s.inode_map_sz) s.nblks)) [
  | inr e ↦ rw e faults
  | inl e ↦
      rw e
        (elim (Bool-cases
          (not (1 + s.inode_map_sz == 0) && leb (1 + s.inode_map_sz + s.block_map_sz) s.nblks)) [
            | inr e ↦ rw e faults
            | inl e ↦ rw e (returns refl)
          ])
]

module _ {g : Fs} where
  -- A write behind the metadata.
  pub put_disk-IsMounted :
      {s : Fs} (b : ℕ) (blk : Block)
      → data_start g ≤ b
      → IsMounted g s
      → IsMounted g (put_disk s b blk)
  unfolding field
  put_disk-IsMounted b blk far m = record {
    sound = record {
      sized = m.sound.sized;
      reserved = m.sound.reserved;
      pointed = m.sound.pointed;
      inodes = λ k h. ground (arith, m.sound.inodes k h);
    };
    maps = record {
      inode_map = λ k h. ground (arith, m.maps.inode_map k h);
      block_map = λ k h. ground (arith, m.maps.block_map k h);
    };
  }

  pub write_block-IsMounted :
      {s : Fs} (b : ℕ) (blk : Block)
      → data_start g ≤ b
      → IsMounted g s
      → Post (λ _. IsMounted g) (write_block b blk s)
  write_block-IsMounted {s} b blk far m =
      mono (write_block-Post s b blk) λ _ s' (ne, fits, e). rw e (put_disk-IsMounted b blk far m)

  set_inode_map-IsSound :
      {s : Fs} (i : ℕ) → IsSound g s → IsSound g (record s { inode_map = fd_set i s.inode_map })
  unfolding field
  set_inode_map-IsSound i h = record {
    sized = h.sized;
    reserved = h.reserved;
    pointed = h.pointed;
    inodes = h.inodes;
  }

  pub set_inode_bit-IsSound :
      {s : Fs} (i : ℕ) → IsSound g s → Post (λ _. IsSound g) (set_inode_bit i s)
  unfolding set_inode_bit
  set_inode_bit-IsSound {s} i h = elim (Bool-cases (ltb i (s.inode_map_sz * 8192))) [
    | inl e ↦ rw e (returns (set_inode_map-IsSound i h))
    | inr e ↦ rw e faults
  ]

  set_block_map-IsSound :
      {s : Fs} (i : ℕ) → IsSound g s → IsSound g (record s { block_map = fd_set i s.block_map })
  unfolding field
  set_block_map-IsSound {s} i h = record {
    sized = h.sized;
    reserved = λ j lt. ground (arith, h.reserved j lt, fd_isset-fd_set i j s.block_map);
    pointed = h.pointed;
    inodes = h.inodes;
  }

  pub set_block_bit-IsSound :
      {s : Fs} (i : ℕ) → IsSound g s → Post (λ _. IsSound g) (set_block_bit i s)
  unfolding set_block_bit
  set_block_bit-IsSound {s} i h = elim (Bool-cases (ltb i (s.block_map_sz * 8192))) [
    | inl e ↦ rw e (returns (set_block_map-IsSound i h))
    | inr e ↦ rw e faults
  ]

  clr_inode_map-IsSound :
      {s : Fs} (i : ℕ) → IsSound g s → IsSound g (record s { inode_map = fd_clr i s.inode_map })
  unfolding field
  clr_inode_map-IsSound i h = record {
    sized = h.sized;
    reserved = h.reserved;
    pointed = h.pointed;
    inodes = h.inodes;
  }

  pub clr_inode_bit-IsSound :
      {s : Fs} (i : ℕ) → IsSound g s → Post (λ _. IsSound g) (clr_inode_bit i s)
  unfolding clr_inode_bit
  clr_inode_bit-IsSound {s} i h = elim (Bool-cases (ltb i (s.inode_map_sz * 8192))) [
    | inl e ↦ rw e (returns (clr_inode_map-IsSound i h))
    | inr e ↦ rw e faults
  ]

  saved-IsMounted : {s : Fs} → IsSound g s → IsMounted g (saved s)
  unfolding field
  saved-IsMounted {s} h = record {
    sound = record {
      sized = h.sized;
      reserved = h.reserved;
      pointed = h.pointed;
      inodes = λ k lt. ground (arith, h.inodes k lt);
    };
    maps = record { inode_map = λ k lt. ground arith; block_map = λ k lt. ground arith };
  }

  pub update_bitmap-IsMounted : {s : Fs} → IsSound g s → Post (λ _. IsMounted g) (update_bitmap s)
  update_bitmap-IsMounted {s} h = mono (update_bitmap-Post s) λ _ s' e. rw e (saved-IsMounted h)
