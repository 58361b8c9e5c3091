-- ===== src/Mount/Inodes.antt =====
-- Writes to inodes, `update_inode` and the search for a free block, and the invariant.
use cs5600_filesystem.Base.{
  ℕ, ◌+◌, ◌*◌, ◌/◌, ◌^◌, ◌≤◌, ◌<◌, ◌≡◌, refl, ◌⊎◌, List, arith, inl, inr, get_or,
}
use cs5600_filesystem.Base.Int.{pos, enospc}
use cs5600_filesystem.Memory.{zero_block}
use cs5600_filesystem.State.{Fs}
use cs5600_filesystem.State.Bitmap.{find_free_block_number}
use cs5600_filesystem.State.Inode.{field, w_direct, set_field, put_inode, update_inode}
use cs5600_filesystem.State.Post.{
  Post, returns, mono, put_disk, write_block-Post, with_field, set_field-ok, field-with_field,
  field-with_inode,
}
use cs5600_filesystem.State.Alloc.{find_free_block_number-Post}
use cs5600_filesystem.Mount.{data_start, IsMounted, IsDirty, IsGoodField}
use cs5600_filesystem.Mount.Steps.{put_disk-IsMounted}

module _ {g : Fs} where
  with_field-IsDirty :
      {s : Fs} (n f v : ℕ)
      → f < 16
      → IsGoodField g f v
      → IsMounted g s
      → IsDirty (n / 16) g (with_field s n f v)
  with_field-IsDirty {s} n f v small good h = record {
    sized = h.sound.sized;
    reserved = h.sound.reserved;
    pointed = λ m j lt six.
        ground (
          arith,
          field-with_field s n m f (w_direct + j) v,
          good j six,
          h.sound.pointed m j lt six,
        );
    maps = record { inode_map = h.maps.inode_map; block_map = h.maps.block_map };
    inodes = λ k lt ne. ground (arith, h.sound.inodes k lt);
  }

  pub set_field-IsDirty :
      {s : Fs} (n f v : ℕ)
      → f < 16
      → IsGoodField g f v
      → IsMounted g s
      → Post (λ _. IsDirty (n / 16) g) (set_field n f v s)
  set_field-IsDirty {s} n f v small good h =
      rw (set_field-ok s n f v) (returns (with_field-IsDirty n f v small good h))

  pub put_inode-IsDirty :
      {s : Fs} (n : ℕ) (words : List ℕ)
      → ((j : ℕ) → j < 6 → IsGoodField g (w_direct + j) (get_or words (w_direct + j) 0))
      → IsMounted g s
      → Post (λ _. IsDirty (n / 16) g) (put_inode n words s)
  unfolding put_inode
  put_inode-IsDirty {s} n words good h = returns (record {
    sized = h.sound.sized;
    reserved = h.sound.reserved;
    pointed = λ m j lt six. ground (
      arith,
      field-with_inode s n m (w_direct + j) words,
      good j six j six refl,
      h.sound.pointed m j lt six,
    );
    maps = record { inode_map = h.maps.inode_map; block_map = h.maps.block_map };
    inodes = λ k lt ne. ground (arith, h.sound.inodes k lt);
  })

  update-IsMounted :
      {s : Fs} (n : ℕ)
      → n < g.inode_region_sz * 16
      → IsDirty (n / 16) g s
      → IsMounted g
          (put_disk s (1 + s.inode_map_sz + s.block_map_sz + n / 16) (s.inode_region (n / 16)))
  unfolding field
  update-IsMounted {s} n lt h = record {
    sound = record {
      sized = h.sized;
      reserved = h.reserved;
      pointed = h.pointed;
      inodes = λ k small. ground (arith, h.inodes k small);
    };
    maps = record {
      inode_map = λ k small. ground (arith, h.maps.inode_map k small);
      block_map = λ k small. ground (arith, h.maps.block_map k small);
    };
  }

  pub update_inode-IsMounted :
      {s : Fs} (n : ℕ)
      → n < g.inode_region_sz * 16
      → IsDirty (n / 16) g s
      → Post (λ _. IsMounted g) (update_inode n s)
  unfolding update_inode
  update_inode-IsMounted {s} n lt h =
      mono (write_block-Post s _ _) λ _ s' (ne, fits, e). rw e (update-IsMounted n lt h)

  -- A block that is found free lies behind the metadata.
  pub find_free_block_number-IsMounted :
      {s : Fs}
      → IsMounted g s
      → Post
          (λ r s'.
            IsMounted g s'
            × ((r ≡ enospc) ⊎ ((b : ℕ) × (r ≡ pos b) × (data_start g ≤ b) × (b < 2 ^ 31))))
          (find_free_block_number s)
  find_free_block_number-IsMounted {s} h = mono (find_free_block_number-Post s) λ r s' found.
      elim found [
        | inl (full, same) ↦ (rw same h, inl full)
        | inr (i, ne, fits, free, is, e) ↦
            let far : data_start g ≤ i = ground (arith, h.sound.reserved i) in
            (
              rw e (put_disk-IsMounted i zero_block far h),
              inr (i, is, far, omega (arith, h.sound.sized)),
            )
      ]
