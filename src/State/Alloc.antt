-- ===== src/State/Alloc.antt =====
-- What `find_free_block_number` and `find_free_inode_map_bit` find.
use Prim.Native.Nat.{min}
use cs5600_filesystem.Base.{
  ℕ, ◌+◌, ◌-◌, ◌*◌, ◌≤◌, ◌<◌, ◌≡◌, ◌≢◌, refl, ap, ◌∙◌, ◌⊎◌, true, false, not, none, some, arith,
  Option-cases, inl, inr,
}
use cs5600_filesystem.Base.Int.{pos, enospc}
use cs5600_filesystem.Base.Search.{
  first_index, first_index-none, first_index-bounds, first_index-least,
}
use cs5600_filesystem.Memory.{Area, fd_isset, zero_block}
use cs5600_filesystem.State.{Fs, ok, pure, ◌>>◌}
use cs5600_filesystem.State.Device.{write_block}
use cs5600_filesystem.State.Bitmap.{find_free_block_number, find_free_inode_map_bit}
use cs5600_filesystem.State.Post.{Post, returns, bind, put_disk, write_block-ok, write_block-Post}

-- The number of bits of the block map that stand for blocks.
abbrev pub block_bits : Fs → ℕ
block_bits s = min (s.block_map_sz * 8192) s.num_of_blocks

-- Every number from `lo` up to `hi` is in the set; and a number is the first that is not.
abbrev pub AreUsed : Area → (lo hi : ℕ) → Type 0
AreUsed m lo hi = (k : ℕ) → lo ≤ k → k < hi → fd_isset k m ≡ true

pub record IsFirstFree (m : Area) (lo hi i : ℕ) : Type 0 where
  pub above : lo ≤ i
  pub below : i < hi
  pub free : fd_isset i m ≡ false
  pub least : AreUsed m lo i

scan-cases :
    (m : Area) (n lo hi : ℕ)
    → lo + n ≡ hi
    → ((first_index n lo (λ i. not (fd_isset i m)) ≡ none) × AreUsed m lo hi)
      ⊎ ((i : ℕ) × (first_index n lo (λ i. not (fd_isset i m)) ≡ some i) × IsFirstFree m lo hi i)
scan-cases m n lo hi e = elim (Option-cases (first_index n lo (λ i. not (fd_isset i m)))) [
  | inl f ↦ inl (f, λ k a b. ground (arith, first_index-none (λ i. not (fd_isset i m)) n lo k f))
  | inr (i, f) ↦
      let bounds = first_index-bounds (λ i. not (fd_isset i m)) n lo f in
      inr (
        i,
        f,
        record {
          above = bounds.0;
          below = omega arith;
          free = ground arith;
          least = λ k a b. ground (arith, first_index-least (λ i. not (fd_isset i m)) n lo k f);
        },
      )
]

find_free_block_number-cases :
    (s : Fs)
    → ((find_free_block_number s ≡ ok enospc s) × AreUsed s.block_map 0 (block_bits s))
      ⊎ ((i : ℕ) × IsFirstFree s.block_map 0 (block_bits s) i
          × (find_free_block_number s ≡ (write_block i zero_block >> pure (pos i)) s))
unfolding find_free_block_number
find_free_block_number-cases s =
    elim (scan-cases s.block_map (block_bits s) 0 (block_bits s) (omega arith)) [
      | inl (e, used) ↦ inl (rw (e, find_free_block_number), used)
      | inr (i, e, first) ↦ inr (i, first, rw (e, find_free_block_number))
    ]

-- On an image that holds all the blocks, with block 0 in use, the search for a block never faults.
-- It returns the first free block and has zeroed that block, or all blocks are in use, it returns
-- -ENOSPC and has changed nothing.
pub find_free_block_number_lem :
    (s : Fs)
    → s.num_of_blocks ≤ s.nblks
    → fd_isset 0 s.block_map ≡ true
    → ((find_free_block_number s ≡ ok enospc s) × AreUsed s.block_map 0 (block_bits s))
      ⊎ ((i : ℕ) × IsFirstFree s.block_map 0 (block_bits s) i
          × (find_free_block_number s ≡ ok (pos i) (put_disk s i zero_block)))
find_free_block_number_lem s held used = elim (find_free_block_number-cases s) [
  | inl full ↦ inl full
  | inr (i, first, e) ↦
      let ne : i ≢ 0 = λ z. cc (first.free, used, z) in
      let fits : i + 1 ≤ s.nblks = omega (arith, first.below) in
      inr (i, first, e ∙ rw (write_block-ok s i zero_block ne fits))
]

pub find_free_block_number-Post :
    (s : Fs)
    → Post
        (λ r s'.
          ((r ≡ enospc) × (s' ≡ s))
          ⊎ ((i : ℕ) × (i ≢ 0)
              × (i + 1 ≤ s.nblks)
              × (fd_isset i s.block_map ≡ false)
              × (r ≡ pos i)
              × (s' ≡ put_disk s i zero_block)))
        (find_free_block_number s)
find_free_block_number-Post s = elim (find_free_block_number-cases s) [
  | inl (e, full) ↦ rw e (returns (inl (refl, refl)))
  | inr (i, first, e) ↦ rw e (
      bind (write_block-Post s i zero_block)
        λ _ s' (ne, fits, e). returns (inr (i, ne, fits, first.free, refl, e)))
]

-- The search for an inode changes nothing. It returns the first free number from 2 on, or every
-- number of the map from 2 on is in use and it returns -ENOSPC.
pub find_free_inode_map_bit_lem :
    (s : Fs)
    → 0 < s.inode_map_sz
    → ((find_free_inode_map_bit s ≡ ok enospc s) × AreUsed s.inode_map 2 (s.inode_map_sz * 8192))
      ⊎ ((i : ℕ) × IsFirstFree s.inode_map 2 (s.inode_map_sz * 8192) i
          × (find_free_inode_map_bit s ≡ ok (pos i) s))
unfolding find_free_inode_map_bit
find_free_inode_map_bit_lem s some_block =
    elim (scan-cases s.inode_map (s.inode_map_sz * 8192 - 2) 2 (s.inode_map_sz * 8192)
      (omega arith)) [
        | inl (e, used) ↦ inl (rw (e, find_free_inode_map_bit), used)
        | inr (i, e, first) ↦ inr (i, first, rw (e, find_free_inode_map_bit))
      ]

pub find_free_inode_map_bit-Post : (s : Fs) → Post (λ r s'. s' ≡ s) (find_free_inode_map_bit s)
unfolding find_free_inode_map_bit
find_free_inode_map_bit-Post s =
    elim (Option-cases
      (first_index (s.inode_map_sz * 8192 - 2) 2 (λ i. not (fd_isset i s.inode_map)))) [
        | inl e ↦ rw (e, find_free_inode_map_bit) (returns refl)
        | inr (i, e) ↦ rw (e, find_free_inode_map_bit) (returns refl)
      ]

IsFirstFree-unique :
    {m : Area} {lo hi : ℕ} (i j : ℕ) → IsFirstFree m lo hi i → IsFirstFree m lo hi j → i ≡ j
IsFirstFree-unique i j h k = ground (arith, h.least j k.above, k.least i h.above, h.free, k.free)

pub find_free_inode_map_bit-ok :
    (s : Fs) (i : ℕ)
    → IsFirstFree s.inode_map 2 (s.inode_map_sz * 8192) i
    → find_free_inode_map_bit s ≡ ok (pos i) s
find_free_inode_map_bit-ok s i h = elim (find_free_inode_map_bit_lem s (omega (arith, h.below))) [
  | inl (e, used) ↦ cc (used i h.above h.below, h.free)
  | inr (j, k, e) ↦ e ∙ ap (λ n. ok (pos n) s) (IsFirstFree-unique j i k h)
]
