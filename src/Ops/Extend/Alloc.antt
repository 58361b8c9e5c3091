-- ===== src/Ops/Extend/Alloc.antt =====
-- `alloc_field` of a direct block, in a file of a mounted file system.
use cs5600_filesystem.Base.{
  ℕ, ◌+◌, ◌*◌, ◌/◌, ◌%◌, ◌^◌, ◌≤◌, ◌<◌, ◌≡◌, ◌≢◌, refl, ◌∙◌, true, ◌&&◌, ◌⊎◌, inl, inr, arith, none,
  some, ltb, ◌==◌, if◌then◌else◌, Bool-cases, lt→ltb, subst,
}
use cs5600_filesystem.Base.Int.{pos, enospc}
use cs5600_filesystem.Memory.{fd_isset, fd_set, fd_isset-fd_set, zero_block}
use cs5600_filesystem.State.{Fs, ok}
use cs5600_filesystem.State.Bitmap.{set_block_bit, find_free_block_number}
use cs5600_filesystem.State.Inode.{field, w_direct, update_inode}
use cs5600_filesystem.State.Post.{
  Post, holds, after, put_disk, saved, write_block-ok, with_field, set_field-ok, field-with_field,
}
use cs5600_filesystem.State.Alloc.{AreUsed, IsFirstFree, block_bits, find_free_block_number_lem}
use cs5600_filesystem.Mount.{data_start}
use cs5600_filesystem.Mount.Write.{alloc_direct-IsMounted}
use cs5600_filesystem.Ops.Read.{Buffer}
use cs5600_filesystem.Ops.Stored.{update_bitmap-ok}
use cs5600_filesystem.Ops.Write.{mark_block, alloc_field}
use cs5600_filesystem.Ops.Overwrite.{direct, alloc_field-ok}
use cs5600_filesystem.Ops.Extend.{content, IsStore, Filled, Filled-none}

pub update_inode-ok :
    (s : Fs) (n : ℕ)
    → n < s.inode_region_sz * 16
    → data_start s ≤ s.nblks
    → update_inode n s
      ≡ ok tt (put_disk s (1 + s.inode_map_sz + s.block_map_sz + n / 16) (s.inode_region (n / 16)))
unfolding update_inode
update_inode-ok s n lt room = write_block-ok s _ _ (omega arith) (omega arith)

mark_block-ok :
    (s : Fs) (b : ℕ)
    → b < s.block_map_sz * 8192
    → data_start s ≤ s.nblks
    → mark_block b s ≡ ok tt (saved (record s { block_map = fd_set b s.block_map }))
unfolding mark_block set_block_bit
mark_block-ok s b lt room =
    let fits : ltb b (s.block_map_sz * 8192) ≡ true = lt→ltb _ _ lt in
    rw fits (update_bitmap-ok (record s { block_map = fd_set b s.block_map }) (omega arith))

-- The free block `b` becomes the one that the field `f` of an inode points to.
abbrev with_pointer : Fs → (n f b : ℕ) → Fs
with_pointer s n f b =
    let t = with_field (put_disk s b zero_block) n f b in
    put_disk t (1 + s.inode_map_sz + s.block_map_sz + n / 16) (t.inode_region (n / 16))

abbrev allocated : Fs → (n f b : ℕ) → Fs
allocated s n f b = saved (record (with_pointer s n f b) { block_map = fd_set b s.block_map })

module _ {g s : Fs} {inum : ℕ} (store : IsStore g s inum) where
  alloc_field-allocated :
      (f b : ℕ)
      → field s inum f ≡ 0
      → IsFirstFree s.block_map 0 (block_bits s) b
      → find_free_block_number s ≡ ok (pos b) (put_disk s b zero_block)
      → alloc_field inum f s ≡ ok (some b) (allocated s inum f b)
  unfolding alloc_field
  alloc_field-allocated f b e first run =
      let unset : (field s inum f == 0) ≡ true = ground arith in
      let sized = store.mounted.sound.sized in
      let inside : inum < s.inode_region_sz * 16 = omega (arith, store.inside, sized) in
      let room : data_start s ≤ s.nblks = omega (arith, store.room, sized) in
      let in_map : b < s.block_map_sz * 8192 = omega (arith, first.below) in
      rw unset (
        after _ run (
          after _ (set_field-ok (put_disk s b zero_block) inum f b) (
            after _
              (update_inode-ok (with_field (put_disk s b zero_block) inum f b) inum inside room)
              (after _ (mark_block-ok (with_pointer s inum f b) b in_map room) refl))))

  alloc_field-full :
      (f : ℕ)
      → field s inum f ≡ 0
      → find_free_block_number s ≡ ok enospc s
      → alloc_field inum f s ≡ ok none s
  unfolding alloc_field
  alloc_field-full f e run =
      let unset : (field s inum f == 0) ≡ true = ground arith in rw unset (after _ run refl)

  field-allocated :
      (f b n h : ℕ)
      → f < 16
      → h < 16
      → b < 2 ^ 32
      → field (allocated s inum f b) n h ≡ (if n == inum && h == f then b else field s n h)
  unfolding field
  field-allocated f b n h small small' fits =
      let whole : b % 2 ^ 32 ≡ b = omega arith in
      field-with_field s inum n f h b small small' ∙ rw whole refl

  disk-allocated :
      (f b k : ℕ)
      → data_start g ≤ k
      → (allocated s inum f b).disk k ≡ (if k == b then zero_block else s.disk k)
  disk-allocated f b k far =
      let sized = store.mounted.sound.sized in
      let inside = store.inside in ground (arith, sized, inside, far)

  module _ (i b : ℕ) (six : i < 6) (unset : direct s inum i ≡ 0)
      (first : IsFirstFree s.block_map 0 (block_bits s) b)
      (run : find_free_block_number s ≡ ok (pos b) (put_disk s b zero_block)) where
    abbrev t : Fs
    t = allocated s inum (w_direct + i) b

    now : alloc_field inum (w_direct + i) s ≡ ok (some b) t
    now = alloc_field-allocated (w_direct + i) b unset first run

    -- A free block lies behind the metadata, and on the image.
    bounds : (data_start g ≤ b) × (b + 1 ≤ g.nblks) × (b < 2 ^ 32)
    bounds =
        let sized = store.mounted.sound.sized in
        let held = store.held in
        let far : data_start g ≤ b = ground (arith, store.mounted.sound.reserved b, first.free) in
        (far, omega (arith, first.below), omega (arith, first.below))

    direct-t : (j : ℕ) → j < 6 → direct t inum j ≡ (if j == i then b else direct s inum j)
    direct-t j six' =
        field-allocated (w_direct + i) b inum (w_direct + j) (omega arith) (omega arith) bounds.2
        ∙ ground arith

    used-t : (k : ℕ) → fd_isset k t.block_map ≡ (if k == b then true else fd_isset k s.block_map)
    used-t k = fd_isset-fd_set b k s.block_map

    -- The new block is none that the file has.
    other-t : (j : ℕ) → j < 6 → direct s inum j ≢ b
    other-t j six' same =
        let ne : direct s inum j ≢ 0 = omega (arith, bounds, same) in
        let held : fd_isset b s.block_map ≡ true = rw (← same) (store.used j six' ne).0 in
        cc (held, first.free)

    apart-t :
        (j k : ℕ) → j < 6 → k < 6 → direct t inum j ≢ 0 → direct t inum k ≡ direct t inum j → k ≡ j
    apart-t j k six' six'' ne same = ground (
      arith,
      direct-t j six',
      direct-t k six'',
      same,
      store.apart j k six' six'',
      other-t j six',
      other-t k six'',
      ne,
    )

    content-t : (o : ℕ) → o < 6144 → content t inum o ≡ content s inum o
    unfolding content
    content-t o in_file =
        let j : ℕ = o / 1024 in
        let six' : j < 6 = omega arith in
        elim (Bool-cases (j == i)) [
          | inl e ↦
              let here : j ≡ i = ground arith in
              let old : direct s inum j ≡ 0 = rw here unset in
              rw (direct-t j six')
                (rw e (rw old (rw (disk-allocated (w_direct + i) b b bounds.0) (ground arith))))
          | inr e ↦ rw (direct-t j six') (
              rw e (
                ground (
                  arith,
                  disk-allocated (w_direct + i) b (direct s inum j),
                  store.mounted.sound.pointed inum j store.inside six',
                  other-t j six',
                )))
        ]

    t-IsStore : IsStore g t inum
    t-IsStore = record {
      mounted =
          (holds
            (subst (Post _) now (alloc_direct-IsMounted inum i store.inside six store.mounted))).0;
      held = store.held;
      room = store.room;
      inside = store.inside;
      used = λ j six' ne.
          ground (arith, direct-t j six', used-t (direct t inum j), store.used j six', bounds);
      apart = λ j k six' six'' ne same. apart-t j k six' six'' ne same;
    }

    t-Filled : (start at : ℕ) (buf : Buffer) → Filled g s t inum start 0 at buf
    t-Filled start at buf = record {
      bytes = λ o in_file. content-t o in_file ∙ ground arith;
      set = λ o in_file lo hi. absurd (omega arith);
      kept = λ j six' ne. ground (arith, direct-t j six', unset);
      new = λ j six' ne. ground (arith, direct-t j six', first.free, ne);
      fields = λ n f small other.
          field-allocated (w_direct + i) b n f (omega arith) small bounds.2 ∙ ground (arith, other);
      blocks =
          λ k far is_used other. disk-allocated (w_direct + i) b k far ∙ ground (arith, first.free);
      used = λ k is_used. ground (arith, used-t k);
      inode_map = refl;
    }

  -- `alloc_field` returns the block that the pointer has, or a new one, or `none` once all blocks
  -- are in use. The content of the file does not change.
  pub alloc_field-cases :
      (i : ℕ)
      → i < 6
      → ((alloc_field inum (w_direct + i) s ≡ ok none s) × AreUsed s.block_map 0 (block_bits s))
        ⊎ ((b : ℕ) × (t : Fs) × (alloc_field inum (w_direct + i) s ≡ ok (some b) t)
            × IsStore g t inum
            × (direct t inum i ≡ b)
            × (b ≢ 0)
            × ((start at : ℕ) (buf : Buffer) → Filled g s t inum start 0 at buf))
  alloc_field-cases i six = elim (Bool-cases (direct s inum i == 0)) [
    | inr e ↦
        let ne : direct s inum i ≢ 0 = ground arith in
        inr (
          direct s inum i,
          s,
          alloc_field-ok s inum (w_direct + i) ne,
          store,
          refl,
          ne,
          Filled-none g s inum,
        )
    | inl e ↦
        let sized = store.mounted.sound.sized in
        let unset : direct s inum i ≡ 0 = ground arith in
        elim (find_free_block_number_lem s (omega (arith, store.held, sized))
          (store.mounted.sound.reserved 0 (omega arith))) [
            | inl (run, full) ↦ inl (alloc_field-full (w_direct + i) unset run, full)
            | inr (b, first, run) ↦ inr (
              b,
              t i b six unset first run,
              now i b six unset first run,
              t-IsStore i b six unset first run,
              direct-t i b six unset first run i six ∙ ground arith,
              omega (arith, bounds i b six unset first run),
              t-Filled i b six unset first run,
            )
          ]
  ]
