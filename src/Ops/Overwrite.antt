-- ===== src/Ops/Overwrite.antt =====
-- `fs_write` inside of the direct blocks that a file has: nothing is allocated.
pub mod Total
use cs5600_filesystem.Base.{
  ℕ, zero, suc, ◌+◌, ◌-◌, ◌*◌, ◌/◌, ◌%◌, ◌^◌, ◌≤◌, ◌<◌, ◌≡◌, ◌≢◌, refl, sym, ap, ◌∙◌, fun_ext, Bool,
  true, false, not, ◌&&◌, ◌||◌, ◌⊎◌, inl, inr, some, Bytes, arith, ltb, leb, ◌==◌, if◌then◌else◌,
  Bool-cases, subst,
}
use cs5600_filesystem.Base.Int.{pos, negsuc, exceeds, ℤ_eq, signed32}
use cs5600_filesystem.Memory.{Area, Block, copy_bytes}
use cs5600_filesystem.State.{Fs, ok}
use cs5600_filesystem.State.Device.{read_block, write_block, image_read}
use cs5600_filesystem.State.Inode.{field, w_direct, w_size, inode_at}
use cs5600_filesystem.State.Post.{after, put_disk, write_block-ok}
use cs5600_filesystem.Tree.{translate}
use cs5600_filesystem.Tree.Lookup.{inode_at-ok}
use cs5600_filesystem.Ops.Read.{Buffer, chunk}
use cs5600_filesystem.Ops.Content.Copy.{chunk-bounds}
use cs5600_filesystem.Ops.Write.{
  patch_block, alloc_field, write_direct, fs_write_1st_level, write_levels, grow, int_length,
  fs_write,
}

-- The direct block `j` of an inode.
abbrev pub direct : Fs → (inum j : ℕ) → ℕ
direct s inum j = field s inum (w_direct + j)

pub patch_block-ok :
    (s : Fs) (blk off len at : ℕ) (buf : Buffer)
    → blk ≢ 0
    → blk + 1 ≤ s.nblks
    → patch_block blk off len at buf s
      ≡ ok tt (put_disk s blk (copy_bytes (s.disk blk) off len (λ o. buf (at + o))))
unfolding patch_block read_block image_read
patch_block-ok s blk off len at buf ne fits =
    let e : leb (blk + 1) s.nblks ≡ true = ground arith in
    let here : blk + 0 ≡ blk = omega arith in rw (e, here) (write_block-ok s blk _ ne fits)

pub alloc_field-ok :
    (s : Fs) (inum f : ℕ) → field s inum f ≢ 0 → alloc_field inum f s ≡ ok (some (field s inum f)) s
unfolding alloc_field
alloc_field-ok s inum f ne = let e : (field s inum f == 0) ≡ false = ground arith in rw e refl

-- The disk `d'` is `d` but for the bytes of a file, in its direct blocks, from `start` to
-- `start + len`, which are those of `buf` from `at` on.
pub record IsPatched (blk : ℕ → ℕ) (start len at : ℕ) (buf : Buffer) (d d' : Area) : Type 0 where
  pub bytes :
      (j o : ℕ)
      → j < 6
      → o < 1024
      → d' (blk j) o ≡ (
          if leb start (j * 1024 + o) && ltb (j * 1024 + o) (start + len)
          then buf (at + (j * 1024 + o - start))
          else d (blk j) o)
  pub others : (b : ℕ) → ((j : ℕ) → j < 6 → b ≢ blk j) → d' b ≡ d b

abbrev pub with_disk : Fs → Area → Fs
with_disk s d = record s { disk = d }

-- What the rounds behind one leave of the block of that round, and of the other blocks.
module _ (buf : Buffer) (i off len at m x : ℕ) (le : m ≤ len) (inside : off + m ≤ 1024)
    (ends : (m ≡ len) ⊎ (off + m ≡ 1024)) where
  same_block :
      (o : ℕ)
      → o < 1024
      → (if leb ((i + 1) * 1024 + 0) (i * 1024 + o)
            && ltb (i * 1024 + o) ((i + 1) * 1024 + 0 + (len - m))
          then buf (at + m + (i * 1024 + o - ((i + 1) * 1024 + 0)))
          else (if leb off o && ltb o (off + m) then buf (at + (o - off)) else x))
        ≡ (if leb (i * 1024 + off) (i * 1024 + o) && ltb (i * 1024 + o) (i * 1024 + off + len)
            then buf (at + (i * 1024 + o - (i * 1024 + off)))
            else x)
  same_block o lt =
      let place : i * 1024 + o - (i * 1024 + off) ≡ o - off = omega arith in
      let behind : leb ((i + 1) * 1024 + 0) (i * 1024 + o) ≡ false = ground arith in
      rw (place, behind) (ground (arith, ends))

  other_block :
      (j o : ℕ)
      → o < 1024
      → j ≢ i
      → (if leb ((i + 1) * 1024 + 0) (j * 1024 + o)
            && ltb (j * 1024 + o) ((i + 1) * 1024 + 0 + (len - m))
          then buf (at + m + (j * 1024 + o - ((i + 1) * 1024 + 0)))
          else x)
        ≡ (if leb (i * 1024 + off) (j * 1024 + o) && ltb (j * 1024 + o) (i * 1024 + off + len)
            then buf (at + (j * 1024 + o - (i * 1024 + off)))
            else x)
  other_block j o lt ne = elim ends [
    | inl e ↦
        let a : (leb ((i + 1) * 1024 + 0) (j * 1024 + o)
              && ltb (j * 1024 + o) ((i + 1) * 1024 + 0 + (len - m)))
            ≡ false =
          ground arith in
        let b : (leb (i * 1024 + off) (j * 1024 + o) && ltb (j * 1024 + o) (i * 1024 + off + len))
            ≡ false =
          ground arith in
        rw (a, b) refl
    | inr e ↦
        let place : leb ((i + 1) * 1024 + 0) (j * 1024 + o) ≡ true
            → at + m + (j * 1024 + o - ((i + 1) * 1024 + 0))
              ≡ at + (j * 1024 + o - (i * 1024 + off)) =
          λ h. ground arith in
        ground (arith, ap buf, place)
  ]

-- A direct block is set, on the image, and no other direct block of the inode.
abbrev pub IsOwn : Fs → (inum j : ℕ) → Type 0
IsOwn s inum j =
    (direct s inum j ≢ 0)
    × (direct s inum j + 1 ≤ s.nblks)
    × ((k : ℕ) → k < 6 → direct s inum k ≡ direct s inum j → k ≡ j)

module _ (s : Fs) (inum : ℕ) (buf : Buffer) where
  abbrev blk : ℕ → ℕ
  blk j = direct s inum j

  AreSet : (lo hi : ℕ) → Type 0
  AreSet lo hi = (j : ℕ) → lo ≤ j → j * 1024 < hi → IsOwn s inum j

  -- One round of the loop, and the rounds behind it.
  patch-IsPatched :
      (i off len at m : ℕ) (d d' : Area)
      → i < 6
      → ((j : ℕ) → j < 6 → blk j ≡ blk i → j ≡ i)
      → m ≤ len
      → off + m ≤ 1024
      → (m ≡ len) ⊎ (off + m ≡ 1024)
      → IsPatched blk
          ((i + 1) * 1024 + 0)
          (len - m)
          (at + m)
          buf
          (λ b. if b == blk i then copy_bytes (d (blk i)) off m (λ o. buf (at + o)) else d b)
          d'
      → IsPatched blk (i * 1024 + off) len at buf d d'
  unfolding copy_bytes
  patch-IsPatched i off len at m d d' lt apart le inside ends rest = record {
    bytes = λ j o in_file in_block. elim (Bool-cases (blk j == blk i)) [
      | inl e ↦
          let same : j ≡ i = apart j in_file (ground arith) in
          let e' : (blk i == blk i) ≡ true = ground arith in
          subst
            (λ j. d' (blk j) o ≡ (
              if leb (i * 1024 + off) (j * 1024 + o) && ltb (j * 1024 + o) (i * 1024 + off + len)
              then buf (at + (j * 1024 + o - (i * 1024 + off)))
              else d (blk j) o))
            (sym same)
            (rest.bytes i o lt in_block
              ∙ rw e' (same_block buf i off len at m (d (blk i) o) le inside ends o in_block))
      | inr e ↦
          let ne : j ≢ i =
            λ same. let together : blk j ≡ blk i = ap blk same in ground (arith, together, e) in
          rest.bytes j o in_file in_block
          ∙ rw e (other_block buf i off len at m (d (blk j) o) le inside ends j o in_block ne)
    ];
    others = λ b apart_from.
        let e : (b == blk i) ≡ false = ground (arith, apart_from i lt) in
        rest.others b apart_from ∙ rw e refl;
  }

  IsPatched-none : (start at : ℕ) (d : Area) → IsPatched blk start 0 at buf d d
  IsPatched-none start at d = record {
    bytes = λ j o in_file in_block.
        let e : (leb start (j * 1024 + o) && ltb (j * 1024 + o) (start + 0)) ≡ false =
          ground arith in
        rw e refl;
    others = λ b apart_from. refl;
  }

  write_direct-ok :
      (n i off len at done : ℕ) (d : Area)
      → i + n ≡ 6
      → off < 1024
      → i * 1024 + off + len ≤ 6144
      → AreSet i (i * 1024 + off + len)
      → (d' : Area) × (write_direct n i inum off len at done buf (with_disk s d)
          ≡ ok (done + len) (with_disk s d'))
        × IsPatched blk (i * 1024 + off) len at buf d d'
  unfolding write_direct AreSet field
  write_direct-ok zero i off len at done d rounds inside fits set =
      let none_left : 0 ≡ len = omega arith in
      (
        d,
        ap (λ n. ok n (with_disk s d)) (omega arith),
        subst (λ len. IsPatched blk (i * 1024 + off) len at buf d d) none_left
            (IsPatched-none _ at d),
      )
  write_direct-ok (suc n) i off len at done d rounds inside fits set =
      elim (Bool-cases (len == 0)) [
        | inl e ↦
            let none_left : 0 ≡ len = ground arith in
            (
              d,
              rw e (ap (λ n. ok n (with_disk s d)) (omega arith)),
              subst (λ len. IsPatched blk (i * 1024 + off) len at buf d d) none_left
                  (IsPatched-none _ at d),
            )
        | inr e ↦
            let m = chunk 1024 off len in
            let (le, in_block, ends) = chunk-bounds 1024 off len inside in
            let some_left : len ≢ 0 = ground arith in
            let (ne, on, apart) = set i (omega arith) (omega arith) in
            let d₁ : Area =
              λ b. if b == blk i then copy_bytes (d (blk i)) off m (λ o. buf (at + o)) else d b in
            let (d', run, patched) =
              write_direct-ok n (i + 1) 0 (len - m) (at + m) (done + m) d₁ (omega arith)
                (omega arith) (omega (arith, ends))
                (λ j lo hi. set j (omega arith) (omega (arith, ends))) in
            (
              d',
              rw e (
                  after _ (alloc_field-ok (with_disk s d) inum (w_direct + i) ne) (
                    after _ (patch_block-ok (with_disk s d) (blk i) off m at buf ne on)
                      (run ∙ ap (λ n. ok n (with_disk s d')) (omega arith)))),
              patch-IsPatched i off len at m d d' (omega arith) apart le in_block ends patched,
            )
      ]

  pub written :
      (offset len : ℕ)
      → ((j : ℕ) → offset / 1024 ≤ j → j * 1024 < offset + len → IsOwn s inum j)
      → offset + len < 6144
      → (d : Area) × (fs_write_1st_level inum offset len 0 buf s ≡ ok len (with_disk s d))
        × IsPatched blk offset len 0 buf s.disk d
  unfolding fs_write_1st_level AreSet
  written offset len set before =
      let whole : offset / 1024 * 1024 + offset % 1024 ≡ offset = omega arith in
      let (d, run, patched) =
        write_direct-ok (6 - offset / 1024) (offset / 1024) (offset % 1024) len 0 0 s.disk
          (omega arith) (omega arith) (omega arith) (λ j lo hi. set j lo (omega arith)) in
      (
        d,
        run ∙ ap (λ n. ok n (with_disk s d)) (omega arith),
        subst (λ start. IsPatched blk start len 0 buf s.disk d) whole patched,
      )
