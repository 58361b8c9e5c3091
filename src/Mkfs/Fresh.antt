-- ===== src/Mkfs/Fresh.antt =====
-- The image that mkfs-x6.c writes, once `fs_init` has read it.
use cs5600_filesystem.Base.{
  ℕ, zero, suc, ◌+◌, ◌-◌, ◌*◌, ◌/◌, ◌%◌, ◌^◌, ◌≤◌, ◌<◌, ◌≡◌, refl, ap, ◌∙◌, Bool, true, false,
  arith, get_or, ltb, ◌==◌, if◌then◌else◌, Bytes, Bool-cases, inl, inr,
}
use cs5600_filesystem.Memory.{
  Block, Area, word, zero_block, word-set_word, store_words, word-store_words, fd_isset,
  fd_isset-fd_set, bit_of,
}
use cs5600_filesystem.State.{Fs, ok}
use cs5600_filesystem.State.Device.{fs_init}
use cs5600_filesystem.State.Inode.{field, w_direct, w_mode}
use cs5600_filesystem.Mount.{IsMounted, IsReserved, IsPointed}
use cs5600_filesystem.Tree.Lookup.{HasDir, Lacks, dir_of}
use cs5600_filesystem.Tree.{matches}
use cs5600_filesystem.Tree.Dirent.{dir_valid}
use cs5600_filesystem.Mount.Init.{IsDescribed, reloaded, fs_init-reloaded}
use cs5600_filesystem.Mkfs.{
  n_map_blks, n_inos, n_ino_map_blks, n_ino_blks, block_map_base, inode_base, rootdir_base,
  zero_area, mark_below, superblock, root_inode, mkfs,
}

-- The state before `fs_init`: the image, and memory that is not set.
abbrev pub blank : (n_blks t : ℕ) → Fs
blank n_blks t = record {
  nblks = n_blks;
  disk = mkfs n_blks t;
  inode_map = zero_area;
  block_map = zero_area;
  inode_map_sz = n_ino_map_blks n_blks;
  block_map_sz = n_map_blks n_blks;
  num_of_blocks = n_blks;
  inode_region = zero_area;
  inode_region_sz = n_ino_blks n_blks;
}

abbrev pub mounted : (n_blks t : ℕ) → Fs
mounted n_blks t = reloaded (blank n_blks t)

fd_isset-mark_below :
    (n i : ℕ) (m : Area) → fd_isset i (mark_below n m) ≡ (if ltb i n then true else fd_isset i m)
unfolding mark_below
fd_isset-mark_below zero i m = ground arith
fd_isset-mark_below (suc n) i m =
    ground (arith, fd_isset-mark_below n i m, fd_isset-fd_set n i (mark_below n m))

word-zero : (i : ℕ) → word zero_block i ≡ 0
unfolding word
word-zero i = refl

bit_of-zero : (k : ℕ) → bit_of k 0 ≡ false
unfolding bit_of
bit_of-zero zero = refl
bit_of-zero (suc k) = bit_of-zero k

fd_isset-same : (i : ℕ) (m m' : Area) → m (i / 8192) ≡ m' (i / 8192) → fd_isset i m ≡ fd_isset i m'
unfolding fd_isset
fd_isset-same i m m' e = rw e

pub fd_isset-zero : (i : ℕ) (b : Bool) → (if b then true else fd_isset i zero_area) ≡ b
unfolding fd_isset
fd_isset-zero i true = refl
fd_isset-zero i false = bit_of-zero (i % 8)

matches-zero : (name : Bytes) (i : ℕ) → matches zero_block name i ≡ false
unfolding matches dir_valid word
matches-zero name i = ground arith

module _ (n_blks t : ℕ) (some_inodes : 4 ≤ n_blks) (large : rootdir_base n_blks < n_blks)
    (small : n_blks < 2 ^ 21) where
  superblock-word :
      (word (superblock n_blks) 1 ≡ n_ino_map_blks n_blks)
      × (word (superblock n_blks) 2 ≡ n_ino_blks n_blks)
      × (word (superblock n_blks) 3 ≡ n_map_blks n_blks)
      × (word (superblock n_blks) 4 ≡ n_blks)
  unfolding superblock
  superblock-word =
      let a : n_ino_map_blks n_blks % 2 ^ 32 ≡ n_ino_map_blks n_blks = omega arith in
      let b : n_ino_blks n_blks % 2 ^ 32 ≡ n_ino_blks n_blks = omega arith in
      let c : n_map_blks n_blks % 2 ^ 32 ≡ n_map_blks n_blks = omega arith in
      let d : n_blks % 2 ^ 32 ≡ n_blks = omega arith in
      (simp word-set_word a, simp word-set_word b, simp word-set_word c, simp word-set_word d)

  pub blank-IsDescribed : IsDescribed (blank n_blks t)
  unfolding mkfs
  blank-IsDescribed = record {
    inode_map_sz = superblock-word.0;
    inode_region_sz = superblock-word.1;
    block_map_sz = superblock-word.2;
    num_blocks = superblock-word.3;
    fits = omega arith;
  }

  mkfs-block_map :
      (k : ℕ)
      → k < n_map_blks n_blks
      → mkfs n_blks t (n_ino_map_blks n_blks + 1 + k)
        ≡ mark_below (rootdir_base n_blks + 1) zero_area k
  unfolding mkfs
  mkfs-block_map k lt =
      let e1 : (n_ino_map_blks n_blks + 1 + k == 0) ≡ false = ground arith in
      let e2 : ltb (n_ino_map_blks n_blks + 1 + k) (block_map_base n_blks) ≡ false = ground arith in
      let e3 : ltb (n_ino_map_blks n_blks + 1 + k) (inode_base n_blks) ≡ true = ground arith in
      let e4 : n_ino_map_blks n_blks + 1 + k - block_map_base n_blks ≡ k = omega arith in
      rw (e1, e2, e3, e4)

  mounted-IsReserved : IsReserved (mounted n_blks t) (mounted n_blks t)
  mounted-IsReserved i h =
      fd_isset-same i (mounted n_blks t).block_map (mark_below (rootdir_base n_blks + 1) zero_area)
        (mkfs-block_map (i / 8192) (omega arith))
      ∙ fd_isset-mark_below (rootdir_base n_blks + 1) i zero_area
      ∙ ground arith

  -- The inode blocks: the first one holds the root directory's inode.
  inode_block :
      (k : ℕ)
      → mkfs n_blks t (1 + n_ino_map_blks n_blks + n_map_blks n_blks + k)
        ≡ (if k == 0 then store_words zero_block 1 (root_inode n_blks t) else zero_block)
  unfolding mkfs
  inode_block k =
      let e1 : (inode_base n_blks + k == 0) ≡ false = ground arith in
      let e2 : ltb (inode_base n_blks + k) (block_map_base n_blks) ≡ false = ground arith in
      let e3 : ltb (inode_base n_blks + k) (inode_base n_blks) ≡ false = ground arith in
      let e4 : (inode_base n_blks + k == inode_base n_blks) ≡ (k == 0) = ground arith in
      rw (e1, e2, e3, e4)

  inode_word :
      (b : Block) (n f : ℕ)
      → f < 16
      → b ≡ (if n / 16 == 0 then store_words zero_block 1 (root_inode n_blks t) else zero_block)
      → word b (16 * (n % 16) + f)
        ≡ (if n == 1 then get_or (root_inode n_blks t) f 0 % 2 ^ 32 else 0)
  inode_word b n f lt e = elim (Bool-cases (n / 16 == 0)) [
    | inr later ↦
        let c : (n == 1) ≡ false = ground arith in
        let e' : b ≡ zero_block = rw later at e in rw (e', c) (word-zero (16 * (n % 16) + f))
    | inl first ↦
        let c : (n % 16 == 1) ≡ (n == 1) = ground arith in
        let e' : b ≡ store_words zero_block 1 (root_inode n_blks t) = rw first at e in
        rw e' (
          word-store_words zero_block 1 (root_inode n_blks t) (n % 16) f lt
          ∙ rw (c, word-zero (16 * (n % 16) + f)))
  ]

  -- Inode 1 is the root directory's, and the others are empty.
  pub field-mounted :
      (n f : ℕ)
      → f < 16
      → field (mounted n_blks t) n f
        ≡ (if n == 1 then get_or (root_inode n_blks t) f 0 % 2 ^ 32 else 0)
  unfolding field
  field-mounted n f lt = inode_word _ n f lt (inode_block (n / 16))

  root_inode-direct :
      (j : ℕ)
      → j < 6
      → get_or (root_inode n_blks t) (w_direct + j) 0 ≡ (if j == 0 then rootdir_base n_blks else 0)
  root_inode-direct zero lt = refl
  root_inode-direct (suc zero) lt = refl
  root_inode-direct (suc (suc zero)) lt = refl
  root_inode-direct (suc (suc (suc zero))) lt = refl
  root_inode-direct (suc (suc (suc (suc zero)))) lt = refl
  root_inode-direct (suc (suc (suc (suc (suc zero))))) lt = refl
  root_inode-direct (suc (suc (suc (suc (suc (suc j)))))) lt = absurd (omega arith)

  mounted-IsPointed : IsPointed (mounted n_blks t) (mounted n_blks t)
  mounted-IsPointed n j lt six =
      rw (field-mounted n (w_direct + j) (omega arith), root_inode-direct j six) (ground arith)

  pub mounted-IsMounted : IsMounted (mounted n_blks t) (mounted n_blks t)
  mounted-IsMounted = record {
    sound = record {
      sized = (refl, refl, refl, refl, refl, omega arith);
      reserved = mounted-IsReserved;
      pointed = mounted-IsPointed;
      inodes = λ k lt. refl;
    };
    maps = record {
      inode_map = λ k lt. refl;
      block_map = λ k lt. ap (mkfs n_blks t) (omega arith);
    };
  }

  pub mounted-IsDescribed : IsDescribed (mounted n_blks t)
  mounted-IsDescribed = record {
    inode_map_sz = blank-IsDescribed.inode_map_sz;
    inode_region_sz = blank-IsDescribed.inode_region_sz;
    block_map_sz = blank-IsDescribed.block_map_sz;
    num_blocks = blank-IsDescribed.num_blocks;
    fits = blank-IsDescribed.fits;
  }

  pub root-direct : field (mounted n_blks t) 1 w_direct ≡ rootdir_base n_blks
  root-direct = field-mounted 1 w_direct (omega arith) ∙ omega arith

  rootdir_block : mkfs n_blks t (rootdir_base n_blks + 0) ≡ zero_block
  rootdir_block =
      let e : rootdir_base n_blks + 0
          ≡ 1 + n_ino_map_blks n_blks + n_map_blks n_blks + n_ino_blks n_blks =
        omega arith in
      let later : (n_ino_blks n_blks == 0) ≡ false = ground arith in
      ap (mkfs n_blks t) e ∙ inode_block (n_ino_blks n_blks) ∙ rw later

  pub mounted-root : dir_of (mounted n_blks t) 1 ≡ zero_block
  mounted-root = ap (λ b. mkfs n_blks t (b + 0)) root-direct ∙ rootdir_block

  pub mounted-used :
      (i : ℕ)
      → i < n_blks
      → fd_isset i (mounted n_blks t).block_map ≡ ltb i (rootdir_base n_blks + 1)
  mounted-used i lt =
      fd_isset-same i (mounted n_blks t).block_map (mark_below (rootdir_base n_blks + 1) zero_area)
        (mkfs-block_map (i / 8192) (omega arith))
      ∙ fd_isset-mark_below (rootdir_base n_blks + 1) i zero_area
      ∙ fd_isset-zero i _

  mkfs-inode_map :
      (k : ℕ) → k < n_ino_map_blks n_blks → mkfs n_blks t (1 + k) ≡ mark_below 2 zero_area k
  unfolding mkfs
  mkfs-inode_map k lt =
      let e1 : (1 + k == 0) ≡ false = ground arith in
      let e2 : ltb (1 + k) (block_map_base n_blks) ≡ true = ground arith in
      let e4 : 1 + k - 1 ≡ k = omega arith in rw (e1, e2, e4)

  pub mounted-inodes :
      (i : ℕ) → i < n_inos n_blks → fd_isset i (mounted n_blks t).inode_map ≡ ltb i 2
  mounted-inodes i lt =
      fd_isset-same i (mounted n_blks t).inode_map (mark_below 2 zero_area)
        (mkfs-inode_map (i / 8192) (omega arith))
      ∙ fd_isset-mark_below 2 i zero_area
      ∙ fd_isset-zero i _

  pub mounted-Lacks : (name : Bytes) → Lacks (dir_of (mounted n_blks t) 1) name
  mounted-Lacks name i h = rw mounted-root (matches-zero name i)

  -- On the image that `mkfs` writes for `n_blks` blocks, at least 4 and enough for the root
  -- directory's block, and less than 2^21, `fs_init` succeeds whatever the memory held before. The
  -- state is a mounted file system that the superblock describes. The root directory can be read
  -- and has no entry, and its mode is 040777. In use are exactly the blocks up to that of the root
  -- directory, and the inodes 0 and 1.
  pub mkfs-IsMounted :
      (s₀ : Fs)
      → (s : Fs) × (fs_init (record s₀ { nblks = n_blks; disk = mkfs n_blks t }) ≡ ok tt s)
        × IsMounted s s
        × IsDescribed s
        × HasDir s 1
        × (field s 1 w_mode ≡ 0o40777)
        × ((name : Bytes) → Lacks (dir_of s 1) name)
        × ((i : ℕ) → i < n_blks → fd_isset i s.block_map ≡ ltb i (rootdir_base n_blks + 1))
        × ((i : ℕ) → i < n_inos n_blks → fd_isset i s.inode_map ≡ ltb i 2)
  mkfs-IsMounted s₀ = (
    mounted n_blks t,
    fs_init-reloaded (record s₀ { nblks = n_blks; disk = mkfs n_blks t }) (blank n_blks t)
        blank-IsDescribed refl refl,
    mounted-IsMounted,
    mounted-IsDescribed,
    record { in_region = omega arith; on_disk = omega (arith, root-direct) },
    field-mounted 1 w_mode (omega arith),
    mounted-Lacks,
    mounted-used,
    mounted-inodes,
  )
