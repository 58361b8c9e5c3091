-- ===== src/Ops/Extend.antt =====
-- `fs_write` before byte 6144 of a file, where it allocates the direct blocks that are missing: how
-- the states before and after a part of it compare.
pub mod Alloc
pub mod Patch
pub mod Loop
pub mod Grow
pub mod Total
pub mod Back
pub mod Chunks
pub mod New
pub mod Fresh
use cs5600_filesystem.Base.{
  ℕ, ◌+◌, ◌-◌, ◌*◌, ◌/◌, ◌%◌, ◌≤◌, ◌<◌, ◌≡◌, ◌≢◌, refl, sym, ap, ◌∙◌, true, false, ◌&&◌, ◌⊎◌, inl,
  inr, arith, ltb, leb, ◌==◌, if◌then◌else◌, Bool-cases, subst,
}
use cs5600_filesystem.Memory.{fd_isset}
use cs5600_filesystem.State.{Fs}
use cs5600_filesystem.State.Inode.{field, w_direct}
use cs5600_filesystem.Mount.{data_start, IsMounted}
use cs5600_filesystem.Ops.Read.{Buffer}
use cs5600_filesystem.Ops.Overwrite.{direct}

-- The byte of a file at an offset below 6144. A direct block that is not set counts as zeros.
unfoldable pub content : Fs → (inum o : ℕ) → ℕ
content s inum o =
    if direct s inum (o / 1024) == 0 then 0 else s.disk (direct s inum (o / 1024)) (o % 1024)

-- A mounted file system, of the geometry of `g`, that its image has room for, and a file in it whose
-- direct blocks are marked as used, and different from one another.
pub record IsStore (g s : Fs) (inum : ℕ) : Type 0 where
  pub mounted : IsMounted g s
  pub held : g.num_of_blocks ≤ g.nblks
  pub room : data_start g ≤ g.nblks
  pub inside : inum < g.inode_region_sz * 16
  pub used :
      (j : ℕ)
      → j < 6
      → direct s inum j ≢ 0
      → (fd_isset (direct s inum j) s.block_map ≡ true) × (direct s inum j + 1 ≤ g.nblks)
  pub apart :
      (j k : ℕ) → j < 6 → k < 6 → direct s inum j ≢ 0 → direct s inum k ≡ direct s inum j → k ≡ j

-- A byte of the file is a byte of the buffer from `at` on if it is one of the `m` bytes from `start`
-- on, and else `old`.
abbrev pub patched : (start m at : ℕ) → Buffer → (o old : ℕ) → ℕ
patched start m at buf o old =
    if leb start o && ltb o (start + m) then buf (at + (o - start)) else old

-- The state `t` is `s` but for the `m` bytes of a file from `start` on, which are those of `buf`
-- from `at` on, and for the blocks that were free and that the file got for them.
pub record Filled (g s t : Fs) (inum start m at : ℕ) (buf : Buffer) : Type 0 where
  pub bytes : (o : ℕ) → o < 6144 → content t inum o ≡ patched start m at buf o (content s inum o)
  pub set : (o : ℕ) → o < 6144 → start ≤ o → o < start + m → direct t inum (o / 1024) ≢ 0
  pub kept : (j : ℕ) → j < 6 → direct s inum j ≢ 0 → direct t inum j ≡ direct s inum j
  pub new :
      (j : ℕ)
      → j < 6
      → direct t inum j ≢ direct s inum j
      → fd_isset (direct t inum j) s.block_map ≡ false
  pub fields :
      (n f : ℕ)
      → f < 16
      → (n ≢ inum) ⊎ ((f < w_direct) ⊎ (w_direct + 6 ≤ f))
      → field t n f ≡ field s n f
  pub blocks :
      (b : ℕ)
      → data_start g ≤ b
      → fd_isset b s.block_map ≡ true
      → ((j : ℕ) → j < 6 → b ≢ direct s inum j)
      → t.disk b ≡ s.disk b
  pub used : (b : ℕ) → fd_isset b s.block_map ≡ true → fd_isset b t.block_map ≡ true
  pub inode_map : t.inode_map ≡ s.inode_map

-- One part behind the other.
module _ {g s t u : Fs} {inum start m n at : ℕ} {buf : Buffer}
    (first : Filled g s t inum start m at buf)
    (second : Filled g t u inum (start + m) n (at + m) buf) where
  set_trans : (o : ℕ) → o < 6144 → start ≤ o → o < start + (m + n) → direct u inum (o / 1024) ≢ 0
  set_trans o in_file lo hi = elim (Bool-cases (ltb o (start + m))) [
    | inr e ↦ second.set o in_file (ground arith) (omega arith)
    | inl e ↦
        let ne = first.set o in_file lo (ground arith) in
        let same = second.kept (o / 1024) (omega arith) ne in omega (arith, ne, same)
  ]

  kept_trans : (j : ℕ) → j < 6 → direct s inum j ≢ 0 → direct u inum j ≡ direct s inum j
  kept_trans j six ne =
      let same = first.kept j six ne in second.kept j six (omega (arith, same, ne)) ∙ same

  new_trans :
      (j : ℕ)
      → j < 6
      → direct u inum j ≢ direct s inum j
      → fd_isset (direct u inum j) s.block_map ≡ false
  new_trans j six ne = elim (Bool-cases (direct t inum j == direct s inum j)) [
    | inl e ↦
        let moved : direct u inum j ≢ direct t inum j = λ same. ne (same ∙ ground arith) in
        elim (Bool-cases (fd_isset (direct u inum j) s.block_map)) [
          | inl is_used ↦ cc (first.used (direct u inum j) is_used, second.new j six moved)
          | inr is_free ↦ is_free
        ]
    | inr e ↦
        let moved : direct t inum j ≢ direct s inum j = ground arith in
        let ne' : direct t inum j ≢ 0 =
          λ z. let same = first.kept j six in ground (arith, same, moved, z) in
        rw (second.kept j six ne') (first.new j six moved)
  ]

  blocks_trans :
      (b : ℕ)
      → data_start g ≤ b
      → fd_isset b s.block_map ≡ true
      → ((j : ℕ) → j < 6 → b ≢ direct s inum j)
      → u.disk b ≡ s.disk b
  blocks_trans b far is_used other =
      second.blocks b far (first.used b is_used) (λ j six.
        elim (Bool-cases (direct t inum j == direct s inum j)) [
          | inl e ↦ let ne = other j six in ground arith
          | inr e ↦
              let is_free = first.new j six (ground arith) in
              λ same. let both : fd_isset b s.block_map ≡ false = rw same is_free in cc
        ])
      ∙ first.blocks b far is_used other

  bytes_trans :
      (o : ℕ) → o < 6144 → content u inum o ≡ patched start (m + n) at buf o (content s inum o)
  bytes_trans o in_file =
      let place : start + m ≤ o → at + m + (o - (start + m)) ≡ at + (o - start) =
        λ le. omega arith in
      second.bytes o in_file ∙ rw (first.bytes o in_file) (ground (arith, ap buf, place))

  pub Filled-trans : Filled g s u inum start (m + n) at buf
  Filled-trans = record {
    bytes = bytes_trans;
    set = set_trans;
    kept = kept_trans;
    new = new_trans;
    fields = λ k f small other. second.fields k f small other ∙ first.fields k f small other;
    blocks = blocks_trans;
    used = λ b is_used. second.used b (first.used b is_used);
    inode_map = second.inode_map ∙ first.inode_map;
  }

pub Filled-none : (g s : Fs) (inum start at : ℕ) (buf : Buffer) → Filled g s s inum start 0 at buf
Filled-none g s inum start at buf = record {
  bytes = λ o in_file. ground arith;
  set = λ o in_file lo hi. absurd (omega arith);
  kept = λ j six ne. refl;
  new = λ j six ne. absurd (ne refl);
  fields = λ n f small other. refl;
  blocks = λ b far is_used other. refl;
  used = λ b is_used. is_used;
  inode_map = refl;
}

-- A part of no bytes may stand anywhere.
pub Filled-move :
    {g s t : Fs} {inum : ℕ} (start start' m at : ℕ) (buf : Buffer)
    → (start ≡ start') ⊎ (m ≡ 0)
    → Filled g s t inum start m at buf
    → Filled g s t inum start' m at buf
Filled-move start start' m at buf (inl e) h = rw (← e) h
Filled-move start start' m at buf (inr e) h = record {
  bytes = λ o in_file. h.bytes o in_file ∙ ground (arith, e);
  set = λ o in_file lo hi. absurd (omega arith);
  kept = h.kept;
  new = h.new;
  fields = h.fields;
  blocks = h.blocks;
  used = h.used;
  inode_map = h.inode_map;
}

pub Filled-after :
    {g s t u : Fs} {inum : ℕ} (start m at : ℕ) (buf : Buffer)
    → Filled g s t inum start 0 at buf
    → Filled g t u inum start m at buf
    → Filled g s u inum start m at buf
Filled-after {g} {s} {t} {u} {inum} start m at buf first second =
    let a : start ≡ start + 0 = omega arith in
    let b : at ≡ at + 0 = omega arith in
    let c : 0 + m ≡ m = omega arith in
    let second' : Filled g t u inum (start + 0) m (at + 0) buf =
      subst (λ p. Filled g t u inum p m (at + 0) buf) a
        (subst (λ p. Filled g t u inum start m p buf) b second) in
    subst (λ n. Filled g s u inum start n at buf) c (Filled-trans first second')
