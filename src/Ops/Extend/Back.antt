-- ===== src/Ops/Extend/Back.antt =====
-- What `fs_read` and `translate` return after an `fs_write`.
use cs5600_filesystem.Base.{
  ℕ, ◌+◌, ◌*◌, ◌/◌, ◌%◌, ◌^◌, ◌≤◌, ◌<◌, ◌≡◌, ◌≢◌, refl, ap, ◌∙◌, true, ◌⊎◌, inl, inr, Bytes, arith,
  ltb, Bool-cases,
}
use cs5600_filesystem.Base.Int.{ℤ, pos}
use cs5600_filesystem.Memory.{fd_isset, copy_bytes}
use cs5600_filesystem.State.{Fs, ok}
use cs5600_filesystem.State.Inode.{field, w_direct, w_mode, w_size, is_reg}
use cs5600_filesystem.State.Alloc.{AreUsed, block_bits}
use cs5600_filesystem.Mount.{data_start}
use cs5600_filesystem.Tree.{translate}
use cs5600_filesystem.Tree.Leads.{InTree}
use cs5600_filesystem.Tree.Same.{AreSameDirs, translate-same_dirs}
use cs5600_filesystem.Ops.Read.{Buffer, fs_read}
use cs5600_filesystem.Ops.Write.{fs_write}
use cs5600_filesystem.Ops.Content.{block_of, file_byte, HasBlocks}
use cs5600_filesystem.Ops.Content.Copy.{copy_bytes-same}
use cs5600_filesystem.Ops.Content.Total.{read_count, fs_read_lem}
use cs5600_filesystem.Ops.Overwrite.{direct}
use cs5600_filesystem.Ops.Extend.{content, patched, IsStore}
use cs5600_filesystem.Ops.Extend.Grow.{grown_size}
use cs5600_filesystem.Ops.Extend.Total.{Written, fs_write-Written}

-- The blocks of the directories that can be reached lie behind the metadata, are marked as used, and
-- are none of the file's.
abbrev pub IsApart : (g s : Fs) (inum : ℕ) → Type 0
IsApart g s inum =
    (n : ℕ)
    → InTree s n true
    → (data_start g ≤ direct s n 0)
      × (fd_isset (direct s n 0) s.block_map ≡ true)
      × ((j : ℕ) → j < 6 → direct s n 0 ≢ direct s inum j)

-- A file of at most `size` bytes has all its direct blocks.
abbrev pub IsWhole : (s : Fs) (inum size : ℕ) → Type 0
IsWhole s inum size = (j : ℕ) → j * 1024 < size → direct s inum j ≢ 0

module _ {g s : Fs} {inum : ℕ} (store : IsStore g s inum) (size : ℕ) (below : size < 6144)
    (whole : IsWhole s inum size) where
  is_direct : (j : ℕ) → j < 6 → block_of s inum j ≡ direct s inum j
  unfolding block_of
  is_direct j six = ground arith

  pub IsWhole-HasBlocks : HasBlocks s inum size
  IsWhole-HasBlocks = record {
    block = λ j lt.
        let six : j < 6 = omega (arith, below, lt) in
        let ne = whole j lt in
        let held = (store.used j six ne).1 in
        rw (is_direct j six) (ne, omega (arith, held, store.mounted.sound.sized));
    second = λ le. absurd (omega (arith, below));
    third = λ le. absurd (omega (arith, below));
    tree = λ i lt. absurd (omega (arith, below));
  }

  pub file_byte-content : (o : ℕ) → o < size → file_byte s inum o ≡ content s inum o
  unfolding file_byte content
  file_byte-content o lt =
      let place : o / 1024 * 1024 < size = omega arith in
      let ne = whole (o / 1024) place in
      ap (λ b. s.disk b (o % 1024)) (is_direct (o / 1024) (omega (arith, below)))
      ∙ ground (arith, ne)

module _ {g s t : Fs} {inum offset n : ℕ} {buf : Buffer} (store : IsStore g s inum)
    (w : Written g s t inum offset n buf) where
  pub AreSameDirs-Written : IsApart g s inum → AreSameDirs s t
  AreSameDirs-Written apart = record {
    nblks = omega (arith, w.store.mounted.sound.sized, store.mounted.sound.sized);
    inode_region_sz = omega (arith, w.store.mounted.sound.sized, store.mounted.sound.sized);
    block = block;
    entries = λ m reach.
        let (far, is_used, other) = apart m reach in
        let here : direct s m 0 ≡ field s m w_direct + 0 = omega arith in
        ap (λ b. t.disk (b + 0)) (block m reach)
        ∙ rw here at (w.blocks (direct s m 0) far is_used other);
  }
    where
      block : (m : ℕ) → InTree s m true → field t m w_direct ≡ field s m w_direct
      block m reach =
          w.fields m w_direct (omega arith)
            (inl λ same. (apart m reach).2 0 (omega arith) (ap (λ k. direct s k 0) same))

  module _ (size : ℕ) (is_size : field s inum w_size ≡ size) (start : offset ≤ size)
      (small : size < 6144) (before : offset + n < 6144) (whole : IsWhole s inum size) where
    abbrev size' : ℕ
    size' = grown_size size (offset + n)

    below_end : size' < 6144
    below_end = ground arith

    pub IsWhole-Written : IsWhole t inum size'
    IsWhole-Written j lt = elim (Bool-cases (ltb (j * 1024) size)) [
      | inl e ↦
          let ne = whole j (ground arith) in
          let same = w.kept j (omega (arith, below_end)) ne in omega (arith, same, ne)
      | inr e ↦
          let place : j * 1024 / 1024 ≡ j = omega arith in
          let beyond : j * 1024 < offset + n = ground arith in
          rw place at (w.set (j * 1024) (omega arith) (ground arith) beyond)
    ]

-- `fs_write` and then `fs_read`, and any path: in a mounted file system, for a regular file whose
-- direct blocks are marked as used, differ from one another and are no directory's, with less than
-- 6144 bytes and without holes, and for a request that ends before byte 6144 (offset plus length is
-- less than 6144), from an offset on that is at most the file's size. Then `fs_write` returns the
-- number `n` of bytes that it has written, which are all of them, or all blocks are in use. Behind
-- it `fs_read` of the path, at any offset that fits an `int`, returns the bytes of the buffer where
-- they were written, the old bytes elsewhere, and the number up to the new end of the file, at most
-- as many as asked for. Each path translates to the same inode or error as before.
pub fs_write-fs_read :
    {g s : Fs} (path : Bytes) (len offset : ℕ) (buf : Buffer) (inum size : ℕ)
    → IsStore g s inum
    → IsApart g s inum
    → IsWhole s inum size
    → translate path s ≡ ok (pos inum) s
    → inum ≢ 0
    → is_reg (field s inum w_mode) ≡ true
    → field s inum w_size ≡ size
    → size < 6144
    → offset ≤ size
    → offset + len < 6144
    → (n : ℕ) × (t : Fs) × (fs_write path len offset buf s ≡ ok (pos n) t)
      × ((n ≡ len) ⊎ AreUsed t.block_map 0 (block_bits g))
      × ((p : Bytes) (r : ℤ) → translate p s ≡ ok r s → translate p t ≡ ok r t)
      × ((len' offset' : ℕ) (buf' : Buffer)
          → offset' < 2 ^ 31
          → fs_read path len' offset' buf' t
            ≡ ok
                (
                  pos (read_count (grown_size size (offset + n)) offset' len'),
                  copy_bytes buf' 0
                      (read_count (grown_size size (offset + n)) offset' len')
                      (λ o. patched offset n 0 buf (offset' + o) (content s inum (offset' + o))),
                )
                t)
fs_write-fs_read {g} {s} path len offset buf inum size store apart whole found ne regular is_size
      small start before =
    let (n, t, run, le, ends, w) =
      fs_write-Written path len offset buf inum size store found ne is_size (omega arith) start
        before in
    let paths = translate-same_dirs (AreSameDirs-Written store w apart) in
    (
      n,
      t,
      run,
      ends,
      paths,
      λ len' offset' buf' fits.
          let end : ℕ = grown_size size (offset + n) in
          let count : ℕ = read_count end offset' len' in
          let lt = below_end store w size is_size start small (omega arith) whole in
          let all = IsWhole-Written store w size is_size start small (omega arith) whole in
          fs_read_lem t path len' offset' buf' inum end (paths path (pos inum) found)
            (omega (arith, w.store.inside, w.store.mounted.sound.sized))
            (rw (w.fields inum w_mode (omega arith) (inr (inl (omega arith)))) regular)
            (w.size ∙ rw is_size refl) (omega arith) (IsWhole-HasBlocks w.store end lt all) fits
          ∙ ap (λ b. ok (pos count, b) t)
              (copy_bytes-same buf' 0 count _ _ λ o inside.
                let in_file : offset' + o < end = ground arith in
                file_byte-content w.store end lt all (offset' + o) in_file
                ∙ w.bytes (offset' + o) (omega arith)),
    )
