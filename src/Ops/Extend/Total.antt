-- ===== src/Ops/Extend/Total.antt =====
-- The whole of an `fs_write` before byte 6144 of a file.
use cs5600_filesystem.Base.{
  ℕ, ◌+◌, ◌/◌, ◌^◌, ◌≤◌, ◌<◌, ◌≡◌, ◌≢◌, refl, ap, ◌∙◌, true, false, ◌&&◌, ◌||◌, ◌⊎◌, inl, inr,
  Bytes, arith, ltb, leb, ◌==◌,
}
use cs5600_filesystem.Base.Int.{pos}
use cs5600_filesystem.Memory.{fd_isset}
use cs5600_filesystem.State.{Fs, ok}
use cs5600_filesystem.State.Inode.{field, w_direct, w_size}
use cs5600_filesystem.State.Post.{after}
use cs5600_filesystem.State.Alloc.{AreUsed, block_bits}
use cs5600_filesystem.Mount.{data_start}
use cs5600_filesystem.Tree.{translate}
use cs5600_filesystem.Tree.Lookup.{inode_at-ok}
use cs5600_filesystem.Ops.Read.{Buffer}
use cs5600_filesystem.Ops.Write.{write_levels, int_length, fs_write_1st_level, fs_write}
use cs5600_filesystem.Ops.Overwrite.{direct}
use cs5600_filesystem.Ops.Overwrite.Total.{int_length-small}
use cs5600_filesystem.Ops.Extend.{content, patched, IsStore, Filled}
use cs5600_filesystem.Ops.Extend.Loop.{fs_write_1st_level-Writes}
use cs5600_filesystem.Ops.Extend.Grow.{Grown, grown_size, grow-Grown}

-- The state `t` is `s` with `n` bytes of `buf` in a file from its byte `offset` on.
pub record Written (g s t : Fs) (inum offset n : ℕ) (buf : Buffer) : Type 0 where
  pub store : IsStore g t inum
  pub size : field t inum w_size ≡ grown_size (field s inum w_size) (offset + n)
  pub bytes : (o : ℕ) → o < 6144 → content t inum o ≡ patched offset n 0 buf o (content s inum o)
  pub set : (o : ℕ) → o < 6144 → offset ≤ o → o < offset + n → direct t inum (o / 1024) ≢ 0
  pub kept : (j : ℕ) → j < 6 → direct s inum j ≢ 0 → direct t inum j ≡ direct s inum j
  pub new :
      (j : ℕ)
      → j < 6
      → direct t inum j ≢ direct s inum j
      → fd_isset (direct t inum j) s.block_map ≡ false
  pub fields :
      (m f : ℕ)
      → f < 16
      → (m ≢ inum) ⊎ ((f < w_size) ⊎ (w_direct + 6 ≤ f))
      → field t m f ≡ field s m f
  pub blocks :
      (b : ℕ)
      → data_start g ≤ b
      → fd_isset b s.block_map ≡ true
      → ((j : ℕ) → j < 6 → b ≢ direct s inum j)
      → t.disk b ≡ s.disk b
  pub used : (b : ℕ) → fd_isset b s.block_map ≡ true → fd_isset b t.block_map ≡ true
  pub inode_map : t.inode_map ≡ s.inode_map

module _ {g s t u : Fs} {inum offset n : ℕ} {buf : Buffer}
    (filled : Filled g s t inum offset n 0 buf) (size : ℕ) (is_size : field s inum w_size ≡ size)
    (grown : Grown g t inum (grown_size size (offset + n)) u) (store : IsStore g t inum) where
  direct-u : (j : ℕ) → j < 6 → direct u inum j ≡ direct t inum j
  direct-u j six = grown.fields inum (w_direct + j) (omega arith) ∙ ground arith

  content-u : (o : ℕ) → o < 6144 → content u inum o ≡ content t inum o
  unfolding content
  content-u o in_file =
      let six : o / 1024 < 6 = omega arith in
      let far = store.mounted.sound.pointed inum (o / 1024) store.inside six in
      rw (direct-u (o / 1024) six) (ground (arith, far, grown.disk (direct t inum (o / 1024))))

  Filled-Written : Written g s u inum offset n buf
  Filled-Written = record {
    store = grown.store;
    size = grown.fields inum w_size (omega arith) ∙ ground (arith, is_size);
    bytes = λ o in_file. content-u o in_file ∙ filled.bytes o in_file;
    set = λ o in_file lo hi. rw (direct-u (o / 1024) (omega arith)) (filled.set o in_file lo hi);
    kept = λ j six ne. direct-u j six ∙ filled.kept j six ne;
    new = λ j six. rw (direct-u j six) (filled.new j six);
    fields =
        λ m f small other. grown.fields m f small ∙ ground (arith, filled.fields m f small, other);
    blocks = λ b far is_used other. grown.disk b far ∙ filled.blocks b far is_used other;
    used = λ b is_used. rw grown.block_map (filled.used b is_used);
    inode_map = grown.inode_map ∙ filled.inode_map;
  }

module _ {g s : Fs} {inum : ℕ} (store : IsStore g s inum) (offset len size : ℕ) (buf : Buffer)
    (is_size : field s inum w_size ≡ size) (small : size < 2 ^ 31)
    (before : offset + len < 6144) where
  write_levels-Written :
      (n : ℕ) × (t : Fs) × (write_levels inum offset len buf s ≡ ok n t)
      × (n ≤ len)
      × ((n ≡ len) ⊎ AreUsed t.block_map 0 (block_bits g))
      × Written g s t inum offset n buf
  unfolding write_levels
  write_levels-Written =
      let w = fs_write_1st_level-Writes buf s offset len 0 (omega arith) (omega arith) store in
      let le = w.le in
      let same_size : field w.state inum w_size ≡ size =
        w.filled.fields inum w_size (omega arith) (inr (inl (omega arith))) ∙ is_size in
      let (t, run, grown) =
        grow-Grown w.store size (offset + w.count) same_size small (omega arith) in
      let sized = w.store.mounted.sound.sized in
      let first : ltb offset 6144 ≡ true = ground arith in
      let no_second : (leb 6144 (offset + w.count) && ltb (offset + w.count) 268288) ≡ false =
        ground arith in
      let no_third : (leb 268288 (offset + w.count + 0) && leb (offset + w.count + 0) 67377152)
          ≡ false =
        ground arith in
      let whole : offset + w.count + 0 + 0 ≡ offset + w.count = omega arith in
      let wrote : fs_write_1st_level inum offset len 0 buf s ≡ ok w.count w.state =
        w.returns ∙ ap (λ n. ok n w.state) (omega arith) in
      (
        w.count,
        t,
        rw first (
            after _ wrote (
              rw no_second
                (rw no_third (rw whole (after _ run (ap (λ n. ok n t) (omega arith))))))),
        w.le,
        elim w.ends [
          | inl e ↦ inl e
          | inr full ↦ inr (λ k lo hi. rw grown.block_map (full k lo (omega (arith, sized))))
        ],
        Filled-Written w.filled size is_size grown w.store,
      )

-- `fs_write` to a file of a mounted file system, where the request ends before byte 6144 (offset
-- plus length is less than 6144), from an offset that is at most its size on, always returns: where
-- the file's direct blocks are marked as used and differ from one another, it writes the whole
-- request, or as many bytes as blocks were free for, and then all of them are in use. It returns
-- the number of these bytes, and then the file has them from the offset on, and its other bytes,
-- with a missing block as zeros, stay; its size is the end of the request if that is larger, its
-- blocks stay, and the new ones were free; and all other fields of inodes and all other blocks in
-- use stay. The file system stays mounted.
pub fs_write-Written :
    {g s : Fs} (path : Bytes) (len offset : ℕ) (buf : Buffer) (inum size : ℕ)
    → IsStore g s inum
    → translate path s ≡ ok (pos inum) s
    → inum ≢ 0
    → field s inum w_size ≡ size
    → size < 2 ^ 31
    → offset ≤ size
    → offset + len < 6144
    → (n : ℕ) × (t : Fs) × (fs_write path len offset buf s ≡ ok (pos n) t)
      × (n ≤ len)
      × ((n ≡ len) ⊎ AreUsed t.block_map 0 (block_bits g))
      × Written g s t inum offset n buf
unfolding fs_write
fs_write-Written {g} {s} path len offset buf inum size store found ne is_size small start before =
    let (n, t, run, le, ends, written) =
      write_levels-Written store offset len size buf is_size small before in
    let not_null : (inum == 0) ≡ false = ground arith in
    let fits : ltb size (2 ^ 31) ≡ true = ground arith in
    let in_range : (ltb offset size || size == offset) ≡ true = ground arith in
    let length : int_length len ≡ len = int_length-small len (omega arith) in
    let sized = store.mounted.sound.sized in
    (
      n,
      t,
      after _ found (
          rw not_null (
            after _ (inode_at-ok s inum (omega (arith, store.inside)))
              (rw is_size (rw fits (rw (in_range, length) (after _ run refl)))))),
      le,
      ends,
      written,
    )
