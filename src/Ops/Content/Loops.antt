-- ===== src/Ops/Content/Loops.antt =====
-- The loops of the three levels of `fs_read`.
use cs5600_filesystem.Base.{
  ℕ, zero, suc, ◌+◌, ◌-◌, ◌*◌, ◌/◌, ◌%◌, ◌≤◌, ◌<◌, ◌≡◌, ◌≢◌, refl, ap, ◌∙◌, true, false, ◌⊎◌, inl,
  inr, arith, leb, ◌==◌, Bool-cases,
}
use cs5600_filesystem.Memory.{Block, word, copy_bytes}
use cs5600_filesystem.State.{Fs, Run, ok}
use cs5600_filesystem.State.Device.{read_block, image_read}
use cs5600_filesystem.State.Inode.{field, w_direct}
use cs5600_filesystem.State.Post.{after}
use cs5600_filesystem.Ops.Read.{
  Buffer, chunk, read_direct, fs_read_1st_level, read_indirect, fs_read_2nd_level, read_trees,
  fs_read_3rd_level,
}
use cs5600_filesystem.Ops.Content.Copy.{
  copy_bytes-zero, fs_read_block-ok, chunk-bounds, bytes_at, round, round_tree,
}

-- The pointers for the bytes from `lo` up to `hi` are set, and on the image.
abbrev pub AreSet : Fs → (ℕ → ℕ) → (lo hi : ℕ) → Type 0
AreSet s ptr lo hi = (j : ℕ) → lo ≤ j → j * 1024 < hi → (ptr j ≢ 0) × (ptr j + 1 ≤ s.nblks)

-- What is read of `len` bytes from `start` on, in a row that ends at `limit`.
pub record IsCut (limit start len c : ℕ) : Type 0 where
  pub le : c ≤ len
  pub inside : start + c ≤ limit
  pub ends : (c ≡ len) ⊎ (start + c ≡ limit)

-- After a chunk of `m` bytes, which ends the request or goes up to `next`.
step :
    (limit start next len c m : ℕ)
    → IsCut limit start len c
    → m ≤ len
    → start + m ≤ next
    → (m ≡ len) ⊎ (start + m ≡ next)
    → next ≤ limit
    → (m ≤ c) × ((m ≡ c) ⊎ (start + m ≡ next)) × IsCut limit next (len - m) (c - m)
step limit start next len c m cut le inside (inl whole) below =
    let same : m ≡ c = omega (arith, cut.le, cut.ends, cut.inside) in
    (
      omega arith,
      inl same,
      record { le = omega arith; inside = omega arith; ends = inl (omega arith) },
    )
step limit start next len c m cut le inside (inr full) below =
    let smaller : m ≤ c = omega (arith, cut.ends) in
    (
      smaller,
      inr full,
      record {
        le = omega (arith, cut.le);
        inside = omega (arith, cut.inside);
        ends = elim cut.ends [ inl e ↦ inl (omega arith) | inr e ↦ inr (omega arith) ];
      },
    )

nothing :
    (s : Fs) (buf : Buffer) (at done c : ℕ) (bytes : ℕ → ℕ)
    → c ≡ 0
    → ◌≡◌ {A = Run (Buffer × ℕ)} (ok (buf, done) s) (ok (copy_bytes buf at c bytes, done + c) s)
nothing s buf at done c bytes e =
    rw (e, copy_bytes-zero buf at bytes) (ap (λ n. ok (buf, n) s) (omega arith))

read_block-ok : (s : Fs) (b : ℕ) → b + 1 ≤ s.nblks → read_block b s ≡ ok (s.disk b) s
unfolding read_block image_read
read_block-ok s b h =
    let e : leb (b + 1) s.nblks ≡ true = ground arith in
    rw e (ap (λ n. ok (s.disk n) s) (omega arith))

module _ (s : Fs) (inum : ℕ) where
  abbrev direct : ℕ → ℕ
  direct j = field s inum (w_direct + j)

  read_direct-ok :
      (rounds i off len c at done : ℕ) (buf : Buffer)
      → i + rounds ≡ 6
      → off < 1024
      → IsCut 6144 (i * 1024 + off) len c
      → AreSet s direct i (i * 1024 + off + c)
      → read_direct rounds i inum off len at done buf s
        ≡ ok (copy_bytes buf at c (λ o. bytes_at s direct (i * 1024 + off + o)), done + c) s
  unfolding read_direct
  read_direct-ok zero i off len c at done buf count lt cut held =
      nothing s buf at done c _ (omega (arith, cut.inside))
  read_direct-ok (suc n) i off len c at done buf count lt cut held = elim (Bool-cases (len == 0)) [
    | inl e ↦ rw e (nothing s buf at done c _ (ground (arith, cut.le)))
    | inr e ↦
        let some_left : 0 < len = ground arith in
        let m : ℕ = chunk 1024 off len in
        let (le, inside, ends) = chunk-bounds 1024 off len lt in
        let (in_cut, end_cut, cut') =
          step 6144 (i * 1024 + off) ((i + 1) * 1024 + 0) len c m cut le (omega arith)
            (elim ends [ inl f ↦ inl f | inr f ↦ inr (omega arith) ]) (omega arith) in
        let end_chunk : (m ≡ c) ⊎ (off + m ≡ 1024) = elim end_cut [
          | inl f ↦ inl f
          | inr f ↦ inr (omega arith)
        ] in
        let some_byte : 0 < c = omega (arith, cut.ends, some_left) in
        let (ne, there) = held i (omega arith) (omega (arith, some_byte)) in
        let set : (field s inum (w_direct + i) == 0) ≡ false = ground arith in
        let rest =
          read_direct-ok n (i + 1) 0 (len - m) (c - m) (at + m) (done + m)
            (copy_bytes buf at m (λ o. s.disk (direct i) (off + o))) (omega arith) (omega arith)
            cut' (λ j above small. held j (omega arith) (omega (arith, end_chunk, some_byte))) in
        rw e (
          rw set (
            after _ (fs_read_block-ok s (direct i) off m at buf ne there) (
              rest
              ∙ ap (λ b. ok (b, done + m + (c - m)) s)
                  (round s direct i off c at m buf in_cut inside end_chunk)
              ∙ ap
                  (λ n. ok (copy_bytes buf at c (λ o. bytes_at s direct (i * 1024 + off + o)), n) s)
                  (omega arith))))
  ]

  pub fs_read_1st_level-ok :
      (offset len c at : ℕ) (buf : Buffer)
      → IsCut 6144 offset len c
      → AreSet s direct 0 (offset + c)
      → fs_read_1st_level inum offset len at buf s
        ≡ ok (copy_bytes buf at c (λ o. bytes_at s direct (offset + o)), c) s
  unfolding fs_read_1st_level
  fs_read_1st_level-ok offset len c at buf cut held =
      let start : offset / 1024 * 1024 + offset % 1024 ≡ offset = omega arith in
      rw start at (
        read_direct-ok (6 - offset / 1024) (offset / 1024) (offset % 1024) len c at 0 buf
          (omega (arith, cut.inside)) (omega arith) (rw start cut)
          (λ j above small. held j (omega arith) (omega arith)))
      ∙ ap (λ n. ok (copy_bytes buf at c (λ o. bytes_at s direct (offset + o)), n) s) (omega arith)

module _ (s : Fs) where
  read_indirect-ok :
      (rounds i : ℕ) (tree : Block) (off len c at done : ℕ) (buf : Buffer)
      → i + rounds ≡ 256
      → off < 1024
      → IsCut 262144 (i * 1024 + off) len c
      → AreSet s (word tree) i (i * 1024 + off + c)
      → read_indirect rounds i tree off len at done buf s
        ≡ ok (copy_bytes buf at c (λ o. bytes_at s (word tree) (i * 1024 + off + o)), done + c) s
  unfolding read_indirect
  read_indirect-ok zero i tree off len c at done buf count lt cut held =
      nothing s buf at done c _ (omega (arith, cut.inside))
  read_indirect-ok (suc n) i tree off len c at done buf count lt cut held =
      elim (Bool-cases (len == 0)) [
        | inl e ↦ rw e (nothing s buf at done c _ (ground (arith, cut.le)))
        | inr e ↦
            let some_left : 0 < len = ground arith in
            let m : ℕ = chunk 1024 off len in
            let (le, inside, ends) = chunk-bounds 1024 off len lt in
            let (in_cut, end_cut, cut') =
              step 262144 (i * 1024 + off) ((i + 1) * 1024 + 0) len c m cut le (omega arith)
                (elim ends [ inl f ↦ inl f | inr f ↦ inr (omega arith) ]) (omega arith) in
            let end_chunk : (m ≡ c) ⊎ (off + m ≡ 1024) = elim end_cut [
              | inl f ↦ inl f
              | inr f ↦ inr (omega arith)
            ] in
            let some_byte : 0 < c = omega (arith, cut.ends, some_left) in
            let (ne, there) = held i (omega arith) (omega (arith, some_byte)) in
            let set : (word tree i == 0) ≡ false = ground arith in
            let rest =
              read_indirect-ok n (i + 1) tree 0 (len - m) (c - m) (at + m) (done + m)
                (copy_bytes buf at m (λ o. s.disk (word tree i) (off + o))) (omega arith)
                (omega arith) cut'
                (λ j above small. held j (omega arith) (omega (arith, end_chunk, some_byte))) in
            rw e (
              rw set (
                after _ (fs_read_block-ok s (word tree i) off m at buf ne there) (
                  rest
                  ∙ ap (λ b. ok (b, done + m + (c - m)) s)
                      (round s (word tree) i off c at m buf in_cut inside end_chunk)
                  ∙ ap
                      (λ n.
                        ok
                          (
                            copy_bytes buf at c (λ o. bytes_at s (word tree) (i * 1024 + off + o)),
                            n,
                          )
                          s)
                      (omega arith))))
      ]

  pub fs_read_2nd_level-ok :
      (root offset len c at : ℕ) (buf : Buffer)
      → root + 1 ≤ s.nblks
      → IsCut 262144 offset len c
      → AreSet s (word (s.disk root)) (offset / 1024) (offset + c)
      → fs_read_2nd_level root (offset + 6144) len at buf s
        ≡ ok (copy_bytes buf at c (λ o. bytes_at s (word (s.disk root)) (offset + o)), c) s
  unfolding fs_read_2nd_level
  fs_read_2nd_level-ok root offset len c at buf there cut held =
      let start : offset / 1024 * 1024 + offset % 1024 ≡ offset = omega arith in
      let back : offset + 6144 - 6144 ≡ offset = omega arith in
      after _ (read_block-ok s root there) (
        rw back (
          rw start at (
            read_indirect-ok (256 - offset / 1024) (offset / 1024) (s.disk root) (offset % 1024) len
              c at 0 buf (omega (arith, cut.inside)) (omega arith) (rw start cut)
              (λ j above small. held j above (omega arith)))
          ∙ ap
              (λ n.
                ok (copy_bytes buf at c (λ o. bytes_at s (word (s.disk root)) (offset + o)), n) s)
              (omega arith)))

  -- The bytes behind a block of pointers to trees.
  abbrev pub tree_bytes : Block → ℕ → ℕ
  tree_bytes tree o = bytes_at s (word (s.disk (word tree (o / 262144)))) (o % 262144)

  -- The trees for the bytes from tree `lo` on up to `hi` are on the image, and their pointers are set.
  abbrev pub AreTrees : Block → (lo hi : ℕ) → Type 0
  AreTrees tree lo hi =
      (i : ℕ)
      → lo ≤ i
      → i * 262144 < hi
      → (word tree i + 1 ≤ s.nblks)
        × ((j : ℕ)
            → j < 256
            → i * 262144 + j * 1024 < hi
            → (word (s.disk (word tree i)) j ≢ 0) × (word (s.disk (word tree i)) j + 1 ≤ s.nblks))

  read_trees-ok :
      (rounds i : ℕ) (tree : Block) (off len c at done : ℕ) (buf : Buffer)
      → i + rounds ≡ 256
      → off < 262144
      → IsCut 67108864 (i * 262144 + off) len c
      → AreTrees tree i (i * 262144 + off + c)
      → read_trees rounds i tree off len at done buf s
        ≡ ok (copy_bytes buf at c (λ o. tree_bytes tree (i * 262144 + off + o)), done + c) s
  unfolding read_trees
  read_trees-ok zero i tree off len c at done buf count lt cut held =
      nothing s buf at done c _ (omega (arith, cut.inside))
  read_trees-ok (suc n) i tree off len c at done buf count lt cut held =
      elim (Bool-cases (len == 0)) [
        | inl e ↦ rw e (nothing s buf at done c _ (ground (arith, cut.le)))
        | inr e ↦
            let some_left : 0 < len = ground arith in
            let m : ℕ = chunk 262144 off len in
            let (le, inside, ends) = chunk-bounds 262144 off len lt in
            let (in_cut, end_cut, cut') =
              step 67108864 (i * 262144 + off) ((i + 1) * 262144 + 0) len c m cut le (omega arith)
                (elim ends [ inl f ↦ inl f | inr f ↦ inr (omega arith) ]) (omega arith) in
            let end_chunk : (m ≡ c) ⊎ (off + m ≡ 262144) = elim end_cut [
              | inl f ↦ inl f
              | inr f ↦ inr (omega arith)
            ] in
            let some_byte : 0 < c = omega (arith, cut.ends, some_left) in
            let (there, pointers) = held i (omega arith) (omega (arith, some_byte)) in
            let one =
              fs_read_2nd_level-ok (word tree i) off m m at buf there
                (record { le = omega arith; inside = inside; ends = inl refl })
                (λ j above small. pointers j (omega arith) (omega (arith, in_cut))) in
            let rest =
              read_trees-ok n (i + 1) tree 0 (len - m) (c - m) (at + m) (done + m)
                (copy_bytes buf at m (λ o. bytes_at s (word (s.disk (word tree i))) (off + o)))
                (omega arith) (omega arith) cut'
                (λ j above small.
                  let (on, inner) = held j (omega arith) (omega (arith, end_chunk, some_byte)) in
                  (on, λ k lt' small'. inner k lt' (omega (arith, end_chunk, some_byte)))) in
            rw e (
              after _ one (
                rest
                ∙ ap (λ b. ok (b, done + m + (c - m)) s)
                    (round_tree (λ a. bytes_at s (word (s.disk (word tree a)))) i off c at m buf
                      in_cut inside end_chunk)
                ∙ ap
                    (λ n.
                      ok (copy_bytes buf at c (λ o. tree_bytes tree (i * 262144 + off + o)), n) s)
                    (omega arith)))
      ]

  pub fs_read_3rd_level-ok :
      (root offset len c at : ℕ) (buf : Buffer)
      → root + 1 ≤ s.nblks
      → IsCut 67108864 offset len c
      → AreTrees (s.disk root) (offset / 262144) (offset + c)
      → fs_read_3rd_level root (offset + 268288) len at buf s
        ≡ ok (copy_bytes buf at c (λ o. tree_bytes (s.disk root) (offset + o)), c) s
  unfolding fs_read_3rd_level
  fs_read_3rd_level-ok root offset len c at buf there cut held =
      let start : offset / 262144 * 262144 + offset % 262144 ≡ offset = omega arith in
      let back : offset + 268288 - 262144 - 6144 ≡ offset = omega arith in
      after _ (read_block-ok s root there) (
        rw back (
          rw start at (
            read_trees-ok (256 - offset / 262144) (offset / 262144) (s.disk root) (offset % 262144)
              len c at 0 buf (omega (arith, cut.inside)) (omega arith) (rw start cut)
              (λ i above small.
                let (on, inner) = held i above (omega arith) in
                (on, λ k lt' small'. inner k lt' (omega arith))))
          ∙ ap (λ n. ok (copy_bytes buf at c (λ o. tree_bytes (s.disk root) (offset + o)), n) s)
              (omega arith)))
