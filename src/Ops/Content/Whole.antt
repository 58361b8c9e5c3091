-- ===== src/Ops/Content/Whole.antt =====
-- What each level of `fs_read` copies of the content of a file.
use cs5600_filesystem.Base.{
  ℕ, ◌+◌, ◌-◌, ◌*◌, ◌/◌, ◌%◌, ◌≤◌, ◌<◌, ◌≡◌, refl, sym, ap, ◌∙◌, Bool, true, false, ◌&&◌, ◌⊎◌, inl,
  inr, arith, ltb, leb, Bool-cases,
}
use cs5600_filesystem.Memory.{word, copy_bytes}
use cs5600_filesystem.State.{Fs, Cmd, ok}
use cs5600_filesystem.State.Inode.{field, w_direct, w_indir_1, w_indir_2}
use cs5600_filesystem.Ops.Read.{
  Buffer, level, fs_read_1st_level, fs_read_2nd_level, fs_read_3rd_level,
}
use cs5600_filesystem.Ops.Content.{block_of, file_byte, HasBlocks}
use cs5600_filesystem.Ops.Content.Copy.{bytes_at, copy_bytes-zero, copy_bytes-same}
use cs5600_filesystem.Ops.Content.Loops.{
  IsCut, AreSet, tree_bytes, AreTrees, fs_read_1st_level-ok, fs_read_2nd_level-ok,
  fs_read_3rd_level-ok,
}

module _ (s : Fs) (inum : ℕ) where
  block_of-direct : (j : ℕ) → j < 6 → block_of s inum j ≡ field s inum (w_direct + j)
  unfolding block_of
  block_of-direct j lt = let e : ltb j 6 ≡ true = ground arith in rw e refl

  block_of-second :
      (j : ℕ) → j < 256 → block_of s inum (j + 6) ≡ word (s.disk (field s inum w_indir_1)) j
  unfolding block_of
  block_of-second j lt =
      let e : ltb (j + 6) 6 ≡ false = ground arith in
      let f : ltb (j + 6) 262 ≡ true = ground arith in
      rw e (rw f (ap (word (s.disk (field s inum w_indir_1))) (omega arith)))

  block_of-third :
      (i j : ℕ)
      → j < 256
      → block_of s inum (262 + i * 256 + j)
        ≡ word (s.disk (word (s.disk (field s inum w_indir_2)) i)) j
  unfolding block_of
  block_of-third i j lt =
      let e : ltb (262 + i * 256 + j) 6 ≡ false = ground arith in
      let f : ltb (262 + i * 256 + j) 262 ≡ false = ground arith in
      let g : (262 + i * 256 + j - 262) / 256 ≡ i = omega arith in
      let h : (262 + i * 256 + j - 262) % 256 ≡ j = omega arith in rw e (rw f (rw (g, h) refl))

  byte-direct :
      (o : ℕ) → o < 6144 → bytes_at s (λ j. field s inum (w_direct + j)) o ≡ file_byte s inum o
  unfolding file_byte
  byte-direct o lt = ap (λ b. s.disk b (o % 1024)) (sym (block_of-direct (o / 1024) (omega arith)))

  byte-second :
      (q : ℕ)
      → q < 262144
      → bytes_at s (word (s.disk (field s inum w_indir_1))) q ≡ file_byte s inum (q + 6144)
  unfolding file_byte
  byte-second q lt =
      let e : (q + 6144) / 1024 ≡ q / 1024 + 6 = omega arith in
      let f : (q + 6144) % 1024 ≡ q % 1024 = omega arith in
      ap (λ b. s.disk b (q % 1024))
        (sym (block_of-second (q / 1024) (omega arith)) ∙ ap (block_of s inum) (sym e))
      ∙ ap (s.disk (block_of s inum ((q + 6144) / 1024))) (sym f)

  byte-third :
      (q : ℕ) → tree_bytes s (s.disk (field s inum w_indir_2)) q ≡ file_byte s inum (q + 268288)
  unfolding file_byte
  byte-third q =
      let e : (q + 268288) / 1024 ≡ 262 + q / 262144 * 256 + q % 262144 / 1024 = omega arith in
      let f : (q + 268288) % 1024 ≡ q % 262144 % 1024 = omega arith in
      ap (λ b. s.disk b (q % 262144 % 1024))
        (sym (block_of-third (q / 262144) (q % 262144 / 1024) (omega arith))
          ∙ ap (block_of s inum) (sym e))
      ∙ ap (s.disk (block_of s inum ((q + 268288) / 1024))) (sym f)

  module _ (size : ℕ) (held : HasBlocks s inum size) where
    set-direct : (hi : ℕ) → hi ≤ 6144 → hi ≤ size → AreSet s (λ j. field s inum (w_direct + j)) 0 hi
    set-direct hi top le j above small =
        rw (block_of-direct j (omega arith)) at (held.block j (omega arith))

    set-second :
        (lo hi : ℕ)
        → hi ≤ 262144
        → hi + 6144 ≤ size
        → AreSet s (word (s.disk (field s inum w_indir_1))) lo hi
    set-second lo hi top le j above small =
        rw (block_of-second j (omega arith)) at (held.block (j + 6) (omega arith))

    set-third :
        (lo hi : ℕ) → hi + 268288 ≤ size → AreTrees s (s.disk (field s inum w_indir_2)) lo hi
    set-third lo hi le i above small = (
      held.tree i (omega arith),
      λ j lt small'. rw (block_of-third i j lt) at (held.block (262 + i * 256 + j) (omega arith)),
    )

  -- The largest number of bytes up to a limit.
  IsCut-at : (limit start len : ℕ) → start ≤ limit → (c : ℕ) × IsCut limit start len c
  IsCut-at limit start len le = elim (Bool-cases (ltb (limit - start) len)) [
    | inl e ↦ (
      limit - start,
      record { le = ground arith; inside = omega arith; ends = inr (omega arith) },
    )
    | inr e ↦ (len, record { le = omega arith; inside = ground arith; ends = inl refl })
  ]

  -- What a level of `fs_read` does from the offset `o` on, of a request for `len` more bytes: it copies
  -- the `c` bytes that lie below `limit`.
  pub record Part (limit o len c : ℕ) : Type 0 where
    pub le : c ≤ len
    pub ends : (c ≡ len) ⊎ (limit ≤ o + c)

  module _ (size : ℕ) (held : HasBlocks s inum size) (o len at : ℕ) (buf : Buffer)
      (fits : o + len ≤ size) where
    abbrev pub copied : ℕ → Buffer
    copied c = copy_bytes buf at c (λ k. file_byte s inum (o + k))

    skip :
        (limit : ℕ) (b : Bool) (read : (offset len at : ℕ) → Buffer → Cmd (Buffer × ℕ))
        → b ≡ false
        → (len ≡ 0) ⊎ (limit ≤ o)
        → (c : ℕ) × (level b read o len at buf s ≡ ok (copied c, c) s) × Part limit o len c
    skip limit b read e over = (
      0,
      rw (e, copy_bytes-zero buf at (λ k. file_byte s inum (o + k))) refl,
      record {
        le = omega arith;
        ends = elim over [ inl z ↦ inl (omega arith) | inr z ↦ inr (omega arith) ];
      },
    )

    pub first_level :
        (c : ℕ) × (level (ltb o 6144) (fs_read_1st_level inum) o len at buf s ≡ ok (copied c, c) s)
        × Part 6144 o len c
    first_level = elim (Bool-cases (ltb o 6144)) [
      | inr e ↦ skip 6144 (ltb o 6144) (fs_read_1st_level inum) e (inr (ground arith))
      | inl e ↦
          let (c, cut) = IsCut-at 6144 o len (ground arith) in
          (
            c,
            rw e (
                  fs_read_1st_level-ok s inum o len c at buf cut
                    (set-direct size held (o + c) cut.inside (omega (arith, cut.le))))
                ∙ ap (λ b. ok (b, c) s)
                    (copy_bytes-same buf at c _ _
                      λ k lt. byte-direct (o + k) (omega (arith, cut.inside))),
            record {
              le = cut.le;
              ends = elim cut.ends [ inl z ↦ inl z | inr z ↦ inr (omega arith) ];
            },
          )
    ]

    pub second_level :
        (len ≡ 0) ⊎ (6144 ≤ o)
        → (c : ℕ) × (level
              (leb 6144 o && ltb o 268288)
              (fs_read_2nd_level (field s inum w_indir_1))
              o
              len
              at
              buf
              s
            ≡ ok (copied c, c) s)
          × Part 268288 o len c
    second_level here = elim (Bool-cases (leb 6144 o && ltb o 268288)) [
      | inr e ↦
          skip 268288 (leb 6144 o && ltb o 268288) (fs_read_2nd_level (field s inum w_indir_1)) e
            (ground (arith, here))
      | inl e ↦
          let (c, cut) = IsCut-at 262144 (o - 6144) len (ground arith) in
          let from : o - 6144 + 6144 ≡ o = ground arith in
          (
            c,
            rw e (
                  rw from at (
                    fs_read_2nd_level-ok s (field s inum w_indir_1) (o - 6144) len c at buf
                      (held.second (omega arith)) cut
                      (set-second size held ((o - 6144) / 1024) (o - 6144 + c) cut.inside
                        (omega (arith, cut.le)))))
                ∙ ap (λ b. ok (b, c) s)
                    (copy_bytes-same buf at c _ _ λ k lt.
                      byte-second (o - 6144 + k) (omega (arith, cut.inside))
                      ∙ ap (file_byte s inum) (omega arith)),
            record {
              le = cut.le;
              ends = elim cut.ends [ inl z ↦ inl z | inr z ↦ inr (omega arith) ];
            },
          )
    ]

    pub third_level :
        (len ≡ 0) ⊎ (268288 ≤ o)
        → size ≤ 67377152
        → (level
              (leb 268288 o && leb o 67377152)
              (fs_read_3rd_level (field s inum w_indir_2))
              o
              len
              at
              buf
              s
            ≡ ok (copied len, len) s)
    third_level here top = elim (Bool-cases (leb 268288 o && leb o 67377152)) [
      | inr e ↦
          let none_left : len ≡ 0 = ground (arith, here) in
          rw (e, none_left, copy_bytes-zero buf at (λ k. file_byte s inum (o + k))) refl
      | inl e ↦
          let from : o - 268288 + 268288 ≡ o = ground arith in
          rw e (
            rw from at (
              fs_read_3rd_level-ok s (field s inum w_indir_2) (o - 268288) len len at buf
                (held.third (omega arith))
                (record { le = omega arith; inside = omega arith; ends = inl refl })
                (set-third size held ((o - 268288) / 262144) (o - 268288 + len) (omega arith))))
          ∙ ap (λ b. ok (b, len) s)
              (copy_bytes-same buf at len _ _
                λ k lt. byte-third (o - 268288 + k) ∙ ap (file_byte s inum) (omega arith))
    ]
