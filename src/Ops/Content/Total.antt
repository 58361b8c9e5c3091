-- ===== src/Ops/Content/Total.antt =====
-- `fs_read`, all levels, and the content of a file.
use cs5600_filesystem.Base.{
  ℕ, ◌+◌, ◌-◌, ◌*◌, ◌%◌, ◌^◌, ◌≤◌, ◌<◌, ◌≡◌, refl, ap, ◌∙◌, true, inl, inr, Bytes, arith, ltb,
  if◌then◌else◌, Bool-cases,
}
use cs5600_filesystem.Base.Int.{pos}
use cs5600_filesystem.Memory.{copy_bytes}
use cs5600_filesystem.State.{Fs, ok}
use cs5600_filesystem.State.Inode.{field, w_mode, w_size, is_reg}
use cs5600_filesystem.State.Post.{after}
use cs5600_filesystem.Tree.{translate}
use cs5600_filesystem.Tree.Lookup.{inode_at-ok}
use cs5600_filesystem.Ops.Read.{Buffer, read_levels, fs_read}
use cs5600_filesystem.Ops.Content.{file_byte, HasBlocks}
use cs5600_filesystem.Ops.Content.Copy.{copy_bytes-zero, copy_bytes-copy_bytes, copy_bytes-same}
use cs5600_filesystem.Ops.Content.Whole.{copied, first_level, second_level, third_level}

module _ (s : Fs) (inum : ℕ) where
  -- The bytes of two levels, one behind the other.
  joined :
      (o p m n k : ℕ) (buf : Buffer)
      → p ≡ m
      → m + n ≡ k
      → copy_bytes
          (copy_bytes buf 0 m (λ a. file_byte s inum (o + a)))
          p
          n
          (λ a. file_byte s inum (o + m + a))
        ≡ copy_bytes buf 0 k (λ a. file_byte s inum (o + a))
  joined o p m n k buf start whole =
      ap
        (λ q.
          copy_bytes (copy_bytes buf 0 m (λ a. file_byte s inum (o + a))) q n
            (λ a. file_byte s inum (o + m + a)))
        (omega arith)
      ∙ copy_bytes-copy_bytes buf 0 m n k _ _ (λ a. file_byte s inum (o + a)) whole (λ a lt. refl)
          (λ a lt. ap (file_byte s inum) (omega arith))

  abbrev from : ℕ → ℕ → ℕ
  from o a = file_byte s inum (o + a)

  combine :
      (o c d e len : ℕ) (buf : Buffer)
      → c + d + e ≡ len
      → copy_bytes
          (copy_bytes (copy_bytes buf 0 c (from o)) c d (from (o + c)))
          (c + d)
          e
          (from (o + c + d))
        ≡ copy_bytes buf 0 len (from o)
  combine o c d e len buf whole =
      ap (λ b. copy_bytes b (c + d) e (from (o + c + d))) (joined o c c d (c + d) buf refl refl)
      ∙ copy_bytes-same (copy_bytes buf 0 (c + d) (from o)) (c + d) e (from (o + c + d))
          (from (o + (c + d))) (λ a lt. ap (file_byte s inum) (omega arith))
      ∙ joined o (c + d) (c + d) e len buf refl whole

  read_levels-ok :
      (size : ℕ)
      → HasBlocks s inum size
      → size ≤ 67377152
      → (offset len : ℕ) (buf : Buffer) → offset + len ≤ size
      → read_levels inum offset len buf s
        ≡ ok (copy_bytes buf 0 len (λ o. file_byte s inum (offset + o)), len) s
  unfolding read_levels
  read_levels-ok size held top offset len buf fits =
      let (c, run, part) = first_level s inum size held offset len 0 buf fits in
      let buf₁ = copied s inum size held offset len 0 buf fits c in
      let (d, run', part') =
        second_level s inum size held (offset + c) (len - c) c buf₁ (omega (arith, part.le))
          (elim part.ends [ inl z ↦ inl (omega arith) | inr z ↦ inr z ]) in
      let buf₂ = copied s inum size held (offset + c) (len - c) c buf₁ (omega (arith, part.le)) d in
      let run'' =
        third_level s inum size held (offset + c + d) (len - c - d) (c + d) buf₂
          (omega (arith, part.le, part'.le))
          (elim part'.ends [ inl z ↦ inl (omega arith) | inr z ↦ inr z ]) top in
      after _ run (
        after _ run' (
          after _ run'' (
            ap (λ b. ok (b, c + d + (len - c - d)) s)
              (combine offset c d (len - c - d) len buf (omega (arith, part.le, part'.le)))
            ∙ ap (λ n. ok (copy_bytes buf 0 len (from offset), n) s)
                (omega (arith, part.le, part'.le)))))

-- The number of bytes that a read of `len` bytes at `offset` returns.
abbrev pub read_count : (size offset len : ℕ) → ℕ
read_count size offset len = if ltb size (offset + len) then size - offset else len

-- `fs_read` of a regular file of at most 67377152 bytes (6, 256 and 256 * 256 blocks), whose blocks
-- are set and on the image, at an offset that fits an `int`, returns the number of bytes up to the
-- end of the file, at most as many as asked for, and none from the end on. It puts exactly the
-- file's bytes from the offset on, across all three levels of blocks, into the buffer, leaves the
-- rest of the buffer, and changes nothing else.
pub fs_read_lem :
    (s : Fs) (path : Bytes) (len offset : ℕ) (buf : Buffer) (inum size : ℕ)
    → translate path s ≡ ok (pos inum) s
    → inum < s.inode_region_sz * 16
    → is_reg (field s inum w_mode) ≡ true
    → field s inum w_size ≡ size
    → size ≤ 67377152
    → HasBlocks s inum size
    → offset < 2 ^ 31
    → fs_read path len offset buf s
      ≡ ok
          (
            pos (read_count size offset len),
            copy_bytes buf 0 (read_count size offset len) (λ o. file_byte s inum (offset + o)),
          )
          s
unfolding fs_read
fs_read_lem s path len offset buf inum size found inside regular is_size small held int_offset =
    let wrap : offset % 2 ^ 32 ≡ offset = omega arith in
    let fits : ltb size (2 ^ 31) ≡ true = ground arith in
    let fits' : ltb offset (2 ^ 31) ≡ true = ground arith in
    after _ found (
      after _ (inode_at-ok s inum inside) (
        rw (regular, is_size)
          (rw (fits, wrap)
            (rw fits' (elim (Bool-cases (ltb offset size)) [
              | inl e ↦
                  let count : offset + read_count size offset len ≤ size = ground arith in
                  rw e (
                    after _
                      (read_levels-ok s inum size held small offset (read_count size offset len) buf
                        count)
                      refl)
              | inr e ↦
                  let count : read_count size offset len ≡ 0 = ground arith in
                  rw (e, count, copy_bytes-zero buf 0 (λ o. file_byte s inum (offset + o)))
            ])))))
