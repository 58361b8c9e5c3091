-- ===== src/Ops/Read.antt =====
-- `fs_read` and its three levels. A buffer is the byte at each offset; a read returns the buffer
-- after its copies and the number of bytes.
use cs5600_filesystem.Base.{
  ℕ, zero, suc, ◌+◌, ◌-◌, ◌/◌, ◌%◌, ◌^◌, Bool, not, ◌&&◌, ltb, leb, ◌==◌, if◌then◌else◌, Bytes,
}
use cs5600_filesystem.Base.Int.{ℤ, pos, exceeds, signed32, eisdir, lookup_failed}
use cs5600_filesystem.Memory.{Block, word, copy_bytes}
use cs5600_filesystem.State.{Cmd, fault, pure, ◌>>=◌, gets}
use cs5600_filesystem.State.Device.{read_block}
use cs5600_filesystem.State.Bitmap.{index}
use cs5600_filesystem.State.Inode.{
  field, w_direct, w_mode, w_size, w_indir_1, w_indir_2, inode_at, is_reg,
}
use cs5600_filesystem.Tree.{translate}

abbrev pub Buffer : Type 0
Buffer = ℕ → ℕ

-- `in_blk_len`: up to the end of a block of `size` bytes, or up to the end of the request.
abbrev pub chunk : (size off len : ℕ) → ℕ
chunk size off len = if ltb size (len + off) then size - off else len

-- `fs_read_block`; `at` is the position in `buf` that has been reached.
unfoldable pub fs_read_block : (blknum off len : ℕ) → (at : ℕ) → Buffer → Cmd Buffer
fs_read_block blknum off len at buf =
    if blknum == 0
    then (λ _. fault)
    else do blk ← read_block blknum; pure (copy_bytes buf at len (λ o. blk (off + o)))

-- The loop of `fs_read_1st_level`, at direct block `i`.
unfoldable pub read_direct : (rounds i inum off len : ℕ) → (at done : ℕ) → Buffer → Cmd (Buffer × ℕ)
read_direct zero i inum off len at done buf = pure (buf, done)
read_direct (suc n) i inum off len at done buf = if len == 0 then pure (buf, done) else do
  blk ← gets (λ s. field s inum (w_direct + i))
  let size = chunk 1024 off len
  if blk == 0 then pure (buf, done) else do
    buf' ← fs_read_block blk off size at buf
    read_direct n (i + 1) inum 0 (len - size) (at + size) (done + size) buf'

unfoldable pub fs_read_1st_level : (inum offset len at : ℕ) → Buffer → Cmd (Buffer × ℕ)
fs_read_1st_level inum offset len at buf =
    read_direct (6 - offset / 1024) (offset / 1024) inum (offset % 1024) len at 0 buf

-- The loop of `fs_read_2nd_level`, at entry `i` of the indirect block `tree`.
unfoldable pub read_indirect :
    (rounds i : ℕ) → (tree : Block) → (off len : ℕ) → (at done : ℕ) → Buffer → Cmd (Buffer × ℕ)
read_indirect zero i tree off len at done buf = pure (buf, done)
read_indirect (suc n) i tree off len at done buf = if len == 0 then pure (buf, done) else do
  let size = chunk 1024 off len
  if word tree i == 0 then pure (buf, done) else do
    buf' ← fs_read_block (word tree i) off size at buf
    read_indirect n (i + 1) tree 0 (len - size) (at + size) (done + size) buf'

unfoldable pub fs_read_2nd_level : (root offset len at : ℕ) → Buffer → Cmd (Buffer × ℕ)
fs_read_2nd_level root offset len at buf = do
  tree ← read_block root
  let h1t_offset = offset - 6144
  read_indirect (256 - h1t_offset / 1024) (h1t_offset / 1024) tree (h1t_offset % 1024) len at 0 buf

-- The loop of `fs_read_3rd_level`. What the second level read is not looked at.
unfoldable pub read_trees :
    (rounds i : ℕ) → (tree : Block) → (off len : ℕ) → (at done : ℕ) → Buffer → Cmd (Buffer × ℕ)
read_trees zero i tree off len at done buf = pure (buf, done)
read_trees (suc n) i tree off len at done buf = if len == 0 then pure (buf, done) else do
  let size = chunk 262144 off len
  (buf', _) ← fs_read_2nd_level (word tree i) (off + 6144) size at buf
  read_trees n (i + 1) tree 0 (len - size) (at + size) (done + size) buf'

unfoldable pub fs_read_3rd_level : (root offset len at : ℕ) → Buffer → Cmd (Buffer × ℕ)
fs_read_3rd_level root offset len at buf = do
  tree ← read_block root
  let h2t_offset = offset - 262144 - 6144
  read_trees (256 - h2t_offset / 262144) (h2t_offset / 262144) tree (h2t_offset % 262144) len at 0
      buf

-- One level of `fs_read`, for a request that has reached `offset`, with `len` bytes left.
abbrev pub level :
    Bool
    → ((offset len at : ℕ) → Buffer → Cmd (Buffer × ℕ))
    → (offset len at : ℕ) → Buffer
    → Cmd (Buffer × ℕ)
level applies read offset len at buf = if applies then read offset len at buf else pure (buf, 0)

-- The three levels in turn.
unfoldable pub read_levels : (inum offset len : ℕ) → Buffer → Cmd (Buffer × ℕ)
read_levels inum offset len buf = do
  (buf, n) ← level (ltb offset 6144) (fs_read_1st_level inum) offset len 0 buf
  let o1 = offset + n
  let l1 = len - n
  indir_1 ← gets (λ s. field s inum w_indir_1)
  (buf, m) ← level (leb 6144 o1 && ltb o1 268288) (fs_read_2nd_level indir_1) o1 l1 n buf
  let o2 = o1 + m
  let l2 = l1 - m
  indir_2 ← gets (λ s. field s inum w_indir_2)
  (buf, k) ← level (leb 268288 o2 && leb o2 67377152) (fs_read_3rd_level indir_2) o2 l2 (n + m) buf
  pure (buf, n + m + k)

-- `int tmp_offset = offset` keeps 32 bits; below zero the code leaves its arrays. The result, a
-- difference that is returned as `int`, is the number of bytes again.
unfoldable pub fs_read : Bytes → (len offset : ℕ) → Buffer → Cmd (ℤ × Buffer)
fs_read path len offset buf = do
  inum ← translate path
  if lookup_failed inum then pure (inum, buf) else do
    n ← inode_at inum
    mode ← gets (λ s. field s n w_mode)
    if not (is_reg mode) then pure (eisdir, buf) else do
      size ← gets (λ s. signed32 (field s n w_size))
      tmp_offset ← index (signed32 (offset % 2 ^ 32))
      if not (exceeds size tmp_offset) then pure (pos 0, buf) else do
        size ← index size
        (buf', count) ←
            read_levels n tmp_offset
              (if ltb size (tmp_offset + len) then size - tmp_offset else len) buf
        pure (pos count, buf')
