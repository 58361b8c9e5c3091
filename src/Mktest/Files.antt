-- ===== src/Mktest/Files.antt =====
-- What a mounted file system reads in the files of the test image.
use cs5600_filesystem.Base.{
  ℕ, zero, suc, ◌+◌, ◌*◌, ◌/◌, ◌%◌, ◌≤◌, ◌<◌, ◌≡◌, ◌≢◌, ◌^◌, refl, sym, ap, subst, ◌∙◌, arith, ◌==◌,
  Bool-cases, inl, inr, if◌then◌else◌,
}
use cs5600_filesystem.Base.Int.{pos}
use cs5600_filesystem.Memory.{word, store_words, byte_of, copy_bytes}
use cs5600_filesystem.State.{Fs, ok}
use cs5600_filesystem.State.Device.{fs_init}
use cs5600_filesystem.State.Inode.{field, w_indir_1, w_indir_2}
use cs5600_filesystem.Ops.Read.{Buffer, fs_read}
use cs5600_filesystem.Ops.Content.{block_of, file_byte, HasBlocks}
use cs5600_filesystem.Ops.Content.Copy.{copy_bytes-same}
use cs5600_filesystem.Ops.Content.Total.{fs_read_lem, read_count}
use cs5600_filesystem.Mktest.{mktest, test_inodes, n_blks}
use cs5600_filesystem.Mktest.Image.{
  test_fs, TestFile, file_a, file_7, file_2, file_0, file_270, path_of, size_of, fill_of, inode_of,
  file-IsAt, fs_init-test_fs,
}
use cs5600_filesystem.Mktest.Blocks.{
  block_of-file_7, block_of-file_270, data_270, data_7, data_2, fill_from-in, indirect,
  word-count_up,
}

-- The block with the number `j` of a file.
abbrev blk_of : TestFile → ℕ → ℕ
blk_of file_a j = 8
blk_of file_7 j = 13 + j
blk_of file_2 j = if j == 0 then 11 else 10
blk_of file_0 j = 0
blk_of file_270 j = 23 + j

small_blocks :
    (block_of test_fs 2 0 ≡ 8) × (block_of test_fs 4 0 ≡ 11) × (block_of test_fs 4 1 ≡ 10)
unfolding block_of field word mktest test_inodes store_words byte_of
small_blocks = (refl, refl, refl)

block_of-file :
    (f : TestFile) (j : ℕ) → j * 1024 < size_of f → block_of test_fs (inode_of f) j ≡ blk_of f j
block_of-file file_a zero lt = small_blocks.0
block_of-file file_a (suc j) lt = absurd (omega arith)
block_of-file file_7 j lt = block_of-file_7 j (omega arith)
block_of-file file_2 zero lt = small_blocks.1
block_of-file file_2 (suc zero) lt = small_blocks.2
block_of-file file_2 (suc (suc j)) lt = absurd (omega arith)
block_of-file file_0 j lt = absurd (omega arith)
block_of-file file_270 j lt = block_of-file_270 j (omega arith)

blk_of-bounds :
    (f : TestFile) (j : ℕ) → j * 1024 < size_of f → (blk_of f j ≢ 0) × (blk_of f j + 1 ≤ 1024)
blk_of-bounds file_a j lt = (omega arith, omega arith)
blk_of-bounds file_7 j lt = (omega arith, omega arith)
blk_of-bounds file_2 j lt = (ground arith, ground arith)
blk_of-bounds file_0 j lt = absurd (omega arith)
blk_of-bounds file_270 j lt = (omega arith, omega arith)

indirect-bounds :
    (f : TestFile)
    → (field test_fs (inode_of f) w_indir_1 + 1 ≤ 1024)
      × (field test_fs (inode_of f) w_indir_2 + 1 ≤ 1024)
unfolding field word mktest test_inodes store_words byte_of
indirect-bounds file_a = (omega arith, omega arith)
indirect-bounds file_7 = (omega arith, omega arith)
indirect-bounds file_2 = (omega arith, omega arith)
indirect-bounds file_0 = (omega arith, omega arith)
indirect-bounds file_270 = (omega arith, omega arith)

tree-bounds :
    (f : TestFile) (i : ℕ)
    → 268288 + i * 262144 < size_of f
    → word (test_fs.disk (field test_fs (inode_of f) w_indir_2)) i + 1 ≤ 1024
tree-bounds file_a i lt = absurd (omega arith)
tree-bounds file_7 i lt = absurd (omega arith)
tree-bounds file_2 i lt = absurd (omega arith)
tree-bounds file_0 i lt = absurd (omega arith)
tree-bounds file_270 i lt =
    let first : i ≡ 0 = omega arith in
    rw (first, indirect.2, word-count_up 1 22 0 (omega arith) (omega arith)) (omega arith)

file-HasBlocks : (f : TestFile) → HasBlocks test_fs (inode_of f) (size_of f)
file-HasBlocks f = record {
  block = λ j lt.
      subst (λ b. (b ≢ 0) × (b + 1 ≤ 1024)) (sym (block_of-file f j lt)) (blk_of-bounds f j lt);
  second = λ le. (indirect-bounds f).0;
  third = λ le. (indirect-bounds f).1;
  tree = λ i lt. tree-bounds f i lt;
}

data_a : (o : ℕ) → o < 1000 → mktest 8 o ≡ b'A'
unfolding mktest
data_a o lt = fill_from-in 8 1000 b'A' 8 o (omega arith)

stored :
    (f : TestFile) (o : ℕ) → o < size_of f → mktest (blk_of f (o / 1024)) (o % 1024) ≡ fill_of f
stored file_a o lt = data_a (o % 1024) (omega arith)
stored file_7 o lt =
    ap (λ b. b (o % 1024)) (data_7 (13 + o / 1024) (omega arith) (omega arith))
    ∙ fill_from-in 13 (6 * 1024 + 500) b'4' (13 + o / 1024) (o % 1024) (omega arith)
stored file_2 o lt = elim (Bool-cases (o / 1024 == 0)) [
  | inl e ↦ rw e (
      ap (λ b. b (o % 1024)) (data_2 11 (omega arith) (omega arith))
      ∙ fill_from-in 10 (2 * 1024) b'2' 11 (o % 1024) (omega arith))
  | inr e ↦ rw e (
      ap (λ b. b (o % 1024)) (data_2 10 (omega arith) (omega arith))
      ∙ fill_from-in 10 (2 * 1024) b'2' 10 (o % 1024) (omega arith))
]
stored file_0 o lt = absurd (omega arith)
stored file_270 o lt =
    ap (λ b. b (o % 1024)) (data_270 (23 + o / 1024) (omega arith) (omega arith))
    ∙ fill_from-in 23 (269 * 1024 + 721) b'K' (23 + o / 1024) (o % 1024) (omega arith)

file-byte : (f : TestFile) (o : ℕ) → o < size_of f → file_byte test_fs (inode_of f) o ≡ fill_of f
unfolding file_byte
file-byte f o lt = rw (block_of-file f (o / 1024) (omega arith)) (stored f o lt)

file-bounds : (f : TestFile) → (inode_of f < 64) × (size_of f ≤ 67377152)
file-bounds file_a = (omega arith, omega arith)
file-bounds file_7 = (omega arith, omega arith)
file-bounds file_2 = (omega arith, omega arith)
file-bounds file_0 = (omega arith, omega arith)
file-bounds file_270 = (omega arith, omega arith)

read_count-bound : (size offset len o : ℕ) → o < read_count size offset len → offset + o < size
read_count-bound size offset len o lt = ground arith

-- Whatever the memory held before, `fs_init` succeeds on the image that mktest.c writes, and then
-- each of its five files, the one of 276177 bytes on three levels of blocks too, is read under its
-- path with its size: a read at an offset that fits an `int` returns the number of bytes up to the
-- end of the file, at most as many as asked for, puts as many copies of the file's byte into the
-- buffer, and leaves the rest of the buffer.
pub mktest-fs_read :
    (memory : Fs)
    → (fs_init (record memory { nblks = n_blks; disk = mktest }) ≡ ok tt test_fs)
      × ((f : TestFile) (len offset : ℕ) (buf : Buffer)
          → offset < 2 ^ 31
          → fs_read (path_of f) len offset buf test_fs
            ≡ ok
                (
                  pos (read_count (size_of f) offset len),
                  copy_bytes buf 0 (read_count (size_of f) offset len) (λ o. fill_of f),
                )
                test_fs)
mktest-fs_read memory = (
  fs_init-test_fs memory,
  λ f len offset buf lt.
      let (found, regular, is_size) = file-IsAt f in
      let (inside, small) = file-bounds f in
      fs_read_lem test_fs (path_of f) len offset buf (inode_of f) (size_of f) found (omega arith)
        regular is_size small (file-HasBlocks f) lt
      ∙ ap (λ b. ok (pos (read_count (size_of f) offset len), b) test_fs)
          (copy_bytes-same buf 0 (read_count (size_of f) offset len) _ _ λ o in_count.
            file-byte f (offset + o) (read_count-bound (size_of f) offset len o in_count)),
)
