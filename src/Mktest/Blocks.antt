-- ===== src/Mktest/Blocks.antt =====
-- Where the blocks of the files stand on the test image.
use cs5600_filesystem.Base.{
  ℕ, zero, suc, ◌+◌, ◌-◌, ◌*◌, ◌/◌, ◌%◌, ◌≤◌, ◌<◌, ◌≡◌, ◌^◌, refl, ◌∙◌, true, arith, ltb, ◌==◌,
  Bool-cases, inl, inr,
}
use cs5600_filesystem.Memory.{word, word-set_word, store_words, byte_of}
use cs5600_filesystem.State.Inode.{field, w_direct, w_indir_1, w_indir_2}
use cs5600_filesystem.Ops.Content.{block_of}
use cs5600_filesystem.Mktest.{mktest, test_inodes, count_up, fill_from}
use cs5600_filesystem.Mktest.Image.{test_fs}

pub word-count_up : (n blk k : ℕ) → n + blk < 2 ^ 32 → k < n → word (count_up n blk) k ≡ blk + k
unfolding count_up
word-count_up zero blk k small lt = absurd (omega arith)
word-count_up (suc n) blk k small lt = elim (Bool-cases (k == n)) [
  | inl e ↦ ground (arith, word-set_word (count_up n blk) n k (blk + n))
  | inr e ↦ ground (
    arith,
    word-set_word (count_up n blk) n k (blk + n),
    word-count_up n blk k (omega arith) (ground arith),
  )
]

-- The direct blocks of the two large files.
pub six_direct :
    (j : ℕ)
    → j < 6
    → (field test_fs 6 (w_direct + j) ≡ 13 + j) × (field test_fs 7 (w_direct + j) ≡ 23 + j)
unfolding field word mktest test_inodes store_words byte_of
six_direct zero lt = (refl, refl)
six_direct (suc zero) lt = (refl, refl)
six_direct (suc (suc zero)) lt = (refl, refl)
six_direct (suc (suc (suc zero))) lt = (refl, refl)
six_direct (suc (suc (suc (suc zero)))) lt = (refl, refl)
six_direct (suc (suc (suc (suc (suc zero))))) lt = (refl, refl)
six_direct (suc (suc (suc (suc (suc (suc j)))))) lt = absurd (omega arith)

pub indirect :
    (test_fs.disk (field test_fs 6 w_indir_1) ≡ count_up 1 19)
    × (test_fs.disk (field test_fs 7 w_indir_1) ≡ count_up 256 29)
    × (test_fs.disk (field test_fs 7 w_indir_2) ≡ count_up 1 22)
    × (test_fs.disk 22 ≡ count_up 8 285)
unfolding field word mktest test_inodes store_words byte_of
indirect = (refl, refl, refl, refl)

pub block_of-file_7 : (j : ℕ) → j < 7 → block_of test_fs 6 j ≡ 13 + j
unfolding block_of
block_of-file_7 j lt = elim (Bool-cases (ltb j 6)) [
  | inl e ↦ let direct : j < 6 = ground arith in rw e (six_direct j direct).0
  | inr e ↦
      let e' : ltb j 262 ≡ true = ground arith in
      rw (e, e', indirect.0)
        (word-count_up 1 19 (j - 6) (omega arith) (ground arith) ∙ ground arith)
]

pub block_of-file_270 : (j : ℕ) → j < 270 → block_of test_fs 7 j ≡ 23 + j
unfolding block_of
block_of-file_270 j lt = elim (Bool-cases (ltb j 6)) [
  | inl e ↦ let direct : j < 6 = ground arith in rw e (six_direct j direct).1
  | inr e ↦ elim (Bool-cases (ltb j 262)) [
    | inl f ↦
        rw (e, f, indirect.1)
          (word-count_up 256 29 (j - 6) (omega arith) (ground arith) ∙ ground arith)
    | inr f ↦
        let tree : (j - 262) / 256 ≡ 0 = ground arith in
        let place : (j - 262) % 256 ≡ j - 262 = ground arith in
        rw
          (
            e,
            f,
            tree,
            place,
            indirect.2,
            word-count_up 1 22 0 (omega arith) (omega arith),
            indirect.3,
          )
          (word-count_up 8 285 (j - 262) (omega arith) (ground arith) ∙ ground arith)
  ]
]

pub data_270 : (b : ℕ) → 23 ≤ b → b < 293 → mktest b ≡ fill_from 23 (269 * 1024 + 721) b'K' b
unfolding mktest
data_270 b ge lt = ground arith

pub data_7 : (b : ℕ) → 13 ≤ b → b < 20 → mktest b ≡ fill_from 13 (6 * 1024 + 500) b'4' b
unfolding mktest
data_7 b ge lt = ground arith

pub data_2 : (b : ℕ) → 10 ≤ b → b < 12 → mktest b ≡ fill_from 10 (2 * 1024) b'2' b
unfolding mktest
data_2 b ge lt = ground arith

pub fill_from-in : (blk len c b o : ℕ) → (b - blk) * 1024 + o < len → fill_from blk len c b o ≡ c
unfolding fill_from
fill_from-in blk len c b o lt = ground arith
