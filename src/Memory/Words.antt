-- ===== src/Memory/Words.antt =====
-- Bytes, 32-bit words and stretches of bytes in a block.
use cs5600_filesystem.Base.{
  ℕ, ◌+◌, ◌-◌, ◌*◌, ◌/◌, ◌%◌, ◌^◌, ◌≡◌, Bool, ◌&&◌, [], ◌∷◌, arith, ltb, leb, ◌==◌, if◌then◌else◌,
  Bytes, List, get_or, ◌<◌, Bool-cases, inl, inr,
}

-- A block, or a buffer that holds one: the byte at each offset.
abbrev pub Block : Type 0
Block = ℕ → ℕ

-- Several blocks in a row: a buffer for a transfer of many blocks, or an array in memory.
abbrev pub Area : Type 0
Area = ℕ → Block

abbrev pub zero_block : Block
zero_block o = 0

-- `((uint32_t *) blk)[i]`
unfoldable pub word : Block → ℕ → ℕ
word blk i =
    blk (4 * i) + 256 * blk (4 * i + 1) + 65536 * blk (4 * i + 2) + 16777216 * blk (4 * i + 3)

-- The byte number `k` of the `uint32_t` value `v`.
unfoldable pub byte_of : ℕ → ℕ → ℕ
byte_of v k =
    if k == 0
    then v % 256
    else if k == 1
    then v / 256 % 256
    else if k == 2
    then v / 65536 % 256
    else v / 16777216 % 256

-- `((uint32_t *) blk)[i] = v`
unfoldable pub set_word : Block → ℕ → ℕ → Block
set_word blk i v o = if o / 4 == i then byte_of v (o % 4) else blk o

-- `memcpy(blk + start, buf, len)`
unfoldable pub copy_bytes : Block → (start len : ℕ) → (ℕ → ℕ) → Block
copy_bytes blk start len buf o =
    if leb start o && ltb o (start + len) then buf (o - start) else blk o

-- `strcmp(blk + start, name) == 0` for a terminated string `name`: the bytes agree, up to the NUL.
unfoldable pub string_at : Block → (start : ℕ) → Bytes → Bool
string_at blk start [] = blk start == 0
string_at blk start (c ∷ s) = blk start == c && string_at blk (start + 1) s

pub byte_sum :
    (v : ℕ)
    → byte_of v 0 + 256 * byte_of v 1 + 65536 * byte_of v 2 + 16777216 * byte_of v 3 ≡ v % 2 ^ 32
unfolding byte_of
byte_sum v = omega arith

-- A word reads back as it was written, in 32 bits, and the other words stay.
pub word-set_word :
    (blk : Block) (i j v : ℕ)
    → word (set_word blk i v) j ≡ (if j == i then v % 2 ^ 32 else word blk j)
unfolding word set_word
word-set_word blk i j v = ground (arith, byte_sum v)

-- `memcpy` of a struct of 16 words, given by the list of its words, to place `k` of a block; the
-- words behind the list are zero.
unfoldable pub store_words : Block → (k : ℕ) → List ℕ → Block
store_words blk k words o =
    if o / 64 == k then byte_of (get_or words (o / 4 % 16) 0) (o % 4) else blk o

store_words-byte :
    (blk : Block) (k : ℕ) (words : List ℕ) (m f c : ℕ)
    → f < 16
    → c < 4
    → store_words blk k words (4 * (16 * m + f) + c)
      ≡ (if m == k then byte_of (get_or words f 0) c else blk (4 * (16 * m + f) + c))
unfolding store_words
store_words-byte blk k words m f c hf hc =
    let e1 : (4 * (16 * m + f) + c) / 64 ≡ m = omega arith in
    let e2 : (4 * (16 * m + f) + c) / 4 % 16 ≡ f = omega arith in
    let e3 : (4 * (16 * m + f) + c) % 4 ≡ c = omega arith in rw (e1, e2, e3)

-- The words of a stored struct read back, in 32 bits, and the other places stay.
pub word-store_words :
    (blk : Block) (k : ℕ) (words : List ℕ) (m f : ℕ)
    → f < 16
    → word (store_words blk k words) (16 * m + f)
      ≡ (if m == k then get_or words f 0 % 2 ^ 32 else word blk (16 * m + f))
unfolding word
word-store_words blk k words m f hf =
    let z : 4 * (16 * m + f) ≡ 4 * (16 * m + f) + 0 = omega arith in
    let b0 = store_words-byte blk k words m f 0 hf (omega arith) in
    let b1 = store_words-byte blk k words m f 1 hf (omega arith) in
    let b2 = store_words-byte blk k words m f 2 hf (omega arith) in
    let b3 = store_words-byte blk k words m f 3 hf (omega arith) in
    elim (Bool-cases (m == k)) [
      | inl e ↦ ground (arith, byte_sum (get_or words f 0))
      | inr e ↦ ground arith
    ]
