-- ===== src/Ops/Content/Copy.antt =====
-- Copies into a buffer, and the chunks that the loops of `fs_read` copy.
use cs5600_filesystem.Base.{
  ℕ, ◌+◌, ◌-◌, ◌*◌, ◌/◌, ◌%◌, ◌≤◌, ◌<◌, ◌≡◌, ◌≢◌, refl, sym, ap, ◌∙◌, fun_ext, true, false, ◌⊎◌,
  inl, inr, arith, ltb, leb, ◌==◌, Bool-cases,
}
use cs5600_filesystem.Memory.{copy_bytes}
use cs5600_filesystem.State.{Fs, ok}
use cs5600_filesystem.State.Device.{read_block, image_read}
use cs5600_filesystem.Ops.Read.{Buffer, chunk, fs_read_block}

pub copy_bytes-zero : (buf : Buffer) (at : ℕ) (bytes : ℕ → ℕ) → copy_bytes buf at 0 bytes ≡ buf
unfolding copy_bytes
copy_bytes-zero buf at bytes = fun_ext λ p. ground arith

-- Two copies, one behind the other, are one.
pub copy_bytes-copy_bytes :
    (buf : Buffer) (at m n k : ℕ) (f g h : ℕ → ℕ)
    → m + n ≡ k
    → ((o : ℕ) → o < m → f o ≡ h o)
    → ((o : ℕ) → o < n → g o ≡ h (m + o))
    → copy_bytes (copy_bytes buf at m f) (at + m) n g ≡ copy_bytes buf at k h
unfolding copy_bytes
copy_bytes-copy_bytes buf at m n k f g h whole first second = fun_ext λ p.
    let place : at + m ≤ p → m + (p - (at + m)) ≡ p - at = λ le. omega arith in
    ground (arith, first (p - at), second (p - (at + m)), place)

pub copy_bytes-same :
    (buf : Buffer) (at n : ℕ) (f g : ℕ → ℕ)
    → ((o : ℕ) → o < n → f o ≡ g o)
    → copy_bytes buf at n f ≡ copy_bytes buf at n g
unfolding copy_bytes
copy_bytes-same buf at n f g same = fun_ext λ p. ground (arith, same (p - at))

pub fs_read_block-ok :
    (s : Fs) (blk off len at : ℕ) (buf : Buffer)
    → blk ≢ 0
    → blk + 1 ≤ s.nblks
    → fs_read_block blk off len at buf s ≡ ok (copy_bytes buf at len (λ o. s.disk blk (off + o))) s
unfolding fs_read_block read_block image_read
fs_read_block-ok s blk off len at buf ne fits =
    let e : (blk == 0) ≡ false = ground arith in
    let f : leb (blk + 1) s.nblks ≡ true = ground arith in
    rw e (
      rw f (
        ap (λ d. ok (copy_bytes buf at len d) s) (ap (λ b. λ o. s.disk b (off + o)) (omega arith))))

pub chunk-bounds :
    (size off len : ℕ)
    → off < size
    → (chunk size off len ≤ len)
      × (off + chunk size off len ≤ size)
      × ((chunk size off len ≡ len) ⊎ (off + chunk size off len ≡ size))
chunk-bounds size off len lt = elim (Bool-cases (ltb size (len + off))) [
  | inl e ↦ rw e (ground arith, ground arith, inr (ground arith))
  | inr e ↦ rw e (ground arith, ground arith, inl refl)
]

-- The bytes behind a row of pointers to blocks.
abbrev pub bytes_at : Fs → (ℕ → ℕ) → ℕ → ℕ
bytes_at s ptr o = s.disk (ptr (o / 1024)) (o % 1024)

-- One round of a loop over blocks: a chunk is copied, and the rest goes on behind it, up to the
-- number `c` of bytes that the blocks and the request allow.
pub round :
    (s : Fs) (ptr : ℕ → ℕ) (i off c at m : ℕ) (buf : Buffer)
    → m ≤ c
    → off + m ≤ 1024
    → (m ≡ c) ⊎ (off + m ≡ 1024)
    → copy_bytes
        (copy_bytes buf at m (λ o. s.disk (ptr i) (off + o)))
        (at + m)
        (c - m)
        (λ o. bytes_at s ptr ((i + 1) * 1024 + 0 + o))
      ≡ copy_bytes buf at c (λ o. bytes_at s ptr (i * 1024 + off + o))
round s ptr i off c at m buf le inside ends =
    copy_bytes-copy_bytes buf at m (c - m) c _ _ (λ o. bytes_at s ptr (i * 1024 + off + o))
      (omega arith)
      (λ o lt.
        let block : (i * 1024 + off + o) / 1024 ≡ i = omega arith in
        let place : (i * 1024 + off + o) % 1024 ≡ off + o = omega arith in
        ap (λ b. s.disk (ptr b) (off + o)) (sym block)
        ∙ ap (s.disk (ptr ((i * 1024 + off + o) / 1024))) (sym place))
      (λ o lt. ap (bytes_at s ptr) (omega (arith, ends)))

-- The same one level up: a row of trees of 256 blocks.
pub round_tree :
    (cell : ℕ → ℕ → ℕ) (i off c at m : ℕ) (buf : Buffer)
    → m ≤ c
    → off + m ≤ 262144
    → (m ≡ c) ⊎ (off + m ≡ 262144)
    → copy_bytes
        (copy_bytes buf at m (λ o. cell i (off + o)))
        (at + m)
        (c - m)
        (λ o. cell (((i + 1) * 262144 + 0 + o) / 262144) (((i + 1) * 262144 + 0 + o) % 262144))
      ≡ copy_bytes buf at c
          (λ o. cell ((i * 262144 + off + o) / 262144) ((i * 262144 + off + o) % 262144))
round_tree cell i off c at m buf le inside ends =
    copy_bytes-copy_bytes buf at m (c - m) c _ _
      (λ o. cell ((i * 262144 + off + o) / 262144) ((i * 262144 + off + o) % 262144)) (omega arith)
      (λ o lt.
        let block : (i * 262144 + off + o) / 262144 ≡ i = omega arith in
        let place : (i * 262144 + off + o) % 262144 ≡ off + o = omega arith in
        ap (λ b. cell b (off + o)) (sym block)
        ∙ ap (cell ((i * 262144 + off + o) / 262144)) (sym place))
      (λ o lt. ap (λ q. cell (q / 262144) (q % 262144)) (omega (arith, ends)))
