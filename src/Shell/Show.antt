-- ===== src/Shell/Show.antt =====
-- `do_show` and `do_get`: the loops of reads over a whole file.
use cs5600_filesystem.Base.{
  ℕ, zero, suc, ◌+◌, ◌-◌, ◌*◌, ◌≤◌, ◌<◌, ◌≡◌, ◌≢◌, refl, ap, ◌∙◌, true, ◌++◌, [], ◌∷◌, ◌⊎◌, inl,
  inr, Bytes, arith, length,
}
use cs5600_filesystem.Base.Int.{pos}
use cs5600_filesystem.Memory.{copy_bytes}
use cs5600_filesystem.State.{Fs, ok}
use cs5600_filesystem.State.Inode.{field, w_mode, w_size, is_reg}
use cs5600_filesystem.Tree.{translate}
use cs5600_filesystem.Ops.Read.{Buffer}
use cs5600_filesystem.Ops.Content.{file_byte, HasBlocks}
use cs5600_filesystem.Ops.Content.Total.{fs_read_lem, read_count}
use cs5600_filesystem.Shell.{Shell, Host, ran, said, stored}
use cs5600_filesystem.Shell.Files.{prefix, read_chunk, read_all, rounds, do_show, do_get}
use cs5600_filesystem.Shell.Steps.{and_so, quiet, path_in, path_to-ok}

-- The bytes of a file from an offset on.
abbrev pub bytes_from : Fs → (inum offset n : ℕ) → Bytes
bytes_from s inum offset n = prefix n (λ k. file_byte s inum (offset + k))

pub prefix-same : (n : ℕ) (f g : Buffer) → ((k : ℕ) → k < n → f k ≡ g k) → prefix n f ≡ prefix n g
unfolding prefix
prefix-same zero f g same = refl
prefix-same (suc n) f g same =
    rw
      (
        same 0 (omega arith),
        prefix-same n (λ k. f (k + 1)) (λ k. g (k + 1)) (λ k lt. same (k + 1) (omega arith)),
      )
      refl

prefix-append : (n m : ℕ) (f : Buffer) → prefix n f ++ prefix m (λ k. f (n + k)) ≡ prefix (n + m) f
unfolding prefix
prefix-append zero m f =
    prefix-same m _ f (λ k lt. ap f (omega arith)) ∙ ap (λ q. prefix q f) (omega arith)
prefix-append (suc n) m f =
    ap (λ t. f 0 ∷ (prefix n (λ k. f (k + 1)) ++ t))
      (prefix-same m _ (λ k. f (n + k + 1)) (λ k lt. ap f (omega arith)))
    ∙ ap (λ t. f 0 ∷ t) (prefix-append n m (λ k. f (k + 1)))
    ∙ ap (λ q. prefix q f) {x = suc (n + m)} (omega arith)

prefix-copy_bytes : (n : ℕ) (buf f : Buffer) → prefix n (copy_bytes buf 0 n f) ≡ prefix n f
unfolding copy_bytes
prefix-copy_bytes n buf f = prefix-same n _ f (λ k lt. ground arith)

bytes_from-append :
    (s : Fs) (inum offset n m : ℕ) (buf : Buffer)
    → prefix n (copy_bytes buf 0 n (λ k. file_byte s inum (offset + k)))
        ++ bytes_from s inum (offset + n) m
      ≡ bytes_from s inum offset (n + m)
bytes_from-append s inum offset n m buf =
    rw (prefix-copy_bytes n buf (λ k. file_byte s inum (offset + k))) (
      ap (λ t. prefix n (λ k. file_byte s inum (offset + k)) ++ t)
        (prefix-same m _ (λ k. file_byte s inum (offset + (n + k)))
          (λ k lt. ap (file_byte s inum) (omega arith)))
      ∙ prefix-append n m (λ k. file_byte s inum (offset + k)))

read_end :
    (k : ℕ) (path : Bytes) (offset : ℕ) (sh sh₁ : Shell) (s : Fs)
    → read_chunk path offset sh s ≡ ran (pos 0) sh₁ s []
    → read_all (suc k) path offset sh s ≡ ran (pos 0, []) sh₁ s []
unfolding read_all
read_end k path offset sh sh₁ s e = and_so _ e refl

read_round :
    (k : ℕ) (path : Bytes) (offset n : ℕ) (sh sh₁ sh₂ : Shell) (s : Fs) (rest : Bytes)
    → read_chunk path offset sh s ≡ ran (pos (suc n)) sh₁ s []
    → read_all k path (offset + suc n) sh₁ s ≡ ran (pos 0, rest) sh₂ s []
    → read_all (suc k) path offset sh s ≡ ran (pos 0, prefix (suc n) sh₁.blkbuf ++ rest) sh₂ s []
unfolding read_all
read_round k path offset n sh sh₁ sh₂ s rest e f = and_so _ e (quiet (and_so _ f refl))

zero-cases : (n : ℕ) → (n ≡ 0) ⊎ ((m : ℕ) × (n ≡ suc m))
zero-cases zero = inl refl
zero-cases (suc n) = inr (n, refl)

module _ (s : Fs) (path : Bytes) (inum size : ℕ) (found : translate path s ≡ ok (pos inum) s)
    (inside : inum < s.inode_region_sz * 16) (regular : is_reg (field s inum w_mode) ≡ true)
    (is_size : field s inum w_size ≡ size) (small : size ≤ 67377152) (held : HasBlocks s inum size)
    (sh : Shell) (b : ℕ) (chunks : sh.blksiz ≡ pos b) (some_room : b ≢ 0) where
  abbrev with_buffer : Buffer → Shell
  with_buffer buf = record sh { blkbuf = buf }

  abbrev filled : (offset c : ℕ) → Buffer → Buffer
  filled offset c buf = copy_bytes buf 0 c (λ o. file_byte s inum (offset + o))

  read_chunk-ok :
      (offset : ℕ) (buf : Buffer)
      → offset ≤ size
      → read_chunk path offset (with_buffer buf) s
        ≡ ran
            (pos (read_count size offset b))
            (with_buffer (filled offset (read_count size offset b) buf))
            s
            []
  unfolding read_chunk
  read_chunk-ok offset buf le =
      rw
        (
          chunks,
          fs_read_lem s path b offset buf inum size found inside regular is_size small held
              (omega arith),
        )
        refl

  read_all-ok :
      (fuel offset : ℕ) (buf : Buffer)
      → size - offset + 1 ≤ fuel
      → offset ≤ size
      → (end : Buffer) × (read_all fuel path offset (with_buffer buf) s
          ≡ ran (pos 0, bytes_from s inum offset (size - offset)) (with_buffer end) s [])
  unfolding prefix
  read_all-ok zero offset buf enough le = absurd (omega arith)
  read_all-ok (suc k) offset buf enough le =
      let chunk = λ (c : ℕ) (e : read_count size offset b ≡ c).
        read_chunk-ok offset buf le
        ∙ ap (λ c. ran (pos c) (with_buffer (filled offset c buf)) s []) e in
      elim (zero-cases (read_count size offset b)) [
        | inl e ↦
            let done : 0 ≡ size - offset = ground arith in
            (
              filled offset 0 buf,
              read_end k path offset (with_buffer buf) _ s (chunk 0 e)
                  ∙ ap
                      (λ q.
                        ran (pos 0, bytes_from s inum offset q) (with_buffer (filled offset 0 buf))
                          s [])
                      done,
            )
        | inr (n, e) ↦
            let fits : offset + suc n ≤ size = ground arith in
            let (end, run) =
              read_all-ok k (offset + suc n) (filled offset (suc n) buf) (omega arith) fits in
            let whole : suc n + (size - (offset + suc n)) ≡ size - offset = omega arith in
            (
              end,
              read_round k path offset n (with_buffer buf) _ (with_buffer end) s _ (chunk (suc n) e)
                    run
                  ∙ ap (λ t. ran (pos 0, t) (with_buffer end) s [])
                      (bytes_from-append s inum offset (suc n) _ buf
                        ∙ ap (bytes_from s inum offset) whole),
            )
      ]

  whole_file :
      (end : Buffer) × (read_all rounds path 0 sh s
        ≡ ran (pos 0, bytes_from s inum 0 size) (with_buffer end) s [])
  unfolding rounds
  whole_file =
      let (end, run) = read_all-ok rounds 0 sh.blkbuf (omega arith) (omega arith) in
      let none_read : size - 0 ≡ size = omega arith in
      (end, run ∙ ap (λ q. ran (pos 0, bytes_from s inum 0 q) (with_buffer end) s []) none_read)

module _ (s : Fs) (sh : Shell) (file : Bytes) (inum size b : ℕ)
    (short : length sh.cwd + 1 + length file < 128)
    (found : translate (path_in sh file) s ≡ ok (pos inum) s)
    (inside : inum < s.inode_region_sz * 16) (regular : is_reg (field s inum w_mode) ≡ true)
    (is_size : field s inum w_size ≡ size) (small : size ≤ 67377152) (held : HasBlocks s inum size)
    (chunks : sh.blksiz ≡ pos b) (some_room : b ≢ 0) where
  -- `show` of a regular file of at most 67377152 bytes, whose path has room in 128 bytes, with a
  -- block size above zero: the loop of reads ends, prints exactly the bytes of the file, in one go
  -- or many, and returns 0; the file system, the current directory and the block size stay.
  pub do_show_lem :
      (end : Buffer) × (do_show file sh s
        ≡ ran (pos 0) (record sh { blkbuf = end }) s (said (bytes_from s inum 0 size) ∷ []))
  unfolding do_show
  do_show_lem =
      let (end, run) =
        whole_file s (path_in sh file) inum size found inside regular is_size small held sh b chunks
          some_room in
      (end, and_so _ (path_to-ok sh s file short) (and_so _ run refl))

  -- `get` of such a file to a file of the host that can be written: the loop ends, the file of the
  -- host gets exactly the bytes of the file, nothing is printed, and the command returns 0.
  pub do_get_lem :
      (host : Host) (outside : Bytes)
      → host.can_write outside ≡ true
      → (end : Buffer) × (do_get host file outside sh s
          ≡ ran
              (pos 0)
              (record sh { blkbuf = end })
              s
              (stored outside (bytes_from s inum 0 size) ∷ []))
  unfolding do_get
  do_get_lem host outside writable =
      let (end, run) =
        whole_file s (path_in sh file) inum size found inside regular is_size small held sh b chunks
          some_room in
      (end, rw writable (and_so _ (path_to-ok sh s file short) (and_so _ run refl)))
