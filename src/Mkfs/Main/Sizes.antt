-- ===== src/Mkfs/Main/Sizes.antt =====
-- The size that mkfs-x6.c gets as its argument, and the file system on the image that it writes.
use cs5600_filesystem.Base.{
  ℕ, ◌+◌, ◌-◌, ◌*◌, ◌/◌, ◌^◌, ◌≤◌, ◌<◌, ◌≡◌, ◌≢◌, refl, ap, ◌∙◌, true, false, ◌&&◌, ◌||◌, Option,
  some, [], ◌∷◌, ◌++◌, All, Bytes, codes, arith, ltb, leb, ◌==◌,
}
use cs5600_filesystem.Base.Int.{pos}
use cs5600_filesystem.Memory.{Area}
use cs5600_filesystem.State.{Fs, ok}
use cs5600_filesystem.Shell.Words.{wrap}
use cs5600_filesystem.State.Device.{fs_init}
use cs5600_filesystem.Mount.{IsMounted}
use cs5600_filesystem.Tree.Lookup.{HasDir, Lacks, dir_of}
use cs5600_filesystem.Mkfs.{mkfs, inode_base, rootdir_base}
use cs5600_filesystem.Mkfs.Fresh.{mkfs-IsMounted}
use cs5600_filesystem.Mkfs.Main.{
  digit_value, read_digits, read_number, strtol, scaled, parseint, written, make_image, with_file,
  main_mkfs,
}

abbrev pub IsDigit : ℕ → Type 0
IsDigit c = (b'0' ≤ c) × (c ≤ b'9')

-- The number that some decimal digits mean, behind a number `acc`.
abbrev pub decimal_value : (acc : ℕ) → Bytes → ℕ
decimal_value acc [] = acc
decimal_value acc (c ∷ s) = decimal_value (acc * 10 + (c - b'0')) s

digit_value-IsDigit : (c : ℕ) → IsDigit c → digit_value c ≡ c - b'0'
unfolding digit_value
digit_value-IsDigit c (lo, hi) = ground arith

read_digits-end : (acc : ℕ) → read_digits 10 acc (codes "K") ≡ (acc, codes "K")
unfolding read_digits digit_value
read_digits-end acc = refl

read_digits-decimal_value :
    (acc : ℕ) (s : Bytes)
    → All IsDigit s
    → read_digits 10 acc (s ++ codes "K") ≡ (decimal_value acc s, codes "K")
unfolding read_digits
read_digits-decimal_value acc [] digits = read_digits-end acc
read_digits-decimal_value acc (c ∷ s) (digit, digits) =
    let value = digit_value-IsDigit c digit in
    let small : ltb (digit_value c) 10 ≡ true = ground (arith, value, digit) in
    rw (read_digits, small)
      (ap (λ v. read_digits 10 (acc * 10 + v) (s ++ codes "K")) value
        ∙ read_digits-decimal_value (acc * 10 + (c - b'0')) s digits)

module _ (c : ℕ) (s : Bytes) (digits : All IsDigit (c ∷ s)) (no_zero : c ≢ b'0') (n : ℕ)
    (value : decimal_value 0 (c ∷ s) ≡ n) (small : n < 2 ^ 21) where
  read_number-decimal : read_number (c ∷ s ++ codes "K") ≡ (n, codes "K")
  unfolding read_number
  read_number-decimal =
      let decimal : (c == b'0') ≡ false = ground (arith, no_zero) in
      rw decimal (read_digits-decimal_value 0 (c ∷ s) digits ∙ ap (λ m. (m, codes "K")) value)

  strtol-decimal : strtol (c ∷ s ++ codes "K") ≡ (n, codes "K")
  unfolding strtol
  strtol-decimal =
      let digit = digits.0 in
      let no_space : (leb 9 c && leb c 13 || c == b' ') ≡ false = ground (arith, digit) in
      let no_minus : (c == b'-') ≡ false = ground (arith, digit) in
      let no_plus : (c == b'+') ≡ false = ground (arith, digit) in
      rw (no_space, no_minus, no_plus)
        (ap (λ m. (wrap false m.0, m.1)) read_number-decimal
          ∙ ap (λ m. (m, codes "K")) (ground arith))

  parseint-decimal : parseint (c ∷ s ++ codes "K") ≡ some (pos (n * 1024))
  unfolding parseint scaled
  parseint-decimal =
      let positive : ltb n (2 ^ 31) ≡ true = ground arith in
      let fits : ltb (n * 1024) (2 ^ 31) ≡ true = ground arith in
      rw (strtol-decimal, positive, fits) refl

  module _ (open_file : Bytes → Option ℕ) (now : ℕ) (file : Bytes) (st_size : ℕ)
      (opened : open_file file ≡ some st_size) (large : 5 ≤ n) where
    main_mkfs-written :
        main_mkfs open_file now (codes "-size" ∷ (c ∷ s ++ codes "K") ∷ file ∷ [])
        ≡ written n (mkfs n now)
    unfolding main_mkfs with_file make_image
    main_mkfs-written =
        let some_size : (n * 1024 == 0) ≡ false = ground arith in
        let blocks : n * 1024 / 1024 ≡ n = omega arith in
        let room : ltb (inode_base n) n ≡ true = ground arith in
        let whole : (n * 1024 == n * 1024) ≡ true = ground arith in
        rw parseint-decimal (rw (with_file, opened, some_size) (rw blocks (rw (room, whole) refl)))

    -- `mkfs-x6 -size NK file`, for a file that can be opened and decimal digits without a zero in
    -- front that mean a number N of at least 5 blocks and less than 2 GB: an image of N blocks is
    -- written. On it `fs_init` succeeds, whatever the memory held, the file system is mounted, and
    -- its root directory can be read and has no entry.
    pub main_mkfs-IsMounted :
        (s₀ : Fs)
        → (image : Area) × (main_mkfs open_file now
              (codes "-size" ∷ (c ∷ s ++ codes "K") ∷ file ∷ [])
            ≡ written n image)
          × (t : Fs) × (fs_init (record s₀ { nblks = n; disk = image }) ≡ ok tt t)
          × IsMounted t t
          × HasDir t 1
          × ((name : Bytes) → Lacks (dir_of t 1) name)
    main_mkfs-IsMounted s₀ =
        let room : rootdir_base n < n = omega arith in
        let (t, run, is_mounted, _, dir, _, lacks, _, _) =
          mkfs-IsMounted n now (omega arith) room small s₀ in
        (mkfs n now, main_mkfs-written, t, run, is_mounted, dir, lacks)
