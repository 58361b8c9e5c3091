-- ===== src/Tree/Entries.antt =====
-- Directory blocks: how entries read after one has been written.
use cs5600_filesystem.Base.{
  ℕ, suc, ◌+◌, ◌-◌, ◌*◌, ◌/◌, ◌%◌, ◌^◌, ◌≤◌, ◌<◌, ◌≡◌, ◌≢◌, ap, ◌∙◌, ◌&&◌, [], ◌∷◌, arith, ◌==◌,
  if◌then◌else◌, Bool-cases, inl, inr, get_or, Bytes, length, bytes_eq, All,
}
use cs5600_filesystem.Memory.{Block, word, byte_of, byte_sum, string_at}
use cs5600_filesystem.Tree.{matches}
use cs5600_filesystem.Tree.Dirent.{
  Dirent, header, dir_valid, dir_is_dir, dir_inode, dir_name_is, put_dirent,
}

-- A name that fits an entry: at most 27 bytes, none of them NUL.
abbrev pub IsNonZero : Bytes → Type 0
IsNonZero = All (λ c. c ≢ 0)

pub record IsShort (name : Bytes) : Type 0 where
  pub fits : length name < 28
  pub non_zero : IsNonZero name

pub at_start : (a : Block) (o : ℕ) {v : ℕ} → a (o + 0) ≡ v → a o ≡ v
at_start a o h = let e : o + 0 ≡ o = omega arith in rw e at h

pub at_next : (a : Block) (o k : ℕ) {v : ℕ} → a (o + suc k) ≡ v → a (o + 1 + k) ≡ v
at_next a o k h = let e : o + suc k ≡ o + 1 + k = omega arith in rw e at h

-- The bytes up to the end of a name decide whether it stands there.
pub string_at-same :
    (a b : Block) (o : ℕ) (t : Bytes)
    → ((k : ℕ) → k ≤ length t → a (o + k) ≡ b (o + k))
    → string_at a o t ≡ string_at b o t
unfolding string_at
string_at-same a b o [] h =
    let e : a o ≡ b o = at_start a o (h 0 (omega arith)) ∙ ap b (omega arith) in rw e
string_at-same a b o (c ∷ t) h =
    let e : a o ≡ b o = at_start a o (h 0 (omega arith)) ∙ ap b (omega arith) in
    rw (
      e,
      string_at-same a b (o + 1) t
          (λ k le. at_next a o k (h (suc k) (omega arith) ∙ ap b (omega arith))),
    )

string_at-name :
    (a : Block) (o : ℕ) (name t : Bytes)
    → IsNonZero name
    → IsNonZero t
    → ((k : ℕ) → k ≤ length t → a (o + k) ≡ get_or name k 0)
    → string_at a o t ≡ bytes_eq name t
unfolding string_at
string_at-name a o [] [] hn ht h = rw (at_start a o (h 0 (omega arith)))
string_at-name a o (x ∷ name) [] hn ht h =
    let e : a o ≡ x = at_start a o (h 0 (omega arith)) in ground arith
string_at-name a o [] (y ∷ t) hn ht h =
    let e : a o ≡ 0 = at_start a o (h 0 (omega arith)) in ground arith
string_at-name a o (x ∷ name) (y ∷ t) hn ht h =
    let e : a o ≡ x = at_start a o (h 0 (omega arith)) in
    rw (
      e,
      string_at-name a (o + 1) name t hn.1 ht.1 (λ k le. at_next a o k (h (suc k) (omega arith))),
    )

put_dirent-header :
    (dir : Block) (i j c : ℕ) (d : Dirent)
    → c < 4
    → put_dirent dir i d (4 * (8 * j) + c)
      ≡ (if j == i then byte_of (header d) c else dir (4 * (8 * j) + c))
unfolding put_dirent
put_dirent-header dir i j c d lt =
    let e1 : (4 * (8 * j) + c) / 32 ≡ j = omega arith in
    let e2 : (4 * (8 * j) + c) % 32 ≡ c = omega arith in rw (e1, e2) (ground arith)

put_dirent-name :
    (dir : Block) (i j k : ℕ) (d : Dirent)
    → k < 28
    → put_dirent dir i d (32 * j + 4 + k)
      ≡ (if j == i then get_or d.name k 0 else dir (32 * j + 4 + k))
unfolding put_dirent
put_dirent-name dir i j k d lt =
    let e1 : (32 * j + 4 + k) / 32 ≡ j = omega arith in
    let e2 : (32 * j + 4 + k) % 32 ≡ 4 + k = omega arith in
    let e3 : 4 + k - 4 ≡ k = omega arith in rw (e1, e2, e3) (ground arith)

put_dirent-word :
    (dir : Block) (i j : ℕ) (d : Dirent)
    → word (put_dirent dir i d) (8 * j) ≡ (if j == i then header d % 2 ^ 32 else word dir (8 * j))
unfolding word
put_dirent-word dir i j d =
    let b0 : put_dirent dir i d (4 * (8 * j))
        ≡ (if j == i then byte_of (header d) 0 else dir (4 * (8 * j))) =
      ground (arith, put_dirent-header dir i j 0 d) in
    let b1 = put_dirent-header dir i j 1 d (omega arith) in
    let b2 = put_dirent-header dir i j 2 d (omega arith) in
    let b3 = put_dirent-header dir i j 3 d (omega arith) in
    elim (Bool-cases (j == i)) [
      | inl e ↦ ground (arith, byte_sum (header d))
      | inr e ↦ ground arith
    ]

module _ (dir : Block) (i : ℕ) (d : Dirent) where
  dir_name_is-put :
      (j : ℕ) (t : Bytes)
      → IsShort d.name
      → IsShort t
      → dir_name_is (put_dirent dir i d) j t
        ≡ (if j == i then bytes_eq d.name t else dir_name_is dir j t)
  unfolding dir_name_is
  dir_name_is-put j t hn ht = elim (Bool-cases (j == i)) [
    | inl e ↦ rw e (
        string_at-name (put_dirent dir i d) (32 * j + 4) d.name t hn.non_zero ht.non_zero
          (λ k le. ground (arith, put_dirent-name dir i j k d, ht.fits)))
    | inr e ↦ rw e (
        string_at-same (put_dirent dir i d) dir (32 * j + 4) t
          (λ k le. ground (arith, put_dirent-name dir i j k d, ht.fits)))
  ]

  pub matches-put :
      (j : ℕ) (t : Bytes)
      → IsShort d.name
      → IsShort t
      → matches (put_dirent dir i d) t j
        ≡ (if j == i then bytes_eq d.name t && d.valid else matches dir t j)
  unfolding matches dir_valid
  matches-put j t hn ht = ground (arith, dir_name_is-put j t hn ht, put_dirent-word dir i j d)

  pub dir_inode-put :
      (j : ℕ)
      → dir_inode (put_dirent dir i d) j
        ≡ (if j == i then d.inode % 1073741824 else dir_inode dir j)
  unfolding dir_inode
  dir_inode-put j = ground (arith, put_dirent-word dir i j d)

  pub dir_is_dir-put :
      (j : ℕ) → dir_is_dir (put_dirent dir i d) j ≡ (if j == i then d.is_dir else dir_is_dir dir j)
  unfolding dir_is_dir
  dir_is_dir-put j = ground (arith, put_dirent-word dir i j d)

  pub dir_valid-put :
      (j : ℕ) → dir_valid (put_dirent dir i d) j ≡ (if j == i then d.valid else dir_valid dir j)
  unfolding dir_valid
  dir_valid-put j = ground (arith, put_dirent-word dir i j d)

  -- An entry that is written into a directory's block reads back, for names of at most 27 bytes
  -- that are not NUL: it is found by its name if it is valid, and has its inode number in 30 bits and its directory flag. Every other
  -- entry reads as before.
  pub put_dirent_lem :
      (j : ℕ) (t : Bytes)
      → IsShort d.name
      → IsShort t
      → (matches (put_dirent dir i d) t j
          ≡ (if j == i then bytes_eq d.name t && d.valid else matches dir t j))
        × (dir_inode (put_dirent dir i d) j
            ≡ (if j == i then d.inode % 1073741824 else dir_inode dir j))
        × (dir_is_dir (put_dirent dir i d) j ≡ (if j == i then d.is_dir else dir_is_dir dir j))
  put_dirent_lem j t hn ht = (matches-put j t hn ht, dir_inode-put j, dir_is_dir-put j)
