-- ===== src/Tree/Names.antt =====
-- Directory blocks: how entries read after `fs_rename` has written a name over one.
use cs5600_filesystem.Base.{
  ℕ, suc, ◌+◌, ◌-◌, ◌*◌, ◌≤◌, ◌<◌, ◌≡◌, refl, true, ap, [], ◌∷◌, ◌&&◌, arith, ◌==◌, if◌then◌else◌,
  Bool-cases, inl, inr, get_or, Bytes, length, bytes_eq,
}
use cs5600_filesystem.Memory.{Block, word, copy_bytes, string_at}
use cs5600_filesystem.Tree.{matches}
use cs5600_filesystem.Tree.Dirent.{dir_valid, dir_is_dir, dir_inode, dir_name_is}
use cs5600_filesystem.Tree.Entries.{IsShort, IsNonZero, string_at-same, at_start, at_next}
use cs5600_filesystem.Ops.Rename.{put_name}

-- A name with its NUL, whatever lies behind it.
string_at-terminated :
    (a : Block) (o : ℕ) (name t : Bytes)
    → IsNonZero name
    → IsNonZero t
    → ((k : ℕ) → k ≤ length name → a (o + k) ≡ get_or name k 0)
    → string_at a o t ≡ bytes_eq name t
unfolding string_at
string_at-terminated a o [] [] hn ht h = rw (at_start a o (h 0 (omega arith)))
string_at-terminated a o (x ∷ name) [] hn ht h =
    let e : a o ≡ x = at_start a o (h 0 (omega arith)) in ground arith
string_at-terminated a o [] (y ∷ t) hn ht h =
    let e : a o ≡ 0 = at_start a o (h 0 (omega arith)) in ground arith
string_at-terminated a o (x ∷ name) (y ∷ t) hn ht h =
    let e : a o ≡ x = at_start a o (h 0 (omega arith)) in
    rw (
      e,
      string_at-terminated a (o + 1) name t hn.1 ht.1
          (λ k le. at_next a o k (h (suc k) (omega arith))),
    )

module _ (dir : Block) (i : ℕ) (name : Bytes) (short : IsShort name) where
  outside : (j c : ℕ) → c < 4 → put_name dir i name (4 * (8 * j) + c) ≡ dir (4 * (8 * j) + c)
  unfolding put_name copy_bytes
  outside j c lt = ground (arith, short.fits)

  -- The flags and the inode numbers stay.
  word-put_name : (j : ℕ) → word (put_name dir i name) (8 * j) ≡ word dir (8 * j)
  unfolding word
  word-put_name j =
      let b0 : put_name dir i name (4 * (8 * j)) ≡ dir (4 * (8 * j)) =
        ground (arith, outside j 0) in
      rw (b0, outside j 1 (omega arith), outside j 2 (omega arith), outside j 3 (omega arith))

  pub dir_valid-put_name : (j : ℕ) → dir_valid (put_name dir i name) j ≡ dir_valid dir j
  unfolding dir_valid
  dir_valid-put_name j = rw (word-put_name j)

  pub dir_inode-put_name : (j : ℕ) → dir_inode (put_name dir i name) j ≡ dir_inode dir j
  unfolding dir_inode
  dir_inode-put_name j = rw (word-put_name j)

  pub dir_is_dir-put_name : (j : ℕ) → dir_is_dir (put_name dir i name) j ≡ dir_is_dir dir j
  unfolding dir_is_dir
  dir_is_dir-put_name j = rw (word-put_name j)

  dir_name_is-put_name :
      (j : ℕ) (t : Bytes)
      → IsShort t
      → dir_name_is (put_name dir i name) j t
        ≡ (if j == i then bytes_eq name t else dir_name_is dir j t)
  unfolding dir_name_is put_name copy_bytes
  dir_name_is-put_name j t tok = elim (Bool-cases (j == i)) [
    | inl e ↦ rw e (
        string_at-terminated (put_name dir i name) (32 * j + 4) name t short.non_zero tok.non_zero
          (λ k le.
            let place : 32 * j + 4 + k - (32 * i + 4) ≡ k = ground arith in
            ground (arith, ap (λ k. get_or name k 0) place)))
    | inr e ↦ rw e (
        string_at-same (put_name dir i name) dir (32 * j + 4) t
          (λ k le. ground (arith, tok.fits, short.fits)))
  ]

  -- The entry has the new name, and no other entry changes.
  pub matches-put_name :
      (j : ℕ) (t : Bytes)
      → IsShort t
      → matches (put_name dir i name) t j
        ≡ (if j == i then bytes_eq name t && dir_valid dir j else matches dir t j)
  unfolding matches
  matches-put_name j t tok = rw (dir_name_is-put_name j t tok, dir_valid-put_name j) (ground arith)

string_at_unique :
    (a : Block) (o : ℕ) (t u : Bytes)
    → IsNonZero t
    → IsNonZero u
    → string_at a o t ≡ true
    → string_at a o u ≡ true
    → t ≡ u
unfolding string_at
string_at_unique a o [] [] ht hu e f = refl
string_at_unique a o [] (y ∷ u) ht hu e f = absurd (ground (arith, hu.0))
string_at_unique a o (x ∷ t) [] ht hu e f = absurd (ground (arith, ht.0))
string_at_unique a o (x ∷ t) (y ∷ u) ht hu e f =
    let first : x ≡ y = ground arith in
    let rest : t ≡ u = string_at_unique a (o + 1) t u ht.1 hu.1 (ground arith) (ground arith) in cc

-- An entry has one name.
pub matches_unique :
    (dir : Block) (i : ℕ) (t u : Bytes)
    → IsShort t
    → IsShort u
    → matches dir t i ≡ true
    → matches dir u i ≡ true
    → t ≡ u
unfolding matches dir_name_is
matches_unique dir i t u ht hu e f =
    string_at_unique dir (32 * i + 4) t u ht.non_zero hu.non_zero (ground arith) (ground arith)
