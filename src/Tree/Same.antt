-- ===== src/Tree/Same.antt =====
-- Two states with the same directories resolve paths in the same way.
use cs5600_filesystem.Base.{ℕ, ◌≡◌, Bool, true, List, Bytes, arith}
use cs5600_filesystem.Base.Int.{ℤ}
use cs5600_filesystem.State.{Fs, ok}
use cs5600_filesystem.State.Inode.{field, w_direct}
use cs5600_filesystem.Tree.{translate}
use cs5600_filesystem.Tree.Lookup.{
  HasDir, dir_of, Lacks, IsEntry, Resolves, arrived, not_dir, missing, enter, translate_iff,
}
use cs5600_filesystem.Tree.Leads.{InTree, root, child}
use cs5600_filesystem.Tree.Dirent.{dir_inode, dir_is_dir}

-- The directories that can be reached in `s` lie at the same place in `t` and have the same entries.
pub record AreSameDirs (s t : Fs) : Type 0 where
  pub nblks : t.nblks ≡ s.nblks
  pub inode_region_sz : t.inode_region_sz ≡ s.inode_region_sz
  pub block : (n : ℕ) → InTree s n true → field t n w_direct ≡ field s n w_direct
  pub entries : (n : ℕ) → InTree s n true → dir_of t n ≡ dir_of s n

module _ {s t : Fs} (same : AreSameDirs s t) where
  HasDir-same : {n : ℕ} → InTree s n true → HasDir s n → HasDir t n
  HasDir-same {n} reach h = record {
    in_region = omega (arith, h.in_region, same.inode_region_sz);
    on_disk = omega (arith, h.on_disk, same.nblks, same.block n reach);
  }

  Resolves-same :
      {n : ℕ} {d : Bool} {ts : List Bytes} {r : ℤ}
      → InTree s n d
      → Resolves s n d ts r
      → Resolves t n d ts r
  Resolves-same reach arrived = arrived
  Resolves-same reach not_dir = not_dir
  Resolves-same reach (missing {n} {t = name} h lacks) =
      let lacks' : Lacks (dir_of t n) name = rw (same.entries n reach) lacks in
      missing (HasDir-same reach h) lacks'
  Resolves-same reach (enter {n} {t = name} {ts} {r} i h entry rest) =
      let e = same.entries n reach in
      let entry' : IsEntry (dir_of t n) name i = rw e entry in
      let rest' : Resolves t (dir_inode (dir_of t n) i) (dir_is_dir (dir_of t n) i) ts r =
        rw e (Resolves-same (child name i reach entry) rest) in
      enter i (HasDir-same reach h) entry' rest'

  -- What can be reached in `t` could be reached in `s`.
  pub InTree-same_dirs : {n : ℕ} {d : Bool} → InTree t n d → InTree s n d
  InTree-same_dirs root = root
  InTree-same_dirs (child {n} name i reach entry) =
      let was = InTree-same_dirs reach in
      let e = same.entries n was in
      let entry' : IsEntry (dir_of s n) name i = rw e at entry in rw e (child name i was entry')

  -- A path translates to the same number, an inode or an error.
  pub translate-same_dirs :
      (path : Bytes) (r : ℤ) → translate path s ≡ ok r s → translate path t ≡ ok r t
  translate-same_dirs path r e =
      (translate_iff t path r).1 (Resolves-same root ((translate_iff s path r).0 e))
