-- ===== src/Tree/Total.antt =====
-- Readable trees, and what `translate` comes to in them.
use cs5600_filesystem.Base.{
  ℕ, ◌*◌, ◌<◌, ◌≡◌, Bool, true, false, List, [], ◌∷◌, Option-cases, inl, inr, Bytes,
}
use cs5600_filesystem.Base.Int.{ℤ, pos, enoent, enotdir}
use cs5600_filesystem.Names.{tokens}
use cs5600_filesystem.State.{Fs, ok}
use cs5600_filesystem.Tree.{find_entry, translate}
use cs5600_filesystem.Tree.Dirent.{dir_is_dir}
use cs5600_filesystem.Tree.Lookup.{
  HasDir, dir_of, Resolves, arrived, not_dir, missing, enter, find_entry-none, find_entry-some,
  translate_iff,
}
use cs5600_filesystem.Tree.Leads.{InTree, root, child}

-- The inodes that can be reached are in the inode region, and the blocks of the directories among
-- them are on the image.
pub record IsReadable (s : Fs) : Type 0 where
  pub inode : {n : ℕ} {d : Bool} → InTree s n d → n < s.inode_region_sz * 16
  pub dir : {n : ℕ} → InTree s n true → HasDir s n

-- What a walk comes to: an inode in the tree, or one of the two errors.
pub data Outcome (s : Fs) : ℤ → Type 0 where
  found : {n : ℕ} {d : Bool} → InTree s n d → Outcome s (pos n)
  no_entry : Outcome s enoent
  no_dir : Outcome s enotdir

walk-Outcome :
    (s : Fs) (ts : List Bytes) {n : ℕ} (d : Bool)
    → IsReadable s
    → InTree s n d
    → (r : ℤ) × Resolves s n d ts r × Outcome s r
walk-Outcome s [] {n} d h reach = (pos n, arrived, found reach)
walk-Outcome s (t ∷ ts) false h reach = (enotdir, not_dir, no_dir)
walk-Outcome s (t ∷ ts) {n} true h reach = elim (Option-cases (find_entry (dir_of s n) t)) [
  | inl e ↦ (enoent, missing (h.dir reach) (find_entry-none _ t e), no_entry)
  | inr (i, e) ↦
      let entry = find_entry-some (dir_of s n) t e in
      let (r, way, out) = walk-Outcome s ts (dir_is_dir (dir_of s n) i) h (child t i reach entry) in
      (r, enter i (h.dir reach) entry way, out)
]

-- In a readable tree every path translates: to an inode of the tree, to -ENOENT or to -ENOTDIR. The
-- state stays as it is.
pub translate-Outcome :
    (s : Fs) (path : Bytes) → IsReadable s → (r : ℤ) × (translate path s ≡ ok r s) × Outcome s r
translate-Outcome s path h =
    let (r, way, out) = walk-Outcome s (tokens path) true h root in
    (r, (translate_iff s path r).1 way, out)
