-- ===== src/Ops/Stamp.antt =====
-- `fs_chmod` and `fs_utime`: one field of one inode, in memory and on disk.
use cs5600_filesystem.Base.{
  ℕ, ◌+◌, ◌*◌, ◌/◌, ◌%◌, ◌^◌, ◌≤◌, ◌<◌, ◌≡◌, refl, ◌⊎◌, inl, inr, ◌&&◌, arith, ◌==◌, if◌then◌else◌,
  Bytes,
}
use cs5600_filesystem.Base.Int.{ℤ, pos, enoent, enotdir, is_negative}
use cs5600_filesystem.State.{Fs, Cmd, ok, pure, ◌>>=◌, ◌>>◌}
use cs5600_filesystem.State.Inode.{field, set_field, w_mode, w_mtime, inode_at, update_inode}
use cs5600_filesystem.State.Post.{
  after, with_field, set_field-ok, field-with_field, put_disk, write_block-ok,
}
use cs5600_filesystem.Tree.{translate}
use cs5600_filesystem.Tree.Lookup.{inode_at-ok}
use cs5600_filesystem.Tree.Total.{IsReadable, Outcome, found, no_entry, no_dir, translate-Outcome}
use cs5600_filesystem.Mount.{data_start}
use cs5600_filesystem.Ops.Attr.{fs_chmod, fs_utime}

-- The block of the inode `n` on the disk.
abbrev pub inode_block_of : Fs → ℕ → ℕ
inode_block_of s n = 1 + s.inode_map_sz + s.block_map_sz + n / 16

-- The state `t` is `s` with the field `f` of inode `n` set to `v`, and the inode's block saved.
pub record Stamped (s : Fs) (n f v : ℕ) (t : Fs) : Type 0 where
  pub fields :
      (m g : ℕ) → g < 16 → field t m g ≡ (if m == n && g == f then v % 2 ^ 32 else field s m g)
  pub disk :
      (b : ℕ) → t.disk b ≡ (if b == inode_block_of s n then t.inode_region (n / 16) else s.disk b)
  pub inode_map : t.inode_map ≡ s.inode_map
  pub block_map : t.block_map ≡ s.block_map

-- An error leaves the state; otherwise the path leads to an inode, and that inode is stamped.
abbrev pub Stamps : Fs → Bytes → (f v : ℕ) → Cmd ℤ → Type 0
Stamps s path f v run =
    ((r : ℤ) × ((r ≡ enoent) ⊎ (r ≡ enotdir)) × (translate path s ≡ ok r s) × (run s ≡ ok r s))
    ⊎ ((n : ℕ) × (translate path s ≡ ok (pos n) s)
        × (t : Fs) × (run s ≡ ok (pos 0) t)
        × Stamped s n f v t)

abbrev set_attribute : Bytes → (f v : ℕ) → Cmd ℤ
set_attribute path f v = do
  inum ← translate path
  if is_negative inum
      then pure inum
      else do n ← inode_at inum; set_field n f v; update_inode n; pure (pos 0)

abbrev stamped : Fs → (n f v : ℕ) → Fs
stamped s n f v =
    let t = with_field s n f v in put_disk t (inode_block_of s n) (t.inode_region (n / 16))

update_inode-ok :
    (s : Fs) (n : ℕ)
    → inode_block_of s n + 1 ≤ s.nblks
    → update_inode n s ≡ ok tt (put_disk s (inode_block_of s n) (s.inode_region (n / 16)))
unfolding update_inode
update_inode-ok s n h = write_block-ok s _ _ (omega arith) h

stamped-Stamped : (s : Fs) (n f v : ℕ) → f < 16 → Stamped s n f v (stamped s n f v)
unfolding field
stamped-Stamped s n f v small = record {
  fields = λ m g lt. field-with_field s n m f g v small lt;
  disk = λ b. refl;
  inode_map = refl;
  block_map = refl;
}

module _ (s : Fs) (path : Bytes) (f v : ℕ) (small : f < 16) (fits : data_start s ≤ s.nblks) where
  set_attribute-ok :
      (n : ℕ)
      → n < s.inode_region_sz * 16
      → translate path s ≡ ok (pos n) s
      → set_attribute path f v s ≡ ok (pos 0) (stamped s n f v)
  set_attribute-ok n lt e = after _ e (
      after _ (inode_at-ok s n lt) (
        after _ (set_field-ok s n f v)
          (after _ (update_inode-ok (with_field s n f v) n (omega arith)) refl)))

  set_attribute-Outcome :
      (r : ℤ)
      → IsReadable s
      → translate path s ≡ ok r s
      → Outcome s r
      → Stamps s path f v (set_attribute path f v)
  set_attribute-Outcome r h e no_entry = inl (enoent, inl refl, e, after _ e refl)
  set_attribute-Outcome r h e no_dir = inl (enotdir, inr refl, e, after _ e refl)
  set_attribute-Outcome r h e (found {n} reach) =
      inr
        (n, e, stamped s n f v, set_attribute-ok n (h.inode reach) e, stamped-Stamped s n f v small)

  set_attribute-Stamps : IsReadable s → Stamps s path f v (set_attribute path f v)
  set_attribute-Stamps h =
      let (r, e, out) = translate-Outcome s path h in set_attribute-Outcome r h e out

-- In a readable tree `fs_chmod` returns the error of the path, -ENOENT or -ENOTDIR, and changes
-- nothing; or it succeeds, and of all fields of all inodes exactly the mode of the path's inode is
-- set, in 32 bits, the inode's block goes to the disk, and the maps stay. The metadata fit the image.
pub fs_chmod-Stamps :
    (s : Fs) (path : Bytes) (mode : ℕ)
    → data_start s ≤ s.nblks
    → IsReadable s
    → Stamps s path w_mode mode (fs_chmod path mode)
unfolding fs_chmod
fs_chmod-Stamps s path mode fits h = set_attribute-Stamps s path w_mode mode (omega arith) fits h

-- In a readable tree `fs_utime` returns the error of the path, -ENOENT or -ENOTDIR, and changes
-- nothing; or it succeeds, and of all fields of all inodes exactly the modification time of the
-- path's inode is set, in 32 bits, the inode's block goes to the disk, and the maps stay. The
-- metadata fit the image.
pub fs_utime-Stamps :
    (s : Fs) (path : Bytes) (modtime : ℕ)
    → data_start s ≤ s.nblks
    → IsReadable s
    → Stamps s path w_mtime modtime (fs_utime path modtime)
unfolding fs_utime
fs_utime-Stamps s path modtime fits h =
    set_attribute-Stamps s path w_mtime modtime (omega arith) fits h
