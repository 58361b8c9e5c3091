-- ===== src/Mount/Getattr.antt =====
-- `fs_getattr`, which reads the maps and the inodes from the disk again before it translates.
use cs5600_filesystem.Base.{
  ℕ, ◌+◌, ◌*◌, ◌/◌, ◌%◌, ◌^◌, ◌<◌, ◌≤◌, ltb, true, ◌≡◌, refl, ap, ◌∙◌, ◌⊎◌, inl, inr, Bool, Bytes,
  List, some, none, arith,
}
use cs5600_filesystem.Base.Int.{ℤ, pos, quot, signed32, enoent, enotdir}
use cs5600_filesystem.State.{Fs, ok}
use cs5600_filesystem.State.Device.{fs_init}
use cs5600_filesystem.State.Inode.{
  field, w_direct, w_ids, w_mode, w_size, w_mtime, w_ctime, Stat, set_attr,
}
use cs5600_filesystem.State.Post.{after}
use cs5600_filesystem.Tree.{translate}
use cs5600_filesystem.Tree.Lookup.{
  HasDir, dir_of, Resolves, arrived, not_dir, missing, enter, translate_iff, inode_at-ok,
}
use cs5600_filesystem.Tree.Total.{IsReadable, Outcome, found, no_entry, no_dir, translate-Outcome}
use cs5600_filesystem.Mount.{IsMounted}
use cs5600_filesystem.Mount.Init.{IsDescribed, IsSameFs, fs_init-IsSameFs}
use cs5600_filesystem.Ops.Attr.{fs_getattr}

module _ {s t : Fs} (same : IsSameFs s t) where
  pub field-IsSameFs : (n f : ℕ) → n < s.inode_region_sz * 16 → field t n f ≡ field s n f
  unfolding field
  field-IsSameFs n f lt = rw (same.inode_region (n / 16) (omega arith)) refl

  dir_of-IsSameFs : (n : ℕ) → HasDir s n → dir_of t n ≡ dir_of s n
  dir_of-IsSameFs n h =
      ap (λ b. t.disk (b + 0)) (field-IsSameFs n w_direct h.in_region)
      ∙ ap (λ d. d (field s n w_direct + 0)) same.disk

  HasDir-IsSameFs : (n : ℕ) → HasDir s n → HasDir t n
  HasDir-IsSameFs n h = record {
    in_region = omega (arith, same.inode_region_sz, h.in_region);
    on_disk = omega (arith, same.nblks, h.on_disk, field-IsSameFs n w_direct h.in_region);
  }

  -- Paths resolve as before.
  Resolves-IsSameFs :
      {n : ℕ} {d : Bool} {ts : List Bytes} {r : ℤ} → Resolves s n d ts r → Resolves t n d ts r
  Resolves-IsSameFs arrived = arrived
  Resolves-IsSameFs not_dir = not_dir
  Resolves-IsSameFs (missing {n} h lacks) =
      missing (HasDir-IsSameFs n h) (rw (dir_of-IsSameFs n h) lacks)
  Resolves-IsSameFs (enter {n} i h entry rest) =
      let e = dir_of-IsSameFs n h in
      enter i (HasDir-IsSameFs n h) (rw e entry) (rw e (Resolves-IsSameFs rest))

  set_attr-IsSameFs : (n : ℕ) → n < s.inode_region_sz * 16 → set_attr t n ≡ set_attr s n
  unfolding set_attr
  set_attr-IsSameFs n lt =
      let ids = field-IsSameFs n w_ids lt in
      let mode = field-IsSameFs n w_mode lt in
      let size = field-IsSameFs n w_size lt in
      let mtime = field-IsSameFs n w_mtime lt in
      let ctime = field-IsSameFs n w_ctime lt in rw (ids, mode, size, mtime, ctime)

  translate-IsSameFs :
      (path : Bytes) (r : ℤ) → translate path s ≡ ok r s → translate path t ≡ ok r t
  translate-IsSameFs path r e =
      (translate_iff t path r).1 (Resolves-IsSameFs ((translate_iff s path r).0 e))

-- The attributes of an inode: owner and group are the halves of a word, the size is counted in blocks
-- of 1024 bytes as well, rounded up, and the time of the last access is that of the last change of the
-- content.
pub record IsStat (s : Fs) (n : ℕ) (st : Stat) : Type 0 where
  pub mode : st.st_mode ≡ field s n w_mode
  pub user : st.st_uid < 65536
  pub ids : 65536 * st.st_gid + st.st_uid ≡ field s n w_ids
  pub size : field s n w_size < 2 ^ 31 → st.st_size ≡ pos (field s n w_size)
  pub blocks :
      field s n w_size + 1023 < 2 ^ 31
      → (k : ℕ) × (st.st_blocks ≡ pos k)
        × (field s n w_size ≤ 1024 * k)
        × (1024 * k < field s n w_size + 1024)
  pub links : st.st_nlink ≡ 1
  pub accessed : st.st_atime ≡ field s n w_mtime
  pub modified : st.st_mtime ≡ field s n w_mtime
  pub changed : st.st_ctime ≡ field s n w_ctime

signed32-small : (n : ℕ) → n < 2 ^ 31 → signed32 n ≡ pos n
signed32-small n lt = let small : ltb n (2 ^ 31) ≡ true = ground arith in rw small refl

quot-blocks : (n : ℕ) → n < 2 ^ 31 → quot (signed32 (n % 2 ^ 32)) 1024 ≡ pos (n / 1024)
quot-blocks n lt =
    let same : n % 2 ^ 32 ≡ n = omega arith in
    ap (λ m. quot (signed32 m) 1024) same ∙ ap (λ z. quot z 1024) (signed32-small n lt)

set_attr-IsStat : (s : Fs) (n : ℕ) → IsStat s n (set_attr s n)
unfolding set_attr
set_attr-IsStat s n = record {
  mode = refl;
  user = omega arith;
  ids = omega arith;
  size = signed32-small (field s n w_size);
  blocks = λ small. (
    (field s n w_size + 1023) / 1024,
    quot-blocks (field s n w_size + 1023) small,
    omega arith,
    omega arith,
  );
  links = refl;
  accessed = refl;
  modified = refl;
  changed = refl;
}

-- The error of the path, or the attributes of the inode it leads to.
abbrev pub GivesAttr : Fs → Bytes → Fs → Type 0
GivesAttr s path t =
    ((r : ℤ) × ((r ≡ enoent) ⊎ (r ≡ enotdir))
      × (translate path s ≡ ok r s)
      × (fs_getattr path s ≡ ok (r, none) t))
    ⊎ ((n : ℕ) × (st : Stat) × (translate path s ≡ ok (pos n) s)
        × IsStat s n st
        × (fs_getattr path s ≡ ok (pos 0, some st) t))

fs_getattr-Outcome :
    {s t : Fs} (path : Bytes) (r : ℤ)
    → fs_init s ≡ ok tt t
    → IsSameFs s t
    → IsReadable s
    → translate path s ≡ ok r s
    → Outcome s r
    → GivesAttr s path t
unfolding fs_getattr
fs_getattr-Outcome path r run same h e no_entry =
    inl (enoent, inl refl, e, after _ run (after _ (translate-IsSameFs same path enoent e) refl))
fs_getattr-Outcome path r run same h e no_dir =
    inl (enotdir, inr refl, e, after _ run (after _ (translate-IsSameFs same path enotdir e) refl))
fs_getattr-Outcome {s} {t} path r run same h e (found {n} reach) =
    let inside : n < t.inode_region_sz * 16 = omega (arith, same.inode_region_sz, h.inode reach) in
    inr (
      n,
      set_attr s n,
      e,
      set_attr-IsStat s n,
      after _ run (
          after _ (translate-IsSameFs same path (pos n) e) (
            after _ (inode_at-ok t n inside)
              (ap (λ a. ok (pos 0, some a) t) (set_attr-IsSameFs same n (h.inode reach))))),
    )

-- On a mounted file system that the superblock describes, and whose tree is readable, `fs_getattr`
-- returns the error of the path, -ENOENT or -ENOTDIR, or the attributes of the inode that the path
-- leads to: its mode, the two ids, which are the halves of a word, the size, the blocks for it,
-- where these fit an `int`, one link, the modification time, also as the access time, and the
-- change time. The disk, the sizes, and the maps and inodes in memory stay as they are.
pub fs_getattr-GivesAttr :
    (s : Fs) (path : Bytes)
    → IsMounted s s
    → IsDescribed s
    → IsReadable s
    → (t : Fs) × IsSameFs s t × GivesAttr s path t
fs_getattr-GivesAttr s path mounted described h =
    let (t, run, same) = fs_init-IsSameFs s mounted described in
    let (r, e, out) = translate-Outcome s path h in
    (t, same, fs_getattr-Outcome path r run same h e out)
