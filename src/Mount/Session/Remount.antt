-- ===== src/Mount/Session/Remount.antt =====
-- Any session on a freshly formatted image.
use cs5600_filesystem.Base.{ℕ, ◌^◌, ◌≤◌, ◌<◌, ◌≡◌, refl, arith, List, [], ◌∷◌, All, Bytes}
use cs5600_filesystem.State.{Fs, Run, ok, Cmd, pure, ◌>>◌}
use cs5600_filesystem.State.Device.{fs_init}
use cs5600_filesystem.State.Inode.{field, w_size}
use cs5600_filesystem.State.Post.{Post, returns, faults, mono}
use cs5600_filesystem.Mount.{IsMounted}
use cs5600_filesystem.Mount.Init.{IsSameFs, fs_init-IsSameFs, fs_init-reloaded}
use cs5600_filesystem.Mkfs.{rootdir_base, mkfs}
use cs5600_filesystem.Mkfs.Fresh.{
  blank, mounted, blank-IsDescribed, mounted-IsDescribed, mounted-IsMounted, field-mounted,
}
use cs5600_filesystem.Mount.Attr.{fs_chmod-IsMounted, fs_utime-IsMounted}
use cs5600_filesystem.Mount.Create.{fs_mknod-IsMounted, fs_mkdir-IsMounted}
use cs5600_filesystem.Mount.Rename.{fs_rename-IsMounted, fs_rmdir-IsMounted}
use cs5600_filesystem.Mount.Truncate.{fs_truncate-IsMounted}
use cs5600_filesystem.Mount.Unlink.{fs_unlink-IsMounted}
use cs5600_filesystem.Mount.Write.{fs_write-IsMounted}
use cs5600_filesystem.Mount.Keeps.{Changes, unchanged, Keeps, Keeps-pure, Keeps-then}
use cs5600_filesystem.Mount.Keeps.Prims.{keeps}
use cs5600_filesystem.Mount.Keeps.Calls.{
  Keeps-fs_mknod, Keeps-fs_mkdir, Keeps-fs_rename, Keeps-fs_rmdir, Keeps-fs_chmod, Keeps-fs_utime,
}
use cs5600_filesystem.Mount.Keeps.Frees.{Keeps-fs_truncate, Keeps-fs_unlink}
use cs5600_filesystem.Mount.Keeps.Reads.{Keeps-fs_read, Keeps-fs_readdir}
use cs5600_filesystem.Mount.Keeps.Writes.{Keeps-fs_write}
use cs5600_filesystem.Mount.Session.{
  Call, init, getattr, readdir, mknod, mkdir, unlink, rmdir, rename, chmod, utime, truncate, read,
  write, statfs, perform, session, IsShallow,
}
use cs5600_filesystem.Mount.Session.Served.{
  IsServed, IsFormatted, Changes-IsServed, served-IsDescribed, served-IsMounted, same-IsServed,
}
use cs5600_filesystem.Ops.Attr.{fs_getattr}

both :
    {A : Type 0} {P Q : A → Fs → Type 0} {r : Run A}
    → Post P r
    → Post Q r
    → Post (λ a t. P a t × Q a t) r
both (returns p) (returns q) = returns (p, q)
both faults q = faults

module _ {g : Fs} (formatted : IsFormatted g) where
  -- A call that keeps the file system mounted by a row of changes.
  Keeps-changed :
      {A : Type 0} (m : Cmd A)
      → ((s : Fs) → IsServed g s → Post (λ _. IsMounted g) (m s))
      → ((s₀ : Fs) → Keeps (Changes s₀) m)
      → Keeps (IsServed g) (m >> pure tt)
  Keeps-changed m mounted changes =
      Keeps-then m (pure tt)
        (record {
          at = λ {s} served.
              mono (both (mounted s served) ((changes s).at unchanged))
                λ _ t (still, h). Changes-IsServed served h still;
        })
        (Keeps-pure tt)

  Keeps-fs_init : Keeps (IsServed g) fs_init
  Keeps-fs_init = record {
    at = λ {s} served.
        let (t, run, same) =
          fs_init-IsSameFs s (served-IsMounted formatted served)
            (served-IsDescribed formatted served) in
        rw run (returns (same-IsServed formatted served same));
  }

  Keeps-fs_getattr : (path : Bytes) → Keeps (IsServed g) (fs_getattr path)
  unfolding fs_getattr
  Keeps-fs_getattr path = search (keeps, Keeps-fs_init) depth 60

  -- Every call keeps the file system in service.
  perform-IsServed : (c : Call) → IsShallow c → Keeps (IsServed g) (perform c)
  unfolding perform
  perform-IsServed init _ = Keeps-fs_init
  perform-IsServed (getattr path) _ =
      Keeps-then (fs_getattr path) _ (Keeps-fs_getattr path) (Keeps-pure tt)
  perform-IsServed (readdir path) _ = Keeps-then _ _ (Keeps-fs_readdir path) (Keeps-pure tt)
  perform-IsServed (mknod env path mode) _ =
      Keeps-changed _ (λ s h. fs_mknod-IsMounted env path mode h.mounted)
        (λ s₀. Keeps-fs_mknod env path mode)
  perform-IsServed (mkdir env path mode) _ =
      Keeps-changed _ (λ s h. fs_mkdir-IsMounted env path mode h.mounted)
        (λ s₀. Keeps-fs_mkdir env path mode)
  perform-IsServed (unlink path) _ =
      Keeps-changed _ (λ s h. fs_unlink-IsMounted path h.small h.mounted)
        (λ s₀. Keeps-fs_unlink path)
  perform-IsServed (rmdir path) _ =
      Keeps-changed _ (λ s h. fs_rmdir-IsMounted path h.mounted) (λ s₀. Keeps-fs_rmdir path)
  perform-IsServed (rename src dst) _ =
      Keeps-changed _ (λ s h. fs_rename-IsMounted src dst h.mounted) (λ s₀. Keeps-fs_rename src dst)
  perform-IsServed (chmod path mode) _ =
      Keeps-changed _ (λ s h. fs_chmod-IsMounted path mode h.mounted)
        (λ s₀. Keeps-fs_chmod path mode)
  perform-IsServed (utime path modtime) _ =
      Keeps-changed _ (λ s h. fs_utime-IsMounted path modtime h.mounted)
        (λ s₀. Keeps-fs_utime path modtime)
  perform-IsServed (truncate path len) _ =
      Keeps-changed _ (λ s h. fs_truncate-IsMounted path len h.small h.mounted)
        (λ s₀. Keeps-fs_truncate path len)
  perform-IsServed (read path len offset buf) _ =
      Keeps-then _ _ (Keeps-fs_read path len offset buf) (Keeps-pure tt)
  perform-IsServed (write path len offset buf) shallow =
      Keeps-changed _
        (λ s h. mono (fs_write-IsMounted path len offset buf shallow h.mounted) λ r t p. p.0)
        (λ s₀. Keeps-fs_write path len offset buf shallow)
  perform-IsServed statfs _ = Keeps-pure tt

  session-IsServed : (calls : List Call) → All IsShallow calls → Keeps (IsServed g) (session calls)
  unfolding session
  session-IsServed [] _ = Keeps-pure tt
  session-IsServed (c ∷ calls) (shallow, rest) =
      Keeps-then (perform c) (session calls) (perform-IsServed c shallow)
        (session-IsServed calls rest)

module _ (n_blks t : ℕ) (some_inodes : 4 ≤ n_blks) (room : rootdir_base n_blks < n_blks)
    (small : n_blks < 2 ^ 21) where
  mounted-IsFormatted : IsFormatted (mounted n_blks t)
  mounted-IsFormatted = record {
    described = mounted-IsDescribed n_blks t some_inodes room small;
    mapped = omega arith;
  }

  root_size : (n : ℕ) → field (mounted n_blks t) n w_size ≤ 6144
  root_size n = ground (arith, field-mounted n_blks t some_inodes room small n w_size)

  mounted-IsServed : IsServed (mounted n_blks t) (mounted n_blks t)
  mounted-IsServed = record {
    mounted = mounted-IsMounted n_blks t some_inodes room small;
    superblock = refl;
    small = λ n lt. root_size n;
  }

  -- Any session on an image that `mkfs` wrote for `n_blks` blocks, at least 4 and enough for the
  -- root directory's block, and less than 2^21: `fs_init`, whatever the memory held before, and
  -- then any calls of `fs_ops`, in any order and with any arguments, where the requests of fs_write
  -- end before byte 6144 (offset plus length is less than 6144), as far as they run. After it the
  -- file system is mounted (the disk's copies of the maps and of the inodes agree with the memory,
  -- the metadata stay marked as used, and no direct block lies among them), and `fs_init` succeeds
  -- again and reads from the disk the same maps and inodes as the memory has.
  pub session-fs_init :
      (s₀ : Fs) (calls : List Call)
      → All IsShallow calls
      → Post
          (λ _ u. IsMounted (mounted n_blks t) u × (v : Fs) × (fs_init u ≡ ok tt v) × IsSameFs u v)
          (session (init ∷ calls) (record s₀ { nblks = n_blks; disk = mkfs n_blks t }))
  unfolding session perform
  session-fs_init s₀ calls shallow =
      let start : fs_init (record s₀ { nblks = n_blks; disk = mkfs n_blks t })
          ≡ ok tt (mounted n_blks t) =
        fs_init-reloaded (record s₀ { nblks = n_blks; disk = mkfs n_blks t }) (blank n_blks t)
          (blank-IsDescribed n_blks t some_inodes room small) refl refl in
      rw start (
        mono ((session-IsServed mounted-IsFormatted calls shallow).at mounted-IsServed)
          λ _ u served.
            let (v, run, same) =
              fs_init-IsSameFs u (served-IsMounted mounted-IsFormatted served)
                (served-IsDescribed mounted-IsFormatted served) in
            (served.mounted, v, run, same))
