-- ===== src/Mount/Keeps/Calls.antt =====
-- The operations of the file system.
use cs5600_filesystem.Base.{
  if◌then◌else◌, not, Option, none, some, ℕ, zero, suc, ◌+◌, ◌≤◌, Bytes, Bool, Bool-cases, inl, inr,
  ◌&&◌, List, arith, get_or,
}
use cs5600_filesystem.Base.Int.{ℤ, pos, enospc, enotdir, enotempty, lookup_failed}
use cs5600_filesystem.Memory.{Block}
use cs5600_filesystem.State.{Env, Fs, Cmd, pure, gets, ◌>>=◌, ◌>>◌}
use cs5600_filesystem.State.Bitmap.{set_inode_bit, update_bitmap}
use cs5600_filesystem.State.Inode.{
  w_size, w_mode, w_mtime, w_direct, field, is_reg, is_dir, inode_at,
}
use cs5600_filesystem.Mount.Keeps.{
  Changes, Keeps, Keeps-gets, Keeps-pure, Keeps-fault, Keeps-if, Keeps-then, Keeps-option,
  Keeps-bind,
}
use cs5600_filesystem.Mount.Keeps.Prims.{
  keeps, Keeps-translate, Keeps-inode_at, Keeps-or_fault, Keeps-read_dir, Keeps-put_inode,
  Keeps-set_field,
}
use cs5600_filesystem.Names.{trancate_path, get_name, strip}
use cs5600_filesystem.Tree.{translate, read_dir}
use cs5600_filesystem.Base.Search.{first_index}
use cs5600_filesystem.Tree.Dirent.{dir_valid, dir_name_is}
use cs5600_filesystem.Ops.Attr.{fs_chmod, fs_utime}
use cs5600_filesystem.Ops.Create.{
  new_inode, store_inode, add_entry, make_node, make_dir, fs_mknod, fs_mkdir, or_ifdir, or_fault,
}
use cs5600_filesystem.Ops.Remove.{drop_name, fs_rmdir}
use cs5600_filesystem.Ops.Rename.{put_name, rename_entries, fs_rename}

module _ {s₀ : Fs} where
  Keeps-store_inode :
      (n : ℕ) (words : List ℕ)
      → get_or words w_size 0 ≤ 6144
      → Keeps (Changes s₀) (store_inode n words)
  unfolding store_inode
  Keeps-store_inode n words fits = search (keeps, Keeps-put_inode)

  Keeps-add_entry :
      (father i : ℕ) (is_dir : Bool) (inum : ℕ) (path : Bytes)
      → Keeps (Changes s₀) (add_entry father i is_dir inum path)
  unfolding add_entry
  Keeps-add_entry father i is_dir inum path = search keeps

  Keeps-make_node :
      (env : Env) (path : Bytes) (mode father i : ℕ)
      → Keeps (Changes s₀) (make_node env path mode father i)
  unfolding make_node
  Keeps-make_node env path mode father i =
      let stored = λ (n : ℕ). Keeps-store_inode n (new_inode env mode 0) (omega arith) in
      search (keeps, stored, Keeps-add_entry) depth 60

  Keeps-make_dir :
      (env : Env) (path : Bytes) (mode father i : ℕ)
      → Keeps (Changes s₀) (make_dir env path mode father i)
  unfolding make_dir
  Keeps-make_dir env path mode father i =
      let stored =
        λ (n : ℕ) (blk : ℕ). Keeps-store_inode n (new_inode env mode blk) (omega arith) in
      search (keeps, stored, Keeps-add_entry) depth 60

  pub Keeps-fs_mknod :
      (env : Env) (path : Bytes) (mode : ℕ) → Keeps (Changes s₀) (fs_mknod env path mode)
  unfolding fs_mknod
  Keeps-fs_mknod env path mode =
      let at_free : (father : ℕ) (free : Option ℕ)
          → Keeps (Changes s₀) (elim free as (λ _. Cmd ℤ) [
            | none ↦ pure enospc
            | some i ↦ make_node env path mode father i
          ]) =
        λ father free.
          Keeps-option free _ _ (Keeps-pure _) λ i. Keeps-make_node env path mode father i in
      Keeps-if (not (is_reg mode)) _ _ (Keeps-pure _)
        (Keeps-option (trancate_path path) _ _ (Keeps-pure _) λ p. search (keeps, at_free) depth 60)

  pub Keeps-fs_mkdir :
      (env : Env) (path : Bytes) (mode : ℕ) → Keeps (Changes s₀) (fs_mkdir env path mode)
  unfolding fs_mkdir
  Keeps-fs_mkdir env path permissions =
      let mode : ℕ = or_ifdir permissions in
      let at_free : (father : ℕ) (free : Option ℕ)
          → Keeps (Changes s₀) (elim free as (λ _. Cmd ℤ) [
            | none ↦ pure enospc
            | some i ↦ do
              father_mode ← gets (λ s. field s father w_mode)
              if not (is_dir father_mode) then pure enotdir else make_dir env path mode father i
          ]) =
        λ father free.
          Keeps-option free _ _ (Keeps-pure _) λ i. search (keeps, Keeps-make_dir) depth 60 in
      Keeps-if (not (is_dir mode)) _ _ (Keeps-pure _)
        (Keeps-option (trancate_path path) _ _ (Keeps-pure _) λ p. search (keeps, at_free) depth 60)

  Keeps-rename_entries :
      (n i blk : ℕ) (src dst : Bytes) (dir : Block)
      → Keeps (Changes s₀) (rename_entries n i blk src dst dir)
  unfolding rename_entries
  Keeps-rename_entries zero i blk src dst dir = search keeps
  Keeps-rename_entries (suc n) i blk src dst dir =
      elim (Bool-cases (dir_valid dir i && dir_name_is dir i src)) [
        | inr e ↦ rw (e, rename_entries) (Keeps-rename_entries n (i + 1) blk src dst dir)
        | inl e ↦
            let rest = Keeps-rename_entries n (i + 1) blk src dst (put_name dir i dst) in
            rw (e, rename_entries) (Keeps-if _ _ _ (Keeps-then _ _ (search keeps) rest) Keeps-fault)
      ]

  pub Keeps-fs_rename : (src dst : Bytes) → Keeps (Changes s₀) (fs_rename src dst)
  unfolding fs_rename
  Keeps-fs_rename src dst = search (keeps, Keeps-rename_entries) depth 60

  pub Keeps-drop_name : (father : ℕ) (name : Bytes) → Keeps (Changes s₀) (drop_name father name)
  unfolding drop_name
  Keeps-drop_name father name = search keeps

  pub Keeps-fs_rmdir : (path : Bytes) → Keeps (Changes s₀) (fs_rmdir path)
  unfolding fs_rmdir
  Keeps-fs_rmdir path =
      let at_end : (father_path : Bytes) (n : ℕ)
          → Keeps (Changes s₀) (do
            blk ← gets (λ s. field s n w_direct)
            set_inode_bit blk
            update_bitmap
            set_inode_bit n
            update_bitmap
            name ← or_fault (get_name (strip path))
            father_inum ← translate father_path
            father ← inode_at father_inum
            found ← drop_name father name
            pure (pos 0)) =
        λ father_path n. search (keeps, Keeps-drop_name) depth 60 in
      Keeps-bind (translate path) _ (Keeps-translate path) λ inum.
        Keeps-if (lookup_failed inum) _ _ (Keeps-pure _) (
          Keeps-bind (inode_at inum) _ (Keeps-inode_at inum) λ n.
            Keeps-bind (gets (λ s. field s n w_mode)) _ (Keeps-gets _) λ mode.
              Keeps-if (is_reg mode) _ _ (Keeps-pure enotdir) (
                Keeps-bind (or_fault (trancate_path path)) _ (Keeps-or_fault _) λ father_path.
                  Keeps-bind (read_dir n) _ (Keeps-read_dir n) λ dir.
                    Keeps-option (first_index 32 0 (dir_valid dir)) _ _ (at_end father_path n)
                      λ i. Keeps-pure enotempty))

  pub Keeps-fs_chmod : (path : Bytes) (mode : ℕ) → Keeps (Changes s₀) (fs_chmod path mode)
  unfolding fs_chmod
  Keeps-fs_chmod path mode =
      let set = λ (n : ℕ).
        Keeps-set_field {s₀ = s₀} n w_mode mode (omega arith) λ e. absurd (omega arith) in
      search (keeps, set) depth 60

  pub Keeps-fs_utime : (path : Bytes) (modtime : ℕ) → Keeps (Changes s₀) (fs_utime path modtime)
  unfolding fs_utime
  Keeps-fs_utime path modtime =
      let set = λ (n : ℕ).
        Keeps-set_field {s₀ = s₀} n w_mtime modtime (omega arith) λ e. absurd (omega arith) in
      search (keeps, set) depth 60
