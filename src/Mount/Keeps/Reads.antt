-- ===== src/Mount/Keeps/Reads.antt =====
-- The calls that only read: `fs_read` and `fs_readdir`, and what `fs_getattr` does after `fs_init`.
use cs5600_filesystem.Base.{ℕ, zero, suc, ◌+◌, ◌-◌, ◌*◌, ◌&&◌, ◌==◌, not, ◌∷◌, Bytes}
use cs5600_filesystem.Base.Int.{ℤ, pos, ℤ_eq}
use cs5600_filesystem.Base.Search.{first_index}
use cs5600_filesystem.Memory.{Block, word}
use cs5600_filesystem.Names.{trancate_path}
use cs5600_filesystem.State.{Fs, gets}
use cs5600_filesystem.State.Inode.{field, w_direct, inode_at, set_attr}
use cs5600_filesystem.Mount.Keeps.{
  Keeps, Keeps-if, Keeps-pure, Keeps-gets, Keeps-bind, Keeps-option,
}
use cs5600_filesystem.Mount.Keeps.Prims.{keeps, Keeps-translate, Keeps-inode_at, Keeps-read_dir}
use cs5600_filesystem.Tree.{inode_is_dir, read_dir}
use cs5600_filesystem.Tree.Dirent.{dir_valid, dir_inode}
use cs5600_filesystem.Ops.Attr.{list_entries, father_of, is_listed, fs_readdir, c_string}
use cs5600_filesystem.Ops.Read.{
  Buffer, chunk, fs_read_block, read_direct, fs_read_1st_level, read_indirect, fs_read_2nd_level,
  read_trees, fs_read_3rd_level, read_levels, fs_read,
}

module _ {P : Fs → Type 0} where
  Keeps-fs_read_block : (b off len at : ℕ) (buf : Buffer) → Keeps P (fs_read_block b off len at buf)
  unfolding fs_read_block
  Keeps-fs_read_block b off len at buf = search keeps

  Keeps-read_direct :
      (rounds i n off len at done : ℕ) (buf : Buffer)
      → Keeps P (read_direct rounds i n off len at done buf)
  unfolding read_direct
  Keeps-read_direct zero i n off len at done buf = search keeps
  Keeps-read_direct (suc r) i n off len at done buf =
      let size : ℕ = chunk 1024 off len in
      Keeps-if (len == 0) _ _ (Keeps-pure _) (
        Keeps-bind (gets (λ s. field s n (w_direct + i))) _ (Keeps-gets _) λ blk.
          Keeps-if (blk == 0) _ _ (Keeps-pure (buf, done)) (
            Keeps-bind (fs_read_block blk off size at buf) _
              (Keeps-fs_read_block blk off size at buf)
              λ buf'. Keeps-read_direct r (i + 1) n 0 (len - size) (at + size) (done + size) buf'))

  Keeps-fs_read_1st_level :
      (n offset len at : ℕ) (buf : Buffer) → Keeps P (fs_read_1st_level n offset len at buf)
  unfolding fs_read_1st_level
  Keeps-fs_read_1st_level n offset len at buf = Keeps-read_direct _ _ n _ len at 0 buf

  Keeps-read_indirect :
      (rounds i : ℕ) (tree : Block) (off len at done : ℕ) (buf : Buffer)
      → Keeps P (read_indirect rounds i tree off len at done buf)
  unfolding read_indirect
  Keeps-read_indirect zero i tree off len at done buf = search keeps
  Keeps-read_indirect (suc r) i tree off len at done buf =
      let size : ℕ = chunk 1024 off len in
      let blk : ℕ = word tree i in
      Keeps-if (len == 0) _ _ (Keeps-pure _) (
        Keeps-if (blk == 0) _ _ (Keeps-pure _) (
          Keeps-bind (fs_read_block blk off size at buf) _ (Keeps-fs_read_block blk off size at buf)
            λ buf'.
              Keeps-read_indirect r (i + 1) tree 0 (len - size) (at + size) (done + size) buf'))

  Keeps-fs_read_2nd_level :
      (root offset len at : ℕ) (buf : Buffer) → Keeps P (fs_read_2nd_level root offset len at buf)
  unfolding fs_read_2nd_level
  Keeps-fs_read_2nd_level root offset len at buf = search (keeps, Keeps-read_indirect) depth 60

  Keeps-read_trees :
      (rounds i : ℕ) (tree : Block) (off len at done : ℕ) (buf : Buffer)
      → Keeps P (read_trees rounds i tree off len at done buf)
  unfolding read_trees
  Keeps-read_trees zero i tree off len at done buf = search keeps
  Keeps-read_trees (suc r) i tree off len at done buf =
      let size : ℕ = chunk 262144 off len in
      Keeps-if (len == 0) _ _ (Keeps-pure _) (
        Keeps-bind (fs_read_2nd_level (word tree i) (off + 6144) size at buf) _
          (Keeps-fs_read_2nd_level (word tree i) (off + 6144) size at buf)
          λ result.
            Keeps-read_trees r (i + 1) tree 0 (len - size) (at + size) (done + size) result.0)

  Keeps-fs_read_3rd_level :
      (root offset len at : ℕ) (buf : Buffer) → Keeps P (fs_read_3rd_level root offset len at buf)
  unfolding fs_read_3rd_level
  Keeps-fs_read_3rd_level root offset len at buf = search (keeps, Keeps-read_trees) depth 60

  Keeps-read_levels : (n offset len : ℕ) (buf : Buffer) → Keeps P (read_levels n offset len buf)
  unfolding read_levels
  Keeps-read_levels n offset len buf =
      search (keeps, Keeps-fs_read_1st_level, Keeps-fs_read_2nd_level, Keeps-fs_read_3rd_level)
        depth 60

  pub Keeps-fs_read :
      (path : Bytes) (len offset : ℕ) (buf : Buffer) → Keeps P (fs_read path len offset buf)
  unfolding fs_read
  Keeps-fs_read path len offset buf = search (keeps, Keeps-read_levels) depth 60

  Keeps-list_entries : (rounds i : ℕ) (dir : Block) → Keeps P (list_entries rounds i dir)
  unfolding list_entries
  Keeps-list_entries zero i dir = search keeps
  Keeps-list_entries (suc r) i dir =
      let rest = Keeps-list_entries r (i + 1) dir in
      Keeps-if (not (dir_valid dir i)) _ _ rest (
        Keeps-bind (inode_at (pos (dir_inode dir i))) _ (Keeps-inode_at _) λ inum.
          Keeps-bind (gets (λ s. set_attr s inum)) _ (Keeps-gets _) λ stat.
            Keeps-bind (list_entries r (i + 1) dir) _ rest
              λ more. Keeps-pure ((c_string (1020 - 32 * i) (32 * i + 4) dir, stat) ∷ more))

  Keeps-father_of : (path : Bytes) → Keeps P (father_of path)
  unfolding father_of
  Keeps-father_of path =
      Keeps-option (trancate_path path) _ _ (Keeps-pure (pos 0)) λ father. Keeps-translate father

  Keeps-inode_is_dir : (father inum : ℤ) → Keeps P (inode_is_dir father inum)
  unfolding inode_is_dir
  Keeps-inode_is_dir father_inum inum =
      Keeps-bind (inode_at father_inum) _ (Keeps-inode_at father_inum) λ father.
        Keeps-bind (read_dir father) _ (Keeps-read_dir father) λ dir.
          Keeps-option
            (first_index 32 0 (λ i. dir_valid dir i && ℤ_eq (pos (dir_inode dir i)) inum)) _ _
            (Keeps-pure 0) λ i. Keeps-pure (dir_inode dir i)

  Keeps-is_listed : (father inum : ℤ) → Keeps P (is_listed father inum)
  unfolding is_listed
  Keeps-is_listed father inum = search (keeps, Keeps-inode_is_dir) depth 60

  pub Keeps-fs_readdir : (path : Bytes) → Keeps P (fs_readdir path)
  unfolding fs_readdir
  Keeps-fs_readdir path =
      let entries = λ (dir : Block). Keeps-list_entries 32 0 dir in
      search (keeps, Keeps-father_of, Keeps-is_listed, entries) depth 60
