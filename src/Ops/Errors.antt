-- ===== src/Ops/Errors.antt =====
-- The results of operations and the state they leave.
use cs5600_filesystem.Base.{
  ℕ, ◌≡◌, refl, ◌⊎◌, inl, inr, false, not, Option, none, some, Bytes, bytes_eq,
}
use cs5600_filesystem.Base.Search.{first_index}
use cs5600_filesystem.Base.Int.{ℤ, pos, exceeds, is_negative, lookup_failed, ℤ_eq}
use cs5600_filesystem.Names.{trancate_path, get_name, strip}
use cs5600_filesystem.State.{Run-cases, and_then, Fs, Env, Run, Cmd, ok, fault}
use cs5600_filesystem.State.Bitmap.{index, set_inode_bit, update_bitmap}
use cs5600_filesystem.State.Inode.{
  field, w_mode, w_size, w_direct, w_indir_1, w_indir_2, set_field, update_inode, is_reg, is_dir,
  inode_at,
}
use cs5600_filesystem.State.Post.{
  Post, returns, faults, bind, mono, branch, on_option, inode_at-Post, read_block-Post,
}
use cs5600_filesystem.State.Alloc.{find_free_inode_map_bit-Post}
use cs5600_filesystem.Tree.{translate, read_dir, find_free_dirent_num}
use cs5600_filesystem.Tree.Dirent.{dir_valid}
use cs5600_filesystem.Tree.Lookup.{translate-same}
use cs5600_filesystem.Ops.Create.{or_fault, make_node, fs_mknod, store_inode, new_inode, add_entry}
use cs5600_filesystem.Ops.Remove.{
  fs_truncate, truncate_inode, fs_rmdir, truncate_direct, when_larger, truncate_2nd_level,
  truncate_3rd_level, drop_name,
}
use cs5600_filesystem.Ops.Rename.{fs_rename, rename_entries}

-- The result is 0, or the state is that before the call.
abbrev pub Undone : Fs → Run ℤ → Type 0
Undone s run = Post (λ r t. (r ≡ pos 0) ⊎ (t ≡ s)) run

-- A command that only looks at the state.
abbrev pub Looks : {A : Type 0} → Fs → Run A → Type 0
Looks s run = Post (λ _ t. t ≡ s) run

look :
    {A : Type 0} {s : Fs} {run : Run A} (k : A → Cmd ℤ)
    → Looks s run
    → ((a : A) → Undone s (k a s))
    → Undone s (and_then run k)
look k h next = bind h λ a t e. rw e (next a)

-- A run with the result 0, if it ends.
abbrev Succeeds : Run ℤ → Type 0
Succeeds run = Post (λ r _. r ≡ pos 0) run

any : {A : Type 0} (run : Run A) → Post (λ _ _. Unit {0}) run
any (ok a t) = returns tt
any fault = faults

Succeeds-Undone : {s : Fs} {run : Run ℤ} → Succeeds run → Undone s run
Succeeds-Undone h = mono h λ r t e. inl e

pub translate-Looks : (s : Fs) (path : Bytes) → Looks s (translate path s)
translate-Looks s path = elim (Run-cases (translate path s)) [
  | inl e ↦ rw e faults
  | inr (r, t, e) ↦ rw e (returns (translate-same s path e))
]

pub inode_at-Looks : (s : Fs) (inum : ℤ) → Looks s (inode_at inum s)
inode_at-Looks s inum = mono (inode_at-Post s inum) λ n t h. h.0

pub read_dir-Looks : (s : Fs) (n : ℕ) → Looks s (read_dir n s)
unfolding read_dir
read_dir-Looks s n = read_block-Post s _

find_free_dirent_num-Looks : (s : Fs) (n : ℕ) → Looks s (find_free_dirent_num n s)
unfolding find_free_dirent_num
find_free_dirent_num-Looks s n = bind (read_dir-Looks s n) λ dir t e. returns e

pub or_fault-Looks : {A : Type 0} (s : Fs) (o : Option A) → Looks s (or_fault o s)
or_fault-Looks s none = faults
or_fault-Looks s (some a) = returns refl

-- From the search for an inode on, `fs_mknod` fails only before it changes anything.
make_node-Undone :
    (env : Env) (s : Fs) (path : Bytes) (mode father i : ℕ)
    → Undone s (make_node env path mode father i s)
unfolding make_node
make_node-Undone env s path mode father i = look _ (find_free_inode_map_bit-Post s) λ free.
    branch (is_negative free) _ _ s (λ _. returns (inr refl))
      λ _. Succeeds-Undone (
        bind (any (index free s)) λ inum s₁ _.
          bind (any (store_inode inum (new_inode env mode 0) s₁))
            λ _ s₂ _. bind (any (add_entry father i false inum path s₂)) λ _ s₃ _. returns refl)

fs_mknod-Undone :
    (env : Env) (s : Fs) (path : Bytes) (mode : ℕ) → Undone s (fs_mknod env path mode s)
unfolding fs_mknod
fs_mknod-Undone env s path mode =
    branch (not (is_reg mode)) _ _ s (λ _. returns (inr refl))
      λ _.
        on_option (trancate_path path) _ _ s (λ _. returns (inr refl))
          λ father_path _. look _ (translate-Looks s father_path) λ dir_inum.
            branch (lookup_failed dir_inum) _ _ s (λ _. returns (inr refl))
              λ _. look _ (translate-Looks s path) λ inum.
                branch (exceeds inum 0) _ _ s (λ _. returns (inr refl))
                  λ _. look _ (inode_at-Looks s dir_inum) λ father.
                    look _ (find_free_dirent_num-Looks s father) λ free.
                      on_option free _ _ s (λ _. returns (inr refl))
                        λ i _. make_node-Undone env s path mode father i

fs_truncate-Undone : (s : Fs) (path : Bytes) (len : ℤ) → Undone s (fs_truncate path len s)
unfolding fs_truncate truncate_inode
fs_truncate-Undone s path len =
    branch (not (ℤ_eq len (pos 0))) _ _ s (λ _. returns (inr refl))
      λ _. look _ (translate-Looks s path) λ inum.
        branch (lookup_failed inum) _ _ s (λ _. returns (inr refl))
          λ _. look _ (inode_at-Looks s inum) λ n.
            branch (is_dir (field s n w_mode)) _ _ s (λ _. returns (inr refl))
              λ _. Succeeds-Undone (
                bind (any (truncate_direct 6 0 n s)) λ _ s₁ _.
                  bind (any (when_larger n 6144 w_indir_1 truncate_2nd_level s₁)) λ _ s₂ _.
                    bind (any (when_larger n 268288 w_indir_2 truncate_3rd_level s₂)) λ _ s₃ _.
                      bind (any (set_field n w_size 0 s₃)) λ _ s₄ _.
                        bind (any (set_field n w_indir_1 0 s₄)) λ _ s₅ _.
                          bind (any (set_field n w_indir_2 0 s₅))
                            λ _ s₆ _. bind (any (update_inode n s₆)) λ _ s₇ _. returns refl)

fs_rmdir-Undone : (s : Fs) (path : Bytes) → Undone s (fs_rmdir path s)
unfolding fs_rmdir
fs_rmdir-Undone s path = look _ (translate-Looks s path) λ inum.
    branch (lookup_failed inum) _ _ s (λ _. returns (inr refl))
      λ _. look _ (inode_at-Looks s inum) λ n.
        branch (is_reg (field s n w_mode)) _ _ s (λ _. returns (inr refl))
          λ _. look _ (or_fault-Looks s (trancate_path path)) λ father_path.
            look _ (read_dir-Looks s n) λ dir.
              on_option (first_index 32 0 (dir_valid dir)) _ _ s
                (λ _. Succeeds-Undone (
                  bind (any (set_inode_bit (field s n w_direct) s)) λ _ s₁ _.
                    bind (any (update_bitmap s₁)) λ _ s₂ _.
                      bind (any (set_inode_bit n s₂)) λ _ s₃ _.
                        bind (any (update_bitmap s₃)) λ _ s₄ _.
                          bind (any (or_fault (get_name (strip path)) s₄)) λ name s₅ _.
                            bind (any (translate father_path s₅)) λ father_inum s₆ _.
                              bind (any (inode_at father_inum s₆)) λ father s₇ _.
                                bind (any (drop_name father name s₇)) λ _ s₈ _. returns refl))
                (λ i _. returns (inr refl))

fs_rename-Undone : (s : Fs) (src_path dst_path : Bytes) → Undone s (fs_rename src_path dst_path s)
unfolding fs_rename
fs_rename-Undone s src_path dst_path = look _ (translate-Looks s src_path) λ src_inum.
    look _ (translate-Looks s dst_path) λ dst_inum.
      branch (is_negative src_inum) _ _ s (λ _. returns (inr refl))
        λ _.
          branch (exceeds dst_inum 0) _ _ s (λ _. returns (inr refl))
            λ _. look _ (or_fault-Looks s (trancate_path src_path)) λ src_father.
              look _ (or_fault-Looks s (trancate_path dst_path)) λ dst_father.
                branch (not (bytes_eq src_father dst_father)) _ _ s (λ _. returns (inr refl))
                  λ _. look _ (translate-Looks s src_father) λ father_inum.
                    branch (ℤ_eq father_inum (pos 0)) _ _ s (λ _. returns (inr refl))
                      λ _. Succeeds-Undone (
                        bind (any (or_fault (get_name src_path) s)) λ src_name s₁ _.
                          bind (any (or_fault (get_name dst_path) s₁)) λ dst_name s₂ _.
                            bind (any (inode_at father_inum s₂)) λ father s₃ _.
                              bind (any (read_dir father s₃)) λ dir s₄ _.
                                bind
                                  (any (
                                    rename_entries 32 0 (field s₄ father w_direct) src_name dst_name
                                      dir s₄))
                                  λ _ s₅ _. returns refl)

-- Each of `fs_mknod`, `fs_truncate`, `fs_rmdir` and `fs_rename`, if it returns, returns 0 or leaves
-- the state exactly as it was before the call: an error has changed nothing, on the disk or in
-- memory.
pub fs_mknod-fs_rename-Undone :
    (env : Env) (s : Fs) (path dst_path : Bytes) (mode : ℕ) (len : ℤ)
    → Undone s (fs_mknod env path mode s)
      × Undone s (fs_truncate path len s)
      × Undone s (fs_rmdir path s)
      × Undone s (fs_rename path dst_path s)
fs_mknod-fs_rename-Undone env s path dst_path mode len = (
  fs_mknod-Undone env s path mode,
  fs_truncate-Undone s path len,
  fs_rmdir-Undone s path,
  fs_rename-Undone s path dst_path,
)
