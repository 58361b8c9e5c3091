-- ===== src/Tests/Invariants.antt =====
-- The invariant on the small image, after some runs.
use cs5600_filesystem.Base.Search.{first_index-none}
use cs5600_filesystem.Ops.Remove.{fs_unlink}
use cs5600_filesystem.Mount.Unlink.{fs_unlink-IsMounted}
use cs5600_filesystem.Base.{◌≤◌}
use cs5600_filesystem.Mount.Truncate.{fs_truncate-IsMounted}
use cs5600_filesystem.Ops.Remove.{fs_truncate}
use cs5600_filesystem.Tests.{with_tree, tree_small}
use cs5600_filesystem.Base.{ℕ, codes, arith, ◌<◌, ltb}
use cs5600_filesystem.Base.Int.{pos}
use cs5600_filesystem.State.{Fs, Run}
use cs5600_filesystem.Mount.{IsMounted}
use cs5600_filesystem.Ops.Create.{fs_mknod, fs_mkdir}
use cs5600_filesystem.Ops.Remove.{fs_rmdir}
use cs5600_filesystem.Ops.Rename.{fs_rename}
use cs5600_filesystem.State.Inode.{field, w_size}
use cs5600_filesystem.State.Post.{Post, returns, faults}
use cs5600_filesystem.Mount.Create.{fs_mknod-IsMounted, fs_mkdir-IsMounted}
use cs5600_filesystem.Mount.Rename.{fs_rename-IsMounted, fs_rmdir-IsMounted}
use cs5600_filesystem.Tests.{fresh, env, state_of, with_dir, fresh-IsMounted}

-- The invariant goes on to the state after a run.
pub Post-state_of :
    {A : Type 0} {P : Fs → Type 0} {r : Run A} → P fresh → Post (λ _. P) r → P (state_of r)
Post-state_of h (returns p) = p
Post-state_of h faults = h

with_dir-IsMounted : IsMounted fresh (state_of with_dir)
with_dir-IsMounted = Post-state_of fresh-IsMounted (
    fs_mkdir-IsMounted env (codes "/d") 0o755 (
      Post-state_of fresh-IsMounted (fs_mknod-IsMounted env (codes "/a") 0o100644 fresh-IsMounted)))

fs_mknod-IsMounted_example :
    Post (λ _. IsMounted fresh) (fs_mknod env (codes "/d/b") 0o100600 (state_of with_dir))
fs_mknod-IsMounted_example = fs_mknod-IsMounted env (codes "/d/b") 0o100600 with_dir-IsMounted

fs_mkdir-IsMounted_example :
    Post (λ _. IsMounted fresh) (fs_mkdir env (codes "/d/e") 0o700 (state_of with_dir))
fs_mkdir-IsMounted_example = fs_mkdir-IsMounted env (codes "/d/e") 0o700 with_dir-IsMounted

fs_rmdir-IsMounted_example : Post (λ _. IsMounted fresh) (fs_rmdir (codes "/d") (state_of with_dir))
fs_rmdir-IsMounted_example = fs_rmdir-IsMounted (codes "/d") with_dir-IsMounted

fs_rename-IsMounted_example :
    Post (λ _. IsMounted fresh) (fs_rename (codes "/a") (codes "/c") (state_of with_dir))
fs_rename-IsMounted_example = fs_rename-IsMounted (codes "/a") (codes "/c") with_dir-IsMounted

pub with_tree-IsMounted : IsMounted fresh (state_of with_tree)
with_tree-IsMounted =
    Post-state_of fresh-IsMounted
      (fs_mknod-IsMounted env (codes "/d/b") 0o100600 with_dir-IsMounted)

with_tree-small : (n : ℕ) → n < 16 → field (state_of with_tree) n w_size ≤ 6144
with_tree-small n lt = ground (
  arith,
  first_index-none (λ n. ltb 6144 (field (state_of with_tree) n w_size)) 16 0 n tree_small,
)

fs_truncate-IsMounted_example :
    Post (λ _. IsMounted fresh) (fs_truncate (codes "/d/b") (pos 0) (state_of with_tree))
fs_truncate-IsMounted_example =
    fs_truncate-IsMounted (codes "/d/b") (pos 0) with_tree-small with_tree-IsMounted

fs_unlink-IsMounted_example :
    Post (λ _. IsMounted fresh) (fs_unlink (codes "/d/b") (state_of with_tree))
fs_unlink-IsMounted_example = fs_unlink-IsMounted (codes "/d/b") with_tree-small with_tree-IsMounted
