-- ===== src/Tree/Held.antt =====
-- What the valid entries of directories hold, whatever their names are.
use cs5600_filesystem.Base.{ℕ, ◌<◌, ◌≡◌, Bool, true}
use cs5600_filesystem.State.{Fs}
use cs5600_filesystem.Tree.Dirent.{dir_valid, dir_is_dir, dir_inode}
use cs5600_filesystem.Tree.Lookup.{dir_of, IsEntry-valid}
use cs5600_filesystem.Tree.Leads.{InTree, root, child}

-- A number is the root's, or stands in a valid entry of a directory that is held itself.
pub data IsHeld (s : Fs) : ℕ → Bool → Type 0 where
  at_root : IsHeld s 1 true
  within :
      {n : ℕ} (i : ℕ)
      → IsHeld s n true
      → i < 32
      → dir_valid (dir_of s n) i ≡ true
      → IsHeld s (dir_inode (dir_of s n) i) (dir_is_dir (dir_of s n) i)

-- What can be reached by names is held.
pub InTree-IsHeld : {s : Fs} {n : ℕ} {b : Bool} → InTree s n b → IsHeld s n b
InTree-IsHeld root = at_root
InTree-IsHeld (child t i reach entry) =
    within i (InTree-IsHeld reach) entry.in_block (IsEntry-valid _ t i entry.named)
