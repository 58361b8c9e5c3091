-- ===== src/Mount.antt =====
-- The invariant of a mounted file system: memory and disk agree, and what the inodes point to lies
-- behind the metadata.
pub mod Steps
pub mod Inodes
pub mod Attr
pub mod Create
pub mod Rename
pub mod Init
pub mod Getattr
pub mod Truncate
pub mod Unlink
pub mod Write
pub mod Keeps
pub mod Session
use cs5600_filesystem.Base.{ℕ, ◌+◌, ◌*◌, ◌/◌, ◌%◌, ◌^◌, ◌≤◌, ◌<◌, ◌≡◌, ◌≢◌, ◌⊎◌, true}
use cs5600_filesystem.Memory.{fd_isset}
use cs5600_filesystem.State.{Fs}
use cs5600_filesystem.State.Inode.{field, w_direct}

-- The first block behind the inodes: the superblock, the two maps and the inodes come before it.
abbrev pub data_start : Fs → ℕ
data_start g = 1 + g.inode_map_sz + g.block_map_sz + g.inode_region_sz

-- A state `s` has the geometry of `g`: the sizes that `fs_init` read. Block numbers fit an `int`.
abbrev pub IsSized : Fs → Fs → Type 0
IsSized g s =
    (s.nblks ≡ g.nblks)
    × (s.inode_map_sz ≡ g.inode_map_sz)
    × (s.block_map_sz ≡ g.block_map_sz)
    × (s.inode_region_sz ≡ g.inode_region_sz)
    × (s.num_of_blocks ≡ g.num_of_blocks)
    × (g.nblks ≤ 2 ^ 31)

-- The superblock, the maps and the inodes are marked as used.
abbrev pub IsReserved : Fs → Fs → Type 0
IsReserved g s = (i : ℕ) → i < data_start g → fd_isset i s.block_map ≡ true

-- A direct block of an inode is absent, or lies behind the inodes.
abbrev pub IsPointed : Fs → Fs → Type 0
IsPointed g s =
    (n j : ℕ)
    → n < g.inode_region_sz * 16
    → j < 6
    → (field s n (w_direct + j) ≡ 0) ⊎ (data_start g ≤ field s n (w_direct + j))

-- The disk's copy of the maps is that of the memory.
pub record AreMapsSaved (g s : Fs) : Type 0 where
  pub inode_map : (k : ℕ) → k < g.inode_map_sz → s.disk (1 + k) ≡ s.inode_map k
  pub block_map : (k : ℕ) → k < g.block_map_sz → s.disk (1 + g.inode_map_sz + k) ≡ s.block_map k

-- The disk's copy of the inodes is that of the memory, but for the inode block `m`.
abbrev pub AreInodesSavedBut : ℕ → Fs → Fs → Type 0
AreInodesSavedBut m g s =
    (k : ℕ)
    → k < g.inode_region_sz
    → k ≢ m
    → s.disk (1 + g.inode_map_sz + g.block_map_sz + k) ≡ s.inode_region k

abbrev pub AreInodesSaved : Fs → Fs → Type 0
AreInodesSaved g s =
    (k : ℕ)
    → k < g.inode_region_sz
    → s.disk (1 + g.inode_map_sz + g.block_map_sz + k) ≡ s.inode_region k

-- What holds between FD_SET and `update_bitmap`.
pub record IsSound (g s : Fs) : Type 0 where
  pub sized : IsSized g s
  pub reserved : IsReserved g s
  pub pointed : IsPointed g s
  pub inodes : AreInodesSaved g s

pub record IsMounted (g s : Fs) : Type 0 where
  pub sound : IsSound g s
  pub maps : AreMapsSaved g s

-- What holds between a write to an inode and `update_inode`; `m` is the inode block.
pub record IsDirty (m : ℕ) (g s : Fs) : Type 0 where
  pub sized : IsSized g s
  pub reserved : IsReserved g s
  pub pointed : IsPointed g s
  pub maps : AreMapsSaved g s
  pub inodes : AreInodesSavedBut m g s

-- A value that a field may take: a direct block is zero, or lies behind the metadata.
abbrev pub IsGoodField : Fs → ℕ → ℕ → Type 0
IsGoodField g f v =
    (j : ℕ) → j < 6 → w_direct + j ≡ f → (v % 2 ^ 32 ≡ 0) ⊎ (data_start g ≤ v % 2 ^ 32)
