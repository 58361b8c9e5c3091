-- ===== src/Ops/Stored.antt =====
-- Successful runs of `store_inode` and `add_entry`, the steps that `fs_mknod` and `fs_mkdir` share.
use cs5600_filesystem.Base.{
  ℕ, ◌+◌, ◌*◌, ◌/◌, ◌%◌, ◌^◌, ◌≤◌, ◌<◌, ◌≡◌, ◌≢◌, refl, Bool, true, not, ◌&&◌, Option, some, List,
  arith, Bytes, get_or, ltb, leb, ◌==◌, if◌then◌else◌, lt→ltb, length,
}
use cs5600_filesystem.Memory.{fd_isset, fd_set, fd_isset-fd_set}
use cs5600_filesystem.Names.{get_name}
use cs5600_filesystem.State.{Fs, ok, and_then}
use cs5600_filesystem.State.Device.{image_write}
use cs5600_filesystem.State.Bitmap.{set_inode_bit, update_bitmap}
use cs5600_filesystem.State.Inode.{field, w_direct, update_inode}
use cs5600_filesystem.State.Post.{
  after, put_disk, saved, write_block-ok, with_inode, put_inode-ok, field-with_inode,
}
use cs5600_filesystem.Tree.Lookup.{dir_of, inode_at-ok, read_dir-ok}
use cs5600_filesystem.Tree.Dirent.{put_dirent}
use cs5600_filesystem.Mount.{data_start}
use cs5600_filesystem.Ops.Create.{or_fault, assert, new_dirent, store_inode, add_entry}

set_inode_bit-ok :
    (s : Fs) (k : ℕ)
    → k < s.inode_map_sz * 8192
    → set_inode_bit k s ≡ ok tt (record s { inode_map = fd_set k s.inode_map })
unfolding set_inode_bit
set_inode_bit-ok s k h = rw (lt→ltb _ _ h)

pub update_bitmap-ok :
    (s : Fs) → 1 + s.inode_map_sz + s.block_map_sz ≤ s.nblks → update_bitmap s ≡ ok tt (saved s)
unfolding update_bitmap image_write
update_bitmap-ok s h =
    let a : leb (1 + s.inode_map_sz) s.nblks ≡ true = ground arith in
    let b : (not (1 + s.inode_map_sz == 0) && leb (1 + s.inode_map_sz + s.block_map_sz) s.nblks)
        ≡ true =
      ground arith in
    rw (a, and_then) (rw b)

-- The state after the inode `k` is stored in `s`.
pub record Stored (s : Fs) (k : ℕ) (words : List ℕ) (t : Fs) : Type 0 where
  pub nblks : t.nblks ≡ s.nblks
  pub inode_map_sz : t.inode_map_sz ≡ s.inode_map_sz
  pub block_map_sz : t.block_map_sz ≡ s.block_map_sz
  pub inode_region_sz : t.inode_region_sz ≡ s.inode_region_sz
  pub num_of_blocks : t.num_of_blocks ≡ s.num_of_blocks
  pub block_map : t.block_map ≡ s.block_map
  pub inode_map :
      (j : ℕ) → fd_isset j t.inode_map ≡ (if j == k then true else fd_isset j s.inode_map)
  pub fields :
      (m f : ℕ) → f < 16 → field t m f ≡ (if m == k then get_or words f 0 % 2 ^ 32 else field s m f)
  pub blocks : (b : ℕ) → data_start s ≤ b → t.disk b ≡ s.disk b

abbrev stored : Fs → ℕ → List ℕ → Fs
stored s k words =
    let t = with_inode (saved (record s { inode_map = fd_set k s.inode_map })) k words in
    put_disk t (1 + s.inode_map_sz + s.block_map_sz + k / 16) (t.inode_region (k / 16))

store_inode-stored :
    (s : Fs) (k : ℕ) (words : List ℕ)
    → k < s.inode_map_sz * 8192
    → k < s.inode_region_sz * 16
    → data_start s ≤ s.nblks
    → store_inode k words s ≡ ok tt (stored s k words)
unfolding store_inode update_inode
store_inode-stored s k words in_map in_region fits =
    let s₁ : Fs = record s { inode_map = fd_set k s.inode_map } in
    after _ (set_inode_bit-ok s k in_map) (
      after _ (update_bitmap-ok s₁ (omega arith)) (
        after _ (inode_at-ok (saved s₁) k in_region) (
          after _ (put_inode-ok (saved s₁) k words)
            (write_block-ok (with_inode (saved s₁) k words) _ _ (omega arith) (omega arith)))))

stored-Stored :
    (s : Fs) (k : ℕ) (words : List ℕ)
    → k < s.inode_region_sz * 16
    → Stored s k words (stored s k words)
unfolding field
stored-Stored s k words in_region = record {
  nblks = refl;
  inode_map_sz = refl;
  block_map_sz = refl;
  inode_region_sz = refl;
  num_of_blocks = refl;
  block_map = refl;
  inode_map = λ j. fd_isset-fd_set k j s.inode_map;
  fields = λ m f small.
      field-with_inode (saved (record s { inode_map = fd_set k s.inode_map })) k m f words small;
  blocks = λ b far. ground arith;
}

or_fault-ok : {A : Type 0} (o : Option A) (s : Fs) {a : A} → o ≡ some a → or_fault o s ≡ ok a s
or_fault-ok o s e = rw e

assert-ok : (b : Bool) (s : Fs) → b ≡ true → assert b s ≡ ok tt s
assert-ok b s e = rw e

pub add_entry-ok :
    (s : Fs) (father i inum : ℕ) (is_dir : Bool) (path : Bytes) {name : Bytes}
    → get_name path ≡ some name
    → length name < 28
    → field s father w_direct ≢ 0
    → field s father w_direct + 1 ≤ s.nblks
    → add_entry father i is_dir inum path s
      ≡ ok tt (
          put_disk s
            (field s father w_direct)
            (put_dirent (dir_of s father) i (new_dirent is_dir inum name)))
unfolding add_entry
add_entry-ok s father i inum is_dir path {name} e short ne fits =
    after _ (or_fault-ok (get_name path) s e) (
      after _ (assert-ok (ltb (length name) 28) s (lt→ltb _ _ short))
        (after _ (read_dir-ok s father fits) (write_block-ok s _ _ ne fits)))

-- An inode whose number the map and the region have room for is stored.
pub store_inode-ok :
    (s : Fs) (k : ℕ) (words : List ℕ)
    → k < s.inode_map_sz * 8192
    → k < s.inode_region_sz * 16
    → data_start s ≤ s.nblks
    → (t : Fs) × (store_inode k words s ≡ ok tt t) × Stored s k words t
store_inode-ok s k words in_map in_region fits = (
  stored s k words,
  store_inode-stored s k words in_map in_region fits,
  stored-Stored s k words in_region,
)
