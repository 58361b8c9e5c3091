-- ===== src/Mount/Init.antt =====
-- `fs_init` on the disk of a mounted file system, as `fs_getattr` runs it on every call.
use cs5600_filesystem.Base.{ℕ, ◌+◌, ◌≤◌, ◌<◌, ◌≡◌, refl, arith}
use cs5600_filesystem.Memory.{word}
use cs5600_filesystem.State.{Fs, ok, and_then}
use cs5600_filesystem.State.Device.{image_read, read_block, fs_init}
use cs5600_filesystem.Mount.{data_start, IsMounted}

-- The superblock holds the geometry, and the metadata fit the image.
pub record IsDescribed (s : Fs) : Type 0 where
  pub inode_map_sz : word (s.disk 0) 1 ≡ s.inode_map_sz
  pub inode_region_sz : word (s.disk 0) 2 ≡ s.inode_region_sz
  pub block_map_sz : word (s.disk 0) 3 ≡ s.block_map_sz
  pub num_blocks : word (s.disk 0) 4 ≡ s.num_of_blocks
  pub fits : data_start s ≤ s.nblks

-- The memory of `t` is that of `s`, inside of its allocations; the disk and the sizes are the same.
pub record IsSameFs (s t : Fs) : Type 0 where
  pub disk : t.disk ≡ s.disk
  pub nblks : t.nblks ≡ s.nblks
  pub inode_map_sz : t.inode_map_sz ≡ s.inode_map_sz
  pub block_map_sz : t.block_map_sz ≡ s.block_map_sz
  pub inode_region_sz : t.inode_region_sz ≡ s.inode_region_sz
  pub num_of_blocks : t.num_of_blocks ≡ s.num_of_blocks
  pub inode_map : (k : ℕ) → k < s.inode_map_sz → t.inode_map k ≡ s.inode_map k
  pub block_map : (k : ℕ) → k < s.block_map_sz → t.block_map k ≡ s.block_map k
  pub inode_region : (k : ℕ) → k < s.inode_region_sz → t.inode_region k ≡ s.inode_region k

abbrev pub reloaded : Fs → Fs
reloaded s = record s {
  inode_map = λ k. s.disk (1 + k);
  block_map = λ k. s.disk (s.inode_map_sz + 1 + k);
  inode_region = λ k. s.disk (1 + s.inode_map_sz + s.block_map_sz + k);
}

image_read-ok :
    (s : Fs) (first len : ℕ)
    → first + len ≤ s.nblks
    → image_read first len s ≡ ok (λ k. s.disk (first + k)) s
unfolding image_read
image_read-ok s first len h = ground arith

superblock-ok : (s : Fs) → 1 ≤ s.nblks → read_block 0 s ≡ ok (s.disk 0) s
unfolding read_block
superblock-ok s h = rw (image_read-ok s 0 1 h)

-- Only the disk counts: the memory before the call is that of any `s`.
pub fs_init-reloaded :
    (s g : Fs)
    → IsDescribed g
    → s.disk ≡ g.disk
    → s.nblks ≡ g.nblks
    → fs_init s ≡ ok tt (reloaded g)
unfolding fs_init
fs_init-reloaded s g d same_disk same_size =
    let fits : data_start g ≤ s.nblks = omega (arith, same_size, d.fits) in
    let w1 : word (s.disk 0) 1 ≡ g.inode_map_sz = rw same_disk d.inode_map_sz in
    let w2 : word (s.disk 0) 2 ≡ g.inode_region_sz = rw same_disk d.inode_region_sz in
    let w3 : word (s.disk 0) 3 ≡ g.block_map_sz = rw same_disk d.block_map_sz in
    let w4 : word (s.disk 0) 4 ≡ g.num_of_blocks = rw same_disk d.num_blocks in
    rw (superblock-ok s (omega (arith, fits)), and_then)
      (rw (w1, w2, w3, w4)
        (rw (image_read-ok s 1 g.inode_map_sz (omega (arith, fits)), and_then)
          (rw (image_read-ok s (g.inode_map_sz + 1) g.block_map_sz (omega (arith, fits)), and_then)
            (rw
              (image_read-ok s (1 + g.inode_map_sz + g.block_map_sz) g.inode_region_sz
                (omega (arith, fits)))
              (rw (same_disk, same_size))))))

-- Mounting again what is mounted: `fs_init` succeeds, and the memory is what it was.
pub fs_init-IsSameFs :
    (s : Fs) → IsMounted s s → IsDescribed s → (t : Fs) × (fs_init s ≡ ok tt t) × IsSameFs s t
fs_init-IsSameFs s h d = (
  reloaded s,
  fs_init-reloaded s s d refl refl,
  record {
    disk = refl;
    nblks = refl;
    inode_map_sz = refl;
    block_map_sz = refl;
    inode_region_sz = refl;
    num_of_blocks = refl;
    inode_map = h.maps.inode_map;
    block_map = λ k lt. ground (arith, h.maps.block_map k lt);
    inode_region = h.sound.inodes;
  },
)
