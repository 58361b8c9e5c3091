-- ===== src/Mount/Session/Served.antt =====
-- What every call of a session keeps.
use cs5600_filesystem.Base.{true, ℕ, ◌+◌, ◌*◌, ◌/◌, ◌≤◌, ◌<◌, ◌≡◌, refl, ap, sym, ◌∙◌, arith}
use cs5600_filesystem.Memory.{fd_isset}
use cs5600_filesystem.State.{Fs}
use cs5600_filesystem.State.Inode.{field, w_size, w_direct}
use cs5600_filesystem.State.Post.{field-with_field, field-with_inode}
use cs5600_filesystem.Mount.{data_start, IsMounted}
use cs5600_filesystem.Mount.Init.{IsDescribed, IsSameFs}
use cs5600_filesystem.Mount.Getattr.{field-IsSameFs}
use cs5600_filesystem.Mount.Keeps.{
  Changes, unchanged, block, maps, inode_map, block_map, one_field, inode,
}

-- Block 0, with the superblock, is never written.
pub Changes-superblock : {s t : Fs} → Changes s t → t.disk 0 ≡ s.disk 0
Changes-superblock unchanged = refl
Changes-superblock (block b blk ne h) = ground (arith, Changes-superblock h)
Changes-superblock (maps h) = ground (arith, Changes-superblock h)
Changes-superblock (inode_map m h) = Changes-superblock h
Changes-superblock (block_map m h) = Changes-superblock h
Changes-superblock (one_field n f v small fits h) = Changes-superblock h
Changes-superblock (inode n words fits h) = Changes-superblock h

-- Sizes stay at 6144 or below.
pub Changes-small :
    {s t : Fs} (m : ℕ) → Changes s t → field s m w_size ≤ 6144 → field t m w_size ≤ 6144
unfolding field
Changes-small m unchanged le = le
Changes-small m (block b blk ne h) le = Changes-small m h le
Changes-small m (maps h) le = Changes-small m h le
Changes-small m (inode_map a h) le = Changes-small m h le
Changes-small m (block_map a h) le = Changes-small m h le
Changes-small m (one_field {t} n f v small fits h) le =
    ground (arith, field-with_field t n m f w_size v, Changes-small m h le, fits)
Changes-small m (inode {t} n words fits h) le =
    ground (arith, field-with_inode t n m w_size words, Changes-small m h le, fits)

-- A file system in service: it is mounted, its superblock is as at the start, and no inode has more
-- than 6144 bytes.
pub record IsServed (g s : Fs) : Type 0 where
  pub mounted : IsMounted g s
  pub superblock : s.disk 0 ≡ g.disk 0
  pub small : (n : ℕ) → n < g.inode_region_sz * 16 → field s n w_size ≤ 6144

pub Changes-IsServed : {g s t : Fs} → IsServed g s → Changes s t → IsMounted g t → IsServed g t
Changes-IsServed served h mounted = record {
  mounted = mounted;
  superblock = Changes-superblock h ∙ served.superblock;
  small = λ n lt. Changes-small n h (served.small n lt);
}

-- The file system of the start can be mounted again, and its block map has a bit for each block of
-- the metadata.
pub record IsFormatted (g : Fs) : Type 0 where
  pub described : IsDescribed g
  pub mapped : data_start g ≤ g.block_map_sz * 8192

module _ {g s : Fs} (formatted : IsFormatted g) (served : IsServed g s) where
  pub served-IsDescribed : IsDescribed s
  served-IsDescribed =
      let sized = served.mounted.sound.sized in
      let d = formatted.described in
      record {
        inode_map_sz = rw served.superblock (omega (arith, d.inode_map_sz, sized));
        inode_region_sz = rw served.superblock (omega (arith, d.inode_region_sz, sized));
        block_map_sz = rw served.superblock (omega (arith, d.block_map_sz, sized));
        num_blocks = rw served.superblock (omega (arith, d.num_blocks, sized));
        fits = omega (arith, d.fits, sized);
      }

  -- The geometry may be read off the state itself.
  pub served-IsMounted : IsMounted s s
  served-IsMounted =
      let sized = served.mounted.sound.sized in
      record {
        sound = record {
          sized = (refl, refl, refl, refl, refl, omega arith);
          reserved = λ i lt. served.mounted.sound.reserved i (omega arith);
          pointed = λ n j lt six. ground (arith, served.mounted.sound.pointed n j, sized);
          inodes = λ k lt. ground (arith, served.mounted.sound.inodes k, sized);
        };
        maps = record {
          inode_map = λ k lt. served.mounted.maps.inode_map k (omega arith);
          block_map = λ k lt. ground (arith, served.mounted.maps.block_map k, sized);
        };
      }

  reserved-same :
      {t : Fs} → IsSameFs s t → (i : ℕ) → i < data_start g → fd_isset i t.block_map ≡ true
  unfolding fd_isset
  reserved-same same i lt =
      let mapped = formatted.mapped in
      let sized = served.mounted.sound.sized in
      let in_map : i / 8192 < s.block_map_sz = omega arith in
      rw (same.block_map (i / 8192) in_map) (served.mounted.sound.reserved i lt)

  -- Mounting again keeps all that.
  pub same-IsServed : {t : Fs} → IsSameFs s t → IsServed g t
  same-IsServed {t} same =
      let sized = served.mounted.sound.sized in
      let sound = served.mounted.sound in
      record {
        mounted = record {
          sound = record {
            sized = (
              same.nblks ∙ sized.0,
              same.inode_map_sz ∙ sized.1,
              same.block_map_sz ∙ sized.2,
              same.inode_region_sz ∙ sized.3,
              same.num_of_blocks ∙ sized.4,
              sized.5,
            );
            reserved = λ i lt. reserved-same same i lt;
            pointed = λ n j lt six.
                rw (field-IsSameFs same n (w_direct + j) (omega arith)) (sound.pointed n j lt six);
            inodes = λ k lt.
                ap (λ d. d (1 + g.inode_map_sz + g.block_map_sz + k)) same.disk
                ∙ sound.inodes k lt
                ∙ sym (same.inode_region k (omega arith));
          };
          maps = record {
            inode_map = λ k lt.
                ap (λ d. d (1 + k)) same.disk
                ∙ served.mounted.maps.inode_map k lt
                ∙ sym (same.inode_map k (omega arith));
            block_map = λ k lt.
                ap (λ d. d (1 + g.inode_map_sz + k)) same.disk
                ∙ served.mounted.maps.block_map k lt
                ∙ sym (same.block_map k (omega arith));
          };
        };
        superblock = ap (λ d. d 0) same.disk ∙ served.superblock;
        small = λ n lt. rw (field-IsSameFs same n w_size (omega arith)) (served.small n lt);
      }
