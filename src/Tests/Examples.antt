-- ===== src/Tests/Examples.antt =====
-- The theorems on the small image.
use cs5600_filesystem.Base.{ap, ◌+◌}
use cs5600_filesystem.Memory.{copy_bytes}
use cs5600_filesystem.State.Inode.{is_reg}
use cs5600_filesystem.Ops.Read.{fs_read}
use cs5600_filesystem.Ops.Remove.{fs_truncate}
use cs5600_filesystem.Ops.Content.{block_of, file_byte, HasBlocks}
use cs5600_filesystem.Ops.Content.Total.{fs_read_lem}
use cs5600_filesystem.Ops.Errors.{Undone, fs_mknod-fs_rename-Undone}
use cs5600_filesystem.Ops.Rmdir.{FreesNothing, fs_rmdir-FreesNothing}
use cs5600_filesystem.Mount.Getattr.{GivesAttr, fs_getattr-GivesAttr}
use cs5600_filesystem.Tests.{with_data, data_file}
use cs5600_filesystem.Base.{◌++◌, false, ◌∷◌}
use cs5600_filesystem.State.Inode.{w_mtime}
use cs5600_filesystem.Names.{trancate_path, get_name, tokens}
use cs5600_filesystem.Names.Tokens.{trancate_path-get_name}
use cs5600_filesystem.Tree.{matches}
use cs5600_filesystem.Tree.Dirent.{Dirent, put_dirent, dir_inode, dir_is_dir}
use cs5600_filesystem.Tree.Entries.{put_dirent_lem}
use cs5600_filesystem.Tree.Total.{IsReadable, Outcome, translate-Outcome}
use cs5600_filesystem.Ops.Attr.{fs_chmod, fs_utime}
use cs5600_filesystem.Ops.Stamp.{Stamps, fs_chmod-Stamps, fs_utime-Stamps}
use cs5600_filesystem.Base.{
  ℕ, ◌≡◌, refl, some, Bytes, codes, arith, ◌<◌, ◌↔◌, ◌⊎◌, Bool, true, ltb, ◌*◌, not, [], All,
}
use cs5600_filesystem.Base.Int.{ℤ, pos, enospc}
use cs5600_filesystem.State.{Fs, ok}
use cs5600_filesystem.Mount.{IsMounted}
use cs5600_filesystem.Base.Search.{first_index}
use cs5600_filesystem.Memory.Bits.{fd_isset}
use cs5600_filesystem.Memory.Words.{word}
use cs5600_filesystem.Mkfs.{mkfs, zero_area}
use cs5600_filesystem.Names.{tokens}
use cs5600_filesystem.Ops.Attr.{fs_chmod, fs_utime}
use cs5600_filesystem.Ops.Create.{fs_mknod}
use cs5600_filesystem.Ops.Remove.{fs_rmdir}
use cs5600_filesystem.Ops.Rename.{fs_rename}
use cs5600_filesystem.State.Bitmap.{find_free_inode_map_bit, find_free_block_number}
use cs5600_filesystem.State.Device.{fs_init}
use cs5600_filesystem.State.Inode.{field, w_mode, w_size, w_direct}
use cs5600_filesystem.Tree.{translate}
use cs5600_filesystem.Tree.Dirent.{dir_valid}
use cs5600_filesystem.Mkfs.Fresh.{
  mounted-IsDescribed, mkfs-IsMounted, mounted-Lacks, root-direct, mounted-root, mounted-inodes,
}
use cs5600_filesystem.Memory.{zero_block}
use cs5600_filesystem.State.Post.{Post, put_disk}
use cs5600_filesystem.State.Alloc.{
  AreUsed, IsFirstFree, block_bits, find_free_block_number_lem, find_free_inode_map_bit_lem,
}
use cs5600_filesystem.Tree.Lookup.{HasDir, Lacks, dir_of, Resolves, translate_iff}
use cs5600_filesystem.Tree.Leads.{InTree, root, child, done}
use cs5600_filesystem.Mount.Init.{IsDescribed, IsSameFs}
use cs5600_filesystem.Names.Tokens.{path_of}
use cs5600_filesystem.Tree.Entries.{IsShort}
use cs5600_filesystem.Ops.Mknod.{HasRoom}
use cs5600_filesystem.Ops.Paths.{IsTree, fs_mknod-translate}
use cs5600_filesystem.Tests.{fresh, env, state_of, with_dir, fresh-IsMounted}

translate_iff_example :
    (translate (codes "/d") (state_of with_dir) ≡ ok (pos 3) (state_of with_dir))
    ↔ Resolves (state_of with_dir) 1 true (tokens (codes "/d")) (pos 3)
translate_iff_example = translate_iff (state_of with_dir) (codes "/d") (pos 3)

fresh-IsDescribed : IsDescribed fresh
fresh-IsDescribed = mounted-IsDescribed 16 1000 (omega arith) (omega arith) (omega arith)

abbrev pub blank_memory : Fs
blank_memory = record fresh { inode_map = zero_area; block_map = zero_area; inode_map_sz = 0 }

mkfs-IsMounted_example :
    (s : Fs) × (fs_init (record blank_memory { nblks = 16; disk = mkfs 16 1000 }) ≡ ok tt s)
    × IsMounted s s
    × IsDescribed s
    × HasDir s 1
    × (field s 1 w_mode ≡ 0o40777)
    × ((name : Bytes) → Lacks (dir_of s 1) name)
    × ((i : ℕ) → i < 16 → fd_isset i s.block_map ≡ ltb i 5)
    × ((i : ℕ) → i < 4 → fd_isset i s.inode_map ≡ ltb i 2)
mkfs-IsMounted_example =
    mkfs-IsMounted 16 1000 (omega arith) (omega arith) (omega arith) blank_memory

find_free_block_number_lem_example :
    ((find_free_block_number fresh ≡ ok enospc fresh)
      × AreUsed fresh.block_map 0 (block_bits fresh))
    ⊎ ((i : ℕ) × IsFirstFree fresh.block_map 0 (block_bits fresh) i
        × (find_free_block_number fresh ≡ ok (pos i) (put_disk fresh i zero_block)))
find_free_block_number_lem_example =
    find_free_block_number_lem fresh (omega arith) (fresh-IsMounted.sound.reserved 0 (omega arith))

find_free_inode_map_bit_lem_example :
    ((find_free_inode_map_bit fresh ≡ ok enospc fresh)
      × AreUsed fresh.inode_map 2 (fresh.inode_map_sz * 8192))
    ⊎ ((i : ℕ) × IsFirstFree fresh.inode_map 2 (fresh.inode_map_sz * 8192) i
        × (find_free_inode_map_bit fresh ≡ ok (pos i) fresh))
find_free_inode_map_bit_lem_example = find_free_inode_map_bit_lem fresh (omega arith)

in_root : {n : ℕ} {d : Bool} → InTree fresh n d → n ≡ 1
in_root root = refl
in_root (child {n} t i reach entry) =
    let at_root : n ≡ 1 = in_root reach in
    let lacks : Lacks (dir_of fresh 1) t =
      mounted-Lacks 16 1000 (omega arith) (omega arith) (omega arith) t in
    cc (entry.named, lacks i entry.in_block, at_root)

pub at_root_block : field fresh 1 w_direct ≡ 4
at_root_block = root-direct 16 1000 (omega arith) (omega arith) (omega arith)

pub fresh-IsTree : IsTree fresh
fresh-IsTree n reach =
    let at_root : n ≡ 1 = in_root reach in
    rw at_root (
      mounted-inodes 16 1000 (omega arith) (omega arith) (omega arith) 1 (omega arith),
      omega (arith, at_root_block),
    )

first_entry : first_index 32 0 (λ j. not (dir_valid (dir_of fresh 1) j)) ≡ some 0
unfolding first_index dir_valid word
first_entry = rw (mounted-root 16 1000 (omega arith) (omega arith) (omega arith)) refl

pub fresh-HasRoom : HasRoom fresh 1 0 2
fresh-HasRoom = record {
  fits = omega arith;
  dir = record { in_region = omega arith; on_disk = omega (arith, at_root_block) };
  in_data = omega (arith, at_root_block);
  entry = first_entry;
  inode = record {
    above = omega arith;
    below = omega arith;
    free = mounted-inodes 16 1000 (omega arith) (omega arith) (omega arith) 2 (omega arith);
    least = λ k a b. absurd (omega arith);
  };
  in_region = omega arith;
  other = λ e. absurd (omega arith);
  in_bits = omega arith;
}

pub ab-IsShort : IsShort (codes "ab")
ab-IsShort = record {
  fits = omega arith;
  non_zero = (λ e. absurd (omega arith), (λ e. absurd (omega arith), tt));
}

abbrev a_file : Dirent
a_file = record { valid = true; is_dir = false; inode = 9; name = codes "ab" }

fs_mknod-translate_example :
    (t : Fs) × (fs_mknod env (path_of [] b'a' (codes "b")) 0o100644 fresh ≡ ok (pos 0) t)
    × (translate (path_of [] b'a' (codes "b")) t ≡ ok (pos 2) t)
    × (field t 2 w_mode ≡ 0o100644)
    × (field t 2 w_size ≡ 0)
    × (fd_isset 2 t.inode_map ≡ true)
    × ((p : Bytes) (m : ℕ)
        → All IsShort (tokens p)
        → translate p fresh ≡ ok (pos m) fresh
        → translate p t ≡ ok (pos m) t)
unfolding tokens
fs_mknod-translate_example =
    fs_mknod-translate env fresh 0o100644 1 0 2 [] b'a' (codes "b")
      (λ e. absurd (omega arith), (λ e. absurd (omega arith), tt)) ab-IsShort tt refl fresh-IsTree
      done (mounted-Lacks 16 1000 (omega arith) (omega arith) (omega arith) (codes "ab"))
      fresh-HasRoom

fresh-IsReadable : IsReadable fresh
fresh-IsReadable = record {
  inode = λ reach. omega (arith, in_root reach);
  dir = λ reach. rw (in_root reach) fresh-HasRoom.dir;
}

fs_chmod-Stamps_example : Stamps fresh (codes "/") w_mode 0o40700 (fs_chmod (codes "/") 0o40700)
fs_chmod-Stamps_example = fs_chmod-Stamps fresh (codes "/") 0o40700 (omega arith) fresh-IsReadable

fs_utime-Stamps_example : Stamps fresh (codes "/") w_mtime 1800 (fs_utime (codes "/") 1800)
fs_utime-Stamps_example = fs_utime-Stamps fresh (codes "/") 1800 (omega arith) fresh-IsReadable

translate-Outcome_example : (r : ℤ) × (translate (codes "/a") fresh ≡ ok r fresh) × Outcome fresh r
translate-Outcome_example = translate-Outcome fresh (codes "/a") fresh-IsReadable

trancate_path-get_name_example :
    (trancate_path (path_of (codes "/d") b'a' (codes "b")) ≡ some (codes "/d/"))
    × (get_name (path_of (codes "/d") b'a' (codes "b")) ≡ some (codes "ab"))
    × (tokens (path_of (codes "/d") b'a' (codes "b")) ≡ tokens (codes "/d/") ++ codes "ab" ∷ [])
trancate_path-get_name_example =
    trancate_path-get_name (codes "/d") b'a' (codes "b")
      (λ e. absurd (omega arith), (λ e. absurd (omega arith), tt))

put_dirent_lem_example :
    (matches (put_dirent zero_block 3 a_file) (codes "ab") 3 ≡ true)
    × (dir_inode (put_dirent zero_block 3 a_file) 3 ≡ 9)
    × (dir_is_dir (put_dirent zero_block 3 a_file) 3 ≡ false)
put_dirent_lem_example = put_dirent_lem zero_block 3 a_file 3 (codes "ab") ab-IsShort ab-IsShort

pub data_HasBlocks : HasBlocks (state_of with_data) 4 3
unfolding block_of
data_HasBlocks = record {
  block = λ j lt.
      let first : j ≡ 0 = omega arith in
      rw first (omega (arith, data_file), omega (arith, data_file));
  second = λ le. absurd (omega arith);
  third = λ le. absurd (omega arith);
  tree = λ i lt. absurd (omega arith);
}

fs_read_lem_example :
    fs_read (codes "/d/b") 100 1 (λ k. 7) (state_of with_data)
    ≡ ok
        (pos 2, copy_bytes (λ k. 7) 0 2 (λ o. file_byte (state_of with_data) 4 (1 + o)))
        (state_of with_data)
fs_read_lem_example =
    fs_read_lem (state_of with_data) (codes "/d/b") 100 1 (λ k. 7) 4 3 data_file.0
      (omega (arith, data_file)) (ap is_reg data_file.1) data_file.2 (omega arith) data_HasBlocks
      (omega arith)

fs_getattr-GivesAttr_example : (t : Fs) × IsSameFs fresh t × GivesAttr fresh (codes "/") t
fs_getattr-GivesAttr_example =
    fs_getattr-GivesAttr fresh (codes "/") fresh-IsMounted fresh-IsDescribed fresh-IsReadable

fs_mknod-fs_rename-Undone_example :
    Undone (state_of with_dir) (fs_mknod env (codes "/a") 0o100644 (state_of with_dir))
    × Undone (state_of with_dir) (fs_truncate (codes "/a") (pos 0) (state_of with_dir))
    × Undone (state_of with_dir) (fs_rmdir (codes "/a") (state_of with_dir))
    × Undone (state_of with_dir) (fs_rename (codes "/a") (codes "/d") (state_of with_dir))
fs_mknod-fs_rename-Undone_example =
    fs_mknod-fs_rename-Undone env (state_of with_dir) (codes "/a") (codes "/d") 0o100644 (pos 0)

fs_rmdir-FreesNothing_example :
    Post (λ _ t. FreesNothing (state_of with_dir) t) (fs_rmdir (codes "/d") (state_of with_dir))
fs_rmdir-FreesNothing_example = fs_rmdir-FreesNothing (state_of with_dir) (codes "/d")
