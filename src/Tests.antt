-- ===== src/Tests.antt =====
-- Runs of the file system on a small image.
pub mod Examples
pub mod Invariants
pub mod Sessions
pub mod Commands
pub mod Files
pub mod Puts
pub mod Sizes
use cs5600_filesystem.Base.{
  ltb, ℕ, ◌+◌, ◌≡◌, refl, Option, none, some, Bytes, codes, arith, get_or, List, ◌∷◌, ◌≤◌, ◌<◌, ◌↔◌,
  ◌⊎◌, Bool, true, ◌&&◌, ◌==◌, ltb, ◌*◌, not, [], All,
}
use cs5600_filesystem.Base.Int.{ℤ, pos, eexist, enoent, enotdir, enotempty, eisdir, enospc}
use cs5600_filesystem.State.{Fs, Env, Run, ok, fault}
use cs5600_filesystem.Mount.{IsMounted}
use cs5600_filesystem.Mount.Session.{
  Call, init, getattr, mknod, mkdir, unlink, rmdir, rename, truncate, read, write, session, perform,
}
use cs5600_filesystem.Base.Search.{last_index, first_index}
use cs5600_filesystem.Memory.Bits.{bit_of, fd_isset, fd_put, fd_set, put_bit, fd_clr}
use cs5600_filesystem.Memory.Words.{word, store_words, byte_of, set_word, string_at, copy_bytes}
use cs5600_filesystem.Mkfs.{mkfs, mark_below, superblock, zero_area}
use cs5600_filesystem.Names.{trancate_path, tokens, get_name, strip}
use cs5600_filesystem.Ops.Attr.{
  fs_chmod, fs_utime, fs_getattr, fs_readdir, c_string, list_entries, father_of, is_listed,
}
use cs5600_filesystem.Ops.Create.{fs_mknod, fs_mkdir, add_entry, make_node, store_inode, make_dir}
use cs5600_filesystem.Ops.Read.{
  fs_read, fs_read_1st_level, fs_read_2nd_level, fs_read_3rd_level, read_direct, read_indirect,
  read_trees, read_levels, fs_read_block,
}
use cs5600_filesystem.Ops.Remove.{
  fs_rmdir, fs_unlink, fs_truncate, drop_name, remove_entries, truncate_inode, truncate_direct,
  truncate_2nd_level, truncate_3rd_level, clear_entries, truncate_trees,
}
use cs5600_filesystem.Ops.Rename.{fs_rename, rename_entries, put_name}
use cs5600_filesystem.Ops.Write.{
  fs_write, write_levels, grow, fs_write_1st_level, fs_write_2nd_level, fs_write_3rd_level,
  write_direct, write_indirect, write_trees, mark_block, patch_block, alloc_field, alloc_entry,
}
use cs5600_filesystem.State.Bitmap.{
  find_free_inode_map_bit, set_inode_bit, update_bitmap, find_free_block_number, set_block_bit,
  clr_block_bit, clr_inode_bit,
}
use cs5600_filesystem.State.Device.{read_block, image_read, image_write, write_block, fs_init}
use cs5600_filesystem.State.Inode.{
  inode_at, field, put_inode, update_inode, set_field, set_attr, w_mode, w_size, w_direct, w_mode,
  w_size, w_direct,
}
use cs5600_filesystem.Tree.{
  translate, walk, read_dir, find_entry, matches, find_free_dirent_num, inode_is_dir,
}
use cs5600_filesystem.Tree.Dirent.{
  dir_name_is, dir_inode, dir_is_dir, dir_valid, put_dirent, clear_valid,
}
use cs5600_filesystem.Mkfs.Fresh.{
  mounted, mounted-IsMounted, mounted-IsDescribed, mkfs-IsMounted, mounted-Lacks, root-direct,
  mounted-root, mounted-inodes,
}
use cs5600_filesystem.Memory.{zero_block}
use cs5600_filesystem.State.Post.{Post, returns, faults, put_disk}
use cs5600_filesystem.State.Alloc.{
  AreUsed, IsFirstFree, block_bits, find_free_block_number_lem, find_free_inode_map_bit_lem,
}
use cs5600_filesystem.Tree.Lookup.{HasDir, Lacks, dir_of, Resolves, translate_iff}
use cs5600_filesystem.Tree.Leads.{InTree, root, child, done}
use cs5600_filesystem.Mount.Create.{fs_mknod-IsMounted, fs_mkdir-IsMounted}
use cs5600_filesystem.Mount.Rename.{fs_rename-IsMounted, fs_rmdir-IsMounted}
use cs5600_filesystem.Mount.Attr.{fs_chmod-IsMounted, fs_utime-IsMounted}
use cs5600_filesystem.Mount.Init.{IsDescribed, IsSameFs, fs_init-IsSameFs}
use cs5600_filesystem.Names.Tokens.{path_of}
use cs5600_filesystem.Tree.Entries.{IsShort}
use cs5600_filesystem.Ops.Mknod.{HasRoom}
use cs5600_filesystem.Ops.Paths.{IsTree, fs_mknod-translate}

-- 16 blocks: the superblock, the two maps, the inodes, the root directory's block, and 11 more.
abbrev pub fresh : Fs
fresh = mounted 16 1000

abbrev pub env : Env
env = record { now = 1700; uid = 7; gid = 8 }

abbrev pub state_of : {A : Type 0} → Run A → Fs
state_of (ok a s) = s
state_of fault = fresh

abbrev result_of : {A : Type 0} → Run A → Option A
result_of (ok a s) = some a
result_of fault = none

pub fresh-IsMounted : IsMounted fresh fresh
fresh-IsMounted = mounted-IsMounted 16 1000 (omega arith) (omega arith) (omega arith)

-- `/a` is a new file, `/d` a new directory and `/d/b` a new file in it.
abbrev pub with_file : Run ℤ
with_file = fs_mknod env (codes "/a") 0o100644 fresh

abbrev pub with_dir : Run ℤ
with_dir = fs_mkdir env (codes "/d") 0o755 (state_of with_file)

abbrev pub with_tree : Run ℤ
with_tree = fs_mknod env (codes "/d/b") 0o100600 (state_of with_dir)

abbrev pub three_bytes : ℕ → ℕ
three_bytes k = get_or (codes "xyz") k 0

abbrev pub with_data : Run ℤ
with_data = fs_write (codes "/d/b") 3 0 three_bytes (state_of with_tree)

abbrev answer : Run (ℤ × (ℕ → ℕ)) → Option (ℤ × ℕ × ℕ × ℕ × ℕ)
answer (ok (n, buf) s) = some (n, buf 0, buf 1, buf 2, buf 3)
answer fault = none

runs_test :
    (result_of with_file ≡ some (pos 0))
    × (result_of (translate (codes "/a") (state_of with_file)) ≡ some (pos 2))
    × (result_of (fs_mknod env (codes "/a") 0o100644 (state_of with_file)) ≡ some eexist)
    × (result_of with_dir ≡ some (pos 0))
    × (result_of with_tree ≡ some (pos 0))
    × (result_of (translate (codes "/d//b") (state_of with_tree)) ≡ some (pos 4))
    × (result_of (translate (codes "/a/b") (state_of with_tree)) ≡ some enotdir)
    × (result_of (fs_rmdir (codes "/d") (state_of with_tree)) ≡ some enotempty)
    × (result_of (fs_rmdir (codes "/d") (state_of with_dir)) ≡ some (pos 0))
    × (result_of (translate (codes "/d") (state_of (fs_rmdir (codes "/d/") (state_of with_dir))))
        ≡ some enoent)
    × (result_of (fs_rename (codes "/a") (codes "/c") (state_of with_file)) ≡ some (pos 0))
    × (result_of (
          translate
            (codes "/c")
            (state_of (fs_rename (codes "/a") (codes "/c") (state_of with_file))))
        ≡ some (pos 2))
    × (result_of with_data ≡ some (pos 3))
    × (answer (fs_read (codes "/d/b") 100 1 (λ k. 7) (state_of with_data))
        ≡ some (pos 2, b'y', b'z', 7, 7))
    × (result_of (fs_unlink (codes "/d/b") (state_of with_data)) ≡ some (pos 0))
    × (result_of (fs_truncate (codes "/d") (pos 0) (state_of with_data)) ≡ some eisdir)
unfolding fs_mknod fs_mkdir fs_rmdir fs_rename fs_unlink fs_truncate fs_chmod fs_utime trancate_path
    translate walk tokens inode_at read_dir read_block image_read field word mkfs store_words
    byte_of find_entry last_index matches dir_name_is first_index bit_of fd_isset fd_put fd_set
    put_bit set_word string_at mark_below superblock get_name add_entry make_node store_inode
    find_free_inode_map_bit set_inode_bit update_bitmap image_write write_block put_inode
    update_inode dir_inode dir_is_dir dir_valid put_dirent find_free_dirent_num make_dir
    find_free_block_number set_block_bit drop_name remove_entries clear_valid strip rename_entries
    put_name copy_bytes set_field truncate_inode truncate_direct truncate_2nd_level
    truncate_3rd_level clear_entries truncate_trees clr_block_bit clr_inode_bit fd_clr fs_read
    fs_write fs_read_1st_level fs_read_2nd_level fs_read_3rd_level read_direct read_indirect
    read_trees read_levels fs_read_block write_levels grow fs_write_1st_level fs_write_2nd_level
    fs_write_3rd_level write_direct write_indirect write_trees mark_block patch_block alloc_field
    alloc_entry fs_getattr fs_readdir fs_init set_attr c_string list_entries father_of is_listed
    inode_is_dir
runs_test =
    (refl, refl, refl, refl, refl, refl, refl, refl, refl, refl, refl, refl, refl, refl, refl, refl)

-- The file `/d/b` of three bytes: its inode has number 4, and its block number 6.
pub data_file :
    (translate (codes "/d/b") (state_of with_data) ≡ ok (pos 4) (state_of with_data))
    × (field (state_of with_data) 4 w_mode ≡ 0o100600)
    × (field (state_of with_data) 4 w_size ≡ 3)
    × (field (state_of with_data) 4 w_direct ≡ 6)
    × ((state_of with_data).nblks ≡ 16)
    × ((state_of with_data).inode_region_sz ≡ 1)
    × (field (state_of with_data) 4 (w_direct + 1) ≡ 0)
    × (field (state_of with_data) 4 (w_direct + 2) ≡ 0)
    × (field (state_of with_data) 4 (w_direct + 3) ≡ 0)
    × (field (state_of with_data) 4 (w_direct + 4) ≡ 0)
    × (field (state_of with_data) 4 (w_direct + 5) ≡ 0)
unfolding fs_mknod fs_mkdir fs_rmdir fs_rename fs_unlink fs_truncate fs_chmod fs_utime trancate_path
    translate walk tokens inode_at read_dir read_block image_read field word mkfs store_words
    byte_of find_entry last_index matches dir_name_is first_index bit_of fd_isset fd_put fd_set
    put_bit set_word string_at mark_below superblock get_name add_entry make_node store_inode
    find_free_inode_map_bit set_inode_bit update_bitmap image_write write_block put_inode
    update_inode dir_inode dir_is_dir dir_valid put_dirent find_free_dirent_num make_dir
    find_free_block_number set_block_bit drop_name remove_entries clear_valid strip rename_entries
    put_name copy_bytes set_field truncate_inode truncate_direct truncate_2nd_level
    truncate_3rd_level clear_entries truncate_trees clr_block_bit clr_inode_bit fd_clr fs_read
    fs_write fs_read_1st_level fs_read_2nd_level fs_read_3rd_level read_direct read_indirect
    read_trees read_levels fs_read_block write_levels grow fs_write_1st_level fs_write_2nd_level
    fs_write_3rd_level write_direct write_indirect write_trees mark_block patch_block alloc_field
    alloc_entry fs_getattr fs_readdir fs_init set_attr c_string list_entries father_of is_listed
    inode_is_dir
data_file = (refl, refl, refl, refl, refl, refl, refl, refl, refl, refl, refl)

-- No inode has more than 6144 bytes.
pub tree_small : first_index 16 0 (λ n. ltb 6144 (field (state_of with_tree) n w_size)) ≡ none
unfolding fs_mknod fs_mkdir fs_rmdir fs_rename fs_unlink fs_truncate fs_chmod fs_utime trancate_path
    translate walk tokens inode_at read_dir read_block image_read field word mkfs store_words
    byte_of find_entry last_index matches dir_name_is first_index bit_of fd_isset fd_put fd_set
    put_bit set_word string_at mark_below superblock get_name add_entry make_node store_inode
    find_free_inode_map_bit set_inode_bit update_bitmap image_write write_block put_inode
    update_inode dir_inode dir_is_dir dir_valid put_dirent find_free_dirent_num make_dir
    find_free_block_number set_block_bit drop_name remove_entries clear_valid strip rename_entries
    put_name copy_bytes set_field truncate_inode truncate_direct truncate_2nd_level
    truncate_3rd_level clear_entries truncate_trees clr_block_bit clr_inode_bit fd_clr fs_read
    fs_write fs_read_1st_level fs_read_2nd_level fs_read_3rd_level read_direct read_indirect
    read_trees read_levels fs_read_block write_levels grow fs_write_1st_level fs_write_2nd_level
    fs_write_3rd_level write_direct write_indirect write_trees mark_block patch_block alloc_field
    alloc_entry fs_getattr fs_readdir fs_init set_attr c_string list_entries father_of is_listed
    inode_is_dir
tree_small = refl

-- The directories of `with_data` are the root's and `/d`, with the number 3. Their blocks have the
-- numbers 4 and 5, and are marked as used, as is the block 6 of `/d/b`.
pub data_dirs :
    (first_index 32 0 (λ j.
        dir_is_dir (dir_of (state_of with_data) 1) j
        && not (dir_inode (dir_of (state_of with_data) 1) j == 3))
      ≡ none)
    × (first_index 32 0 (λ j. dir_is_dir (dir_of (state_of with_data) 3) j) ≡ none)
    × (field (state_of with_data) 1 w_direct ≡ 4)
    × (field (state_of with_data) 3 w_direct ≡ 5)
    × (fd_isset 4 (state_of with_data).block_map ≡ true)
    × (fd_isset 5 (state_of with_data).block_map ≡ true)
    × (fd_isset 6 (state_of with_data).block_map ≡ true)
unfolding fs_mknod fs_mkdir fs_rmdir fs_rename fs_unlink fs_truncate fs_chmod fs_utime trancate_path
    translate walk tokens inode_at read_dir read_block image_read field word mkfs store_words
    byte_of find_entry last_index matches dir_name_is first_index bit_of fd_isset fd_put fd_set
    put_bit set_word string_at mark_below superblock get_name add_entry make_node store_inode
    find_free_inode_map_bit set_inode_bit update_bitmap image_write write_block put_inode
    update_inode dir_inode dir_is_dir dir_valid put_dirent find_free_dirent_num make_dir
    find_free_block_number set_block_bit drop_name remove_entries clear_valid strip rename_entries
    put_name copy_bytes set_field truncate_inode truncate_direct truncate_2nd_level
    truncate_3rd_level clear_entries truncate_trees clr_block_bit clr_inode_bit fd_clr fs_read
    fs_write fs_read_1st_level fs_read_2nd_level fs_read_3rd_level read_direct read_indirect
    read_trees read_levels fs_read_block write_levels grow fs_write_1st_level fs_write_2nd_level
    fs_write_3rd_level write_direct write_indirect write_trees mark_block patch_block alloc_field
    alloc_entry fs_getattr fs_readdir fs_init set_attr c_string list_entries father_of is_listed
    inode_is_dir
data_dirs = (refl, refl, refl, refl, refl, refl, refl)

-- The root directory of `with_data` has one entry for `a`, and none for `c`.
pub data_names :
    (find_entry (dir_of (state_of with_data) 1) (codes "a") ≡ some 0)
    × (find_entry (dir_of (state_of with_data) 1) (codes "c") ≡ none)
    × (first_index 32 0 (λ k. matches (dir_of (state_of with_data) 1) (codes "a") k && not (k == 0))
        ≡ none)
unfolding fs_mknod fs_mkdir fs_rmdir fs_rename fs_unlink fs_truncate fs_chmod fs_utime trancate_path
    translate walk tokens inode_at read_dir read_block image_read field word mkfs store_words
    byte_of find_entry last_index matches dir_name_is first_index bit_of fd_isset fd_put fd_set
    put_bit set_word string_at mark_below superblock get_name add_entry make_node store_inode
    find_free_inode_map_bit set_inode_bit update_bitmap image_write write_block put_inode
    update_inode dir_inode dir_is_dir dir_valid put_dirent find_free_dirent_num make_dir
    find_free_block_number set_block_bit drop_name remove_entries clear_valid strip rename_entries
    put_name copy_bytes set_field truncate_inode truncate_direct truncate_2nd_level
    truncate_3rd_level clear_entries truncate_trees clr_block_bit clr_inode_bit fd_clr fs_read
    fs_write fs_read_1st_level fs_read_2nd_level fs_read_3rd_level read_direct read_indirect
    read_trees read_levels fs_read_block write_levels grow fs_write_1st_level fs_write_2nd_level
    fs_write_3rd_level write_direct write_indirect write_trees mark_block patch_block alloc_field
    alloc_entry fs_getattr fs_readdir fs_init set_attr c_string list_entries father_of is_listed
    inode_is_dir
data_names = (refl, refl, refl)

-- A file and a directory are made, renamed, written, read, cut and removed.
abbrev pub calls : List Call
calls =
    mknod env (codes "/a") 0o100644
    ∷ write (codes "/a") 3 0 three_bytes
    ∷ mkdir env (codes "/d") 0o755
    ∷ rename (codes "/a") (codes "/b")
    ∷ write (codes "/b") 2000 3 three_bytes
    ∷ read (codes "/b") 100 1 three_bytes
    ∷ getattr (codes "/b")
    ∷ truncate (codes "/b") (pos 0)
    ∷ rmdir (codes "/d")
    ∷ unlink (codes "/b")
    ∷ []

calls_test :
    result_of (session (init ∷ calls) (record fresh { disk = mkfs 16 1000; block_map = zero_area }))
    ≡ some tt
unfolding fs_mknod fs_mkdir fs_rmdir fs_rename fs_unlink fs_truncate fs_chmod fs_utime trancate_path
    translate walk tokens inode_at read_dir read_block image_read field word mkfs store_words
    byte_of find_entry last_index matches dir_name_is first_index bit_of fd_isset fd_put fd_set
    put_bit set_word string_at mark_below superblock get_name add_entry make_node store_inode
    find_free_inode_map_bit set_inode_bit update_bitmap image_write write_block put_inode
    update_inode dir_inode dir_is_dir dir_valid put_dirent find_free_dirent_num make_dir
    find_free_block_number set_block_bit drop_name remove_entries clear_valid strip rename_entries
    put_name copy_bytes set_field truncate_inode truncate_direct truncate_2nd_level
    truncate_3rd_level clear_entries truncate_trees clr_block_bit clr_inode_bit fd_clr fs_read
    fs_write fs_read_1st_level fs_read_2nd_level fs_read_3rd_level read_direct read_indirect
    read_trees read_levels fs_read_block write_levels grow fs_write_1st_level fs_write_2nd_level
    fs_write_3rd_level write_direct write_indirect write_trees mark_block patch_block alloc_field
    alloc_entry fs_getattr fs_readdir fs_init set_attr c_string list_entries father_of is_listed
    inode_is_dir session perform
calls_test = refl
