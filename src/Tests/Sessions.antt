-- ===== src/Tests/Sessions.antt =====
-- Sessions of the command line on a small image.
use cs5600_filesystem.Base.Search.{last_index, first_index}
use cs5600_filesystem.Memory.Bits.{bit_of, fd_isset, fd_put, fd_set, put_bit, fd_clr}
use cs5600_filesystem.Memory.Words.{word, store_words, byte_of, set_word, string_at, copy_bytes}
use cs5600_filesystem.Mkfs.{zero_area, mkfs, mark_below, superblock}
use cs5600_filesystem.Names.{trancate_path, tokens, get_name, strip}
use cs5600_filesystem.Ops.Attr.{
  fs_chmod, fs_utime, fs_getattr, fs_readdir, c_string, list_entries, father_of, is_listed,
  fs_statfs,
}
use cs5600_filesystem.Ops.Create.{fs_mknod, fs_mkdir, add_entry, make_node, store_inode, make_dir}
use cs5600_filesystem.Ops.Read.{
  fs_read, fs_read_1st_level, fs_read_2nd_level, fs_read_3rd_level, read_direct, read_indirect,
  read_trees, read_levels, fs_read_block,
}
use cs5600_filesystem.Ops.Remove.{
  fs_rmdir, fs_unlink, fs_truncate, drop_name, remove_entries, truncate_inode, truncate_direct,
  truncate_2nd_level, truncate_3rd_level, clear_entries, truncate_trees,
}
use cs5600_filesystem.Ops.Rename.{fs_rename, rename_entries, put_name}
use cs5600_filesystem.Ops.Write.{
  fs_write, write_levels, grow, fs_write_1st_level, fs_write_2nd_level, fs_write_3rd_level,
  write_direct, write_indirect, write_trees, mark_block, patch_block, alloc_field, alloc_entry,
}
use cs5600_filesystem.Shell.Dirs.{
  join, update_cwd, push_names, do_cd, get_cwd, do_pwd, make_path, fill, print_ls, list_dir, do_ls0,
  do_ls1, lsdashl, do_lsdashl0, do_lsdashl1,
}
use cs5600_filesystem.Shell.Files.{
  path_to, do_chmod, do_rename, do_mkdir, do_rmdir, do_rm, prefix, read_chunk, read_all, rounds,
  do_show, do_get, drop, put_all, do_put, do_statfs, set_blksiz, do_blksiz,
}
use cs5600_filesystem.Shell.Main.{main_cmdline, ends_in_img}
use cs5600_filesystem.Shell.Loop.{
  cmds, run_command, find_command, run_words, run_line, fgets, command_loop, cmdloop,
}
use cs5600_filesystem.Shell.Print.{decimal, strmode, comes_before, sort_rows}
use cs5600_filesystem.Shell.Words.{words, take, find_up, cut_ups, fix_path, digits, to_int}
use cs5600_filesystem.State.Bitmap.{
  find_free_inode_map_bit, set_inode_bit, update_bitmap, find_free_block_number, set_block_bit,
  clr_block_bit, clr_inode_bit,
}
use cs5600_filesystem.State.Device.{
  image_create, read_block, image_read, image_write, write_block, fs_init,
}
use cs5600_filesystem.State.Inode.{inode_at, field, put_inode, update_inode, set_field, set_attr}
use cs5600_filesystem.Tree.{
  translate, walk, read_dir, find_entry, matches, find_free_dirent_num, inode_is_dir,
}
use cs5600_filesystem.Tree.Dirent.{
  dir_name_is, dir_inode, dir_is_dir, dir_valid, put_dirent, clear_valid,
}
use cs5600_filesystem.Base.{
  ◌+◌, ◌*◌, ◌≡◌, refl, Option, none, some, Bytes, codes, List, [], ◌∷◌, ◌++◌, true,
}
use cs5600_filesystem.Base.Int.{pos}
use cs5600_filesystem.State.{Fs}
use cs5600_filesystem.Shell.{Shell, Host, Output, said, stored, Ran, ran, crash}
use cs5600_filesystem.Tests.{fresh, env}

abbrev pub shell : Shell
shell = record { names = []; cwd = []; blksiz = pos 1000; blkbuf = λ k. 0 }

-- A host with one file, `x`.
abbrev pub host : Host
host = record {
  env = env;
  content = λ name. some (codes "hello");
  can_write = λ name. true;
  strerror = λ err. codes "?";
  is_terminal = true;
}

-- What a session prints, and what it writes to the host.
abbrev texts : List Output → Bytes
texts [] = []
texts (said t ∷ rest) = t ++ texts rest
texts (stored name content ∷ rest) = content ++ texts rest

abbrev printed : {A : Type 0} → Ran A → Option Bytes
printed (ran a sh s out) = some (texts out)
printed crash = none

abbrev blank : Fs
blank = record fresh {
  nblks = 0;
  disk = zero_area;
  inode_map = zero_area;
  inode_map_sz = 0;
  inode_region_sz = 0;
}

session_test :
    printed (
      cmdloop host
        (codes
          "mkdir d\ncd d\nput x y\npwd\nls\nblksiz 2\nshow y\nls-l\nget y z\nrm y\nshow y\ncd ..\nnope\nquit\n")
        shell
        fresh)
    ≡ some (
        codes
          "cmd> cmd> cmd> cmd> /d\ncmd> y\ncmd> read/write block size: 2\ncmd> hellocmd> y -rwxrwxrwx 5 1\ncmd> hellocmd> cmd> error: ?\ncmd> cmd> bad command: nope\ncmd> ")
unfolding fs_mknod fs_mkdir fs_rmdir fs_rename fs_unlink fs_truncate fs_chmod fs_utime trancate_path
    translate walk tokens inode_at read_dir read_block image_read field word mkfs store_words
    byte_of find_entry last_index matches dir_name_is first_index bit_of fd_isset fd_put fd_set
    put_bit set_word string_at mark_below superblock get_name add_entry make_node store_inode
    find_free_inode_map_bit set_inode_bit update_bitmap image_write write_block put_inode
    update_inode dir_inode dir_is_dir dir_valid put_dirent find_free_dirent_num make_dir
    find_free_block_number set_block_bit drop_name remove_entries clear_valid strip rename_entries
    put_name copy_bytes set_field truncate_inode truncate_direct truncate_2nd_level
    truncate_3rd_level clear_entries truncate_trees clr_block_bit clr_inode_bit fd_clr fs_read
    fs_write fs_read_1st_level fs_read_2nd_level fs_read_3rd_level read_direct read_indirect
    read_trees read_levels fs_read_block write_levels grow fs_write_1st_level fs_write_2nd_level
    fs_write_3rd_level write_direct write_indirect write_trees mark_block patch_block alloc_field
    alloc_entry fs_getattr fs_readdir fs_init set_attr c_string list_entries father_of is_listed
    inode_is_dir words take find_up cut_ups fix_path digits to_int decimal strmode comes_before
    sort_rows join update_cwd push_names do_cd get_cwd do_pwd make_path fill print_ls list_dir
    do_ls0 do_ls1 lsdashl do_lsdashl0 do_lsdashl1 path_to do_chmod do_rename do_mkdir do_rmdir do_rm
    prefix read_chunk read_all rounds do_show do_get drop put_all do_put do_statfs set_blksiz
    do_blksiz cmds run_command find_command run_words run_line fgets command_loop cmdloop fs_statfs
session_test = refl

-- `main` formats nothing: here, on a new image of 16 blocks, with no state of the memory before.
main_test :
    (printed (
        main_cmdline host
          (λ file. some (16 * 1024 + 7, mkfs 16 1000))
          (codes "a.img")
          (codes "mkdir d\nls\n")
          shell
          blank)
      ≡ some (codes "read/write block size: 1000\ncmd> cmd> d\ncmd> "))
    × (printed (main_cmdline host (λ file. none) (codes "a.txt") [] shell blank)
        ≡ some (codes "bad image file (must end in .img): a.txt\n"))
    × (printed (main_cmdline host (λ file. none) (codes "a.img") [] shell blank) ≡ none)
unfolding main_cmdline ends_in_img image_create fs_mknod fs_mkdir fs_rmdir fs_rename fs_unlink
    fs_truncate fs_chmod fs_utime trancate_path translate walk tokens inode_at read_dir read_block
    image_read field word mkfs store_words byte_of find_entry last_index matches dir_name_is
    first_index bit_of fd_isset fd_put fd_set put_bit set_word string_at mark_below superblock
    get_name add_entry make_node store_inode find_free_inode_map_bit set_inode_bit update_bitmap
    image_write write_block put_inode update_inode dir_inode dir_is_dir dir_valid put_dirent
    find_free_dirent_num make_dir find_free_block_number set_block_bit drop_name remove_entries
    clear_valid strip rename_entries put_name copy_bytes set_field truncate_inode truncate_direct
    truncate_2nd_level truncate_3rd_level clear_entries truncate_trees clr_block_bit clr_inode_bit
    fd_clr fs_read fs_write fs_read_1st_level fs_read_2nd_level fs_read_3rd_level read_direct
    read_indirect read_trees read_levels fs_read_block write_levels grow fs_write_1st_level
    fs_write_2nd_level fs_write_3rd_level write_direct write_indirect write_trees mark_block
    patch_block alloc_field alloc_entry fs_getattr fs_readdir fs_init set_attr c_string list_entries
    father_of is_listed inode_is_dir words take find_up cut_ups fix_path digits to_int decimal
    strmode comes_before sort_rows join update_cwd push_names do_cd get_cwd do_pwd make_path fill
    print_ls list_dir do_ls0 do_ls1 lsdashl do_lsdashl0 do_lsdashl1 path_to do_chmod do_rename
    do_mkdir do_rmdir do_rm prefix read_chunk read_all rounds do_show do_get drop put_all do_put
    do_statfs set_blksiz do_blksiz cmds run_command find_command run_words run_line fgets
    command_loop cmdloop fs_statfs
main_test = (refl, refl, refl)
