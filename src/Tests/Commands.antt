-- ===== src/Tests/Commands.antt =====
-- The theorems on fs_write, the command line, the test image and the image printer, each on a small
-- example.
use cs5600_filesystem.Base.{
  zero, suc, ◌∙◌, ◌&&◌, leb, ltb, ◌-◌, ℕ, ◌+◌, ◌<◌, ◌≤◌, reverse, ◌≡◌, ◌≢◌, refl, ap, sym, subst,
  true, some, List, [], ◌∷◌, arith, Bytes, codes, length, if◌then◌else◌, ◌==◌,
}
use cs5600_filesystem.Base.Int.{pos}
use cs5600_filesystem.Memory.{
  zero_block, word, set_word, store_words, byte_of, fd_isset, fd_set, bit_of, fd_put, put_bit,
  copy_bytes,
}
use cs5600_filesystem.Names.{tokens}
use cs5600_filesystem.Names.Tokens.{IsPlain}
use cs5600_filesystem.State.{ok}
use cs5600_filesystem.State.Inode.{is_reg}
use cs5600_filesystem.Tree.{translate}
use cs5600_filesystem.Tree.Dirent.{dir_valid}
use cs5600_filesystem.Ops.Read.{Buffer, fs_read}
use cs5600_filesystem.Ops.Content.Total.{read_count}
use cs5600_filesystem.Memory.{Area}
use cs5600_filesystem.Ops.Write.{fs_write}
use cs5600_filesystem.Ops.Overwrite.{direct, IsOwn}
use cs5600_filesystem.Ops.Overwrite.Total.{direct_byte, fs_write_lem}
use cs5600_filesystem.Shell.{Shell, ran, said, crash, ◌>>◌}
use cs5600_filesystem.Shell.Words.{words, take, find_up, cut_ups, fix_path}
use cs5600_filesystem.Shell.Words.Ups.{CutsTo, around, fix_path_lem}
use cs5600_filesystem.Shell.Print.{sort_rows, comes_before}
use cs5600_filesystem.Shell.Dirs.{join, update_cwd, push_names, do_cd, fill, print_ls, get_cwd}
use cs5600_filesystem.Shell.Files.{do_show}
use cs5600_filesystem.Shell.Loop.{command_loop}
use cs5600_filesystem.Shell.Lines.{Serves, command_loop-Serves}
use cs5600_filesystem.Shell.Steps.{path_in}
use cs5600_filesystem.Shell.Show.{bytes_from, do_show_lem}
use cs5600_filesystem.Shell.Cd.{in_arrays}
use cs5600_filesystem.Shell.Cd.Goes.{Goes, fits, spelled, do_cd_lem}
use cs5600_filesystem.Shell.Cd.Names.{IsShell, do_cd-IsShell}
use cs5600_filesystem.Shell.Cd.Back.{do_cd-do_cd}
use cs5600_filesystem.State.Device.{fs_init}
use cs5600_filesystem.Mktest.{mktest, n_blks}
use cs5600_filesystem.Mktest.Image.{test_fs, TestFile, path_of, size_of, fill_of}
use cs5600_filesystem.Mktest.Files.{mktest-fs_read}
use cs5600_filesystem.ReadImg.{
  Image, Scan, Line, directory, marked_free, superblock, unreachable_block, unreachable_inode,
  inode_marked_free, inode_map, block_map, start, check_block, read_entries, read_directory,
  read_tree, push, list_map, list_unreachable, list_allocated, list_lost, read_img,
}
use cs5600_filesystem.ReadImg.Told.{AreTold}
use cs5600_filesystem.ReadImg.Lost.{read_img-lost}
use cs5600_filesystem.ReadImg.Fuel.{Walked, read_tree-Walked}
use cs5600_filesystem.Tests.{fresh, state_of, with_data, data_file}
use cs5600_filesystem.Tests.Examples.{data_HasBlocks}
use cs5600_filesystem.Tests.Sessions.{shell, host}

fix_path_lem_example :
    CutsTo (codes "/a/../b") (fix_path (codes "/a/../b"))
    × ((before behind : Bytes) → fix_path (codes "/a/../b") ≢ around before behind)
fix_path_lem_example = fix_path_lem (codes "/a/../b")

abbrev two_rows : List Bytes
two_rows = codes "b\n" ∷ codes "a\n" ∷ []

print_ls_test : print_ls two_rows shell fresh ≡ ran tt shell fresh (said (codes "a\nb\n") ∷ [])
unfolding print_ls fill sort_rows comes_before
print_ls_test = refl

command_loop-Serves_example :
    Serves host
      (codes "pwd\nquit\n")
      shell
      fresh
      (command_loop (length (codes "pwd\nquit\n") + 1) host (codes "pwd\nquit\n") shell fresh)
command_loop-Serves_example = command_loop-Serves host (codes "pwd\nquit\n") shell fresh

path_in_test : path_in shell (codes "d/b") ≡ codes "/d/b"
unfolding fix_path cut_ups find_up
path_in_test = refl

data_found :
    translate (path_in shell (codes "d/b")) (state_of with_data) ≡ ok (pos 4) (state_of with_data)
data_found =
    subst (λ p. translate p (state_of with_data) ≡ ok (pos 4) (state_of with_data))
      (sym path_in_test) data_file.0

do_show_lem_example :
    (end : Buffer) × (do_show (codes "d/b") shell (state_of with_data)
      ≡ ran
          (pos 0)
          (record shell { blkbuf = end })
          (state_of with_data)
          (said (bytes_from (state_of with_data) 4 0 3) ∷ []))
do_show_lem_example =
    do_show_lem (state_of with_data) shell (codes "d/b") 4 3 1000 (omega arith) data_found
      (omega (arith, data_file)) (ap is_reg data_file.1) data_file.2 (omega arith) data_HasBlocks
      refl (omega arith)

abbrev at_d : Shell
at_d = record shell { names = codes "d" ∷ []; cwd = codes "/d" }

d-IsPlain : IsPlain (codes "d")
d-IsPlain = (omega arith, tt)

do_cd_lem_example :
    (names : List Bytes) × Goes (codes "../d") at_d.names names
    × (do_cd (codes "../d") at_d fresh ≡ (
        if fits names
        then ran (pos 0) (record at_d { names = names; cwd = spelled (reverse names) }) fresh []
        else crash))
do_cd_lem_example = do_cd_lem (codes "../d") at_d fresh refl

shell-IsShell : IsShell shell
unfolding join
shell-IsShell = record { cwd = refl; room = refl; names = tt }

cd_run_test : do_cd (codes "d") shell fresh ≡ ran (pos 0) at_d fresh []
unfolding do_cd push_names update_cwd join words take
cd_run_test = refl

do_cd-IsShell_example : IsShell at_d × (tokens (get_cwd at_d) ≡ reverse at_d.names)
do_cd-IsShell_example =
    do_cd-IsShell (codes "d") shell at_d fresh fresh (pos 0) [] shell-IsShell cd_run_test

d_room : in_arrays (codes "d" ∷ []) ≡ true
unfolding join
d_room = refl

d_not_up : codes "d" ≢ codes ".."
d_not_up = ground arith

do_cd-do_cd_example :
    (do_cd (codes "d") >> do_cd (codes "..")) shell fresh ≡ ran (pos 0) shell fresh []
do_cd-do_cd_example = do_cd-do_cd shell fresh b'd' [] shell-IsShell d-IsPlain d_not_up d_room

mktest-fs_read_example :
    (fs_init (record fresh { nblks = n_blks; disk = mktest }) ≡ ok tt test_fs)
    × ((f : TestFile) (len offset : ℕ) (buf : Buffer)
        → offset < 2147483648
        → fs_read (path_of f) len offset buf test_fs
          ≡ ok
              (
                pos (read_count (size_of f) offset len),
                copy_bytes buf 0 (read_count (size_of f) offset len) (λ o. fill_of f),
              )
              test_fs)
mktest-fs_read_example = mktest-fs_read fresh

-- An image with no maps: block 1 holds the inodes, and block 2, which is marked free, the root.
abbrev tiny : Image
tiny = record {
  nblks = 16;
  disk = λ b.
      if b == 0
      then set_word (set_word zero_block 2 1) 4 16
      else if b == 1
      then store_words zero_block 1 (0 ∷ 0o40777 ∷ 0 ∷ 0 ∷ 1024 ∷ 2 ∷ [])
      else zero_block;
}

abbrev tiny_report : List Line
tiny_report = unreachable_block 2 ∷ marked_free 2 ∷ directory 1 ∷ superblock 0 0 0 1 16 0 ∷ []

tiny_run : read_img tiny ≡ some tiny_report
unfolding read_img list_allocated list_map push read_tree read_directory check_block read_entries
    list_lost list_unreachable word set_word store_words byte_of fd_isset bit_of fd_set fd_put
    put_bit dir_valid
tiny_run = refl

-- The list with the root directory in it.
abbrev tiny_start : Scan
tiny_start = record (start tiny) { inode_list = (true, 1) ∷ []; head = 1 }

read_img-lost_example :
    AreTold tiny_report (inode_map tiny) unreachable_inode inode_marked_free
    × AreTold tiny_report (block_map tiny) unreachable_block marked_free
read_img-lost_example = read_img-lost tiny tiny_report tiny_run

read_tree-Walked_example :
    (n : ℕ) × (n ≤ 100) × Walked tiny n tiny_start (read_tree tiny 101 tiny_start)
read_tree-Walked_example = read_tree-Walked tiny tiny_start (omega arith) (omega arith)

pub data_IsOwn : (k : ℕ) → k < 6 → direct (state_of with_data) 4 k ≡ 6 → k ≡ 0
data_IsOwn zero lt e = refl
data_IsOwn (suc zero) lt e = absurd (omega (arith, e, data_file.6))
data_IsOwn (suc (suc zero)) lt e = absurd (omega (arith, e, data_file.7))
data_IsOwn (suc (suc (suc zero))) lt e = absurd (omega (arith, e, data_file.8))
data_IsOwn (suc (suc (suc (suc zero)))) lt e = absurd (omega (arith, e, data_file.9))
data_IsOwn (suc (suc (suc (suc (suc zero))))) lt e = absurd (omega (arith, e, data_file.10))
data_IsOwn (suc (suc (suc (suc (suc (suc k)))))) lt e = absurd (omega arith)

abbrev pub two_bytes : Buffer
two_bytes k = if k == 0 then b'p' else b'q'

fs_write_lem_example :
    (disk : Area) × (fs_write (codes "/d/b") 2 1 two_bytes (state_of with_data)
      ≡ ok (pos 2) (record (state_of with_data) { disk = disk }))
    × ((o : ℕ)
        → o < 6144
        → direct_byte (record (state_of with_data) { disk = disk }) 4 o ≡ (
            if leb 1 o && ltb o 3 then two_bytes (o - 1) else direct_byte (state_of with_data) 4 o))
    × ((b : ℕ)
        → ((j : ℕ) → j < 6 → b ≢ direct (state_of with_data) 4 j)
        → disk b ≡ (state_of with_data).disk b)
fs_write_lem_example =
    fs_write_lem (state_of with_data) (codes "/d/b") 2 1 two_bytes 4 3 data_file.0 (omega arith)
      (omega (arith, data_file)) data_file.2 (omega arith) (omega arith) (omega arith)
      (λ j lo hi.
        let first : j ≡ 0 = omega arith in
        subst (IsOwn (state_of with_data) 4) (sym first) (
          omega (arith, data_file),
          omega (arith, data_file),
          λ k lt e. data_IsOwn k lt (e ∙ data_file.3),
        ))
