-- ===== src/Mktest/Image.antt =====
-- The test image mounted, and the files on it.
use cs5600_filesystem.Base.{ℕ, ◌+◌, ◌*◌, ◌≡◌, refl, true, Bytes, codes}
use cs5600_filesystem.Base.Int.{pos}
use cs5600_filesystem.Base.Search.{last_index}
use cs5600_filesystem.Memory.{word, set_word, store_words, byte_of, string_at}
use cs5600_filesystem.Names.{tokens}
use cs5600_filesystem.State.{Fs, ok}
use cs5600_filesystem.State.Device.{fs_init, image_read, read_block}
use cs5600_filesystem.State.Inode.{field, inode_at, w_mode, w_size, is_reg}
use cs5600_filesystem.Tree.{translate, walk, read_dir, find_entry, matches}
use cs5600_filesystem.Tree.Dirent.{dir_name_is, dir_inode, dir_is_dir, dir_valid, put_dirent}
use cs5600_filesystem.Mktest.{mktest, test_superblock, test_inodes, root_de, d1_de, n_blks}

-- The globals of homework.c on the image.
abbrev pub test_fs : Fs
test_fs = record {
  nblks = n_blks;
  disk = mktest;
  inode_map = λ k. mktest (1 + k);
  block_map = λ k. mktest (2 + k);
  inode_map_sz = 1;
  block_map_sz = 1;
  num_of_blocks = n_blks;
  inode_region = λ k. mktest (3 + k);
  inode_region_sz = 4;
}

pub fs_init-test_fs :
    (memory : Fs) → fs_init (record memory { nblks = n_blks; disk = mktest }) ≡ ok tt test_fs
unfolding fs_init read_block image_read word mktest test_superblock set_word byte_of
fs_init-test_fs memory = refl

-- The files that the image is for, with their paths, sizes, and the byte that each is full of.
pub data TestFile : Type 0 where
  file_a file_7 file_2 file_0 file_270 : TestFile

abbrev pub path_of : TestFile → Bytes
path_of file_a = codes "/file.A"
path_of file_7 = codes "/file.7"
path_of file_2 = codes "/dir1/file.2"
path_of file_0 = codes "/dir1/file.0"
path_of file_270 = codes "/dir1/file.270"

abbrev pub size_of : TestFile → ℕ
size_of file_a = 1000
size_of file_7 = 6 * 1024 + 500
size_of file_2 = 2012
size_of file_0 = 0
size_of file_270 = 269 * 1024 + 721

abbrev pub fill_of : TestFile → ℕ
fill_of file_a = b'A'
fill_of file_7 = b'4'
fill_of file_2 = b'2'
fill_of file_0 = 0
fill_of file_270 = b'K'

abbrev pub inode_of : TestFile → ℕ
inode_of file_a = 2
inode_of file_7 = 6
inode_of file_2 = 4
inode_of file_0 = 5
inode_of file_270 = 7

abbrev pub IsAt : TestFile → Type 0
IsAt f =
    (translate (path_of f) test_fs ≡ ok (pos (inode_of f)) test_fs)
    × (is_reg (field test_fs (inode_of f) w_mode) ≡ true)
    × (field test_fs (inode_of f) w_size ≡ size_of f)

pub file-IsAt : (f : TestFile) → IsAt f
unfolding translate walk tokens inode_at read_dir read_block image_read field word store_words
    byte_of find_entry last_index matches dir_name_is dir_inode dir_is_dir dir_valid put_dirent
    string_at mktest test_inodes root_de d1_de set_word
file-IsAt file_a = (refl, refl, refl)
file-IsAt file_7 = (refl, refl, refl)
file-IsAt file_2 = (refl, refl, refl)
file-IsAt file_0 = (refl, refl, refl)
file-IsAt file_270 = (refl, refl, refl)
