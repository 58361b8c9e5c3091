-- ===== src/Lib.antt =====
-- The cs5600 file system: a user-space file system of 1024-byte blocks on an image file.
--
-- The program. homework.c holds the operations that FUSE, or the command line of misc.c, calls. They
-- work on globals that `fs_init` reads from the image: two bit maps, which say what blocks and inodes
-- are in use, and all inodes. Directories, file data and indirect blocks are read from the image where
-- they are used. Every change of a map or of an inode goes to the image at once. image.c reads and
-- writes whole blocks of the image file, and mkfs-x6.c makes an empty image. fs5600.h has the layout
-- of the superblock, of inodes and of directory entries. misc.c has the command line: it keeps a
-- current directory, makes paths of it and the arguments, and calls the operations. mktest.c writes a
-- test image with five files, and read-img.c prints and checks an image.
--
-- Which file models what:
--   Base      Boolean tests, integers with the error codes, lists of bytes, counted scans.
--   Memory    blocks as functions from offsets to bytes, little-endian 32-bit words (Memory/Words), and
--             the bit sets of FD_SET, FD_CLR and FD_ISSET (Memory/Bits).
--   State     the record Fs of the globals of homework.c and of the image; a command maps a state to a
--             result and a state, or to `fault`. State/Device: image_read and image_write of image.c,
--             fs_init. State/Bitmap: update_bitmap and the two searches. State/Inode: the inode region,
--             update_inode, set_attr. State/Post and State/Alloc: what these commands do.
--   Names     strtok, trancate_path, get_name, strip; Names/Tokens: how they take a path apart.
--   Tree      struct fs5600_dirent by its bytes (Tree/Dirent), translate, inode_is_dir and
--             find_free_dirent_num. Tree/Lookup: path resolution as a relation. Tree/Entries: an entry
--             in a block; Tree/Names: its name. Tree/Leads: the ways through a tree; Tree/Held: its
--             directories. Tree/Same: trees with the same directories. Tree/Total: readable trees.
--   Ops       Ops/Attr: fs_getattr, fs_readdir, fs_chmod, fs_utime, fs_statfs. Ops/Create: fs_mknod,
--             fs_mkdir. Ops/Remove: fs_truncate, fs_unlink, fs_rmdir. Ops/Rename: fs_rename. Ops/Read and
--             Ops/Write: fs_read and fs_write with their three levels. Ops/Stored, Ops/Mknod and
--             Ops/Paths: fs_mknod step by step. Ops/Stamp: fs_chmod and fs_utime on all branches.
--             Ops/Content: the content of a file, and fs_read on all three levels of blocks, loop by
--             loop. Ops/Overwrite: fs_write inside of the direct blocks of a file. Ops/Extend: fs_write
--             where it allocates direct blocks, piece by piece, and what fs_read and translate return
--             behind it; Ops/Extend/New and Ops/Extend/Fresh: a file that fs_mknod makes. Ops/Renamed:
--             fs_rename and the paths. Ops/Errors: errors and the state. Ops/Rmdir: fs_rmdir and the
--             maps.
--   Mount     the invariant of a mounted file system (IsMounted), the single steps (Mount/Steps,
--             Mount/Inodes) and the operations (Mount/Attr, Mount/Create, Mount/Rename, Mount/Truncate,
--             Mount/Unlink, Mount/Write) under it; Mount/Init and Mount/Getattr: fs_init and fs_getattr.
--             Mount/Keeps: what each operation may change, as a relation of steps. Mount/Session: the
--             calls of fs_ops in any order, and Mount/Session/Remount: a mount behind them.
--   Mkfs      the image that mkfs-x6.c writes; Mkfs/Fresh: what fs_init makes of it. Mkfs/Main: parseint
--             and main; Mkfs/Main/Sizes: a size in decimal digits.
--   Mktest    the image that mktest.c writes; Mktest/Image: what fs_init and translate make of it,
--             Mktest/Blocks and Mktest/Files: the blocks and the bytes of its files.
--   Shell     the globals of misc.c and what a command does outside of the image. Shell/Words: split,
--             fix_path, strtol. Shell/Print: numbers, strmode and the sorted rows of a listing.
--             Shell/Dirs: cd, pwd and the listings. Shell/Files: chmod to blksiz. Shell/Loop: the table
--             of commands and cmdloop. Shell/Main: main with -cmdline. Shell/Words/Tokens,
--             Shell/Words/Ups, Shell/Cd, Shell/Print/Rows, Shell/Show, Shell/Put and Shell/Lines:
--             what they do. Shell/Cd/Goes: what a cd means for the names of a path.
--   ReadImg   the walk and the report of read-img.c; ReadImg/Told, ReadImg/Walk and ReadImg/Lost: what
--             the lists of the report hold, ReadImg/Fuel: the walk ends.
--   Tests     runs of the operations on an image of 16 blocks; Tests/Sessions: sessions of the command
--             line; Tests/Examples, Tests/Invariants, Tests/Commands, Tests/Files, Tests/Puts and
--             Tests/Sizes: the theorems on examples.
--
-- How the model stands to the code. A command ends in `fault` where the process stops by a failed
-- assertion, or where the code leaves an allocation, of which C promises nothing. An index into
-- inode_region is checked against the size of its allocation when the inode is read or written. Block
-- numbers are uint32_t fields; those from 2^31 on are negative as `int`, and both are refused by the
-- assertion of image_read and image_write. The layout is that of x86: little-endian words, bit-fields
-- from the lowest bit on, and 8-byte size_t and off_t. Images are below 2 GB, so that offsets in bytes
-- and the sizes in the superblock fit an `int`. Results of time, getuid and getgid are the record Env.
-- Operations are taken to run one at a time, so an operation is one command.
--
-- Loops over entries, blocks and pointers run a fixed number of rounds in the code (32, 6 and 256), and
-- the model recurses on the rounds that are left. The walk of translate recurses on the tokens of the
-- path. Other loops have fuel: fix_path as many rounds as the path has bytes, since a round takes three
-- out; the loops of show and get 2 ^ 31 rounds, since a round reads a byte at least of a file with an
-- `int` as its size; cmdloop one more than the input has bytes, since a line takes one; put as many as
-- the file of the host has bytes; the walk of read-img.c 101, since its list has 100 places; a printed
-- number has 20 digits at most.
--
-- mkfs-x6.c gets a function that opens a file and gives its size, and the time. Its strtol reads spaces,
-- a sign and digits in base 0; where a product of `int`s does not fit, the model stops.
--
-- The command line works on a host, the record Host: the files that can be read and written, whether
-- the input is a terminal, and strerror. A process that leaves an array of misc.c stops. What a new
-- buffer of malloc holds is not said; here it is what the old one held. Of the report of read-img.c a
-- line is a value with the numbers that printf gets.
--
-- Not modelled: the arguments of misc.c and the start of FUSE; image_num_blocks, which nothing calls;
-- the opening and writing of files by mkfs-x6.c, mktest.c and read-img.c, and the errors of pread and
-- pwrite, which are calls of the operating system; the memory that the operations allocate and do not
-- free; the shell scripts and the build.
pub mod Base
pub mod Memory
pub mod State
pub mod Names
pub mod Tree
pub mod Ops
pub mod Mount
pub mod Mkfs
pub mod Mktest
pub mod ReadImg
pub mod Shell
pub mod Tests
