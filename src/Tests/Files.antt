-- ===== src/Tests/Files.antt =====
-- The theorems on writes that allocate blocks, on the small image.
use cs5600_filesystem.Base.{
  ℕ, zero, suc, ◌+◌, ◌<◌, ◌≤◌, ◌≡◌, ◌≢◌, refl, sym, ap, ◌∙◌, ◌⊎◌, inl, inr, Bool, true, false,
  Bytes, codes, arith, [], ◌∷◌, All,
}
use cs5600_filesystem.Base.Int.{ℤ, pos}
use cs5600_filesystem.Base.Search.{first_index-none}
use cs5600_filesystem.Memory.{fd_isset, copy_bytes, word}
use cs5600_filesystem.Names.{tokens}
use cs5600_filesystem.Names.Tokens.{path_of}
use cs5600_filesystem.State.{Fs, ok}
use cs5600_filesystem.State.Inode.{is_reg}
use cs5600_filesystem.State.Post.{Post, mono}
use cs5600_filesystem.State.Alloc.{AreUsed, block_bits}
use cs5600_filesystem.Mount.{IsMounted}
use cs5600_filesystem.Mount.Write.{fs_write-IsMounted}
use cs5600_filesystem.Mkfs.Fresh.{mounted-root, mounted-used, mounted-inodes, mounted-Lacks}
use cs5600_filesystem.Tree.{translate}
use cs5600_filesystem.Tree.Dirent.{dir_inode, dir_is_dir, dir_valid}
use cs5600_filesystem.Tree.Entries.{IsShort}
use cs5600_filesystem.Tree.Lookup.{dir_of}
use cs5600_filesystem.Tree.Leads.{InTree, root, child, done}
use cs5600_filesystem.Tree.Held.{IsHeld, at_root, within}
use cs5600_filesystem.Ops.Create.{fs_mknod}
use cs5600_filesystem.Ops.Read.{Buffer, fs_read}
use cs5600_filesystem.Ops.Write.{fs_write}
use cs5600_filesystem.Ops.Content.Total.{read_count}
use cs5600_filesystem.Ops.Overwrite.{direct}
use cs5600_filesystem.Ops.Extend.{content, patched, IsStore}
use cs5600_filesystem.Ops.Extend.Grow.{grown_size}
use cs5600_filesystem.Ops.Extend.Total.{Written, fs_write-Written}
use cs5600_filesystem.Ops.Extend.Back.{IsApart, fs_write-fs_read}
use cs5600_filesystem.Ops.Extend.New.{AreKept}
use cs5600_filesystem.Ops.Extend.Fresh.{fs_mknod-fs_write-fs_read}
use cs5600_filesystem.Mkfs.{mkfs}
use cs5600_filesystem.State.Device.{fs_init}
use cs5600_filesystem.Mount.Init.{IsSameFs}
use cs5600_filesystem.Mount.Session.{init, session}
use cs5600_filesystem.Mount.Session.Remount.{session-fs_init}
use cs5600_filesystem.Memory.{Area}
use cs5600_filesystem.Base.{◌≢◌}
use cs5600_filesystem.State.Inode.{field, w_direct}
use cs5600_filesystem.Tree.Entries.{IsShort}
use cs5600_filesystem.Base.Int.{enoent}
use cs5600_filesystem.Tree.{matches}
use cs5600_filesystem.Tree.Lookup.{find_entry-some, find_entry-none}
use cs5600_filesystem.Ops.Rename.{fs_rename}
use cs5600_filesystem.Ops.Renamed.{CanRename, fs_rename-translate}
use cs5600_filesystem.Ops.Renamed.Beside.{at_end}
use cs5600_filesystem.Tests.{
  fresh, fresh-IsMounted, env, state_of, with_tree, with_data, data_file, data_dirs, data_names,
  three_bytes, calls,
}
use cs5600_filesystem.Tests.Examples.{blank_memory, at_root_block, fresh-HasRoom, ab-IsShort}
use cs5600_filesystem.Tests.Invariants.{with_tree-IsMounted, Post-state_of}
use cs5600_filesystem.Tests.Commands.{two_bytes}

fs_write-IsMounted_example :
    Post
      (λ r t. IsMounted fresh t × ((n : ℕ) → r ≡ pos n → n ≤ 3))
      (fs_write (codes "/d/b") 3 0 three_bytes (state_of with_tree))
fs_write-IsMounted_example =
    fs_write-IsMounted (codes "/d/b") 3 0 three_bytes (omega arith) with_tree-IsMounted

abbrev filled : Fs
filled = state_of with_data

data-IsMounted : IsMounted fresh filled
data-IsMounted = Post-state_of fresh-IsMounted (mono fs_write-IsMounted_example λ r t both. both.0)

data_first : (j : ℕ) → j < 6 → direct filled 4 j ≢ 0 → j ≡ 0
data_first zero lt ne = refl
data_first (suc zero) lt ne = absurd (omega (arith, ne, data_file.6))
data_first (suc (suc zero)) lt ne = absurd (omega (arith, ne, data_file.7))
data_first (suc (suc (suc zero))) lt ne = absurd (omega (arith, ne, data_file.8))
data_first (suc (suc (suc (suc zero)))) lt ne = absurd (omega (arith, ne, data_file.9))
data_first (suc (suc (suc (suc (suc zero))))) lt ne = absurd (omega (arith, ne, data_file.10))
data_first (suc (suc (suc (suc (suc (suc k)))))) lt ne = absurd (omega arith)

data-IsStore : IsStore fresh filled 4
data-IsStore = record {
  mounted = data-IsMounted;
  held = omega arith;
  room = omega arith;
  inside = omega arith;
  used = λ j six ne.
      let first : j ≡ 0 = data_first j six ne in
      let here : direct filled 4 j ≡ 6 = ap (direct filled 4) first ∙ data_file.3 in
      (ap (λ b. fd_isset b filled.block_map) here ∙ data_dirs.6, omega arith);
  apart = λ j k six six' ne same. data_first k six' (omega arith) ∙ sym (data_first j six ne);
}

fs_write-Written_example :
    (n : ℕ) × (t : Fs) × (fs_write (codes "/d/b") 2000 3 two_bytes filled ≡ ok (pos n) t)
    × (n ≤ 2000)
    × ((n ≡ 2000) ⊎ AreUsed t.block_map 0 (block_bits fresh))
    × Written fresh filled t 4 3 n two_bytes
fs_write-Written_example =
    fs_write-Written (codes "/d/b") 2000 3 two_bytes 4 3 data-IsStore data_file.0 (omega arith)
      data_file.2 (omega arith) (omega arith) (omega arith)

other_block : (b j : ℕ) → b ≢ 0 → b ≢ 6 → j < 6 → b ≢ direct filled 4 j
other_block b j ne other six same =
    let first : j ≡ 0 = data_first j six (omega arith) in
    let here : direct filled 4 j ≡ 6 = ap (direct filled 4) first ∙ data_file.3 in omega arith

-- The directories of the example.
in_data : {n : ℕ} {b : Bool} → InTree filled n b → b ≡ true → (n ≡ 1) ⊎ (n ≡ 3)
in_data root e = inl refl
in_data (child {n} t i reach entry) e = elim (in_data reach refl) [
  | inl is ↦
      let flag : dir_is_dir (dir_of filled 1) i ≡ true = rw is at e in
      let inode : dir_inode (dir_of filled 1) i ≡ 3 =
        ground (arith, first_index-none _ 32 0 i data_dirs.0, entry.in_block) in
      inr (rw is inode)
  | inr is ↦
      let flag : dir_is_dir (dir_of filled 3) i ≡ true = rw is at e in
      absurd (ground (arith, first_index-none _ 32 0 i data_dirs.1, entry.in_block))
]

data-IsApart : IsApart fresh filled 4
data-IsApart n reach = elim (in_data reach refl) [
  | inl is ↦
      let here : direct filled n 0 ≡ 4 = ap (λ k. direct filled k 0) is ∙ data_dirs.2 in
      (
        omega arith,
        ap (λ b. fd_isset b filled.block_map) here ∙ data_dirs.4,
        λ j six. rw here (other_block 4 j (omega arith) (omega arith) six),
      )
  | inr is ↦
      let here : direct filled n 0 ≡ 5 = ap (λ k. direct filled k 0) is ∙ data_dirs.3 in
      (
        omega arith,
        ap (λ b. fd_isset b filled.block_map) here ∙ data_dirs.5,
        λ j six. rw here (other_block 5 j (omega arith) (omega arith) six),
      )
]

fs_write-fs_read_example :
    (n : ℕ) × (t : Fs) × (fs_write (codes "/d/b") 2000 3 two_bytes filled ≡ ok (pos n) t)
    × ((n ≡ 2000) ⊎ AreUsed t.block_map 0 (block_bits fresh))
    × ((p : Bytes) (r : ℤ) → translate p filled ≡ ok r filled → translate p t ≡ ok r t)
    × ((len' offset' : ℕ) (buf' : Buffer)
        → offset' < 2147483648
        → fs_read (codes "/d/b") len' offset' buf' t
          ≡ ok
              (
                pos (read_count (grown_size 3 (3 + n)) offset' len'),
                copy_bytes buf' 0
                    (read_count (grown_size 3 (3 + n)) offset' len')
                    (λ o. patched 3 n 0 two_bytes (offset' + o) (content filled 4 (offset' + o))),
              )
              t)
fs_write-fs_read_example =
    fs_write-fs_read (codes "/d/b") 2000 3 two_bytes 4 3 data-IsStore data-IsApart
      (λ j lt. let first : j ≡ 0 = omega arith in rw first (omega (arith, data_file.3))) data_file.0
      (omega arith) (ap is_reg data_file.1) data_file.2 (omega arith) (omega arith) (omega arith)

fresh_empty : (j : ℕ) → dir_valid (dir_of fresh 1) j ≡ false
unfolding dir_valid word
fresh_empty j = rw (mounted-root 16 1000 (omega arith) (omega arith) (omega arith)) refl

held_in_fresh : {n : ℕ} {b : Bool} → IsHeld fresh n b → n ≡ 1
held_in_fresh at_root = refl
held_in_fresh (within {n} j held in_block valid) =
    let is : n ≡ 1 = held_in_fresh held in
    let valid' : dir_valid (dir_of fresh 1) j ≡ true = rw is at valid in cc (valid', fresh_empty j)

pub fresh-AreKept : AreKept fresh
fresh-AreKept n held = rw (held_in_fresh held) (
  mounted-inodes 16 1000 (omega arith) (omega arith) (omega arith) 1 (omega arith),
  omega (arith, at_root_block),
  rw at_root_block (mounted-used 16 1000 (omega arith) (omega arith) (omega arith) 4 (omega arith)),
)

fs_mknod-fs_write-fs_read_example :
    (t : Fs) × (n : ℕ) × (u : Fs) × (fs_mknod env (path_of [] b'a' (codes "b")) 0o100644 fresh
      ≡ ok (pos 0) t)
    × (fs_write (path_of [] b'a' (codes "b")) 3000 0 two_bytes t ≡ ok (pos n) u)
    × ((n ≡ 3000) ⊎ AreUsed u.block_map 0 (block_bits fresh))
    × ((m : ℕ) (buf' : Buffer)
        → m ≤ n
        → fs_read (path_of [] b'a' (codes "b")) m 0 buf' u
          ≡ ok (pos m, copy_bytes buf' 0 m two_bytes) u)
    × ((p : Bytes) (m : ℕ)
        → All IsShort (tokens p)
        → translate p fresh ≡ ok (pos m) fresh
        → translate p u ≡ ok (pos m) u)
unfolding tokens
fs_mknod-fs_write-fs_read_example =
    fs_mknod-fs_write-fs_read env fresh 0o100644 1 0 2 [] b'a' (codes "b") 3000 two_bytes
      (λ e. absurd (omega arith), (λ e. absurd (omega arith), tt)) ab-IsShort tt refl (omega arith)
      fresh-IsMounted (omega arith) fresh-AreKept done
      (mounted-Lacks 16 1000 (omega arith) (omega arith) (omega arith) (codes "ab")) fresh-HasRoom
      (omega arith)

session-fs_init_example :
    Post
      (λ _ u. IsMounted fresh u × (v : Fs) × (fs_init u ≡ ok tt v) × IsSameFs u v)
      (session (init ∷ calls) (record blank_memory { nblks = 16; disk = mkfs 16 1000 }))
session-fs_init_example =
    session-fs_init 16 1000 (omega arith) (omega arith) (omega arith) blank_memory calls
      (tt, (omega arith, (tt, (tt, (omega arith, (tt, (tt, (tt, (tt, (tt, tt))))))))))

a_to_c : CanRename filled 1 0 (codes "a") (codes "c")
a_to_c = record {
  dir = record {
    in_region = omega (arith, data_file);
    on_disk = omega (arith, data_dirs.2, data_file);
  };
  not_null = omega arith;
  block = omega (arith, data_dirs.2);
  entry = find_entry-some (dir_of filled 1) (codes "a") data_names.0;
  only = λ k lt named. ground (arith, first_index-none _ 32 0 k data_names.2);
  free = find_entry-none (dir_of filled 1) (codes "c") data_names.1;
}

one-IsShort : (c : ℕ) → c ≢ 0 → IsShort (c ∷ [])
one-IsShort c ne = record { fits = omega arith; non_zero = (ne, tt) }

fs_rename-translate_example :
    (disk : Area) × (fs_rename (codes "/a") (codes "/c") filled
      ≡ ok (pos 0) (record filled { disk = disk }))
    × (translate (codes "/a") (record filled { disk = disk })
        ≡ ok enoent (record filled { disk = disk }))
    × (translate (codes "/c") (record filled { disk = disk })
        ≡ ok (pos (dir_inode (dir_of filled 1) 0)) (record filled { disk = disk }))
    × ((name : Bytes) (j : ℕ)
        → IsShort name
        → name ≢ codes "a"
        → name ≢ codes "c"
        → (matches (dir_of (record filled { disk = disk }) 1) name j
            ≡ matches (dir_of filled 1) name j)
          × (dir_inode (dir_of (record filled { disk = disk }) 1) j ≡ dir_inode (dir_of filled 1) j)
          × (dir_is_dir (dir_of (record filled { disk = disk }) 1) j
              ≡ dir_is_dir (dir_of filled 1) j))
    × ((b : ℕ) → b ≢ field filled 1 w_direct → disk b ≡ filled.disk b)
unfolding tokens
fs_rename-translate_example =
    fs_rename-translate filled 1 0 [] b'a' [] b'c' [] (λ e. absurd (omega arith), tt)
      (λ e. absurd (omega arith), tt) (one-IsShort b'a' (omega arith))
      (one-IsShort b'c' (omega arith)) at_end a_to_c
