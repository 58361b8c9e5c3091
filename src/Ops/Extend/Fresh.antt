-- ===== src/Ops/Extend/Fresh.antt =====
-- A new file is written and read back.
use cs5600_filesystem.Base.{
  ℕ, ◌+◌, ◌-◌, ◌^◌, ◌≤◌, ◌<◌, ◌≡◌, ap, ◌∙◌, true, ◌⊎◌, Bytes, arith, ◌∷◌, All,
}
use cs5600_filesystem.Base.Int.{ℤ, pos}
use cs5600_filesystem.Memory.{copy_bytes}
use cs5600_filesystem.Names.{tokens}
use cs5600_filesystem.Names.Tokens.{IsPlain, path_of}
use cs5600_filesystem.State.{Fs, Env, Run, ok}
use cs5600_filesystem.State.Inode.{is_reg}
use cs5600_filesystem.State.Alloc.{AreUsed, block_bits}
use cs5600_filesystem.Mount.{IsMounted}
use cs5600_filesystem.Tree.{translate}
use cs5600_filesystem.Tree.Entries.{IsShort}
use cs5600_filesystem.Tree.Lookup.{Lacks, dir_of}
use cs5600_filesystem.Tree.Leads.{Leads}
use cs5600_filesystem.Ops.Create.{fs_mknod}
use cs5600_filesystem.Ops.Mknod.{HasRoom}
use cs5600_filesystem.Ops.Read.{Buffer, fs_read}
use cs5600_filesystem.Ops.Write.{fs_write}
use cs5600_filesystem.Ops.Extend.{content, patched}
use cs5600_filesystem.Ops.Extend.Grow.{grown_size}
use cs5600_filesystem.Ops.Content.Copy.{copy_bytes-same}
use cs5600_filesystem.Ops.Content.Total.{read_count}
use cs5600_filesystem.Ops.Extend.Back.{fs_write-fs_read}
use cs5600_filesystem.Ops.Extend.New.{AreKept, fs_mknod-Stores}

abbrev answer : Fs → ℕ → Buffer → Run (ℤ × Buffer)
answer u n buf = ok (pos n, buf) u

-- A read of bytes that all were written, at the start of the file.
from_start :
    (u : Fs) (m n : ℕ) (buf buf' : Buffer) (old : ℕ → ℕ)
    → m ≤ n
    → answer u (read_count (grown_size 0 (0 + n)) 0 m) (
        copy_bytes buf' 0
          (read_count (grown_size 0 (0 + n)) 0 m)
          (λ o. patched 0 n 0 buf (0 + o) (old (0 + o))))
      ≡ answer u m (copy_bytes buf' 0 m buf)
from_start u m n buf buf' old le =
    let count : read_count (grown_size 0 (0 + n)) 0 m ≡ m = ground arith in
    ap (λ c. answer u c (copy_bytes buf' 0 c (λ o. patched 0 n 0 buf (0 + o) (old (0 + o))))) count
    ∙ ap (answer u m) (
        copy_bytes-same buf' 0 m _ buf
          λ o lt. let place : 0 + (0 + o - 0) ≡ o = omega arith in ground (arith, ap buf place))

-- `fs_mknod`, `fs_write` and `fs_read` one behind the other, in a mounted file system in which the
-- directories are kept in the maps, for a new regular file with a short name in a directory that
-- has room: the file is made; a write of less than 6144 bytes at its beginning returns a number
-- `n`, which is the number of bytes asked for if blocks are not used up; and a read of at most `n`
-- bytes from there gives the bytes of the buffer, in any buffer, and nothing else. All the paths
-- with short names that led to an inode lead there still.
pub fs_mknod-fs_write-fs_read :
    (env : Env) (s : Fs) (mode father i k : ℕ) (dir : Bytes) (c : ℕ) (rest : Bytes) (len : ℕ)
    (buf : Buffer)
    → IsPlain (c ∷ rest)
    → IsShort (c ∷ rest)
    → All IsShort (tokens dir)
    → is_reg mode ≡ true
    → mode < 2 ^ 32
    → IsMounted s s
    → s.num_of_blocks ≤ s.nblks
    → AreKept s
    → Leads s father true 1 true (tokens dir)
    → Lacks (dir_of s father) (c ∷ rest)
    → HasRoom s father i k
    → len < 6144
    → (t : Fs) × (n : ℕ) × (u : Fs) × (fs_mknod env (path_of dir c rest) mode s ≡ ok (pos 0) t)
      × (fs_write (path_of dir c rest) len 0 buf t ≡ ok (pos n) u)
      × ((n ≡ len) ⊎ AreUsed u.block_map 0 (block_bits s))
      × ((m : ℕ) (buf' : Buffer)
          → m ≤ n
          → fs_read (path_of dir c rest) m 0 buf' u ≡ ok (pos m, copy_bytes buf' 0 m buf) u)
      × ((p : Bytes) (m : ℕ)
          → All IsShort (tokens p)
          → translate p s ≡ ok (pos m) s
          → translate p u ≡ ok (pos m) u)
fs_mknod-fs_write-fs_read env s mode father i k dir c rest len buf plain short toks regular bits
      mounted held kept way lacks room small =
    let path : Bytes = path_of dir c rest in
    let (t, run, found, h, paths) =
      fs_mknod-Stores env s mode father i k dir c rest buf plain short toks regular bits mounted
        held kept way lacks room in
    let (n, u, wrote, ends, paths', reads) =
      fs_write-fs_read path len 0 buf k 0 h.store h.apart h.whole found
        (omega (arith, room.inode.above)) h.regular h.size (omega arith) (omega arith)
        (omega arith) in
    (
      t,
      n,
      u,
      run,
      wrote,
      ends,
      (λ m buf' le. reads m 0 buf' (omega arith) ∙ from_start u m n buf buf' (content t k) le),
      λ p m toks' e. paths' p (pos m) (paths p m toks' e),
    )
