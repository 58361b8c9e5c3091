-- ===== src/Shell/Files.antt =====
-- The commands of misc.c on files: `do_chmod` to `do_blksiz`.
use Prim.Native.Nat.{min}
use cs5600_filesystem.Base.{
  ℕ, zero, suc, ◌+◌, ◌-◌, ◌^◌, not, ◌&&◌, none, some, List, [], ◌∷◌, ◌++◌, ◌==◌, if◌then◌else◌,
  Bytes, codes, length, get_or,
}
use cs5600_filesystem.Base.Int.{ℤ, pos, negsuc, ℤ_eq, exceeds, is_negative, signed32}
use cs5600_filesystem.Memory.{copy_bytes}
use cs5600_filesystem.Ops.Attr.{fs_chmod, fs_statfs}
use cs5600_filesystem.Ops.Create.{fs_mknod, fs_mkdir}
use cs5600_filesystem.Ops.Remove.{fs_rmdir, fs_unlink}
use cs5600_filesystem.Ops.Rename.{fs_rename}
use cs5600_filesystem.Ops.Read.{Buffer, fs_read}
use cs5600_filesystem.Ops.Write.{fs_write}
use cs5600_filesystem.Shell.{
  Host, stored, Act, ran, ◌>>=◌, ◌>>◌, pure, stop, call, say, get_shell, within,
}
use cs5600_filesystem.Shell.Words.{fix_path, to_int}
use cs5600_filesystem.Shell.Print.{decimal, print_int}
use cs5600_filesystem.Shell.Dirs.{make_path}

-- `sprintf(path, "%s/%s", cwd, name)` and `fix_path(path)`
unfoldable pub path_to : Bytes → Act Bytes
path_to name = do cwd ← get_shell (λ sh. sh.cwd); path ← make_path cwd name; pure (fix_path path)

unfoldable pub do_chmod : (mode name : Bytes) → Act ℤ
do_chmod mode name = do path ← path_to name; call (fs_chmod path (to_int 8 mode))

unfoldable pub do_rename : (old new : Bytes) → Act ℤ
do_rename old new = do p1 ← path_to old; p2 ← path_to new; call (fs_rename p1 p2)

unfoldable pub do_mkdir : Host → Bytes → Act ℤ
do_mkdir host name = do path ← path_to name; call (fs_mkdir host.env path 0o777)

unfoldable pub do_rmdir : Bytes → Act ℤ
do_rmdir name = do path ← path_to name; call (fs_rmdir path)

unfoldable pub do_rm : Bytes → Act ℤ
do_rm leaf = do path ← path_to leaf; call (fs_unlink path)

-- The third argument of `fs_ops.read`: an `int` as `size_t`.
abbrev pub as_size : ℤ → ℕ
as_size (pos n) = n
as_size (negsuc n) = 2 ^ 64 - n - 1

abbrev pub set_buffer : Buffer → Act (Unit {0})
set_buffer buf sh s = ran tt (record sh { blkbuf = buf }) s []

-- The first bytes of a buffer.
unfoldable pub prefix : ℕ → Buffer → Bytes
prefix zero buf = []
prefix (suc n) buf = buf 0 ∷ prefix n (λ k. buf (k + 1))

-- `fs_ops.read(path, blkbuf, blksiz, offset, NULL)`. With a size below zero there is no buffer.
unfoldable pub read_chunk : (path : Bytes) → (offset : ℕ) → Act ℤ
read_chunk path offset = do
  size ← get_shell (λ sh. sh.blksiz)
  buf ← get_shell (λ sh. sh.blkbuf)
  (len, buf') ← call (fs_read path (as_size size) offset buf)
  within (not (is_negative size && exceeds len 0))
  set_buffer buf'
  pure len

-- The loops of `do_show` and `do_get`: the last result of `read`, and all bytes in turn.
unfoldable pub read_all : (fuel : ℕ) → (path : Bytes) → (offset : ℕ) → Act (ℤ × Bytes)
read_all zero path offset = stop
read_all (suc k) path offset = do
  len ← read_chunk path offset
  elim len [
    | negsuc e ↦ pure (negsuc e, [])
    | pos zero ↦ pure (pos 0, [])
    | pos (suc n) ↦ do
      buf ← get_shell (λ sh. sh.blkbuf)
      (last, rest) ← read_all k path (offset + suc n)
      pure (last, prefix (suc n) buf ++ rest)
  ]

-- A read that returns something returns one byte at least, and no file has 2 ^ 31 bytes.
unfoldable pub rounds : ℕ
rounds = 2 ^ 31

unfoldable pub do_show : Bytes → Act ℤ
do_show file = do
  path ← path_to file
  (len, content) ← read_all rounds path 0
  say content
  pure len

-- The file of the host is emptied when it is opened.
unfoldable pub do_get : Host → (inside outside : Bytes) → Act ℤ
do_get host inside outside = if not (host.can_write outside) then pure (negsuc 0) else do
  path ← path_to inside
  (len, content) ← read_all rounds path 0
  (λ sh s. ran tt sh s (stored outside content ∷ []))
  pure len

unfoldable pub drop {ℓ} : {A : Type ℓ} → ℕ → List A → List A
drop zero xs = xs
drop (suc n) [] = []
drop (suc n) (x ∷ xs) = drop n xs

-- The loop of `do_put`, with what is left of the file of the host, and the last `val`. There is a
-- round for each byte.
unfoldable pub put_all :
    (fuel : ℕ) → (path : Bytes) → (size : ℕ) → (left : Bytes) → (offset : ℕ) → (val : ℤ) → Act ℤ
put_all zero path size left offset val = pure val
put_all (suc k) path size left offset val =
    let len = min size (length left) in
    if len == 0 then pure val else do
      old ← get_shell (λ sh. sh.blkbuf)
      let buf = copy_bytes old 0 len (λ i. get_or left i 0)
      set_buffer buf
      val' ← call (fs_write path len offset buf)
      if not (ℤ_eq val' (pos len))
          then pure val'
          else put_all k path size (drop len left) (offset + len) val'

unfoldable pub do_put : Host → (outside inside : Bytes) → Act ℤ
do_put host outside inside = elim (host.content outside) [
  | none ↦ pure (negsuc 0)
  | some content ↦ do
    path ← path_to inside
    made ← call (fs_mknod host.env path 0o100777)
    if not (ℤ_eq made (pos 0)) then pure made else do
      size ← get_shell (λ sh. sh.blksiz)
      val ← put_all (length content) path (elim size [ pos n ↦ n | negsuc _ ↦ 0 ]) content 0 made
      pure (if is_negative val then val else pos 0)
]

unfoldable pub do_statfs : Act ℤ
do_statfs = do
  say (
      codes "max name length: "
      ++ (decimal 20 fs_statfs.f_namemax []
          ++ (codes "\nblock size: " ++ (decimal 20 fs_statfs.f_bsize [] ++ codes "\n"))))
  pure (pos 0)

-- `_blksiz`. What a new buffer holds is not said, here what the old one held.
unfoldable pub set_blksiz : ℤ → Act (Unit {0})
set_blksiz size = do
  (λ sh s. ran tt (record sh { blksiz = size }) s [])
  say (codes "read/write block size: " ++ (print_int size ++ codes "\n"))

unfoldable pub do_blksiz : Bytes → Act ℤ
do_blksiz size = do set_blksiz (signed32 (to_int 10 size)); pure (pos 0)
