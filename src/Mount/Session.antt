-- ===== src/Mount/Session.antt =====
-- Sessions: the calls of the file system one behind the other, as FUSE or the command line make them.
pub mod Served
pub mod Remount
use cs5600_filesystem.Base.{ℕ, ◌+◌, ◌<◌, List, [], ◌∷◌, Bytes}
use cs5600_filesystem.Base.Int.{ℤ}
use cs5600_filesystem.State.{Env, Cmd, pure, ◌>>=◌, ◌>>◌}
use cs5600_filesystem.State.Device.{fs_init}
use cs5600_filesystem.Ops.Attr.{fs_getattr, fs_readdir, fs_chmod, fs_utime}
use cs5600_filesystem.Ops.Create.{fs_mknod, fs_mkdir}
use cs5600_filesystem.Ops.Remove.{fs_rmdir, fs_truncate, fs_unlink}
use cs5600_filesystem.Ops.Rename.{fs_rename}
use cs5600_filesystem.Ops.Read.{Buffer, fs_read}
use cs5600_filesystem.Ops.Write.{fs_write}

-- A call of an entry of `fs_ops`.
pub data Call : Type 0 where
  init : Call
  getattr : Bytes → Call
  readdir : Bytes → Call
  mknod : Env → Bytes → (mode : ℕ) → Call
  mkdir : Env → Bytes → (mode : ℕ) → Call
  unlink : Bytes → Call
  rmdir : Bytes → Call
  rename : (src dst : Bytes) → Call
  chmod : Bytes → (mode : ℕ) → Call
  utime : Bytes → (modtime : ℕ) → Call
  truncate : Bytes → (len : ℤ) → Call
  read : Bytes → (len offset : ℕ) → Buffer → Call
  write : Bytes → (len offset : ℕ) → Buffer → Call
  statfs : Call

-- What the call does; its result is left aside. `fs_statfs` looks at no state.
unfoldable pub perform : Call → Cmd (Unit {0})
perform init = fs_init
perform (getattr path) = fs_getattr path >> pure tt
perform (readdir path) = fs_readdir path >> pure tt
perform (mknod env path mode) = fs_mknod env path mode >> pure tt
perform (mkdir env path mode) = fs_mkdir env path mode >> pure tt
perform (unlink path) = fs_unlink path >> pure tt
perform (rmdir path) = fs_rmdir path >> pure tt
perform (rename src dst) = fs_rename src dst >> pure tt
perform (chmod path mode) = fs_chmod path mode >> pure tt
perform (utime path modtime) = fs_utime path modtime >> pure tt
perform (truncate path len) = fs_truncate path len >> pure tt
perform (read path len offset buf) = fs_read path len offset buf >> pure tt
perform (write path len offset buf) = fs_write path len offset buf >> pure tt
perform statfs = pure tt

unfoldable pub session : List Call → Cmd (Unit {0})
session [] = pure tt
session (c ∷ calls) = do perform c; session calls

-- No write goes beyond the bytes that the direct blocks of a file hold.
abbrev pub IsShallow : Call → Type 0
IsShallow (write path len offset buf) = offset + len < 6144
IsShallow c = Unit
