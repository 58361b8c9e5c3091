-- ===== src/Ops.antt =====
-- The operations vector `fs_ops` of homework.c.
pub mod Attr
pub mod Create
pub mod Remove
pub mod Rename
pub mod Read
pub mod Write
pub mod Stored
pub mod Mknod
pub mod Paths
pub mod Stamp
pub mod Errors
pub mod Rmdir
pub mod Content
pub mod Overwrite
pub mod Extend
pub mod Renamed
