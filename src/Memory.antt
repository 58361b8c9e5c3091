-- ===== src/Memory.antt =====
-- Blocks of raw memory (BLOCK_SIZE of blkdev.h bytes each), the words and bit sets that the C code
-- reads in them, as on a little-endian machine with 32-bit `int`.
pub mod Words
pub mod Bits
unfoldable pub use Words.*
unfoldable pub use Bits.*
