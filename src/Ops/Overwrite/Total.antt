-- ===== src/Ops/Overwrite/Total.antt =====
-- The whole of an `fs_write` inside of the direct blocks that a file has.
use cs5600_filesystem.Base.{
  ℕ, ◌+◌, ◌-◌, ◌*◌, ◌/◌, ◌%◌, ◌^◌, ◌≤◌, ◌<◌, ◌≡◌, ◌≢◌, refl, ap, ◌∙◌, true, false, ◌&&◌, ◌||◌,
  Bytes, arith, ltb, leb, ◌==◌, if◌then◌else◌,
}
use cs5600_filesystem.Base.Int.{pos, negsuc, signed32}
use cs5600_filesystem.Memory.{Area}
use cs5600_filesystem.State.{Fs, ok}
use cs5600_filesystem.State.Inode.{field, w_size}
use cs5600_filesystem.State.Post.{after}
use cs5600_filesystem.Tree.{translate}
use cs5600_filesystem.Tree.Lookup.{inode_at-ok}
use cs5600_filesystem.Ops.Read.{Buffer}
use cs5600_filesystem.Ops.Write.{fs_write_1st_level, write_levels, grow, int_length, fs_write}
use cs5600_filesystem.Ops.Overwrite.{direct, IsOwn, IsPatched, written}

-- The bytes of the six direct blocks, as one row.
abbrev pub direct_byte : Fs → (inum o : ℕ) → ℕ
direct_byte s inum o = s.disk (direct s inum (o / 1024)) (o % 1024)

pub same_field : (s : Fs) (d : Area) (n f : ℕ) → field (record s { disk = d }) n f ≡ field s n f
unfolding field
same_field s d n f = refl

patched_byte :
    (s : Fs) (inum offset len : ℕ) (buf : Buffer) (d : Area)
    → IsPatched (direct s inum) offset len 0 buf s.disk d
    → (o : ℕ) → o < 6144
    → direct_byte (record s { disk = d }) inum o
      ≡ (if leb offset o && ltb o (offset + len) then buf (o - offset) else direct_byte s inum o)
unfolding field
patched_byte s inum offset len buf d patched o lt =
    let whole : o / 1024 * 1024 + o % 1024 ≡ o = omega arith in
    let at : 0 + (o - offset) ≡ o - offset = omega arith in
    patched.bytes (o / 1024) (o % 1024) (omega arith) (omega arith) ∙ rw (whole, at) refl

pub grow-none :
    (t : Fs) (inum end size : ℕ)
    → field t inum w_size ≡ size
    → size < 2 ^ 31
    → end ≤ size
    → grow inum end t ≡ ok tt t
unfolding grow
grow-none t inum end size is_size small le =
    let fits : ltb size (2 ^ 31) ≡ true = ground arith in
    let inside : (ltb end size || size == end) ≡ true = ground arith in
    rw is_size (rw fits (rw inside refl))

pub int_length-small : (len : ℕ) → len < 2 ^ 31 → int_length len ≡ len
int_length-small len small =
    let wrap : len % 2 ^ 32 ≡ len = omega arith in
    let fits : ltb len (2 ^ 31) ≡ true = ground arith in
    ap (λ w. elim (signed32 w) as (λ _. ℕ) [ pos n ↦ n | negsuc _ ↦ 0 ]) wrap ∙ rw fits refl

write_levels-ok :
    (s t : Fs) (inum offset len size : ℕ) (buf : Buffer)
    → fs_write_1st_level inum offset len 0 buf s ≡ ok len t
    → field t inum w_size ≡ size
    → size < 2 ^ 31
    → offset + len ≤ size
    → offset + len < 6144
    → write_levels inum offset len buf s ≡ ok len t
unfolding write_levels
write_levels-ok s t inum offset len size buf run is_size small in_file before =
    let first : ltb offset 6144 ≡ true = ground arith in
    let no_second : (leb 6144 (offset + len) && ltb (offset + len) 268288) ≡ false = ground arith in
    let no_third : (leb 268288 (offset + len + 0) && leb (offset + len + 0) 67377152) ≡ false =
      ground arith in
    rw first (
      after _ run (
        rw no_second (
          rw no_third (
            after _ (grow-none t inum (offset + len + 0 + 0) size is_size small (omega arith))
              (ap (λ n. ok n t) (omega arith))))))

-- `fs_write` inside of a file, with a request that ends before byte 6144 (offset plus length is
-- less than 6144), where the direct blocks from the one with the first byte to the one with the
-- last are set, on the image, and no other direct block of the file: it returns the number of
-- bytes, and leaves the state but for the disk. There the bytes of the file from `offset` on are
-- those of the buffer, as many as were written; its other bytes, and all blocks that are no direct
-- block of the file, stay.
pub fs_write_lem :
    (s : Fs) (path : Bytes) (len offset : ℕ) (buf : Buffer) (inum size : ℕ)
    → translate path s ≡ ok (pos inum) s
    → inum ≢ 0
    → inum < s.inode_region_sz * 16
    → field s inum w_size ≡ size
    → size < 2 ^ 31
    → offset + len ≤ size
    → offset + len < 6144
    → ((j : ℕ) → offset / 1024 ≤ j → j * 1024 < offset + len → IsOwn s inum j)
    → (disk : Area) × (fs_write path len offset buf s ≡ ok (pos len) (record s { disk = disk }))
      × ((o : ℕ)
          → o < 6144
          → direct_byte (record s { disk = disk }) inum o ≡ (
              if leb offset o && ltb o (offset + len)
              then buf (o - offset)
              else direct_byte s inum o))
      × ((b : ℕ) → ((j : ℕ) → j < 6 → b ≢ direct s inum j) → disk b ≡ s.disk b)
unfolding fs_write
fs_write_lem s path len offset buf inum size found ne inside is_size small in_file before set =
    let (d, run, patched) = written s inum buf offset len set before in
    let not_null : (inum == 0) ≡ false = ground arith in
    let fits : ltb size (2 ^ 31) ≡ true = ground arith in
    let in_range : (ltb offset size || size == offset) ≡ true = ground arith in
    let length : int_length len ≡ len = int_length-small len (omega arith) in
    (
      d,
      after _ found (
          rw not_null (
            after _ (inode_at-ok s inum inside) (
              rw is_size (
                rw fits (
                  rw (in_range, length)
                    (after _
                      (write_levels-ok s (record s { disk = d }) inum offset len size buf run
                        (same_field s d inum w_size ∙ is_size) small in_file before)
                      refl)))))),
      patched_byte s inum offset len buf d patched,
      patched.others,
    )
