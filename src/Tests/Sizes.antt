-- ===== src/Tests/Sizes.antt =====
-- The arguments of mkfs-x6.c, on examples.
use cs5600_filesystem.Base.{
  ℕ, ◌≡◌, refl, Option, none, some, [], ◌∷◌, Bytes, codes, arith, if◌then◌else◌, bytes_eq,
}
use cs5600_filesystem.Base.Int.{pos, negsuc}
use cs5600_filesystem.Memory.{Area}
use cs5600_filesystem.State.{ok}
use cs5600_filesystem.State.Device.{fs_init}
use cs5600_filesystem.Mount.{IsMounted}
use cs5600_filesystem.Tree.Lookup.{HasDir, Lacks, dir_of}
use cs5600_filesystem.State.{Fs}
use cs5600_filesystem.Mkfs.{mkfs}
use cs5600_filesystem.Mkfs.Main.{
  digit_value, read_digits, read_number, strtol, scaled, parseint, usage, stopped, written,
  make_image, with_file, main_mkfs,
}
use cs5600_filesystem.Mkfs.Main.Sizes.{main_mkfs-IsMounted}
use cs5600_filesystem.Tests.Examples.{blank_memory}

-- A host with one file, of 16 blocks.
abbrev open_file : Bytes → Option ℕ
open_file file = if bytes_eq file (codes "img") then some 16384 else none

parseint_tests :
    (parseint (codes "0x10k") ≡ some (pos 16384))
    × (parseint (codes " -2M") ≡ some (negsuc 2097151))
    × (parseint (codes "017") ≡ some (pos 15))
    × (parseint (codes "4096M") ≡ none)
    × (parseint (codes "big") ≡ some (pos 0))
unfolding parseint strtol read_number read_digits digit_value scaled
parseint_tests = (refl, refl, refl, refl, refl)

main_mkfs_tests :
    (main_mkfs open_file 1000 [] ≡ stopped)
    × (main_mkfs open_file 1000 (codes "-size" ∷ []) ≡ usage)
    × (main_mkfs open_file 1000 (codes "img" ∷ []) ≡ written 16 (mkfs 16 1000))
    × (main_mkfs open_file 1000 (codes "-size" ∷ codes "5000" ∷ codes "img" ∷ []) ≡ stopped)
    × (main_mkfs open_file 1000 (codes "-size" ∷ codes "4K" ∷ codes "img" ∷ [])
        ≡ written 4 (mkfs 4 1000))
unfolding main_mkfs with_file make_image parseint strtol read_number read_digits digit_value scaled
main_mkfs_tests = (refl, refl, refl, refl, refl)

main_mkfs-IsMounted_example :
    (image : Area) × (main_mkfs open_file 1000 (codes "-size" ∷ codes "16K" ∷ codes "img" ∷ [])
      ≡ written 16 image)
    × (t : Fs) × (fs_init (record blank_memory { nblks = 16; disk = image }) ≡ ok tt t)
    × IsMounted t t
    × HasDir t 1
    × ((name : Bytes) → Lacks (dir_of t 1) name)
main_mkfs-IsMounted_example =
    main_mkfs-IsMounted b'1' (codes "6")
      ((omega arith, omega arith), ((omega arith, omega arith), tt)) (omega arith) 16 refl
      (omega arith) open_file 1000 (codes "img") 16384 refl (omega arith) blank_memory
