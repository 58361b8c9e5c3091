-- ===== src/Shell/Main.antt =====
-- `main` of misc.c behind the arguments: the test of the name of the image, the image, and the
-- command line. The start of FUSE is not modelled.
use cs5600_filesystem.Base.{
  ℕ, ◌-◌, Bool, not, Option, ◌++◌, ltb, if◌then◌else◌, Bytes, codes, length, bytes_eq,
}
use cs5600_filesystem.Base.Int.{ℤ, pos}
use cs5600_filesystem.Memory.{Area}
use cs5600_filesystem.State.Device.{fs_init, image_create}
use cs5600_filesystem.Shell.{Host, Act, ◌>>◌, pure, stop, call, say}
use cs5600_filesystem.Shell.Files.{drop, set_blksiz}
use cs5600_filesystem.Shell.Loop.{cmdloop}

-- `strcmp(file+strlen(file)-4, ".img") == 0`, for a name of 4 bytes or more.
unfoldable pub ends_in_img : Bytes → Bool
ends_in_img file = bytes_eq (drop (length file - 4) file) (codes ".img")

-- With -cmdline: the exit status. `image` is what opens the file with the name: its size in bytes and
-- its blocks, or none where it cannot be opened. A shorter name is read before its first byte.
unfoldable pub main_cmdline :
    Host → (image : Bytes → Option (ℕ × Area)) → (file input : Bytes) → Act ℤ
main_cmdline host image file input =
    if ltb (length file) 4
    then stop
    else if not (ends_in_img file)
    then (do
      say (codes "bad image file (must end in .img): " ++ (file ++ codes "\n"))
      pure (pos 1))
    else do
      call (image_create (image file))
      call fs_init
      set_blksiz (pos 1000)
      cmdloop host input
      pure (pos 0)
