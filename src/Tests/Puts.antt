-- ===== src/Tests/Puts.antt =====
-- The theorem on `put` and `show`, on the small image.
use cs5600_filesystem.Base.{ℕ, ◌≡◌, refl, ◌⊎◌, Bytes, codes, arith, [], ◌∷◌, All}
use cs5600_filesystem.Base.Int.{pos}
use cs5600_filesystem.Names.{tokens}
use cs5600_filesystem.State.{Fs, ok}
use cs5600_filesystem.State.Alloc.{AreUsed, block_bits}
use cs5600_filesystem.Tree.{translate}
use cs5600_filesystem.Tree.Entries.{IsShort}
use cs5600_filesystem.Tree.Leads.{done}
use cs5600_filesystem.Ops.Read.{Buffer}
use cs5600_filesystem.Mkfs.Fresh.{mounted-Lacks}
use cs5600_filesystem.Shell.{ran, said}
use cs5600_filesystem.Shell.Words.{take, fix_path, find_up, cut_ups}
use cs5600_filesystem.Shell.Files.{do_put, do_show}
use cs5600_filesystem.Shell.Steps.{path_in}
use cs5600_filesystem.Shell.Put.Shown.{do_put-do_show}
use cs5600_filesystem.Tests.{fresh, fresh-IsMounted}
use cs5600_filesystem.Tests.Examples.{fresh-HasRoom, ab-IsShort}
use cs5600_filesystem.Tests.Files.{fresh-AreKept}
use cs5600_filesystem.Tests.Sessions.{shell, host}

path_in_ab_test : path_in shell (codes "ab") ≡ codes "/ab"
unfolding fix_path cut_ups find_up
path_in_ab_test = refl

do_put-do_show_example :
    (n : ℕ) × (buf buf' : Buffer) × (u : Fs) × (do_put host (codes "x") (codes "ab") shell fresh
      ≡ ran (pos 0) (record shell { blkbuf = buf }) u [])
    × (do_show (codes "ab") (record shell { blkbuf = buf }) u
        ≡ ran (pos 0) (record shell { blkbuf = buf' }) u (said (take n (codes "hello")) ∷ []))
    × ((take n (codes "hello") ≡ codes "hello") ⊎ AreUsed u.block_map 0 (block_bits fresh))
    × ((p : Bytes) (m : ℕ)
        → All IsShort (tokens p)
        → translate p fresh ≡ ok (pos m) fresh
        → translate p u ≡ ok (pos m) u)
unfolding tokens
do_put-do_show_example =
    do_put-do_show host (codes "x") (codes "ab") (codes "hello") shell 1000 fresh 1 0 2 [] b'a'
      (codes "b") refl (omega arith) refl (omega arith) (omega arith) path_in_ab_test
      (λ e. absurd (omega arith), (λ e. absurd (omega arith), tt)) ab-IsShort tt fresh-IsMounted
      (omega arith) fresh-AreKept done
      (mounted-Lacks 16 1000 (omega arith) (omega arith) (omega arith) (codes "ab")) fresh-HasRoom
