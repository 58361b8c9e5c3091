-- ===== src/Ops/Renamed/Beside.antt =====
-- Ways through a tree that do not lead through one block.
use cs5600_filesystem.Base.{ℕ, ◌+◌, ◌≡◌, ◌≢◌, refl, Bool, true, List, [], ◌∷◌, arith, Bytes}
use cs5600_filesystem.Memory.{Block}
use cs5600_filesystem.State.{Fs}
use cs5600_filesystem.State.Inode.{field, w_direct}
use cs5600_filesystem.State.Post.{put_disk}
use cs5600_filesystem.Tree.Dirent.{dir_inode, dir_is_dir}
use cs5600_filesystem.Tree.Lookup.{HasDir, dir_of, IsEntry}
use cs5600_filesystem.Tree.Leads.{Leads, done, step}

-- A way through directories whose block is not `b`.
pub data LeadsBeside (s : Fs) (b m : ℕ) (e : Bool) : ℕ → Bool → List Bytes → Type 0 where
  at_end : LeadsBeside s b m e m e []
  beside :
      {n : ℕ} {t : Bytes} {ts : List Bytes} (i : ℕ)
      → HasDir s n
      → field s n w_direct ≢ b
      → IsEntry (dir_of s n) t i
      → LeadsBeside s b m e (dir_inode (dir_of s n) i) (dir_is_dir (dir_of s n) i) ts
      → LeadsBeside s b m e n true (t ∷ ts)

pub LeadsBeside-Leads :
    {s : Fs} {b m : ℕ} {e : Bool} {n : ℕ} {d : Bool} {ts : List Bytes}
    → LeadsBeside s b m e n d ts
    → Leads s m e n d ts
LeadsBeside-Leads at_end = done
LeadsBeside-Leads (beside i h ne entry way) = step i h entry (LeadsBeside-Leads way)

field-put_disk :
    (s : Fs) (b : ℕ) (blk : Block) (n f : ℕ) → field (put_disk s b blk) n f ≡ field s n f
unfolding field
field-put_disk s b blk n f = refl

pub dir_of-put_disk :
    (s : Fs) (b : ℕ) (blk : Block) (n : ℕ)
    → field s n w_direct ≢ b
    → dir_of (put_disk s b blk) n ≡ dir_of s n
unfolding field
dir_of-put_disk s b blk n ne =
    let place : field s n w_direct + 0 ≢ b = omega (arith, ne) in ground arith

pub HasDir-put_disk :
    (s : Fs) (b : ℕ) (blk : Block) (n : ℕ) → HasDir s n → HasDir (put_disk s b blk) n
unfolding field
HasDir-put_disk s b blk n h = record { in_region = h.in_region; on_disk = h.on_disk }

-- The way stays when the block is replaced.
pub LeadsBeside-put_disk :
    {s : Fs} {b m : ℕ} {e : Bool} {n : ℕ} {d : Bool} {ts : List Bytes} (blk : Block)
    → LeadsBeside s b m e n d ts
    → Leads (put_disk s b blk) m e n d ts
LeadsBeside-put_disk blk at_end = done
LeadsBeside-put_disk {s} {b} {m} {e} blk (beside {n} {t} {ts} i h ne entry way) =
    let same : dir_of (put_disk s b blk) n ≡ dir_of s n = dir_of-put_disk s b blk n ne in
    let entry' : IsEntry (dir_of (put_disk s b blk) n) t i = rw same entry in
    let way' : Leads (put_disk s b blk) m e (dir_inode (dir_of (put_disk s b blk) n) i)
        (dir_is_dir (dir_of (put_disk s b blk) n) i) ts =
      rw same (LeadsBeside-put_disk blk way) in
    step i (HasDir-put_disk s b blk n h) entry' way'
