-- ===== src/Tree/Leads.antt =====
-- Walks that arrive: the way through existing directories that a path takes.
use cs5600_filesystem.Base.{ℕ, ◌≡◌, Bool, true, List, [], ◌∷◌, ◌++◌, Bytes}
use cs5600_filesystem.Base.Int.{ℤ, pos}
use cs5600_filesystem.State.{Fs}
use cs5600_filesystem.Tree.Dirent.{dir_is_dir, dir_inode}
use cs5600_filesystem.Tree.Lookup.{
  HasDir, dir_of, IsEntry, Resolves, arrived, not_dir, missing, enter,
}

-- The names `ts` lead from an inode to the inode `m`; `e` says whether it is a directory.
pub data Leads (s : Fs) (m : ℕ) (e : Bool) : ℕ → Bool → List Bytes → Type 0 where
  done : Leads s m e m e []
  step :
      {n : ℕ} {t : Bytes} {ts : List Bytes} (i : ℕ)
      → HasDir s n
      → IsEntry (dir_of s n) t i
      → Leads s m e (dir_inode (dir_of s n) i) (dir_is_dir (dir_of s n) i) ts
      → Leads s m e n true (t ∷ ts)

pub Leads-Resolves :
    {s : Fs} {m : ℕ} {e : Bool} {n : ℕ} {d : Bool} {ts us : List Bytes} {r : ℤ}
    → Leads s m e n d ts
    → Resolves s m e us r
    → Resolves s n d (ts ++ us) r
Leads-Resolves done rest = rest
Leads-Resolves (step i h entry way) rest = enter i h entry (Leads-Resolves way rest)

-- A path that resolves to an inode leads there.
pub Resolves-Leads :
    {s : Fs} {n : ℕ} {d : Bool} {ts : List Bytes} {r : ℤ} (m : ℕ)
    → Resolves s n d ts r
    → r ≡ pos m
    → (e : Bool) × Leads s m e n d ts
Resolves-Leads {n} {d} m arrived e = let q : m ≡ n = cc in (d, rw q done)
Resolves-Leads m not_dir e = cc
Resolves-Leads m (missing h none_named) e = cc
Resolves-Leads m (enter i h entry rest) e =
    let (b, way) = Resolves-Leads m rest e in (b, step i h entry way)

pub Leads-arrived :
    {s : Fs} {m : ℕ} {e : Bool} {n : ℕ} {d : Bool} {ts : List Bytes}
    → Leads s m e n d ts
    → Resolves s n d ts (pos m)
Leads-arrived done = arrived
Leads-arrived (step i h entry way) = enter i h entry (Leads-arrived way)

-- What can be reached from the root, with its directory flag.
pub data InTree (s : Fs) : ℕ → Bool → Type 0 where
  root : InTree s 1 true
  child :
      {n : ℕ} (t : Bytes) (i : ℕ)
      → InTree s n true
      → IsEntry (dir_of s n) t i
      → InTree s (dir_inode (dir_of s n) i) (dir_is_dir (dir_of s n) i)

pub Leads-InTree :
    {s : Fs} {m : ℕ} {e : Bool} {n : ℕ} {b : Bool} {ts : List Bytes}
    → InTree s n b
    → Leads s m e n b ts
    → InTree s m e
Leads-InTree reach done = reach
Leads-InTree reach (step {t} i h entry way) = Leads-InTree (child t i reach entry) way
