-- ===== src/State.antt =====
-- The state of a mounted file system: the image behind image.c and the globals of homework.c, and
-- the commands that run on it.
pub mod Device
pub mod Bitmap
pub mod Inode
pub mod Post
pub mod Alloc
use cs5600_filesystem.Base.{ℕ, ◌≡◌, refl, ◌⊎◌, inl, inr}
use cs5600_filesystem.Memory.{Area}

-- `nblks` and the content of the image file stand for `struct image_dev`; the rest are globals of
-- homework.c. `inode_region_sz` is the size of the allocation that `inode_region` points to.
pub record Fs : Type 0 where
  pub nblks : ℕ
  pub disk : Area
  pub inode_map : Area
  pub block_map : Area
  pub inode_map_sz : ℕ
  pub block_map_sz : ℕ
  pub num_of_blocks : ℕ
  pub inode_region : Area
  pub inode_region_sz : ℕ

-- What the system calls of the running process return: time(2), getuid(2) and getgid(2).
pub record Env : Type 0 where
  pub now : ℕ
  pub uid : ℕ
  pub gid : ℕ

-- A run ends with a result, or stops the process: a failed `assert`, or an access outside of an
-- allocation, of which C promises nothing.
pub data Run (A : Type 0) : Type 0 where
  ok : A → Fs → Run A
  fault : Run A

abbrev pub Cmd : Type 0 → Type 0
Cmd A = Fs → Run A

abbrev pub pure : {A : Type 0} → A → Cmd A
pure = ok

module _ {A B : Type 0} where
  abbrev pub and_then : Run A → (A → Cmd B) → Run B
  and_then (ok a s) k = k a s
  and_then fault k = fault

  infixl 5 ◌>>=◌ ◌>>◌
  abbrev pub ◌>>=◌ : Cmd A → (A → Cmd B) → Cmd B
  m >>= k = λ s. and_then (m s) k

  abbrev pub ◌>>◌ : Cmd A → Cmd B → Cmd B
  m >> n = m >>= λ _. n

abbrev pub gets : {A : Type 0} → (Fs → A) → Cmd A
gets f s = ok (f s) s

abbrev pub modify : (Fs → Fs) → Cmd (Unit {0})
modify f s = ok tt (f s)

pub ok-injective : {A : Type 0} {a b : A} {s t : Fs} → ok a s ≡ ok b t → (a ≡ b) × (s ≡ t)
ok-injective e = (cc, cc)

-- A run faults, or ends.
pub Run-cases : {A : Type 0} (r : Run A) → (r ≡ fault) ⊎ ((a : A) × (s : Fs) × (r ≡ ok a s))
Run-cases (ok a s) = inr (a, s, refl)
Run-cases fault = inl refl
