-- ===== src/Mount/Keeps.antt =====
-- Properties of the state that commands keep. Every operation is a row of small changes to the state,
-- each of which leaves block 0 and the sizes alone, and gives no inode a size above 6144.
pub mod Prims
pub mod Calls
pub mod Frees
pub mod Reads
pub mod Writes
use cs5600_filesystem.Base.{
  ℕ, ◌+◌, ◌*◌, ◌^◌, ◌%◌, ◌≤◌, ◌<◌, ◌≡◌, ◌≢◌, refl, Bool, true, false, Option, none, some, List,
  arith, get_or, if◌then◌else◌, inl, inr,
}
use cs5600_filesystem.Memory.{Area, Block}
use cs5600_filesystem.State.{Fs, Cmd, ok, fault, pure, ◌>>=◌, ◌>>◌, gets}
use cs5600_filesystem.State.Inode.{field, w_size}
use cs5600_filesystem.State.Post.{
  Post, returns, faults, bind, mono, put_disk, saved, with_field, with_inode,
}

-- The state after some changes.
pub data Changes (s : Fs) : Fs → Type 0 where
  unchanged : Changes s s
  block : {t : Fs} (b : ℕ) (blk : Block) → b ≢ 0 → Changes s t → Changes s (put_disk t b blk)
  maps : {t : Fs} → Changes s t → Changes s (saved t)
  inode_map : {t : Fs} (m : Area) → Changes s t → Changes s (record t { inode_map = m })
  block_map : {t : Fs} (m : Area) → Changes s t → Changes s (record t { block_map = m })
  one_field :
      {t : Fs} (n f v : ℕ)
      → f < 16
      → (f ≡ w_size → v ≤ 6144)
      → Changes s t
      → Changes s (with_field t n f v)
  inode :
      {t : Fs} (n : ℕ) (words : List ℕ)
      → get_or words w_size 0 ≤ 6144
      → Changes s t
      → Changes s (with_inode t n words)

-- A command that, if it returns, has kept a property of the state.
pub record Keeps {A : Type 0} (P : Fs → Type 0) (m : Cmd A) : Type 0 where
  pub at : {s : Fs} → P s → Post (λ _. P) (m s)

module _ {A : Type 0} {P : Fs → Type 0} where
  pub Keeps-pure : (a : A) → Keeps P (pure a)
  Keeps-pure a = record { at = λ h. returns h }

  pub Keeps-fault : Keeps {A = A} P (λ _. fault)
  Keeps-fault = record { at = λ h. faults }

  pub Keeps-gets : (f : Fs → A) → Keeps P (gets f)
  Keeps-gets f = record { at = λ h. returns h }

  pub Keeps-if : (b : Bool) (m n : Cmd A) → Keeps P m → Keeps P n → Keeps P (if b then m else n)
  Keeps-if true m n hm hn = hm
  Keeps-if false m n hm hn = hn

  -- A command that only looks at the state.
  pub Looks-Keeps : (m : Cmd A) → ((s : Fs) → Post (λ _ t. t ≡ s) (m s)) → Keeps P m
  Looks-Keeps m looks = record { at = λ {s} h. mono (looks s) λ a t same. rw same h }

module _ {A B : Type 0} {P : Fs → Type 0} where
  pub Keeps-bind :
      (m : Cmd A) (k : A → Cmd B) → Keeps P m → ((a : A) → Keeps P (k a)) → Keeps P (m >>= k)
  Keeps-bind m k hm hk = record { at = λ h. bind (hm.at h) λ a t h'. (hk a).at h' }

  pub Keeps-then : (m : Cmd A) (n : Cmd B) → Keeps P m → Keeps P n → Keeps P (m >> n)
  Keeps-then m n hm hn = record { at = λ h. bind (hm.at h) λ a t h'. hn.at h' }

  pub Keeps-option :
      (o : Option A) (m : Cmd B) (k : A → Cmd B)
      → Keeps P m
      → ((a : A) → Keeps P (k a))
      → Keeps P (elim o as (λ _. Cmd B) [ none ↦ m | some a ↦ k a ])
  Keeps-option none m k hm hk = hm
  Keeps-option (some a) m k hm hk = hk a

pub ruleset keeps_rules =
    (Keeps-pure, Keeps-fault, Keeps-gets, Keeps-if, Keeps-option, Keeps-bind, Keeps-then)
