-- ===== src/State/Post.antt =====
-- Postconditions of runs, and what each primitive command does when it returns.
use cs5600_filesystem.Base.{
  ℕ, List, get_or, ◌+◌, ◌-◌, ◌*◌, ◌/◌, ◌%◌, ◌^◌, ◌≤◌, ◌<◌, ◌≡◌, ◌≢◌, refl, ap, fun_ext, Bool, true,
  false, not, ◌&&◌, Option, none, some, arith, ltb, leb, ◌==◌, if◌then◌else◌, Bool-cases, inl, inr,
}
use cs5600_filesystem.Base.Int.{ℤ, pos, negsuc}
use cs5600_filesystem.Memory.{Block, set_word, word-set_word, store_words, word-store_words}
use cs5600_filesystem.State.{Fs, Run, ok, fault, Cmd, and_then}
use cs5600_filesystem.State.Device.{image_read, image_write, read_block, write_block}
use cs5600_filesystem.State.Inode.{field, set_field, put_inode, inode_at}

-- The run faults, or ends with a result and a state of which P holds.
pub data Post {A : Type 0} (P : A → Fs → Type 0) : Run A → Type 0 where
  returns : {a : A} {s : Fs} → P a s → Post P (ok a s)
  faults : Post P fault

pub holds : {A : Type 0} {P : A → Fs → Type 0} {a : A} {s : Fs} → Post P (ok a s) → P a s
holds (returns p) = p

pub bind :
    {A B : Type 0} {P : A → Fs → Type 0} {Q : B → Fs → Type 0} {r : Run A} {k : A → Cmd B}
    → Post P r
    → ((a : A) (s : Fs) → P a s → Post Q (k a s))
    → Post Q (and_then r k)
bind (returns p) next = next _ _ p
bind faults next = faults

pub mono :
    {A : Type 0} {P Q : A → Fs → Type 0} {r : Run A}
    → Post P r
    → ((a : A) (s : Fs) → P a s → Q a s)
    → Post Q r
mono (returns p) weaken = returns (weaken _ _ p)
mono faults weaken = faults

-- A command whose run is known is followed by the rest.
pub after :
    {A B : Type 0} {r : Run A} {a : A} {s : Fs} (k : A → Cmd B) {x : Run B}
    → r ≡ ok a s
    → k a s ≡ x
    → and_then r k ≡ x
after k e f = rw (e, and_then) f

-- A test in a command.
pub branch :
    {A : Type 0} {P : A → Fs → Type 0} (c : Bool) (x y : Cmd A) (s : Fs)
    → (c ≡ true → Post P (x s))
    → (c ≡ false → Post P (y s))
    → Post P ((if c then x else y) s)
branch true x y s yes_case no_case = yes_case refl
branch false x y s yes_case no_case = no_case refl

-- A match on an option in a command.
pub on_option :
    {A B : Type 0} {P : B → Fs → Type 0} (o : Option A) (x : Cmd B) (f : A → Cmd B) (s : Fs)
    → (o ≡ none → Post P (x s))
    → ((a : A) → o ≡ some a → Post P (f a s))
    → Post P ((elim o as (λ _. Cmd B) [ none ↦ x | some a ↦ f a ]) s)
on_option none x f s at_none at_some = at_none refl
on_option (some a) x f s at_none at_some = at_some a refl

-- One block of the disk is replaced.
abbrev pub put_disk : Fs → ℕ → Block → Fs
put_disk s i blk = record s { disk = λ b. if b == i then blk else s.disk b }

pub write_block-ok :
    (s : Fs) (i : ℕ) (blk : Block)
    → i ≢ 0
    → i + 1 ≤ s.nblks
    → write_block i blk s ≡ ok tt (put_disk s i blk)
unfolding write_block image_write
write_block-ok s i blk ne fits =
    let e : (not (i == 0) && leb (i + 1) s.nblks) ≡ true = ground arith in
    rw e (ap (λ d. ok tt (record s { disk = d })) (fun_ext λ b. ground arith))

write_block-fault :
    (s : Fs) (i : ℕ) (blk : Block)
    → (not (i == 0) && leb (i + 1) s.nblks) ≡ false
    → write_block i blk s ≡ fault
unfolding write_block image_write
write_block-fault s i blk e = rw e

pub write_block-Post :
    (s : Fs) (i : ℕ) (blk : Block)
    → Post (λ _ s'. (i ≢ 0) × (i + 1 ≤ s.nblks) × (s' ≡ put_disk s i blk)) (write_block i blk s)
write_block-Post s i blk = elim (Bool-cases (not (i == 0) && leb (i + 1) s.nblks)) [
  | inl e ↦
      let ne : i ≢ 0 = ground arith in
      let fits : i + 1 ≤ s.nblks = ground arith in
      rw (write_block-ok s i blk ne fits) (returns (ne, fits, refl))
  | inr e ↦ rw (write_block-fault s i blk e) faults
]

-- Both maps go to the disk.
abbrev pub saved : Fs → Fs
saved s = record s {
  disk = λ b.
      if leb (1 + s.inode_map_sz) b && ltb b (1 + s.inode_map_sz + s.block_map_sz)
      then s.block_map (b - (1 + s.inode_map_sz))
      else if leb 1 b && ltb b (1 + s.inode_map_sz)
      then s.inode_map (b - 1)
      else s.disk b;
}

-- `inode_region[n].f = v`
abbrev pub with_field : Fs → (n f v : ℕ) → Fs
with_field s n f v = record s {
  inode_region = λ k.
      if k == n / 16 then set_word (s.inode_region k) (16 * (n % 16) + f) v else s.inode_region k;
}

pub set_field-ok : (s : Fs) (n f v : ℕ) → set_field n f v s ≡ ok tt (with_field s n f v)
unfolding set_field
set_field-ok s n f v = refl

-- A field reads back as it was set, in 32 bits; all other fields of all inodes stay.
pub field-with_field :
    (s : Fs) (n m f g v : ℕ)
    → f < 16
    → g < 16
    → field (with_field s n f v) m g ≡ (if m == n && g == f then v % 2 ^ 32 else field s m g)
unfolding field
field-with_field s n m f g v hf hg =
    ground
      (arith, word-set_word (s.inode_region (n / 16)) (16 * (n % 16) + f) (16 * (m % 16) + g) v)

-- `&inode_region[inum]` is followed only inside of the allocation.
pub inode_at-Post :
    (s : Fs) (inum : ℤ)
    → Post (λ n s'. (s' ≡ s) × (inum ≡ pos n) × (n < s.inode_region_sz * 16)) (inode_at inum s)
unfolding inode_at
inode_at-Post s (negsuc k) = faults
inode_at-Post s (pos n) = elim (Bool-cases (ltb n (s.inode_region_sz * 16))) [
  | inl e ↦ rw e (returns (refl, refl, ground arith))
  | inr e ↦ rw e faults
]

-- `inode_region[n] = new_inode`
abbrev pub with_inode : Fs → ℕ → List ℕ → Fs
with_inode s n words = record s {
  inode_region =
      λ k. if k == n / 16 then store_words (s.inode_region k) (n % 16) words else s.inode_region k;
}

pub put_inode-ok :
    (s : Fs) (n : ℕ) (words : List ℕ) → put_inode n words s ≡ ok tt (with_inode s n words)
unfolding put_inode
put_inode-ok s n words = refl

-- A new inode's fields are its words, in 32 bits; the other inodes stay.
pub field-with_inode :
    (s : Fs) (n m f : ℕ) (words : List ℕ)
    → f < 16
    → field (with_inode s n words) m f ≡ (if m == n then get_or words f 0 % 2 ^ 32 else field s m f)
unfolding field
field-with_inode s n m f words hf =
    ground (arith, word-store_words (s.inode_region (m / 16)) (n % 16) words (m % 16) f hf)

pub read_block-Post : (s : Fs) (b : ℕ) → Post (λ _ s'. s' ≡ s) (read_block b s)
unfolding read_block image_read
read_block-Post s b = elim (Bool-cases (leb (b + 1) s.nblks)) [
  | inl e ↦ rw e (returns refl)
  | inr e ↦ rw e faults
]
