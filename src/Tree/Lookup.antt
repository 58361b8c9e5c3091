-- ===== src/Tree/Lookup.antt =====
-- What `translate` decides: path resolution as a relation, and the runs of the walk.
use cs5600_filesystem.Base.{
  ℕ, ◌+◌, ◌*◌, ◌≤◌, ◌<◌, ◌≡◌, refl, sym, ◌∙◌, ◌↔◌, ◌⊎◌, inl, inr, Bool, true, false, none, some,
  List, [], ◌∷◌, arith, ltb, leb, Bytes, Bool-cases, Option-cases, lt→ltb,
}
use cs5600_filesystem.Base.Int.{ℤ, pos, enoent, enotdir}
use cs5600_filesystem.Base.Search.{
  last_index-none, last_index-bounds, last_index-last, last_index-keep, last_index-finds,
}
use cs5600_filesystem.Memory.{Block}
use cs5600_filesystem.Names.{tokens}
use cs5600_filesystem.State.{Fs, ok, fault, ok-injective, and_then}
use cs5600_filesystem.State.Device.{image_read, read_block}
use cs5600_filesystem.State.Inode.{field, w_direct, inode_at}
use cs5600_filesystem.Tree.{read_dir, matches, find_entry, walk, translate}
use cs5600_filesystem.Tree.Dirent.{dir_valid, dir_is_dir, dir_inode}

-- The directory block of an inode can be read.
pub record HasDir (s : Fs) (inum : ℕ) : Type 0 where
  pub in_region : inum < s.inode_region_sz * 16
  pub on_disk : field s inum w_direct + 1 ≤ s.nblks

abbrev pub dir_of : Fs → ℕ → Block
dir_of s inum = s.disk (field s inum w_direct + 0)

-- No valid entry of the directory has the name.
abbrev pub Lacks : Block → Bytes → Type 0
Lacks dir name = (i : ℕ) → i < 32 → matches dir name i ≡ false

-- The entry `i` is the last valid one with the name.
pub record IsEntry (dir : Block) (name : Bytes) (i : ℕ) : Type 0 where
  pub in_block : i < 32
  pub named : matches dir name i ≡ true
  pub last : (k : ℕ) → i < k → k < 32 → matches dir name k ≡ false

-- Path resolution from an inode, which is a directory or not: what remains of the path leads to an
-- inode number, or to an error.
pub data Resolves (s : Fs) : ℕ → Bool → List Bytes → ℤ → Type 0 where
  arrived : {n : ℕ} {d : Bool} → Resolves s n d [] (pos n)
  not_dir : {n : ℕ} {t : Bytes} {ts : List Bytes} → Resolves s n false (t ∷ ts) enotdir
  missing :
      {n : ℕ} {t : Bytes} {ts : List Bytes}
      → HasDir s n
      → Lacks (dir_of s n) t
      → Resolves s n true (t ∷ ts) enoent
  enter :
      {n : ℕ} {t : Bytes} {ts : List Bytes} {r : ℤ} (i : ℕ)
      → HasDir s n
      → IsEntry (dir_of s n) t i
      → Resolves s (dir_inode (dir_of s n) i) (dir_is_dir (dir_of s n) i) ts r
      → Resolves s n true (t ∷ ts) r

pub find_entry-none : (dir : Block) (t : Bytes) → find_entry dir t ≡ none → Lacks dir t
unfolding find_entry
find_entry-none dir t e i h =
    (last_index-none (matches dir t) 32 0 i none e).1 (omega arith) (omega arith)

pub find_entry-some :
    (dir : Block) (t : Bytes) {i : ℕ} → find_entry dir t ≡ some i → IsEntry dir t i
unfolding find_entry
find_entry-some dir t {i} e = record {
  in_block = ground (arith, last_index-bounds (matches dir t) 32 0 none e);
  named = ground (arith, last_index-bounds (matches dir t) 32 0 none e);
  last = λ k a b. last_index-last (matches dir t) 32 0 k none e (omega arith) (omega arith) a;
}

pub find_entry-Lacks : (dir : Block) (t : Bytes) → Lacks dir t → find_entry dir t ≡ none
unfolding find_entry
find_entry-Lacks dir t h = last_index-keep (matches dir t) 32 0 none (λ k lo hi. h k (omega arith))

pub find_entry-IsEntry :
    (dir : Block) (t : Bytes) {i : ℕ} → IsEntry dir t i → find_entry dir t ≡ some i
unfolding find_entry
find_entry-IsEntry dir t {i} h =
    last_index-finds (matches dir t) 32 0 i none (omega arith) (omega (arith, h.in_block)) h.named
      (λ k a b. h.last k a (omega arith))

pub IsEntry-valid :
    (dir : Block) (t : Bytes) (i : ℕ) → matches dir t i ≡ true → dir_valid dir i ≡ true
unfolding matches
IsEntry-valid dir t i h = ground arith

pub inode_at-ok : (s : Fs) (n : ℕ) → n < s.inode_region_sz * 16 → inode_at (pos n) s ≡ ok n s
unfolding inode_at
inode_at-ok s n h = rw (lt→ltb _ _ h)

pub read_dir-ok :
    (s : Fs) (n : ℕ) → field s n w_direct + 1 ≤ s.nblks → read_dir n s ≡ ok (dir_of s n) s
unfolding read_dir read_block image_read
read_dir-ok s n h = ground arith

-- A directory can be opened, or the process stops.
Opens-cases :
    (s : Fs) (n : ℕ)
    → HasDir s n
      ⊎ ((inode_at (pos n) s ≡ fault) ⊎ ((inode_at (pos n) s ≡ ok n s) × (read_dir n s ≡ fault)))
unfolding inode_at read_dir read_block image_read
Opens-cases s n = elim (Bool-cases (ltb n (s.inode_region_sz * 16))) [
  | inr out ↦ inr (inl (rw out))
  | inl inside ↦ elim (Bool-cases (leb (field s n w_direct + 1) s.nblks)) [
    | inr out ↦ inr (inr (rw inside, rw out))
    | inl held ↦ inl (record { in_region = ground arith; on_disk = ground arith })
  ]
]

walk-enter :
    {s : Fs} {n : ℕ} {t : Bytes} (ts : List Bytes) {i : ℕ}
    → HasDir s n
    → IsEntry (dir_of s n) t i
    → walk (t ∷ ts) n true true s
      ≡ walk ts (dir_inode (dir_of s n) i) true (dir_is_dir (dir_of s n) i) s
unfolding walk
walk-enter {s} {n} {t} ts {i} h e =
    rw (inode_at-ok s n h.in_region, read_dir-ok s n h.on_disk, and_then)
      (rw (find_entry-IsEntry (dir_of s n) t e, and_then)
        (rw (IsEntry-valid (dir_of s n) t i e.named)))

walk-missing :
    {s : Fs} {n : ℕ} (t : Bytes) (ts : List Bytes)
    → HasDir s n
    → find_entry (dir_of s n) t ≡ none
    → walk (t ∷ ts) n true true s ≡ ok enoent s
unfolding walk
walk-missing {s} {n} t ts h e =
    rw (inode_at-ok s n h.in_region, read_dir-ok s n h.on_disk, and_then) (rw (e, and_then))

walk-fault :
    {s : Fs} {n : ℕ} (t : Bytes) (ts : List Bytes)
    → (inode_at (pos n) s ≡ fault) ⊎ ((inode_at (pos n) s ≡ ok n s) × (read_dir n s ≡ fault))
    → walk (t ∷ ts) n true true s ≡ fault
unfolding walk
walk-fault t ts (inl e) = rw e
walk-fault t ts (inr (e, f)) = rw (e, f)

-- A walk that ends gives what the relation gives, and changes nothing.
walk-Resolves :
    (s : Fs) (ts : List Bytes) (n : ℕ) (d : Bool) {r : ℤ} {s' : Fs}
    → walk ts n true d s ≡ ok r s'
    → Resolves s n d ts r × (s' ≡ s)
unfolding walk
walk-Resolves s [] n d e = let (e1, e2) = ok-injective e in (rw (← e1) arrived, sym e2)
walk-Resolves s (t ∷ ts) n false e = let (e1, e2) = ok-injective e in (rw (← e1) not_dir, sym e2)
walk-Resolves s (t ∷ ts) n true e = elim (Opens-cases s n) [
  | inr broken ↦ cc (walk-fault t ts broken)
  | inl h ↦ elim (Option-cases (find_entry (dir_of s n) t)) [
    | inl f ↦
        let (e1, e2) = ok-injective (sym (walk-missing t ts h f) ∙ e) in
        (rw (← e1) (missing h (find_entry-none _ t f)), sym e2)
    | inr (i, f) ↦
        let entry : IsEntry (dir_of s n) t i = find_entry-some (dir_of s n) t f in
        let (rest, same) =
          walk-Resolves s ts (dir_inode (dir_of s n) i) (dir_is_dir (dir_of s n) i)
            (sym (walk-enter ts h entry) ∙ e) in
        (enter i h entry rest, same)
  ]
]

-- The relation is met by the walk.
Resolves-walk :
    {s : Fs} {n : ℕ} {d : Bool} {ts : List Bytes} {r : ℤ}
    → Resolves s n d ts r
    → walk ts n true d s ≡ ok r s
unfolding walk
Resolves-walk arrived = refl
Resolves-walk not_dir = refl
Resolves-walk (missing {t} {ts} h none_named) =
    walk-missing t ts h (find_entry-Lacks _ t none_named)
Resolves-walk (enter {ts} i h entry rest) = walk-enter ts h entry ∙ Resolves-walk rest

-- `translate` returns a number without changing the state exactly if path resolution, as the
-- relation `Resolves` describes it, leads from the root to that number: the inode, or the error.
pub translate_iff :
    (s : Fs) (path : Bytes) (r : ℤ)
    → (translate path s ≡ ok r s) ↔ Resolves s 1 true (tokens path) r
unfolding translate
translate_iff s path r = (λ e. (walk-Resolves s (tokens path) 1 true e).0, Resolves-walk)

-- A translation that returns leaves the state as it was.
pub translate-same : (s : Fs) (path : Bytes) {r : ℤ} {s' : Fs} → translate path s ≡ ok r s' → s' ≡ s
unfolding translate
translate-same s path e = (walk-Resolves s (tokens path) 1 true e).1
