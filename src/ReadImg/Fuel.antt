-- ===== src/ReadImg/Fuel.antt =====
-- The walk of read-img.c ends.
use cs5600_filesystem.Base.{
  ℕ, zero, suc, ◌+◌, ◌-◌, ◌≤◌, ◌<◌, ◌≡◌, refl, ap, Bool, true, false, Option, none, some, List, [],
  ◌∷◌, arith, ltb, length, length-append, Bool-cases, List-cases, inl, inr,
}
use cs5600_filesystem.ReadImg.{
  Image, Scan, Step, ◌>>◌, need, print, mark_block, mark_inode, check_block, check_inode, push,
  read_entry, read_tree, Line,
}
use cs5600_filesystem.Memory.{fd_isset}
use cs5600_filesystem.ReadImg.{block_map, inode_map}
use cs5600_filesystem.ReadImg.Told.{Ends, stops, ends, Keeps, then-Keeps, need-Keeps, Walks}
use cs5600_filesystem.ReadImg.Walk.{read_entry-Keeps}

-- `inode_list` is not full beyond its end, and `n` rounds and entries are left.
HasRounds : ℕ → Scan → Type 0
HasRounds n sc = (sc.head ≤ 100) × (100 - sc.head + length sc.inode_list ≤ n)

need-Ends : {P : Scan → Type 0} (b : Bool) (sc : Scan) → (b ≡ true → P sc) → Ends P (need b sc)
need-Ends true sc p = ends (p refl)
need-Ends false sc p = stops

Ends-then :
    {P Q : Scan → Type 0} (o : Option Scan) (g : Step)
    → Ends P o
    → ((sc : Scan) → P sc → Ends Q (g sc))
    → Ends Q (elim o [ none ↦ none | some sc ↦ g sc ])
Ends-then none g stops k = stops
Ends-then (some sc) g (ends p) k = k sc p

module _ (img : Image) (n : ℕ) where
  print-HasRounds : (line : Line) → Keeps (HasRounds n) (print line)
  unfolding HasRounds
  print-HasRounds line sc h = ends h

  set_blkmap-HasRounds : (b : ℕ) → Keeps (HasRounds n) (mark_block img b)
  unfolding HasRounds
  set_blkmap-HasRounds b sc h = elim (Bool-cases (fd_isset b (block_map img))) [
    | inl e ↦ rw e (ends h)
    | inr e ↦ rw e (ends h)
  ]

  set_imap-HasRounds : (j : ℕ) → Keeps (HasRounds n) (mark_inode img j)
  unfolding HasRounds
  set_imap-HasRounds j sc h = elim (Bool-cases (fd_isset j (inode_map img))) [
    | inl e ↦ rw e (ends h)
    | inr e ↦ rw e (ends h)
  ]

  check_block-HasRounds : (b : ℕ) → Keeps (HasRounds n) (check_block img b)
  unfolding check_block
  check_block-HasRounds b =
      then-Keeps (need _) (mark_block img b) (need-Keeps _) (set_blkmap-HasRounds b)

  check_inode-HasRounds : (j : ℕ) → Keeps (HasRounds n) (check_inode img j)
  unfolding check_inode
  check_inode-HasRounds j =
      then-Keeps (need _) (mark_inode img j) (need-Keeps _) (set_imap-HasRounds j)

  -- An entry that is pushed is one place less and one entry more.
  push-HasRounds : (is_dir : Bool) (inum : ℕ) → Keeps (HasRounds n) (push img is_dir inum)
  unfolding push HasRounds
  push-HasRounds is_dir inum sc (full, left) =
      Ends-then {P = λ t. HasRounds n t × (t.head < 100)} (need (ltb sc.head 100) sc) _
        (need-Ends (ltb sc.head 100) sc (λ e. ((full, left), ground arith)))
        (λ t (h, room).
          ends (omega arith, omega (arith, h.1, length-append t.inode_list ((is_dir, inum) ∷ []))))

  HasRounds-Walks : Walks img (HasRounds n)
  HasRounds-Walks = record {
    print_line = λ line other. print-HasRounds line;
    block = check_block-HasRounds;
    inode = check_inode-HasRounds;
    entry = push-HasRounds;
  }

-- How the walk runs, without a bound on the rounds: it ends after `n` entries of `inode_list`, where
-- the list is empty, or where a step stops the program.
pub data Walked (img : Image) : ℕ → Scan → Option Scan → Type 0 where
  done : (sc : Scan) → sc.inode_list ≡ [] → Walked img 0 sc (some sc)
  stopped :
      (sc : Scan) (dir : Bool) (inum : ℕ) (rest : List (Bool × ℕ))
      → sc.inode_list ≡ (dir, inum) ∷ rest
      → read_entry img dir inum (record sc { inode_list = rest }) ≡ none
      → Walked img 1 sc none
  next :
      (n : ℕ) (sc t : Scan) (dir : Bool) (inum : ℕ) (rest : List (Bool × ℕ)) (r : Option Scan)
      → sc.inode_list ≡ (dir, inum) ∷ rest
      → read_entry img dir inum (record sc { inode_list = rest }) ≡ some t
      → Walked img n t r
      → Walked img (suc n) sc r

read_tree-nil :
    (img : Image) (k : ℕ) (sc : Scan) → sc.inode_list ≡ [] → read_tree img (suc k) sc ≡ some sc
unfolding read_tree
read_tree-nil img k sc e = rw e refl

read_tree-cons :
    (img : Image) (k : ℕ) (sc : Scan) (dir : Bool) (inum : ℕ) (rest : List (Bool × ℕ))
    → sc.inode_list ≡ (dir, inum) ∷ rest
    → read_tree img (suc k) sc
      ≡ (read_entry img dir inum >> read_tree img k) (record sc { inode_list = rest })
unfolding read_tree
read_tree-cons img k sc dir inum rest e = rw e refl

-- The walk from `sc` on ends after at most `n` entries.
abbrev Finishes : Image → (n : ℕ) → Scan → Option Scan → Type 0
Finishes img n sc r = (k : ℕ) × (k ≤ n) × Walked img k sc r

-- One round, for each end of its entry.
round-Walked :
    (img : Image) (n : ℕ) (sc : Scan) (dir : Bool) (inum : ℕ) (rest : List (Bool × ℕ)) (g : Step)
    (o : Option Scan)
    → sc.inode_list ≡ (dir, inum) ∷ rest
    → read_entry img dir inum (record sc { inode_list = rest }) ≡ o
    → Ends (HasRounds n) o
    → ((t : Scan) → HasRounds n t → Finishes img n t (g t))
    → Finishes img (suc n) sc (elim o as (λ _. Option Scan) [ none ↦ none | some t ↦ g t ])
round-Walked img n sc dir inum rest g none e run stops left =
    (1, omega arith, stopped sc dir inum rest e run)
round-Walked img n sc dir inum rest g (some t) e run (ends p) left =
    let (k, le, walked) = left t p in
    (suc k, omega arith, next k sc t dir inum rest (g t) e run walked)

read_tree-rounds :
    (img : Image) (n : ℕ) (sc : Scan)
    → HasRounds n sc
    → Finishes img n sc (read_tree img (suc n) sc)
unfolding HasRounds
read_tree-rounds img zero sc h = elim (List-cases sc.inode_list) [
  | inl e ↦ rw (read_tree-nil img 0 sc e) (0, omega arith, done sc e)
  | inr (x, rest, e) ↦ absurd (omega (arith, h.1, ap length e))
]
read_tree-rounds img (suc n) sc h = elim (List-cases sc.inode_list) [
  | inl e ↦ rw (read_tree-nil img (suc n) sc e) (0, omega arith, done sc e)
  | inr ((dir, inum), rest, e) ↦
      let less : HasRounds n (record sc { inode_list = rest }) =
        (h.0, omega (arith, h.1, ap length e)) in
      rw (read_tree-cons img (suc n) sc dir inum rest e) (
        round-Walked img n sc dir inum rest (read_tree img (suc n)) _ e refl
          (read_entry-Keeps img (HasRounds n) (HasRounds-Walks img n) dir inum _ less)
          (λ t left. read_tree-rounds img n t left))
]

-- From a state in which `inode_list` has at most the `head` entries that were put in, and `head` is
-- at most 100, the walk ends after at most 100 entries, in 101 rounds: its result is that of the
-- walk without a bound, which stops the program only where a step stops it.
pub read_tree-Walked :
    (img : Image) (sc : Scan)
    → sc.head ≤ 100
    → length sc.inode_list ≤ sc.head
    → (n : ℕ) × (n ≤ 100) × Walked img n sc (read_tree img 101 sc)
unfolding HasRounds
read_tree-Walked img sc full inside = read_tree-rounds img 100 sc (full, omega arith)
