-- ===== src/ReadImg/Told.antt =====
-- The report of read-img.c: what is told of the numbers in the two maps that the walk fills.
use mathlib.Core.List.{Memᴰ}
use cs5600_filesystem.Base.{
  ℕ, ◌≡◌, ◌≢◌, refl, sym, ap, ◌∙◌, Bool, true, false, ◌⊎◌, inl, inr, Option, none, some, List, ◌∷◌,
  arith, ltb, ◌==◌, if◌then◌else◌, Bool-cases, subst,
}
use cs5600_filesystem.Memory.{Area, fd_isset, fd_set, fd_isset-fd_set}
use cs5600_filesystem.ReadImg.{
  Image, Line, marked_free, inode_marked_free, unreachable_inode, unreachable_block, Scan, Step,
  ◌>>◌, skip, print, need, block_map, inode_map, mark_block, mark_inode, check_block, push,
  check_inode,
}

-- A step stops, or ends in a state of which P holds.
pub data Ends (P : Scan → Type 0) : Option Scan → Type 0 where
  stops : Ends P none
  ends : {sc : Scan} → P sc → Ends P (some sc)

pub Ends-mono :
    {P Q : Scan → Type 0} (o : Option Scan) → Ends P o → ((sc : Scan) → P sc → Q sc) → Ends Q o
Ends-mono none stops f = stops
Ends-mono (some sc) (ends p) f = ends (f sc p)

-- A number is marked in a map, or a line says that it is not.
abbrev pub Told : (List Line) → (marked : Area) → (ℕ → Line) → ℕ → Type 0
Told lines marked says i = (fd_isset i marked ≡ true) ⊎ Memᴰ (says i) lines

-- A number that is listed as unreachable is not marked in the map, and an error line says so.
abbrev pub AreTold : (List Line) → (marked : Area) → (lost says : ℕ → Line) → Type 0
AreTold lines marked lost says =
    (i : ℕ) → Memᴰ (lost i) lines → (fd_isset i marked ≡ false) × Memᴰ (says i) lines

pub record IsTold (img : Image) (sc : Scan) : Type 0 where
  pub blocks : (b : ℕ) → fd_isset b sc.blkmap ≡ true → Told sc.lines (block_map img) marked_free b
  pub inodes :
      (i : ℕ) → fd_isset i sc.imap ≡ true → Told sc.lines (inode_map img) inode_marked_free i
  pub lost_blocks : AreTold sc.lines (block_map img) unreachable_block marked_free
  pub lost_inodes : AreTold sc.lines (inode_map img) unreachable_inode inode_marked_free

-- Does the line list something unreachable?
abbrev pub is_lost : Line → Bool
is_lost (unreachable_inode i) = true
is_lost (unreachable_block i) = true
is_lost _ = false

abbrev pub Keeps : (P : Scan → Type 0) → Step → Type 0
Keeps P f = (sc : Scan) → P sc → Ends P (f sc)

module _ {P : Scan → Type 0} where
  pub Ends-bind :
      (o : Option Scan) (g : Step)
      → Ends P o
      → Keeps P g
      → Ends P (elim o [ none ↦ none | some sc ↦ g sc ])
  Ends-bind none g stops k = stops
  Ends-bind (some sc) g (ends p) k = k sc p

  pub then-Keeps : (f g : Step) → Keeps P f → Keeps P g → Keeps P (f >> g)
  then-Keeps f g h k sc p = Ends-bind (f sc) g (h sc p) k

  pub skip-Keeps : Keeps P skip
  skip-Keeps sc p = ends p

  pub need-Keeps : (b : Bool) → Keeps P (need b)
  need-Keeps true sc p = ends p
  need-Keeps false sc p = stops

  pub if-Keeps : (b : Bool) (f g : Step) → Keeps P f → Keeps P g → Keeps P (if b then f else g)
  if-Keeps true f g h k = h
  if-Keeps false f g h k = k

-- What the steps of the walk are made of keeps P.
pub record Walks (img : Image) (P : Scan → Type 0) : Type 0 where
  pub print_line : (line : Line) → is_lost line ≡ false → Keeps P (print line)
  pub block : (b : ℕ) → Keeps P (check_block img b)
  pub inode : (j : ℕ) → Keeps P (check_inode img j)
  pub entry : (is_dir : Bool) (inum : ℕ) → Keeps P (push img is_dir inum)

pub not_lost :
    (lost : ℕ → Line) (line : Line)
    → ((i : ℕ) → is_lost (lost i) ≡ true)
    → is_lost line ≡ false
    → (i : ℕ) → lost i ≢ line
not_lost lost line is other i e =
    let same : false ≡ true = sym other ∙ ap is_lost (sym e) ∙ is i in absurd (ground arith)

abbrev pub number : Line → ℕ
number (unreachable_inode i) = i
number (unreachable_block i) = i
number _ = 0

abbrev pub is_block : Line → Bool
is_block (unreachable_block i) = true
is_block _ = false

pub block-ne-inode : (i j : ℕ) → unreachable_block i ≢ unreachable_inode j
block-ne-inode i j e = let same : true ≡ false = ap is_block e in absurd (ground arith)

module _ (marked : Area) (says : ℕ → Line) (lines : List Line) where
  pub Told-cons :
      (line : Line) (i : ℕ) → Told lines marked says i → Told (line ∷ lines) marked says i
  Told-cons line i (inl e) = inl e
  Told-cons line i (inr m) = inr (Memᴰ.tail m)

  -- FD_SET of a number of which all is told.
  pub fd_set-Told :
      (m : Area) (b : ℕ)
      → ((i : ℕ) → fd_isset i m ≡ true → Told lines marked says i)
      → Told lines marked says b
      → (i : ℕ) → fd_isset i (fd_set b m) ≡ true
      → Told lines marked says i
  fd_set-Told m b told now i e = elim (Bool-cases (i == b)) [
    | inl f ↦ let same : b ≡ i = ground arith in subst (Told lines marked says) same now
    | inr f ↦
        let before : fd_isset i m ≡ true = ground (arith, fd_isset-fd_set b i m) in told i before
  ]

  module _ (lost : ℕ → Line) where
    pub AreTold-cons :
        (line : Line)
        → ((i : ℕ) → lost i ≢ line)
        → AreTold lines marked lost says
        → AreTold (line ∷ lines) marked lost says
    AreTold-cons line other told i (Memᴰ.head e) = absurd (other i e)
    AreTold-cons line other told i (Memᴰ.tail m) =
        let (free, said) = told i m in (free, Memᴰ.tail said)

    -- A number that is told to be free is listed.
    pub AreTold-lost :
        (b : ℕ)
        → (fd_isset b marked ≡ false)
        → Memᴰ (says b) lines
        → ((i j : ℕ) → lost i ≡ lost j → i ≡ j)
        → AreTold lines marked lost says
        → AreTold (lost b ∷ lines) marked lost says
    AreTold-lost b free said injective told i (Memᴰ.head e) =
        let same : b ≡ i = sym (injective i b e) in
        subst (λ i. (fd_isset i marked ≡ false) × Memᴰ (says i) (lost b ∷ lines)) same
          (free, Memᴰ.tail said)
    AreTold-lost b free said injective told i (Memᴰ.tail m) =
        let (free', said') = told i m in (free', Memᴰ.tail said')

module _ (img : Image) where
  module _ (sc : Scan) (told : IsTold img sc) where
    pub print-IsTold :
        (line : Line) → is_lost line ≡ false → IsTold img (record sc { lines = line ∷ sc.lines })
    print-IsTold line other = record {
      blocks = λ b e. Told-cons (block_map img) marked_free sc.lines line b (told.blocks b e);
      inodes = λ i e. Told-cons (inode_map img) inode_marked_free sc.lines line i (told.inodes i e);
      lost_blocks =
          AreTold-cons (block_map img) marked_free sc.lines unreachable_block line
            (not_lost _ line (λ i. refl) other) told.lost_blocks;
      lost_inodes =
          AreTold-cons (inode_map img) inode_marked_free sc.lines unreachable_inode line
            (not_lost _ line (λ i. refl) other) told.lost_inodes;
    }

    pub blkmap-IsTold :
        (b : ℕ)
        → Told sc.lines (block_map img) marked_free b
        → IsTold img (record sc { blkmap = fd_set b sc.blkmap })
    blkmap-IsTold b now = record {
      blocks = fd_set-Told (block_map img) marked_free sc.lines sc.blkmap b told.blocks now;
      inodes = told.inodes;
      lost_blocks = told.lost_blocks;
      lost_inodes = told.lost_inodes;
    }

    pub imap-IsTold :
        (j : ℕ)
        → Told sc.lines (inode_map img) inode_marked_free j
        → IsTold img (record sc { imap = fd_set j sc.imap })
    imap-IsTold j now = record {
      blocks = told.blocks;
      inodes = fd_set-Told (inode_map img) inode_marked_free sc.lines sc.imap j told.inodes now;
      lost_blocks = told.lost_blocks;
      lost_inodes = told.lost_inodes;
    }

  pub print-Keeps : (line : Line) → is_lost line ≡ false → Keeps (IsTold img) (print line)
  print-Keeps line other sc told = ends (print-IsTold sc told line other)

  pub mark_block-Keeps : (b : ℕ) → Keeps (IsTold img) (mark_block img b)
  mark_block-Keeps b sc told = elim (Bool-cases (fd_isset b (block_map img))) [
    | inl e ↦ rw e (ends (blkmap-IsTold sc told b (inl e)))
    | inr e ↦ rw e (
        ends (blkmap-IsTold _ (print-IsTold sc told (marked_free b) refl) b (inr (Memᴰ.head refl))))
  ]

  pub mark_inode-Keeps : (j : ℕ) → Keeps (IsTold img) (mark_inode img j)
  mark_inode-Keeps j sc told = elim (Bool-cases (fd_isset j (inode_map img))) [
    | inl e ↦ rw e (ends (imap-IsTold sc told j (inl e)))
    | inr e ↦ rw e (
        ends (
          imap-IsTold _ (print-IsTold sc told (inode_marked_free j) refl) j (inr (Memᴰ.head refl))))
  ]

  pub check_block-Keeps : (b : ℕ) → Keeps (IsTold img) (check_block img b)
  unfolding check_block
  check_block-Keeps b = then-Keeps (need _) (mark_block img b) (need-Keeps _) (mark_block-Keeps b)

  pub check_inode-Keeps : (j : ℕ) → Keeps (IsTold img) (check_inode img j)
  unfolding check_inode
  check_inode-Keeps j = then-Keeps (need _) (mark_inode img j) (need-Keeps _) (mark_inode-Keeps j)

  -- `inode_list` and `head` are not looked at.
  pub list-IsTold :
      (sc : Scan) (list : List (Bool × ℕ)) (head : ℕ)
      → IsTold img sc
      → IsTold img (record sc { inode_list = list; head = head })
  list-IsTold sc list head told = record {
    blocks = told.blocks;
    inodes = told.inodes;
    lost_blocks = told.lost_blocks;
    lost_inodes = told.lost_inodes;
  }

  pub push-Keeps : (is_dir : Bool) (inum : ℕ) → Keeps (IsTold img) (push img is_dir inum)
  unfolding push
  push-Keeps is_dir inum sc told =
      Ends-bind (need (ltb sc.head 100) sc) _ (need-Keeps (ltb sc.head 100) sc told)
        (λ sc told. ends (list-IsTold sc _ _ told))

  pub IsTold-Walks : Walks img (IsTold img)
  IsTold-Walks = record {
    print_line = print-Keeps;
    block = check_block-Keeps;
    inode = check_inode-Keeps;
    entry = push-Keeps;
  }
