-- ===== src/ReadImg/Lost.antt =====
-- The lists of unreachable inodes and blocks at the end of the report.
use mathlib.Core.List.{Memᴰ}
use cs5600_filesystem.Base.{
  ℕ, zero, suc, ◌+◌, ◌≡◌, ◌≢◌, refl, sym, ap, true, false, not, ◌&&◌, inl, inr, Option, none, some,
  List, ◌∷◌, arith, Bool-cases, subst,
}
use cs5600_filesystem.Memory.{Area, fd_isset}
use cs5600_filesystem.Mkfs.{zero_area}
use cs5600_filesystem.Mkfs.Fresh.{fd_isset-zero}
use cs5600_filesystem.ReadImg.{
  Image, Line, marked_free, inode_marked_free, unreachable_inode, unreachable_block, Scan, need,
  block_map, inode_map, list_one, list_unreachable, list_lost, start, read_img,
}
use cs5600_filesystem.ReadImg.Told.{
  IsTold-Walks, Ends-mono, AreTold, Keeps, then-Keeps, skip-Keeps, need-Keeps, number,
  block-ne-inode, Told-cons, AreTold-cons, AreTold-lost, push-Keeps, Ends, IsTold, stops, ends,
}
use cs5600_filesystem.ReadImg.Walk.{read_tree-Keeps, list_allocated-Keeps}

module _ (img : Image) where
  lost_block-IsTold :
      (sc : Scan)
      → IsTold img sc
      → (b : ℕ) → fd_isset b (block_map img) ≡ false
      → Memᴰ (marked_free b) sc.lines
      → IsTold img (record sc { lines = unreachable_block b ∷ sc.lines })
  lost_block-IsTold sc told b free said = record {
    blocks = λ c e. Told-cons (block_map img) marked_free sc.lines _ c (told.blocks c e);
    inodes = λ i e. Told-cons (inode_map img) inode_marked_free sc.lines _ i (told.inodes i e);
    lost_blocks =
        AreTold-lost (block_map img) marked_free sc.lines unreachable_block b free said
          (λ i j e. ap number e) told.lost_blocks;
    lost_inodes =
        AreTold-cons (inode_map img) inode_marked_free sc.lines unreachable_inode _
          (λ i e. block-ne-inode b i (sym e)) told.lost_inodes;
  }

  lost_inode-IsTold :
      (sc : Scan)
      → IsTold img sc
      → (j : ℕ) → fd_isset j (inode_map img) ≡ false
      → Memᴰ (inode_marked_free j) sc.lines
      → IsTold img (record sc { lines = unreachable_inode j ∷ sc.lines })
  lost_inode-IsTold sc told j free said = record {
    blocks = λ c e. Told-cons (block_map img) marked_free sc.lines _ c (told.blocks c e);
    inodes = λ i e. Told-cons (inode_map img) inode_marked_free sc.lines _ i (told.inodes i e);
    lost_blocks =
        AreTold-cons (block_map img) marked_free sc.lines unreachable_block _
          (λ i e. block-ne-inode i j e) told.lost_blocks;
    lost_inodes =
        AreTold-lost (inode_map img) inode_marked_free sc.lines unreachable_inode j free said
          (λ i j e. ap number e) told.lost_inodes;
  }

  -- The maps that the walk has filled are given.
  abbrev Lists : (blkmap imap : Area) → Scan → Type 0
  Lists blkmap imap sc = IsTold img sc × (sc.blkmap ≡ blkmap) × (sc.imap ≡ imap)

  one_block-Keeps :
      (i : ℕ) (blkmap imap : Area)
      → Keeps (Lists blkmap imap) (list_one img i blkmap (block_map img) unreachable_block)
  one_block-Keeps i blkmap imap sc (told, is_blkmap, is_imap) =
      elim (Bool-cases (fd_isset i blkmap && not (fd_isset i (block_map img)))) [
        | inl e ↦
            let free : fd_isset i (block_map img) ≡ false = ground (arith, e) in
            let found : fd_isset i sc.blkmap ≡ true = rw is_blkmap (ground (arith, e)) in
            let said : Memᴰ (marked_free i) sc.lines = elim (told.blocks i found) [
              | inl used ↦ absurd (ground (arith, used, free))
              | inr m ↦ m
            ] in
            rw e (ends (lost_block-IsTold sc told i free said, is_blkmap, is_imap))
        | inr e ↦ rw e (ends (told, is_blkmap, is_imap))
      ]

  one_inode-Keeps :
      (i : ℕ) (blkmap imap : Area)
      → Keeps (Lists blkmap imap) (list_one img i imap (inode_map img) unreachable_inode)
  one_inode-Keeps i blkmap imap sc (told, is_blkmap, is_imap) =
      elim (Bool-cases (fd_isset i imap && not (fd_isset i (inode_map img)))) [
        | inl e ↦
            let free : fd_isset i (inode_map img) ≡ false = ground (arith, e) in
            let found : fd_isset i sc.imap ≡ true = rw is_imap (ground (arith, e)) in
            let said : Memᴰ (inode_marked_free i) sc.lines = elim (told.inodes i found) [
              | inl used ↦ absurd (ground (arith, used, free))
              | inr m ↦ m
            ] in
            rw e (ends (lost_inode-IsTold sc told i free said, is_blkmap, is_imap))
        | inr e ↦ rw e (ends (told, is_blkmap, is_imap))
      ]

  list_unreachable-Keeps :
      (P : Scan → Type 0) (found marked : Area) (line : ℕ → Line)
      → ((i : ℕ) → Keeps P (list_one img i found marked line))
      → (n i : ℕ) → Keeps P (list_unreachable img n i found marked line)
  unfolding list_unreachable
  list_unreachable-Keeps P found marked line one zero i = skip-Keeps
  list_unreachable-Keeps P found marked line one (suc n) i =
      then-Keeps _ _ (then-Keeps (need _) _ (need-Keeps _) (one i))
        (list_unreachable-Keeps P found marked line one n (i + 1))

  list_lost-IsTold : (sc : Scan) → IsTold img sc → Ends (λ sc. IsTold img sc) (list_lost img sc)
  unfolding list_lost
  list_lost-IsTold sc told =
      Ends-mono _
        (then-Keeps _ _
          (list_unreachable-Keeps (Lists sc.blkmap sc.imap) sc.imap (inode_map img)
            unreachable_inode (λ i. one_inode-Keeps i sc.blkmap sc.imap) _ 1)
          (list_unreachable-Keeps (Lists sc.blkmap sc.imap) sc.blkmap (block_map img)
            unreachable_block (λ i. one_block-Keeps i sc.blkmap sc.imap) _ _)
          sc (told, refl, refl))
        (λ sc h. h.0)

  zero_area-none : (i : ℕ) → fd_isset i zero_area ≢ true
  zero_area-none i e =
      let none_set : fd_isset i zero_area ≡ false = fd_isset-zero i false in
      absurd (ground (arith, e, none_set))

  start-IsTold : IsTold img (start img)
  start-IsTold = record {
    blocks = λ b e. absurd (zero_area-none b e);
    inodes = λ i e. absurd (zero_area-none i e);
    lost_blocks = λ i m. elim m [ ];
    lost_inodes = λ i m. elim m [ ];
  }

lines_of :
    {P : Scan → Type 0} (o : Option Scan) (lines : List Line)
    → Ends P o
    → elim o as (λ _. Option (List Line)) [ none ↦ none | some sc ↦ some sc.lines ] ≡ some lines
    → (sc : Scan) × P sc × (sc.lines ≡ lines)
lines_of none lines stops e = absurd (ground (arith, e))
lines_of (some sc) lines (ends p) e = (sc, p, ground (arith, e))

-- Whatever the image holds: where the program ends, each inode and each block that its report lists
-- as unreachable is marked free in the image's map, and an error line of the report says so. An inode
-- or a block that is marked as used, and to which no directory leads, is in neither list.
pub read_img-lost :
    (img : Image) (lines : List Line)
    → read_img img ≡ some lines
    → AreTold lines (inode_map img) unreachable_inode inode_marked_free
      × AreTold lines (block_map img) unreachable_block marked_free
unfolding read_img
read_img-lost img lines run =
    let begun =
      then-Keeps _ _
        (then-Keeps _ _
          (then-Keeps _ _ (list_allocated-Keeps img (IsTold img) (IsTold-Walks img))
            (push-Keeps img true 1))
          (read_tree-Keeps img 101))
        (list_lost-IsTold img) (start img) (start-IsTold img) in
    let (sc, told, same) = lines_of _ lines begun run in
    subst
      (λ lines.
        AreTold lines (inode_map img) unreachable_inode inode_marked_free
        × AreTold lines (block_map img) unreachable_block marked_free)
      same (told.lost_inodes, told.lost_blocks)
