-- ===== src/ReadImg/Walk.antt =====
-- The walk of read-img.c over the tree.
use cs5600_filesystem.Base.{ℕ, zero, suc, ◌+◌, ◌≡◌, refl, Bool, false, inl, inr, [], List-cases}
use cs5600_filesystem.Memory.{Area, Block}
use cs5600_filesystem.ReadImg.{
  Image, Line, Scan, check_row, check_trees, read_file, read_entries, read_directory, read_entry,
  read_tree, list_map, list_allocated,
}
use cs5600_filesystem.ReadImg.Told.{
  Walks, IsTold-Walks, is_lost, Keeps, then-Keeps, skip-Keeps, need-Keeps, if-Keeps, list-IsTold,
  IsTold, stops, ends,
}

module _ (img : Image) (P : Scan → Type 0) (walks : Walks img P) where
  pub check_row-Keeps : (n i : ℕ) (ptr : ℕ → ℕ) → Keeps P (check_row img n i ptr)
  unfolding check_row
  check_row-Keeps zero i ptr = skip-Keeps
  check_row-Keeps (suc n) i ptr =
      then-Keeps _ _
        (if-Keeps _ _ _ skip-Keeps (then-Keeps _ _ (walks.print_line _ refl) (walks.block _)))
        (check_row-Keeps n (i + 1) ptr)

  pub check_trees-Keeps : (n i : ℕ) (ptr : ℕ → ℕ) → Keeps P (check_trees img n i ptr)
  unfolding check_trees
  check_trees-Keeps zero i ptr = skip-Keeps
  check_trees-Keeps (suc n) i ptr = if-Keeps _ _ _ skip-Keeps (
      then-Keeps _ _
        (then-Keeps _ _ (then-Keeps _ _ (walks.print_line _ refl) (need-Keeps _))
          (check_row-Keeps 256 0 _))
        (check_trees-Keeps n (i + 1) ptr))

  pub read_file-Keeps : (inum : ℕ) → Keeps P (read_file img inum)
  unfolding read_file
  read_file-Keeps inum =
      then-Keeps _ _
        (then-Keeps _ _ (then-Keeps _ _ (walks.print_line _ refl) (check_row-Keeps 6 0 _)) (
          if-Keeps _ _ _ skip-Keeps (
            then-Keeps _ _ (then-Keeps _ _ (walks.print_line _ refl) (need-Keeps _))
              (check_row-Keeps 256 0 _))))
        (if-Keeps _ _ _ skip-Keeps (
          then-Keeps _ _ (then-Keeps _ _ (walks.print_line _ refl) (need-Keeps _))
            (check_trees-Keeps 256 0 _)))

  pub read_entries-Keeps : (n i : ℕ) (de : Block) → Keeps P (read_entries img n i de)
  unfolding read_entries
  read_entries-Keeps zero i de = skip-Keeps
  read_entries-Keeps (suc n) i de =
      then-Keeps _ _
        (if-Keeps _ _ _ skip-Keeps (
          then-Keeps _ _ (walks.print_line _ refl) (
            if-Keeps _ _ _ (walks.print_line _ refl)
              (then-Keeps _ _ (walks.inode _) (walks.entry _ _)))))
        (read_entries-Keeps n (i + 1) de)

  pub read_directory-Keeps : (inum : ℕ) → Keeps P (read_directory img inum)
  unfolding read_directory
  read_directory-Keeps inum = if-Keeps _ _ _ (walks.print_line _ refl) (
      then-Keeps _ _
        (then-Keeps _ _ (then-Keeps _ _ (walks.print_line _ refl) (walks.block _)) (need-Keeps _))
        (read_entries-Keeps 32 0 _))

  -- One round of the walk.
  pub read_entry-Keeps : (dir : Bool) (inum : ℕ) → Keeps P (read_entry img dir inum)
  read_entry-Keeps dir inum =
      then-Keeps _ _ (need-Keeps _)
        (if-Keeps _ _ _ (read_directory-Keeps inum) (read_file-Keeps inum))

  pub list_map-Keeps :
      (n i : ℕ) (map : Area) (line : ℕ → Line)
      → ((i : ℕ) → is_lost (line i) ≡ false)
      → Keeps P (list_map img n i map line)
  unfolding list_map
  list_map-Keeps zero i map line other = skip-Keeps
  list_map-Keeps (suc n) i map line other =
      then-Keeps _ _ (if-Keeps _ _ _ (walks.print_line _ (other i)) skip-Keeps)
        (list_map-Keeps n (i + 1) map line other)

  pub list_allocated-Keeps : Keeps P (list_allocated img)
  unfolding list_allocated
  list_allocated-Keeps =
      then-Keeps _ _
        (then-Keeps _ _
          (then-Keeps _ _ (then-Keeps _ _ (walks.print_line _ refl) (need-Keeps _))
            (list_map-Keeps _ 0 _ _ (λ i. refl)))
          (need-Keeps _))
        (list_map-Keeps _ 0 _ _ (λ i. refl))

module _ (img : Image) where
  pub read_tree-Keeps : (fuel : ℕ) → Keeps (IsTold img) (read_tree img fuel)
  unfolding read_tree
  read_tree-Keeps zero sc told = stops
  read_tree-Keeps (suc k) sc told = elim (List-cases sc.inode_list) [
    | inl e ↦ rw e (ends (list-IsTold img sc [] sc.head told))
    | inr ((dir, inum), rest, e) ↦ rw e (
        then-Keeps _ _ (read_entry-Keeps img (IsTold img) (IsTold-Walks img) dir inum)
          (read_tree-Keeps k) _ (list-IsTold img sc rest sc.head told))
  ]
