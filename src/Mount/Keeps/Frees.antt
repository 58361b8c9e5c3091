-- ===== src/Mount/Keeps/Frees.antt =====
-- `fs_truncate` and `fs_unlink`.
use cs5600_filesystem.Base.{ℕ, zero, suc, ◌+◌, ◌≡◌, Bytes, arith, Bool-cases, inl, inr, ◌==◌}
use cs5600_filesystem.Base.Int.{ℤ, pos, exceeds, signed32}
use cs5600_filesystem.Memory.{Block, word}
use cs5600_filesystem.State.{Fs, Cmd, gets, pure, ◌>>◌}
use cs5600_filesystem.State.Bitmap.{clr_block_bit, update_bitmap}
use cs5600_filesystem.State.Inode.{
  set_field, update_inode, field, w_direct, w_size, w_indir_1, w_indir_2,
}
use cs5600_filesystem.State.Post.{returns}
use cs5600_filesystem.Mount.Keeps.{
  Changes, Keeps, Keeps-if, Keeps-pure, Keeps-gets, Keeps-bind, Keeps-then,
}
use cs5600_filesystem.Mount.Keeps.Prims.{
  keeps, Keeps-set_field, Keeps-clr_block_bit, Keeps-update_bitmap,
}
use cs5600_filesystem.Mount.Keeps.Calls.{Keeps-drop_name}
use cs5600_filesystem.Ops.Remove.{
  truncate_direct, clear_entries, truncate_2nd_level, truncate_trees, truncate_3rd_level,
  when_larger, truncate_inode, fs_truncate, fs_unlink,
}

module _ {s₀ : Fs} where
  Keeps-truncate_direct :
      (rounds i n : ℕ) → i + rounds ≡ 6 → Keeps (Changes s₀) (truncate_direct rounds i n)
  unfolding truncate_direct
  Keeps-truncate_direct zero i n count = search keeps
  Keeps-truncate_direct (suc r) i n count =
      Keeps-bind (gets (λ s. field s n (w_direct + i))) _ (Keeps-gets _) λ blk.
        Keeps-then (set_field n (w_direct + i) 0) _
          (Keeps-set_field n (w_direct + i) 0 (omega arith) (λ e. omega arith))
          (Keeps-if (blk == 0) _ _ (Keeps-pure tt) (
            Keeps-then (clr_block_bit blk) _ (Keeps-clr_block_bit blk) (
              Keeps-then update_bitmap _ Keeps-update_bitmap
                (Keeps-truncate_direct r (i + 1) n (omega arith)))))

  Keeps-clear_entries :
      (rounds i : ℕ) (blk : Block) → Keeps (Changes s₀) (clear_entries rounds i blk)
  unfolding clear_entries
  Keeps-clear_entries zero i blk = search keeps
  Keeps-clear_entries (suc r) i blk = Keeps-if (word blk i == 0) _ _ (Keeps-pure tt) (
      Keeps-then (clr_block_bit (word blk i)) _ (Keeps-clr_block_bit (word blk i))
        (Keeps-clear_entries r (i + 1) blk))

  Keeps-truncate_2nd_level : (b : ℕ) → Keeps (Changes s₀) (truncate_2nd_level b)
  unfolding truncate_2nd_level
  Keeps-truncate_2nd_level b = search (keeps, Keeps-clear_entries) depth 60

  Keeps-truncate_trees :
      (rounds i : ℕ) (blk : Block) → Keeps (Changes s₀) (truncate_trees rounds i blk)
  unfolding truncate_trees
  Keeps-truncate_trees zero i blk = search keeps
  Keeps-truncate_trees (suc r) i blk = Keeps-if (word blk i == 0) _ _ (Keeps-pure tt) (
      Keeps-then (truncate_2nd_level (word blk i)) _ (Keeps-truncate_2nd_level (word blk i))
        (Keeps-truncate_trees r (i + 1) blk))

  Keeps-truncate_3rd_level : (b : ℕ) → Keeps (Changes s₀) (truncate_3rd_level b)
  unfolding truncate_3rd_level
  Keeps-truncate_3rd_level b = search (keeps, Keeps-truncate_trees) depth 60

  Keeps-when_larger :
      (n bound f : ℕ) (free_tree : ℕ → Cmd (Unit {0}))
      → ((b : ℕ) → Keeps (Changes s₀) (free_tree b))
      → Keeps (Changes s₀) (when_larger n bound f free_tree)
  Keeps-when_larger n bound f free_tree frees = record {
    at = λ {s} h. elim (Bool-cases (exceeds (signed32 (field s n w_size)) bound)) [
      | inl e ↦ rw e ((frees (field s n f)).at h)
      | inr e ↦ rw e (returns h)
    ];
  }

  Keeps-truncate_inode : (n : ℕ) → Keeps (Changes s₀) (truncate_inode n)
  unfolding truncate_inode
  Keeps-truncate_inode n =
      let at_end : Keeps (Changes s₀) (do
        set_field n w_size 0
        set_field n w_indir_1 0
        set_field n w_indir_2 0
        update_inode n
        pure (pos 0)) =
        Keeps-then (set_field n w_size 0) _
          (Keeps-set_field n w_size 0 (omega arith) λ e. omega arith)
          (Keeps-then (set_field n w_indir_1 0) _
            (Keeps-set_field n w_indir_1 0 (omega arith) λ e. omega arith)
            (Keeps-then (set_field n w_indir_2 0) _
              (Keeps-set_field n w_indir_2 0 (omega arith) λ e. omega arith) (search keeps))) in
      Keeps-then (truncate_direct 6 0 n) _ (Keeps-truncate_direct 6 0 n (omega arith)) (
        Keeps-then (when_larger n 6144 w_indir_1 truncate_2nd_level) _
          (Keeps-when_larger n 6144 w_indir_1 truncate_2nd_level Keeps-truncate_2nd_level)
          (Keeps-then (when_larger n 268288 w_indir_2 truncate_3rd_level) _
            (Keeps-when_larger n 268288 w_indir_2 truncate_3rd_level Keeps-truncate_3rd_level)
            at_end))

  pub Keeps-fs_truncate : (path : Bytes) (len : ℤ) → Keeps (Changes s₀) (fs_truncate path len)
  unfolding fs_truncate
  Keeps-fs_truncate path len = search (keeps, Keeps-truncate_inode) depth 60

  pub Keeps-fs_unlink : (path : Bytes) → Keeps (Changes s₀) (fs_unlink path)
  unfolding fs_unlink
  Keeps-fs_unlink path = search (keeps, Keeps-fs_truncate, Keeps-drop_name) depth 60
