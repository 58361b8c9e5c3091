-- ===== src/Mount/Keeps/Prims.antt =====
-- The commands that the operations are built from.
use cs5600_filesystem.Base.{
  ℕ, ◌*◌, ◌≤◌, ◌<◌, ◌≡◌, Option, none, some, List, get_or, ltb, Bool, true, false, Bool-cases, inl,
  inr, Bytes,
}
use cs5600_filesystem.Base.Int.{ℤ, pos, negsuc}
use cs5600_filesystem.Memory.{Block, fd_set, fd_clr}
use cs5600_filesystem.State.{Fs}
use cs5600_filesystem.State.Device.{read_block, write_block}
use cs5600_filesystem.State.Bitmap.{
  index, set_inode_bit, clr_inode_bit, set_block_bit, clr_block_bit, update_bitmap,
  find_free_block_number, find_free_inode_map_bit,
}
use cs5600_filesystem.State.Inode.{
  field, w_direct, w_size, set_field, put_inode, inode_at, update_inode,
}
use cs5600_filesystem.State.Post.{
  returns, faults, mono, write_block-Post, read_block-Post, inode_at-Post, set_field-ok,
  put_inode-ok,
}
use cs5600_filesystem.State.Alloc.{find_free_block_number-Post, find_free_inode_map_bit-Post}
use cs5600_filesystem.Tree.{translate, read_dir, find_free_dirent_num}
use cs5600_filesystem.Mount.Steps.{update_bitmap-Post}
use cs5600_filesystem.Ops.Create.{or_fault, assert}
use cs5600_filesystem.Ops.Errors.{translate-Looks}
use cs5600_filesystem.Mount.Keeps.{
  Changes, block, maps, inode_map, block_map, one_field, inode, Keeps, Keeps-pure, Keeps-fault,
  Looks-Keeps, keeps_rules,
}

module _ {P : Fs → Type 0} where
  pub Keeps-translate : (path : Bytes) → Keeps P (translate path)
  Keeps-translate path = Looks-Keeps _ λ s. translate-Looks s path

  pub Keeps-inode_at : (inum : ℤ) → Keeps P (inode_at inum)
  Keeps-inode_at inum = Looks-Keeps _ λ s. mono (inode_at-Post s inum) λ n t h. h.0

  pub Keeps-read_block : (b : ℕ) → Keeps P (read_block b)
  Keeps-read_block b = Looks-Keeps _ λ s. read_block-Post s b

  pub Keeps-read_dir : (n : ℕ) → Keeps P (read_dir n)
  unfolding read_dir
  Keeps-read_dir n = Looks-Keeps _ λ s. read_block-Post s (field s n w_direct)

  pub Keeps-index : (i : ℤ) → Keeps P (index i)
  Keeps-index (pos n) = Keeps-pure n
  Keeps-index (negsuc n) = Keeps-fault

  pub Keeps-or_fault : {A : Type 0} (o : Option A) → Keeps P (or_fault o)
  Keeps-or_fault none = Keeps-fault
  Keeps-or_fault (some a) = Keeps-pure a

  pub Keeps-assert : (b : Bool) → Keeps P (assert b)
  Keeps-assert true = Keeps-pure tt
  Keeps-assert false = Keeps-fault

  pub Keeps-find_free_dirent_num : (n : ℕ) → Keeps P (find_free_dirent_num n)
  unfolding find_free_dirent_num
  Keeps-find_free_dirent_num n = search (keeps_rules, Keeps-read_dir)

  pub Keeps-find_free_inode_map_bit : Keeps P find_free_inode_map_bit
  Keeps-find_free_inode_map_bit = Looks-Keeps _ λ s. find_free_inode_map_bit-Post s

module _ {s₀ : Fs} where
  pub Keeps-write_block : (b : ℕ) (blk : Block) → Keeps (Changes s₀) (write_block b blk)
  Keeps-write_block b blk = record {
    at = λ {s} h. mono (write_block-Post s b blk) λ _ t (ne, fits, e). rw e (block b blk ne h);
  }

  pub Keeps-update_bitmap : Keeps (Changes s₀) update_bitmap
  Keeps-update_bitmap = record { at = λ {s} h. mono (update_bitmap-Post s) λ _ t e. rw e (maps h) }

  pub Keeps-find_free_block_number : Keeps (Changes s₀) find_free_block_number
  Keeps-find_free_block_number = record {
    at = λ {s} h. mono (find_free_block_number-Post s) λ r t found. elim found [
      | inl (full, same) ↦ rw same h
      | inr (i, ne, fits, free, is, e) ↦ rw e (block i _ ne h)
    ];
  }

  pub Keeps-set_inode_bit : (i : ℕ) → Keeps (Changes s₀) (set_inode_bit i)
  unfolding set_inode_bit
  Keeps-set_inode_bit i = record {
    at = λ {s} h. elim (Bool-cases (ltb i (s.inode_map_sz * 8192))) [
      | inl e ↦ rw e (returns (inode_map (fd_set i s.inode_map) h))
      | inr e ↦ rw e faults
    ];
  }

  pub Keeps-clr_inode_bit : (i : ℕ) → Keeps (Changes s₀) (clr_inode_bit i)
  unfolding clr_inode_bit
  Keeps-clr_inode_bit i = record {
    at = λ {s} h. elim (Bool-cases (ltb i (s.inode_map_sz * 8192))) [
      | inl e ↦ rw e (returns (inode_map (fd_clr i s.inode_map) h))
      | inr e ↦ rw e faults
    ];
  }

  pub Keeps-set_block_bit : (i : ℕ) → Keeps (Changes s₀) (set_block_bit i)
  unfolding set_block_bit
  Keeps-set_block_bit i = record {
    at = λ {s} h. elim (Bool-cases (ltb i (s.block_map_sz * 8192))) [
      | inl e ↦ rw e (returns (block_map (fd_set i s.block_map) h))
      | inr e ↦ rw e faults
    ];
  }

  pub Keeps-clr_block_bit : (i : ℕ) → Keeps (Changes s₀) (clr_block_bit i)
  unfolding clr_block_bit
  Keeps-clr_block_bit i = record {
    at = λ {s} h. elim (Bool-cases (ltb i (s.block_map_sz * 8192))) [
      | inl e ↦ rw e (returns (block_map (fd_clr i s.block_map) h))
      | inr e ↦ rw e faults
    ];
  }

  pub Keeps-set_field :
      (n f v : ℕ) → f < 16 → (f ≡ w_size → v ≤ 6144) → Keeps (Changes s₀) (set_field n f v)
  Keeps-set_field n f v small fits = record {
    at = λ {s} h. rw (set_field-ok s n f v) (returns (one_field n f v small fits h));
  }

  pub Keeps-put_inode :
      (n : ℕ) (words : List ℕ)
      → get_or words w_size 0 ≤ 6144
      → Keeps (Changes s₀) (put_inode n words)
  Keeps-put_inode n words fits = record {
    at = λ {s} h. rw (put_inode-ok s n words) (returns (inode n words fits h));
  }

  pub Keeps-update_inode : (n : ℕ) → Keeps (Changes s₀) (update_inode n)
  unfolding update_inode
  Keeps-update_inode n = record { at = λ {s} h. (Keeps-write_block _ _).at h }

pub ruleset keeps = (
  keeps_rules, Keeps-translate, Keeps-inode_at, Keeps-read_block, Keeps-read_dir, Keeps-index,
  Keeps-or_fault, Keeps-assert, Keeps-find_free_dirent_num, Keeps-find_free_inode_map_bit,
  Keeps-write_block, Keeps-update_bitmap, Keeps-find_free_block_number, Keeps-set_inode_bit,
  Keeps-clr_inode_bit, Keeps-set_block_bit, Keeps-clr_block_bit, Keeps-update_inode,
)
