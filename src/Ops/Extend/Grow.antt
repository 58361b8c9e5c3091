-- ===== src/Ops/Extend/Grow.antt =====
-- The size of a file after a write.
use cs5600_filesystem.Base.{
  ℕ, ◌+◌, ◌/◌, ◌%◌, ◌^◌, ◌≤◌, ◌<◌, ◌≡◌, refl, ◌∙◌, true, false, ◌&&◌, ◌||◌, arith, ltb, ◌==◌,
  if◌then◌else◌, Bool-cases, inl, inr, subst,
}
use cs5600_filesystem.State.{Fs, ok}
use cs5600_filesystem.State.Inode.{field, w_size, w_direct}
use cs5600_filesystem.State.Post.{
  Post, holds, after, put_disk, with_field, set_field-ok, field-with_field,
}
use cs5600_filesystem.Mount.{data_start}
use cs5600_filesystem.Mount.Write.{grow-IsMounted}
use cs5600_filesystem.Ops.Write.{grow}
use cs5600_filesystem.Ops.Overwrite.{direct}
use cs5600_filesystem.Ops.Overwrite.Total.{grow-none}
use cs5600_filesystem.Ops.Extend.{IsStore}
use cs5600_filesystem.Ops.Extend.Alloc.{update_inode-ok}

-- The state `t` is `s` but for the size of a file, which is `size`.
pub record Grown (g s : Fs) (inum size : ℕ) (t : Fs) : Type 0 where
  pub store : IsStore g t inum
  pub fields :
      (n f : ℕ) → f < 16 → field t n f ≡ (if n == inum && f == w_size then size else field s n f)
  pub disk : (b : ℕ) → data_start g ≤ b → t.disk b ≡ s.disk b
  pub block_map : t.block_map ≡ s.block_map
  pub inode_map : t.inode_map ≡ s.inode_map

-- The size of a file of `size` bytes after a write up to `end`.
abbrev pub grown_size : (size end : ℕ) → ℕ
grown_size size end = if ltb size end then end else size

module _ {g s : Fs} {inum : ℕ} (store : IsStore g s inum) where
  abbrev grown : ℕ → Fs
  grown end =
      let t = with_field s inum w_size end in
      put_disk t (1 + s.inode_map_sz + s.block_map_sz + inum / 16) (t.inode_region (inum / 16))

  module _ (size end : ℕ) (is_size : field s inum w_size ≡ size) (small : size < 2 ^ 31)
      (larger : size < end) (fits : end < 2 ^ 31) where
    now : grow inum end s ≡ ok tt (grown end)
    unfolding grow
    now =
        let in_int : ltb size (2 ^ 31) ≡ true = ground arith in
        let no : (ltb end size || size == end) ≡ false = ground arith in
        let sized = store.mounted.sound.sized in
        rw is_size (
          rw in_int (
            rw no (
              after _ (set_field-ok s inum w_size end) (
                update_inode-ok (with_field s inum w_size end) inum (omega (arith, store.inside))
                  (omega (arith, store.room))))))

    fields-t :
        (n f : ℕ)
        → f < 16
        → field (grown end) n f ≡ (if n == inum && f == w_size then end else field s n f)
    unfolding field
    fields-t n f lt =
        let whole : end % 2 ^ 32 ≡ end = omega arith in
        field-with_field s inum n w_size f end (omega arith) lt ∙ rw whole refl

    direct-t : (j : ℕ) → j < 6 → direct (grown end) inum j ≡ direct s inum j
    direct-t j six = fields-t inum (w_direct + j) (omega arith) ∙ ground arith

    grown-Grown : Grown g s inum end (grown end)
    grown-Grown = record {
      store = record {
        mounted = holds (subst (Post _) now (grow-IsMounted inum end store.inside store.mounted));
        held = store.held;
        room = store.room;
        inside = store.inside;
        used = λ j six ne. ground (arith, direct-t j six, store.used j six);
        apart = λ j k six six' ne same.
            ground (arith, direct-t j six, direct-t k six', store.apart j k six six');
      };
      fields = fields-t;
      disk = λ b far.
          let sized = store.mounted.sound.sized in
          let inside = store.inside in ground (arith, sized, inside);
      block_map = refl;
      inode_map = refl;
    }

  pub grow-Grown :
      (size end : ℕ)
      → field s inum w_size ≡ size
      → size < 2 ^ 31
      → end < 2 ^ 31
      → (t : Fs) × (grow inum end s ≡ ok tt t) × Grown g s inum (grown_size size end) t
  grow-Grown size end is_size small fits = elim (Bool-cases (ltb size end)) [
    | inl e ↦
        let larger : size < end = ground arith in
        rw e (
          grown end,
          now size end is_size small larger fits,
          grown-Grown size end is_size small larger fits,
        )
    | inr e ↦ rw e (
      s,
      grow-none s inum end size is_size small (ground arith),
      record {
        store = store;
        fields = λ n f lt. ground (arith, is_size);
        disk = λ b far. refl;
        block_map = refl;
        inode_map = refl;
      },
    )
  ]
