-- ===== src/Ops/Extend/Loop.antt =====
-- The loop of `fs_write_1st_level`, where it allocates blocks.
use cs5600_filesystem.Base.{
  ℕ, zero, suc, ◌+◌, ◌-◌, ◌*◌, ◌/◌, ◌%◌, ◌≤◌, ◌<◌, ◌≡◌, refl, sym, ap, ◌∙◌, ◌⊎◌, inl, inr, arith,
  ◌==◌, Bool-cases, subst,
}
use cs5600_filesystem.State.{Fs, Run, ok}
use cs5600_filesystem.State.Post.{after}
use cs5600_filesystem.State.Alloc.{AreUsed, block_bits}
use cs5600_filesystem.Ops.Read.{Buffer, chunk}
use cs5600_filesystem.Ops.Content.Copy.{chunk-bounds}
use cs5600_filesystem.Ops.Write.{patch_block, write_direct, fs_write_1st_level}
use cs5600_filesystem.Ops.Extend.{
  IsStore, Filled, Filled-trans, Filled-none, Filled-move, Filled-after,
}
use cs5600_filesystem.Ops.Extend.Alloc.{alloc_field-cases}
use cs5600_filesystem.Ops.Extend.Patch.{patch_block-Filled}

-- The run writes `count` of `len` bytes, which a buffer has from `at` on, to a file from its byte
-- `start` on: all of them, or no block is free any more. It returns the sum of `count` and `done`.
pub record Writes (g s : Fs) (inum start len at : ℕ) (buf : Buffer) (done : ℕ) (run : Run ℕ)
    : Type 0 where
  pub count : ℕ
  pub state : Fs
  pub returns : run ≡ ok (done + count) state
  pub le : count ≤ len
  pub ends : (count ≡ len) ⊎ AreUsed state.block_map 0 (block_bits state)
  pub store : IsStore g state inum
  pub filled : Filled g s state inum start count at buf

module _ {g : Fs} {inum : ℕ} (buf : Buffer) where
  nothing :
      {s : Fs} (start len at done : ℕ) {run : Run ℕ}
      → IsStore g s inum
      → run ≡ ok done s
      → (0 ≡ len) ⊎ AreUsed s.block_map 0 (block_bits s)
      → Writes g s inum start len at buf done run
  nothing {s} start len at done store e ends = record {
    count = 0;
    state = s;
    returns = e ∙ ap (λ n. ok n s) (omega arith);
    le = omega arith;
    ends = ends;
    store = store;
    filled = Filled-none g s inum start at buf;
  }

  -- One round and those behind it.
  one_more :
      {s t : Fs} (i off len at done m : ℕ) {rest run : Run ℕ}
      → run ≡ rest
      → m ≤ len
      → ((m ≡ len) ⊎ (off + m ≡ 1024))
      → Filled g s t inum (i * 1024 + off) m at buf
      → Writes g t inum ((i + 1) * 1024 + 0) (len - m) (at + m) buf (done + m) rest
      → Writes g s inum (i * 1024 + off) len at buf done run
  one_more {s} {t} i off len at done m same le ends first w = record {
    count = m + w.count;
    state = w.state;
    returns = same ∙ w.returns ∙ ap (λ n. ok n w.state) (omega arith);
    le = omega (arith, w.le);
    ends = elim w.ends [ inl e ↦ inl (omega arith) | inr full ↦ inr full ];
    store = w.store;
    filled =
        let le' = w.le in
        let meets : ((i + 1) * 1024 + 0 ≡ i * 1024 + off + m) ⊎ (w.count ≡ 0) = elim ends [
          | inl e ↦ inr (omega arith)
          | inr e ↦ inl (omega arith)
        ] in
        Filled-trans first (Filled-move _ _ w.count (at + m) buf meets w.filled);
  }

  write_direct-Writes :
      (rounds : ℕ) (s : Fs) (i off len at done : ℕ)
      → i + rounds ≡ 6
      → off < 1024
      → i * 1024 + off + len ≤ 6144
      → IsStore g s inum
      → Writes g s inum
          (i * 1024 + off)
          len
          at
          buf
          done
          (write_direct rounds i inum off len at done buf s)
  unfolding write_direct
  write_direct-Writes zero s i off len at done count in_block fits store =
      nothing _ len at done store refl (inl (omega arith))
  write_direct-Writes (suc r) s i off len at done count in_block fits store =
      elim (Bool-cases (len == 0)) [
        | inl e ↦ rw e (nothing _ len at done store refl (inl (ground arith)))
        | inr e ↦ rw e (elim (alloc_field-cases store i (omega arith)) [
          | inl (run, full) ↦ nothing _ len at done store (after _ run refl) (inr full)
          | inr (b, t, run, store₁, is, ne, alloc) ↦
              let m = chunk 1024 off len in
              let (le, inside, ends) = chunk-bounds 1024 off len in_block in
              let (u, run', store₂, filled) =
                patch_block-Filled store₁ i off m at buf (omega arith) (omega (arith, is, ne))
                  inside in
              let patch : patch_block b off m at buf t ≡ ok tt u =
                ap (λ k. patch_block k off m at buf t) (sym is) ∙ run' in
              one_more i off len at done m (after _ run (after _ patch refl)) le ends
                (Filled-after _ m at buf (alloc (i * 1024 + off) at buf) filled)
                (write_direct-Writes r u (i + 1) 0 (len - m) (at + m) (done + m) (omega arith)
                  (omega arith) (omega (arith, ends)) store₂)
        ])
      ]

  pub fs_write_1st_level-Writes :
      (s : Fs) (offset len at : ℕ)
      → offset + len ≤ 6144
      → offset < 6144
      → IsStore g s inum
      → Writes g s inum offset len at buf 0 (fs_write_1st_level inum offset len at buf s)
  unfolding fs_write_1st_level
  fs_write_1st_level-Writes s offset len at fits before store =
      let whole : offset / 1024 * 1024 + offset % 1024 ≡ offset = omega arith in
      subst
        (λ o.
          Writes g s inum o len at buf 0
            (write_direct (6 - offset / 1024) (offset / 1024) inum (offset % 1024) len at 0 buf s))
        whole
        (write_direct-Writes (6 - offset / 1024) s (offset / 1024) (offset % 1024) len at 0
          (omega arith) (omega arith) (omega arith) store)
