-- ===== src/Ops/Extend/Patch.antt =====
-- The bytes that `patch_block` puts into a direct block of a file.
use cs5600_filesystem.Base.{
  ℕ, ◌+◌, ◌-◌, ◌*◌, ◌/◌, ◌%◌, ◌≤◌, ◌<◌, ◌≡◌, ◌≢◌, refl, ap, inl, inr, arith, ◌==◌, Bool-cases,
  subst,
}
use cs5600_filesystem.Memory.{copy_bytes}
use cs5600_filesystem.State.{Fs, ok}
use cs5600_filesystem.State.Inode.{field, w_direct}
use cs5600_filesystem.State.Post.{Post, holds, put_disk}
use cs5600_filesystem.Mount.{data_start}
use cs5600_filesystem.Mount.Write.{patch_block-IsMounted}
use cs5600_filesystem.Ops.Read.{Buffer}
use cs5600_filesystem.Ops.Write.{patch_block}
use cs5600_filesystem.Ops.Overwrite.{direct, patch_block-ok}
use cs5600_filesystem.Ops.Extend.{content, patched, IsStore, Filled}

module _ {g s : Fs} {inum : ℕ} (store : IsStore g s inum) (i off m at : ℕ) (buf : Buffer)
    (six : i < 6) (ne : direct s inum i ≢ 0) (inside : off + m ≤ 1024) where
  abbrev b : ℕ
  b = direct s inum i

  abbrev t : Fs
  t = put_disk s b (copy_bytes (s.disk b) off m (λ o. buf (at + o)))

  now : patch_block b off m at buf s ≡ ok tt t
  now =
      let held = (store.used i six ne).1 in
      let sized = store.mounted.sound.sized in patch_block-ok s b off m at buf ne (omega arith)

  far : data_start g ≤ b
  far = ground (arith, store.mounted.sound.pointed inum i store.inside six, ne)

  same : (n f : ℕ) → field t n f ≡ field s n f
  unfolding field
  same n f = refl

  t-IsStore : IsStore g t inum
  unfolding field
  t-IsStore = record {
    mounted = holds (subst (Post _) now (patch_block-IsMounted b off m at buf far store.mounted));
    held = store.held;
    room = store.room;
    inside = store.inside;
    used = store.used;
    apart = store.apart;
  }

  bytes-t :
      (o : ℕ) → o < 6144 → content t inum o ≡ patched (i * 1024 + off) m at buf o (content s inum o)
  unfolding content copy_bytes
  bytes-t o in_file = elim (Bool-cases (o / 1024 == i)) [
    | inl e ↦
        let here : o / 1024 ≡ i = ground arith in
        let place : i * 1024 + off ≤ o → o % 1024 - off ≡ o - (i * 1024 + off) =
          λ le. omega arith in
        rw (same inum (w_direct + o / 1024)) (rw here (ground (arith, ne, ap buf, place)))
    | inr e ↦
        let apart = store.apart i (o / 1024) six (omega arith) ne in
        rw (same inum (w_direct + o / 1024)) (ground (arith, apart))
  ]

  -- The block gets its bytes, and the file's other blocks stay.
  pub patch_block-Filled :
      (u : Fs) × (patch_block b off m at buf s ≡ ok tt u)
      × IsStore g u inum
      × Filled g s u inum (i * 1024 + off) m at buf
  unfolding field
  patch_block-Filled = (
    t,
    now,
    t-IsStore,
    record {
      bytes = bytes-t;
      set = λ o in_file lo hi. let here : o / 1024 ≡ i = omega arith in rw here ne;
      kept = λ j six' ne'. refl;
      new = λ j six' moved. absurd (moved refl);
      fields = λ n f small other. refl;
      blocks = λ k far' is_used other. let other' = other i six in ground arith;
      used = λ k is_used. is_used;
      inode_map = refl;
    },
  )
