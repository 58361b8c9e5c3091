-- ===== src/Ops/Extend/Chunks.antt =====
-- A file that `fs_write` fills chunk by chunk.
use cs5600_filesystem.Base.{
  ℕ, ◌+◌, ◌-◌, ◌≤◌, ◌<◌, ◌≡◌, ◌≢◌, ap, ◌∙◌, true, false, ◌⊎◌, inl, inr, Bytes, arith, ◌==◌,
  Bool-cases,
}
use cs5600_filesystem.Base.Int.{ℤ, pos}
use cs5600_filesystem.Memory.{fd_isset}
use cs5600_filesystem.State.{Fs, ok}
use cs5600_filesystem.State.Inode.{field, w_mode, w_size, is_reg}
use cs5600_filesystem.State.Alloc.{AreUsed, block_bits}
use cs5600_filesystem.Tree.{translate}
use cs5600_filesystem.Tree.Same.{AreSameDirs, InTree-same_dirs, translate-same_dirs}
use cs5600_filesystem.Ops.Read.{Buffer}
use cs5600_filesystem.Ops.Write.{fs_write}
use cs5600_filesystem.Ops.Overwrite.{direct}
use cs5600_filesystem.Ops.Extend.{content, IsStore}
use cs5600_filesystem.Ops.Extend.Grow.{grown_size}
use cs5600_filesystem.Ops.Extend.Total.{Written, fs_write-Written}
use cs5600_filesystem.Ops.Extend.Back.{IsApart, IsWhole, AreSameDirs-Written, IsWhole-Written}

-- The file `inum` is regular, has `n` bytes, which are those of `f`, and can be written on.
pub record Stores (g s : Fs) (inum n : ℕ) (f : Buffer) : Type 0 where
  pub store : IsStore g s inum
  pub apart : IsApart g s inum
  pub whole : IsWhole s inum n
  pub regular : is_reg (field s inum w_mode) ≡ true
  pub size : field s inum w_size ≡ n
  pub bytes : (o : ℕ) → o < n → content s inum o ≡ f o

module _ {g s t : Fs} {inum at n : ℕ} {f buf : Buffer} (h : Stores g s inum at f)
    (w : Written g s t inum at n buf) (before : at + n < 6144)
    (same : (o : ℕ) → o < n → buf o ≡ f (at + o)) where
  dirs : AreSameDirs s t
  dirs = AreSameDirs-Written h.store w h.apart

  IsApart-Written : IsApart g t inum
  IsApart-Written m reach =
      let (far, is_used, other) = h.apart m (InTree-same_dirs dirs reach) in
      let block : direct t m 0 ≡ direct s m 0 =
        omega (arith, dirs.block m (InTree-same_dirs dirs reach)) in
      (
        omega (arith, far, block),
        rw block (w.used (direct s m 0) is_used),
        λ j six. rw block (elim (Bool-cases (direct t inum j == direct s inum j)) [
          | inl e ↦ let ne = other j six in ground arith
          | inr e ↦
              let is_free = w.new j six (ground arith) in
              λ e'. let both : fd_isset (direct s m 0) s.block_map ≡ false = rw e' is_free in cc
        ]),
      )

  size_at : grown_size (field s inum w_size) (at + n) ≡ at + n
  size_at = rw h.size (ground arith)

  Stores-Written : Stores g t inum (at + n) f
  Stores-Written = record {
    store = w.store;
    apart = IsApart-Written;
    whole =
        let all = IsWhole-Written h.store w at h.size (omega arith) (omega arith) before h.whole in
        λ j lt. all j (ground arith);
    regular = rw (w.fields inum w_mode (omega arith) (inr (inl (omega arith)))) h.regular;
    size = w.size ∙ size_at;
    bytes = λ o lt.
        let place : at ≤ o → at + (o - at) ≡ o = λ le. omega arith in
        w.bytes o (omega arith) ∙ ground (arith, h.bytes o, same (o - at), ap f, place);
  }

-- `fs_write` of the next bytes puts them behind the others, all of them or as many as there are
-- blocks for, and the paths stay.
pub fs_write-Stores :
    {g s : Fs} (path : Bytes) (len at : ℕ) (buf f : Buffer) (inum : ℕ)
    → Stores g s inum at f
    → translate path s ≡ ok (pos inum) s
    → inum ≢ 0
    → at + len < 6144
    → ((o : ℕ) → o < len → buf o ≡ f (at + o))
    → (n : ℕ) × (t : Fs) × (fs_write path len at buf s ≡ ok (pos n) t)
      × (n ≤ len)
      × ((n ≡ len) ⊎ AreUsed t.block_map 0 (block_bits g))
      × Stores g t inum (at + n) f
      × ((p : Bytes) (r : ℤ) → translate p s ≡ ok r s → translate p t ≡ ok r t)
fs_write-Stores path len at buf f inum h found ne before same =
    let (n, t, run, le, ends, w) =
      fs_write-Written path len at buf inum at h.store found ne h.size (omega arith) (omega arith)
        before in
    (
      n,
      t,
      run,
      le,
      ends,
      Stores-Written h w (omega arith) (λ o lt. same o (omega arith)),
      translate-same_dirs (AreSameDirs-Written h.store w h.apart),
    )
