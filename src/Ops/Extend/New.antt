-- ===== src/Ops/Extend/New.antt =====
-- A file that `fs_mknod` makes, as `fs_write` finds it.
use cs5600_filesystem.Base.{
  ℕ, ◌+◌, ◌^◌, ◌≤◌, ◌<◌, ◌≡◌, refl, sym, ap, ◌∙◌, subst, true, false, ◌⊎◌, inl, inr, Bytes, arith,
  List, ◌∷◌, All, Bool, ◌==◌, Bool-cases,
}
use cs5600_filesystem.Base.Int.{pos}
use cs5600_filesystem.Memory.{fd_isset}
use cs5600_filesystem.Names.{tokens}
use cs5600_filesystem.Names.Tokens.{IsPlain, path_of}
use cs5600_filesystem.State.{Fs, Env, ok, ok-injective}
use cs5600_filesystem.State.Inode.{field, w_direct, is_reg}
use cs5600_filesystem.State.Post.{Post, holds}
use cs5600_filesystem.Mount.{data_start, IsMounted}
use cs5600_filesystem.Mount.Create.{new_inode-direct, fs_mknod-IsMounted}
use cs5600_filesystem.Tree.{translate}
use cs5600_filesystem.Tree.Dirent.{Dirent, put_dirent, dir_valid, dir_inode, dir_is_dir}
use cs5600_filesystem.Tree.Entries.{IsShort, dir_valid-put, dir_inode-put, dir_is_dir-put}
use cs5600_filesystem.Tree.Lookup.{Lacks, dir_of}
use cs5600_filesystem.Tree.Leads.{Leads}
use cs5600_filesystem.Tree.Held.{IsHeld, at_root, within, InTree-IsHeld}
use cs5600_filesystem.Ops.Create.{new_inode, new_dirent, fs_mknod}
use cs5600_filesystem.Ops.Mknod.{HasRoom, Created, fs_mknod-Created}
use cs5600_filesystem.Ops.Paths.{IsTree, fs_mknod-translate}
use cs5600_filesystem.Ops.Read.{Buffer}
use cs5600_filesystem.Ops.Overwrite.{direct}
use cs5600_filesystem.Ops.Extend.{IsStore}
use cs5600_filesystem.Ops.Extend.Back.{IsApart}
use cs5600_filesystem.Ops.Extend.Chunks.{Stores}

-- A directory that is held is marked in the inode map, and its block, behind the metadata, in the
-- block map.
abbrev pub AreKept : Fs → Type 0
AreKept s =
    (n : ℕ)
    → IsHeld s n true
    → (fd_isset n s.inode_map ≡ true)
      × (data_start s ≤ field s n w_direct)
      × (fd_isset (field s n w_direct) s.block_map ≡ true)

module _ {s t : Fs} {father i k : ℕ} {words : List ℕ} {d : Dirent}
    (created : Created s father i k words d t) (room : HasRoom s father i k) (kept : AreKept s)
    (is_file : d.is_dir ≡ false) where
  same_block : (n : ℕ) → IsHeld s n true → field t n w_direct ≡ field s n w_direct
  same_block n held =
      ground (arith, created.fields n w_direct (omega arith), kept n held, room.inode.free)

  -- A directory's block is the old one, or has the new entry.
  dir_of-cases :
      (n : ℕ)
      → IsHeld s n true
      → (dir_of t n ≡ dir_of s n)
        ⊎ ((dir_of s n ≡ dir_of s father) × (dir_of t n ≡ put_dirent (dir_of s father) i d))
  dir_of-cases n held =
      let moved : dir_of t n ≡ t.disk (field s n w_direct + 0) =
        ap (λ b. t.disk (b + 0)) (same_block n held) in
      let now = created.blocks (field s n w_direct + 0) (omega (arith, kept n held)) in
      elim (Bool-cases (field s n w_direct + 0 == field s father w_direct)) [
        | inl e ↦ inr (ap s.disk (ground arith), moved ∙ now ∙ rw e)
        | inr e ↦ inl (moved ∙ now ∙ rw e)
      ]

  -- A directory that is held was held before.
  IsHeld-Created : {n : ℕ} {b : Bool} → IsHeld t n b → b ≡ true → IsHeld s n true
  IsHeld-Created at_root e = at_root
  IsHeld-Created (within {n} j held in_block valid) e =
      let was = IsHeld-Created held refl in
      elim (dir_of-cases n was) [
        | inl same ↦
            let valid' : dir_valid (dir_of s n) j ≡ true = rw (← same) valid in
            let flag : dir_is_dir (dir_of s n) j ≡ true = rw (← same) e in
            rw same
              (subst (IsHeld s (dir_inode (dir_of s n) j)) flag (within j was in_block valid'))
        | inr (same, now) ↦
            let valid' : dir_valid (put_dirent (dir_of s father) i d) j ≡ true = rw now at valid in
            let flag : dir_is_dir (put_dirent (dir_of s father) i d) j ≡ true = rw now at e in
            let is_put = dir_is_dir-put (dir_of s father) i d j in
            let other : (j == i) ≡ false = ground (arith, is_put, flag, is_file) in
            let old : dir_valid (dir_of s father) j ≡ true =
              ground (arith, dir_valid-put (dir_of s father) i d j, valid', other) in
            let old_flag : dir_is_dir (dir_of s father) j ≡ true =
              ground (arith, is_put, flag, other) in
            let inode : dir_inode (dir_of t n) j ≡ dir_inode (dir_of s n) j =
              ap (λ b. dir_inode b j) now
              ∙ dir_inode-put (dir_of s father) i d j
              ∙ rw (other, same) refl in
            let was_valid : dir_valid (dir_of s n) j ≡ true = rw same old in
            let was_flag : dir_is_dir (dir_of s n) j ≡ true = rw same old_flag in
            rw inode (
              subst (IsHeld s (dir_inode (dir_of s n) j)) was_flag
                (within j was in_block was_valid))
      ]

-- The new file is one that `fs_write` can extend.
module _ (env : Env) (mode : ℕ) {s t : Fs} {father i k : ℕ} {name : Bytes}
    (created : Created s father i k (new_inode env mode 0) (new_dirent false k name) t)
    (room : HasRoom s father i k) (kept : AreKept s) (mounted : IsMounted s t)
    (held : s.num_of_blocks ≤ s.nblks) where
  no_block : (j : ℕ) → j < 6 → direct t k j ≡ 0
  no_block j six =
      created.fields k (w_direct + j) (omega arith)
      ∙ ground (arith, new_inode-direct env mode 0 j six)

  new-IsStore : IsStore s t k
  new-IsStore = record {
    mounted = mounted;
    held = held;
    room = room.fits;
    inside = room.in_region;
    used = λ j six ne. absurd (ne (no_block j six));
    apart = λ j j' six six' ne. absurd (ne (no_block j six));
  }

  new-IsApart : IsApart s t k
  new-IsApart n reach =
      let was = IsHeld-Created created room kept refl (InTree-IsHeld reach) refl in
      let same = same_block created room kept refl n was in
      let (marked, far, is_used) = kept n was in
      (
        omega (arith, same, far),
        ap (fd_isset (direct t n 0)) created.block_map
            ∙ ap (λ b. fd_isset b s.block_map) same
            ∙ is_used,
        λ j six. omega (arith, same, far, no_block j six),
      )

-- `fs_mknod` of a regular file gives a file without bytes that can be written, and the paths stay.
pub fs_mknod-Stores :
    (env : Env) (s : Fs) (mode father i k : ℕ) (dir : Bytes) (c : ℕ) (rest : Bytes) (f : Buffer)
    → IsPlain (c ∷ rest)
    → IsShort (c ∷ rest)
    → All IsShort (tokens dir)
    → is_reg mode ≡ true
    → mode < 2 ^ 32
    → IsMounted s s
    → s.num_of_blocks ≤ s.nblks
    → AreKept s
    → Leads s father true 1 true (tokens dir)
    → Lacks (dir_of s father) (c ∷ rest)
    → HasRoom s father i k
    → (t : Fs) × (fs_mknod env (path_of dir c rest) mode s ≡ ok (pos 0) t)
      × (translate (path_of dir c rest) t ≡ ok (pos k) t)
      × Stores s t k 0 f
      × ((p : Bytes) (m : ℕ)
          → All IsShort (tokens p)
          → translate p s ≡ ok (pos m) s
          → translate p t ≡ ok (pos m) t)
fs_mknod-Stores env s mode father i k dir c rest f plain short toks regular bits mounted held kept
      way lacks room =
    let path : Bytes = path_of dir c rest in
    let tree : IsTree s = λ n reach. let (a, b, _) = kept n (InTree-IsHeld reach) in (a, b) in
    let (t, run, found, is_mode, size, _, paths) =
      fs_mknod-translate env s mode father i k dir c rest plain short toks regular tree way lacks
        room in
    let (t', run', created') =
      fs_mknod-Created env s mode father i k dir c rest plain short.fits regular way lacks room in
    let same : t' ≡ t = (ok-injective (sym run' ∙ run)).1 in
    let created : Created s father i k (new_inode env mode 0) (new_dirent false k (c ∷ rest)) t =
      subst (λ t. Created s father i k (new_inode env mode 0) (new_dirent false k (c ∷ rest)) t)
        same created' in
    let mounted' : IsMounted s t =
      holds (subst (Post _) run (fs_mknod-IsMounted env path mode mounted)) in
    (
      t,
      run,
      found,
      record {
        store = new-IsStore env mode created room kept mounted' held;
        apart = new-IsApart env mode created room kept mounted' held;
        whole = λ j lt. absurd (omega arith);
        regular = ap is_reg (is_mode ∙ omega arith) ∙ regular;
        size = size;
        bytes = λ o lt. absurd (omega arith);
      },
      paths,
    )
