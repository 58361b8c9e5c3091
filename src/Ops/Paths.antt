-- ===== src/Ops/Paths.antt =====
-- How paths resolve once an entry has been added to a directory.
use cs5600_filesystem.Base.{
  ℕ, ◌+◌, ◌%◌, ◌^◌, ◌≤◌, ◌<◌, ◌≡◌, refl, ap, ◌∙◌, Bool, true, false, not, List, [], ◌∷◌, ◌++◌,
  arith, Bytes, All, ◌==◌, bytes_eq, bytes_eq_iff, ==-refl, Bool-cases, inl, inr, ◌⊎◌,
}
use cs5600_filesystem.Base.Int.{pos}
use cs5600_filesystem.Base.Search.{first_index-bounds}
use cs5600_filesystem.Memory.{Block, fd_isset}
use cs5600_filesystem.Names.{tokens}
use cs5600_filesystem.Names.Tokens.{IsPlain, path_of, tokens-path}
use cs5600_filesystem.State.{Fs, Env, ok}
use cs5600_filesystem.State.Inode.{field, w_direct, w_mode, w_size, is_reg}
use cs5600_filesystem.Tree.{matches, translate}
use cs5600_filesystem.Tree.Dirent.{put_dirent, Dirent, dir_valid, dir_inode, dir_is_dir}
use cs5600_filesystem.Tree.Entries.{IsShort, matches-put, dir_inode-put, dir_is_dir-put}
use cs5600_filesystem.Tree.Lookup.{
  HasDir, dir_of, Lacks, IsEntry, IsEntry-valid, Resolves, arrived, enter, translate_iff,
}
use cs5600_filesystem.Tree.Leads.{
  Leads, done, step, InTree, root, child, Leads-Resolves, Leads-arrived, Leads-InTree,
  Resolves-Leads,
}
use cs5600_filesystem.Mount.{data_start}
use cs5600_filesystem.Ops.Create.{fs_mknod}
use cs5600_filesystem.Ops.Mknod.{HasRoom, Created, fs_mknod-Created}

-- Every directory that can be reached is marked in the inode map and has its block in the data.
abbrev pub IsTree : Fs → Type 0
IsTree s =
    (n : ℕ)
    → InTree s n true
    → (fd_isset n s.inode_map ≡ true) × (data_start s ≤ field s n w_direct)

-- A new entry in place of one that was not valid hides no other, if its name was not there.
module _ (dir : Block) (i : ℕ) (d : Dirent) (fresh : dir_valid dir i ≡ false)
    (short : IsShort d.name) (lacks : Lacks dir d.name) where
  IsEntry-other : (t : Bytes) (j : ℕ) → IsEntry dir t j → (j == i) ≡ false
  IsEntry-other t j entry = ground (arith, IsEntry-valid dir t j entry.named)

  IsEntry-put : (t : Bytes) (j : ℕ) → IsShort t → IsEntry dir t j → IsEntry (put_dirent dir i d) t j
  IsEntry-put t j tok entry = record {
    in_block = entry.in_block;
    named = rw (matches-put dir i d j t short tok, IsEntry-other t j entry) entry.named;
    last =
        λ k a b. rw (matches-put dir i d k t short tok) (ground (arith, entry.last k a b, other));
  }
    where
      other : bytes_eq d.name t ≡ false
      other = elim (Bool-cases (bytes_eq d.name t)) [
        | inr e ↦ e
        | inl e ↦
            let same : d.name ≡ t = (bytes_eq_iff d.name t).0 e in
            let named : matches dir d.name j ≡ true = rw same entry.named in
            cc (lacks j entry.in_block, named)
      ]

  -- The new entry is the one of its name.
  IsEntry-new : i < 32 → d.valid ≡ true → IsEntry (put_dirent dir i d) d.name i
  IsEntry-new in_block valid = record {
    in_block = in_block;
    named =
        rw (matches-put dir i d i d.name short short)
          (let e = (bytes_eq_iff d.name d.name).1 refl in ground arith);
    last = λ k a b. rw (matches-put dir i d k d.name short short) (ground (arith, lacks k b));
  }

module _ {s t : Fs} {father i k : ℕ} {words : List ℕ} {d : Dirent}
    (created : Created s father i k words d t) (room : HasRoom s father i k) (tree : IsTree s)
    (short : IsShort d.name) (lacks : Lacks (dir_of s father) d.name) where
  fresh : (i < 32) × (dir_valid (dir_of s father) i ≡ false)
  fresh =
      let b = first_index-bounds (λ j. not (dir_valid (dir_of s father) j)) 32 0 room.entry in
      (omega arith, ground arith)

  same_block : (n : ℕ) → InTree s n true → field t n w_direct ≡ field s n w_direct
  same_block n reach =
      ground (arith, created.fields n w_direct (omega arith), tree n reach, room.inode.free)

  HasDir-Created : (n : ℕ) → InTree s n true → HasDir s n → HasDir t n
  HasDir-Created n reach h = record {
    in_region = omega (arith, h.in_region, created.inode_region_sz);
    on_disk = omega (arith, h.on_disk, created.nblks, same_block n reach);
  }

  -- A directory's block is the old one, or the father's with the new entry.
  dir_of-Created :
      (n : ℕ)
      → InTree s n true
      → (dir_of t n ≡ dir_of s n)
        ⊎ ((dir_of s n ≡ dir_of s father) × (dir_of t n ≡ put_dirent (dir_of s father) i d))
  dir_of-Created n reach =
      let moved : dir_of t n ≡ t.disk (field s n w_direct + 0) =
        ap (λ b. t.disk (b + 0)) (same_block n reach) in
      let now = created.blocks (field s n w_direct + 0) (omega (arith, tree n reach)) in
      elim (Bool-cases (field s n w_direct + 0 == field s father w_direct)) [
        | inl e ↦ inr (ap s.disk (ground arith), moved ∙ now ∙ rw e)
        | inr e ↦ inl (moved ∙ now ∙ rw e)
      ]

  -- An entry that was found is found as before.
  IsEntry-Created :
      (n : ℕ) (name : Bytes) (j : ℕ)
      → InTree s n true
      → IsShort name
      → IsEntry (dir_of s n) name j
      → IsEntry (dir_of t n) name j
        × (dir_inode (dir_of t n) j ≡ dir_inode (dir_of s n) j)
        × (dir_is_dir (dir_of t n) j ≡ dir_is_dir (dir_of s n) j)
  IsEntry-Created n name j reach tok entry = elim (dir_of-Created n reach) [
    | inl e ↦ rw e (entry, refl, refl)
    | inr (e, f) ↦
        let entry' : IsEntry (dir_of s father) name j = rw e at entry in
        let other = IsEntry-other (dir_of s father) i d fresh.1 short lacks name j entry' in
        rw (f, e)
          (
            IsEntry-put (dir_of s father) i d fresh.1 short lacks name j tok entry',
            rw (dir_inode-put (dir_of s father) i d j, other),
            rw (dir_is_dir-put (dir_of s father) i d j, other),
          )
  ]

  -- Every way through existing names is as before.
  Leads-Created :
      {m : ℕ} {e : Bool} {n : ℕ} {b : Bool} {ts : List Bytes}
      → All IsShort ts
      → InTree s n b
      → Leads s m e n b ts
      → Leads t m e n b ts
  Leads-Created toks reach done = done
  Leads-Created toks reach (step {n} {t = name} {ts} j h entry way) =
      let (entry', inode, flag) = IsEntry-Created n name j reach toks.0 entry in
      step j (HasDir-Created n reach h) entry'
        (rw (inode, flag) (Leads-Created toks.1 (child name j reach entry) way))

  -- A path that resolved to an inode resolves to the same one.
  translate-Created :
      (path : Bytes) (m : ℕ)
      → All IsShort (tokens path)
      → translate path s ≡ ok (pos m) s
      → translate path t ≡ ok (pos m) t
  translate-Created path m toks e =
      let (b, way) = Resolves-Leads m ((translate_iff s path (pos m)).0 e) refl in
      (translate_iff t path (pos m)).1 (Leads-arrived (Leads-Created toks root way))

  dir_of-father : InTree s father true → dir_of t father ≡ put_dirent (dir_of s father) i d
  dir_of-father reach =
      ap (λ b. t.disk (b + 0)) (same_block father reach)
      ∙ created.blocks (field s father w_direct + 0) (omega (arith, room.in_data))
      ∙ ground arith

  -- The new name, behind the way to the father, resolves to the new inode.
  Resolves-new :
      (ts : List Bytes)
      → d.valid ≡ true
      → All IsShort ts
      → Leads s father true 1 true ts
      → Resolves t 1 true (ts ++ d.name ∷ []) (pos (d.inode % 1073741824))
  Resolves-new ts valid toks way =
      let reach : InTree s father true = Leads-InTree root way in
      let at_father = dir_of-father reach in
      let inode : dir_inode (dir_of t father) i ≡ d.inode % 1073741824 =
        ap (λ b. dir_inode b i) at_father
        ∙ dir_inode-put (dir_of s father) i d i
        ∙ rw (==-refl i) in
      Leads-Resolves (Leads-Created toks root way) (
        enter i (HasDir-Created father reach room.dir)
          (rw at_father (IsEntry-new (dir_of s father) i d fresh.1 short lacks fresh.0 valid))
          (rw inode arrived))

-- `fs_mknod` of a new name in a directory with room succeeds. Then the path translates to the new
-- inode, which is empty, has the mode and is marked in the inode map, and every path that led to an
-- inode leads to the same one. Names have at most 27 bytes, and the directories that can be reached
-- are marked in the inode map and have their blocks behind the metadata.
pub fs_mknod-translate :
    (env : Env) (s : Fs) (mode father i k : ℕ) (dir : Bytes) (c : ℕ) (rest : Bytes)
    → IsPlain (c ∷ rest)
    → IsShort (c ∷ rest)
    → All IsShort (tokens dir)
    → is_reg mode ≡ true
    → IsTree s
    → Leads s father true 1 true (tokens dir)
    → Lacks (dir_of s father) (c ∷ rest)
    → HasRoom s father i k
    → (t : Fs) × (fs_mknod env (path_of dir c rest) mode s ≡ ok (pos 0) t)
      × (translate (path_of dir c rest) t ≡ ok (pos k) t)
      × (field t k w_mode ≡ mode % 2 ^ 32)
      × (field t k w_size ≡ 0)
      × (fd_isset k t.inode_map ≡ true)
      × ((p : Bytes) (m : ℕ)
          → All IsShort (tokens p)
          → translate p s ≡ ok (pos m) s
          → translate p t ≡ ok (pos m) t)
fs_mknod-translate env s mode father i k dir c rest plain short toks regular tree way lacks room =
    let (t, run, created) =
      fs_mknod-Created env s mode father i k dir c rest plain short.fits regular way lacks room in
    let small : k % 1073741824 ≡ k = omega (arith, room.in_bits) in
    let found : Resolves t 1 true (tokens dir ++ (c ∷ rest) ∷ []) (pos k) =
      rw small at (Resolves-new created room tree short lacks (tokens dir) refl toks way) in
    (
      t,
      run,
      (translate_iff t (path_of dir c rest) (pos k)).1 (rw (tokens-path dir c rest plain) found),
      ground (arith, created.fields k w_mode (omega arith)),
      ground (arith, created.fields k w_size (omega arith)),
      ground (arith, created.inode_map k),
      translate-Created created room tree short lacks,
    )
