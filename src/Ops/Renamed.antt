-- ===== src/Ops/Renamed.antt =====
-- What `fs_rename` of a name to a new one does to the paths.
pub mod Beside
pub mod Entries
use cs5600_filesystem.Base.{
  ℕ, zero, suc, ◌+◌, ◌*◌, ◌≤◌, ◌<◌, ◌≡◌, ◌≢◌, refl, sym, ap, ◌∙◌, Bool, true, false, ◌&&◌, List, [],
  ◌∷◌, ◌++◌, Option, some, arith, Bytes, length, ltb, ◌==◌, bytes_eq, bytes_eq_iff, if◌then◌else◌,
  Bool-cases, inl, inr,
}
use cs5600_filesystem.Base.Int.{pos, enoent}
use cs5600_filesystem.Memory.{Area, Block}
use cs5600_filesystem.Names.{slash, tokens}
use cs5600_filesystem.Names.Tokens.{
  IsPlain, path_of, trancate_path-path, get_name-path, tokens-path, tokens-slash,
}
use cs5600_filesystem.State.{Fs, ok}
use cs5600_filesystem.State.Inode.{field, w_direct}
use cs5600_filesystem.State.Post.{after, put_disk, write_block-ok}
use cs5600_filesystem.Tree.{matches, translate}
use cs5600_filesystem.Tree.Dirent.{dir_valid, dir_inode, dir_is_dir, dir_name_is}
use cs5600_filesystem.Tree.Entries.{IsShort}
use cs5600_filesystem.Tree.Names.{
  dir_inode-put_name, dir_is_dir-put_name, matches-put_name, matches_unique,
}
use cs5600_filesystem.Tree.Lookup.{
  HasDir, dir_of, Lacks, IsEntry, IsEntry-valid, Resolves, arrived, missing, enter, translate_iff,
  inode_at-ok, read_dir-ok,
}
use cs5600_filesystem.Tree.Leads.{Leads, done, step, Leads-Resolves, Leads-arrived}
use cs5600_filesystem.Ops.Create.{or_fault}
use cs5600_filesystem.Ops.Rename.{put_name, rename_entries, fs_rename}
use cs5600_filesystem.Ops.Renamed.Beside.{
  LeadsBeside, LeadsBeside-Leads, dir_of-put_disk, HasDir-put_disk, LeadsBeside-put_disk,
}
use cs5600_filesystem.Ops.Renamed.Entries.{rename_entries-one}

-- The entry `i` of the directory `father` is the only one with its name, the new name is free
-- there, and the directory's block can be written.
pub record CanRename (s : Fs) (father i : ℕ) (src dst : Bytes) : Type 0 where
  pub dir : HasDir s father
  pub not_null : father ≢ 0
  pub block : field s father w_direct ≢ 0
  pub entry : IsEntry (dir_of s father) src i
  pub only : (k : ℕ) → k < 32 → matches (dir_of s father) src k ≡ true → k ≡ i
  pub free : Lacks (dir_of s father) dst

module _ (s : Fs) (father i : ℕ) (src dst : Bytes) (can : CanRename s father i src dst)
    (short : IsShort src) (short' : IsShort dst) (ts : List Bytes)
    (way : LeadsBeside s (field s father w_direct) father true 1 true ts) where
  abbrev t : Fs
  t = put_disk s (field s father w_direct) (put_name (dir_of s father) i dst)

  differ : bytes_eq dst src ≡ false
  differ = elim (Bool-cases (bytes_eq dst src)) [
    | inr e ↦ e
    | inl e ↦
        let same : dst ≡ src = (bytes_eq_iff dst src).0 e in
        let named : matches (dir_of s father) dst i ≡ true = rw same can.entry.named in
        cc (can.free i can.entry.in_block, named)
  ]

  dir_of-t : dir_of t father ≡ put_name (dir_of s father) i dst
  unfolding field
  dir_of-t =
      let place : field s father w_direct + 0 ≡ field s father w_direct = omega arith in
      ground arith

  now :
      (name : Bytes) (j : ℕ)
      → IsShort name
      → matches (dir_of t father) name j ≡ (
          if j == i
          then bytes_eq dst name && dir_valid (dir_of s father) j
          else matches (dir_of s father) name j)
  now name j tok =
      ap (λ d. matches d name j) dir_of-t
      ∙ matches-put_name (dir_of s father) i dst short' j name tok

  src-Lacks : Lacks (dir_of t father) src
  src-Lacks j lt = ground (arith, now src j short, differ, can.only j lt)

  dst-IsEntry : IsEntry (dir_of t father) dst i
  dst-IsEntry = record {
    in_block = can.entry.in_block;
    named = ground (
      arith,
      now dst i short',
      IsEntry-valid _ src i can.entry.named,
      (bytes_eq_iff dst dst).1 refl,
    );
    last = λ k lo hi. ground (arith, now dst k short', can.free k hi);
  }

  way-t : Leads t father true 1 true ts
  way-t = LeadsBeside-put_disk _ way

  dst-Resolves : Resolves t 1 true (ts ++ dst ∷ []) (pos (dir_inode (dir_of s father) i))
  dst-Resolves =
      let inode : dir_inode (dir_of t father) i ≡ dir_inode (dir_of s father) i =
        ap (λ d. dir_inode d i) dir_of-t ∙ dir_inode-put_name (dir_of s father) i dst short' i in
      Leads-Resolves way-t
        (enter i (HasDir-put_disk s _ _ father can.dir) dst-IsEntry (rw inode arrived))

  src-Resolves : Resolves t 1 true (ts ++ src ∷ []) enoent
  src-Resolves = Leads-Resolves way-t (missing (HasDir-put_disk s _ _ father can.dir) src-Lacks)

  moved : rename_entries 32 0 (field s father w_direct) src dst (dir_of s father) s ≡ ok tt t
  moved =
      rename_entries-one (field s father w_direct) src dst s 32 0 i (dir_of s father) (omega arith)
        (omega (arith, can.entry.in_block)) can.entry.in_block can.block can.dir.on_disk short'.fits
        can.entry.named (λ k lo hi. can.only k (omega arith))
        (λ k lo hi.
          ground (arith, matches-put_name (dir_of s father) i dst short' k src short, can.only k))

  other_names :
      (name : Bytes) (j : ℕ)
      → IsShort name
      → name ≢ src
      → name ≢ dst
      → (matches (dir_of t father) name j ≡ matches (dir_of s father) name j)
        × (dir_inode (dir_of t father) j ≡ dir_inode (dir_of s father) j)
        × (dir_is_dir (dir_of t father) j ≡ dir_is_dir (dir_of s father) j)
  other_names name j tok ne ne' =
      let not_src : matches (dir_of s father) name i ≡ false =
        elim (Bool-cases (matches (dir_of s father) name i)) [
          | inr e ↦ e
          | inl e ↦
              absurd (ne (matches_unique (dir_of s father) i name src tok short e can.entry.named))
        ] in
      let not_dst : bytes_eq dst name ≡ false = elim (Bool-cases (bytes_eq dst name)) [
        | inr e ↦ e
        | inl e ↦ absurd (ne' (sym ((bytes_eq_iff dst name).0 e)))
      ] in
      (
        ground (arith, now name j tok, not_src, not_dst),
        ap (λ d. dir_inode d j) dir_of-t ∙ dir_inode-put_name (dir_of s father) i dst short' j,
        ap (λ d. dir_is_dir d j) dir_of-t ∙ dir_is_dir-put_name (dir_of s father) i dst short' j,
      )

or_fault-ok : {A : Type 0} (o : Option A) (s : Fs) {a : A} → o ≡ some a → or_fault o s ≡ ok a s
or_fault-ok o s e = rw e

-- `fs_rename` of the only entry with its name to a name that is not there, in the same directory,
-- where the names have at most 27 bytes and the way to the directory goes through directories with
-- other blocks: it succeeds. Then the old path gives -ENOENT, the new one leads to the inode that the
-- old one led to, every other name of the directory stands in the same entries as before, with the
-- same inodes and flags, and all other blocks, the inodes and the maps are as they were.
pub fs_rename-translate :
    (s : Fs) (father i : ℕ) (dir : Bytes) (c : ℕ) (rest : Bytes) (c' : ℕ) (rest' : Bytes)
    → IsPlain (c ∷ rest)
    → IsPlain (c' ∷ rest')
    → IsShort (c ∷ rest)
    → IsShort (c' ∷ rest')
    → LeadsBeside s (field s father w_direct) father true 1 true (tokens dir)
    → CanRename s father i (c ∷ rest) (c' ∷ rest')
    → (disk : Area) × (fs_rename (path_of dir c rest) (path_of dir c' rest') s
        ≡ ok (pos 0) (record s { disk = disk }))
      × (translate (path_of dir c rest) (record s { disk = disk })
          ≡ ok enoent (record s { disk = disk }))
      × (translate (path_of dir c' rest') (record s { disk = disk })
          ≡ ok (pos (dir_inode (dir_of s father) i)) (record s { disk = disk }))
      × ((name : Bytes) (j : ℕ)
          → IsShort name
          → name ≢ c ∷ rest
          → name ≢ c' ∷ rest'
          → (matches (dir_of (record s { disk = disk }) father) name j
              ≡ matches (dir_of s father) name j)
            × (dir_inode (dir_of (record s { disk = disk }) father) j
                ≡ dir_inode (dir_of s father) j)
            × (dir_is_dir (dir_of (record s { disk = disk }) father) j
                ≡ dir_is_dir (dir_of s father) j))
      × ((b : ℕ) → b ≢ field s father w_direct → disk b ≡ s.disk b)
unfolding fs_rename
fs_rename-translate s father i dir c rest c' rest' plain plain' short short' way can =
    let src : Bytes = c ∷ rest in
    let dst : Bytes = c' ∷ rest' in
    let u : Fs = t s father i src dst can short short' (tokens dir) way in
    let lead = LeadsBeside-Leads way in
    let src_found : translate (path_of dir c rest) s ≡ ok (pos (dir_inode (dir_of s father) i)) s =
      (translate_iff s (path_of dir c rest) _).1 (
        rw (tokens-path dir c rest plain)
          (Leads-Resolves lead (enter i can.dir can.entry arrived))) in
    let no_dst : translate (path_of dir c' rest') s ≡ ok enoent s =
      (translate_iff s (path_of dir c' rest') _).1
        (rw (tokens-path dir c' rest' plain') (Leads-Resolves lead (missing can.dir can.free))) in
    let to_father : translate (dir ++ slash ∷ []) s ≡ ok (pos father) s =
      (translate_iff s (dir ++ slash ∷ []) (pos father)).1
        (rw (tokens-slash dir) (Leads-arrived lead)) in
    let same_father : bytes_eq (dir ++ slash ∷ []) (dir ++ slash ∷ []) ≡ true =
      (bytes_eq_iff (dir ++ slash ∷ []) (dir ++ slash ∷ [])).1 refl in
    let not_null : (father == 0) ≡ false = ground (arith, can.not_null) in
    (
      u.disk,
      after _ src_found (
          after _ no_dst (
            after _ (or_fault-ok _ s (trancate_path-path dir c rest plain)) (
              after _ (or_fault-ok _ s (trancate_path-path dir c' rest' plain')) (
                rw same_father (
                  after _ to_father (
                    rw not_null (
                      after _ (or_fault-ok _ s (get_name-path dir c rest plain)) (
                        after _ (or_fault-ok _ s (get_name-path dir c' rest' plain')) (
                          after _ (inode_at-ok s father can.dir.in_region) (
                            after _ (read_dir-ok s father can.dir.on_disk) (
                              after _ (moved s father i src dst can short short' (tokens dir) way)
                                refl))))))))))),
      (translate_iff u (path_of dir c rest) enoent).1 (
          rw (tokens-path dir c rest plain)
            (src-Resolves s father i src dst can short short' (tokens dir) way)),
      (translate_iff u (path_of dir c' rest') _).1 (
          rw (tokens-path dir c' rest' plain')
            (dst-Resolves s father i src dst can short short' (tokens dir) way)),
      other_names s father i src dst can short short' (tokens dir) way,
      λ b ne. ground (arith, ne),
    )
