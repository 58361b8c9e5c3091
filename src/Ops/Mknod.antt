-- ===== src/Ops/Mknod.antt =====
-- A successful run of `fs_mknod`, step by step.
use cs5600_filesystem.Base.{
  ℕ, ◌+◌, ◌*◌, ◌%◌, ◌^◌, ◌≤◌, ◌<◌, ◌≡◌, ◌≢◌, refl, ap, ◌∙◌, true, false, not, some, List, [], ◌∷◌,
  ◌++◌, arith, Bytes, get_or, ◌==◌, if◌then◌else◌, length,
}
use cs5600_filesystem.Base.Int.{pos, enoent}
use cs5600_filesystem.Base.Search.{first_index}
use cs5600_filesystem.Memory.{Block, fd_isset}
use cs5600_filesystem.Names.{slash, tokens, get_name}
use cs5600_filesystem.Names.Tokens.{
  IsPlain, path_of, trancate_path-path, get_name-path, tokens-path, tokens-slash,
}
use cs5600_filesystem.State.{Fs, Env, ok}
use cs5600_filesystem.State.Inode.{field, w_direct, is_reg}
use cs5600_filesystem.State.Post.{after, put_disk}
use cs5600_filesystem.State.Alloc.{IsFirstFree, find_free_inode_map_bit-ok}
use cs5600_filesystem.Tree.{translate, find_free_dirent_num}
use cs5600_filesystem.Tree.Dirent.{put_dirent, Dirent, dir_valid}
use cs5600_filesystem.Tree.Lookup.{
  HasDir, dir_of, Lacks, missing, translate_iff, inode_at-ok, read_dir-ok,
}
use cs5600_filesystem.Tree.Leads.{Leads, Leads-Resolves, Leads-arrived}
use cs5600_filesystem.Mount.{data_start}
use cs5600_filesystem.Ops.Create.{new_inode, new_dirent, make_node, store_inode, fs_mknod}
use cs5600_filesystem.Ops.Stored.{Stored, store_inode-ok, add_entry-ok}

-- There is room for a new entry `i` of the directory `father`, and for a new inode `k`, whose number
-- fits the 30 bits of an entry.
pub record HasRoom (s : Fs) (father i k : ℕ) : Type 0 where
  pub fits : data_start s ≤ s.nblks
  pub dir : HasDir s father
  pub in_data : data_start s ≤ field s father w_direct
  pub entry : first_index 32 0 (λ j. not (dir_valid (dir_of s father) j)) ≡ some i
  pub inode : IsFirstFree s.inode_map 2 (s.inode_map_sz * 8192) k
  pub in_region : k < s.inode_region_sz * 16
  pub other : father ≢ k
  pub in_bits : k < 1073741824

-- The state `t` is `s` with the inode `k` stored and with a new entry in the block of `father`.
pub record Created (s : Fs) (father i k : ℕ) (words : List ℕ) (d : Dirent) (t : Fs) : Type 0 where
  pub nblks : t.nblks ≡ s.nblks
  pub inode_region_sz : t.inode_region_sz ≡ s.inode_region_sz
  pub block_map : t.block_map ≡ s.block_map
  pub inode_map :
      (j : ℕ) → fd_isset j t.inode_map ≡ (if j == k then true else fd_isset j s.inode_map)
  pub fields :
      (m f : ℕ) → f < 16 → field t m f ≡ (if m == k then get_or words f 0 % 2 ^ 32 else field s m f)
  pub blocks :
      (b : ℕ)
      → data_start s ≤ b
      → t.disk b
        ≡ (if b == field s father w_direct then put_dirent (dir_of s father) i d else s.disk b)

field-put_disk :
    (s : Fs) (b : ℕ) (blk : Block) (m f : ℕ) → field (put_disk s b blk) m f ≡ field s m f
unfolding field
field-put_disk s b blk m f = refl

module _ (env : Env) (s : Fs) (path : Bytes) (mode father i k : ℕ) {name : Bytes}
    (called : get_name path ≡ some name) (short : length name < 28)
    (room : HasRoom s father i k) where
  abbrev d : Dirent
  d = new_dirent false k name

  make_node-Stored :
      (t : Fs)
      → store_inode k (new_inode env mode 0) s ≡ ok tt t
      → Stored s k (new_inode env mode 0) t
      → (t' : Fs) × (make_node env path mode father i s ≡ ok (pos 0) t')
        × Created s father i k (new_inode env mode 0) d t'
  unfolding make_node
  make_node-Stored t run st =
      let same : field t father w_direct ≡ field s father w_direct =
        ground (arith, st.fields father w_direct (omega arith), room.other) in
      let dir : dir_of t father ≡ dir_of s father =
        ap (λ b. t.disk (b + 0)) same
        ∙ st.blocks (field s father w_direct + 0) (omega (arith, room.in_data)) in
      (
        put_disk t (field t father w_direct) (put_dirent (dir_of t father) i d),
        after _ (find_free_inode_map_bit-ok s k room.inode) (
            after _ run (
              after _
                (add_entry-ok t father i k false path called short
                  (omega (arith, same, room.in_data))
                  (omega (arith, same, st.nblks, room.dir.on_disk)))
                refl)),
        record {
          nblks = st.nblks;
          inode_region_sz = st.inode_region_sz;
          block_map = st.block_map;
          inode_map = st.inode_map;
          fields = λ m f small.
              field-put_disk t (field t father w_direct) (put_dirent (dir_of t father) i d) m f
              ∙ st.fields m f small;
          blocks = λ b far. rw (dir, same) (ground (arith, st.blocks b far));
        },
      )

  make_node-Created :
      (t : Fs) × (make_node env path mode father i s ≡ ok (pos 0) t)
      × Created s father i k (new_inode env mode 0) d t
  make_node-Created =
      let (t, run, st) =
        store_inode-ok s k (new_inode env mode 0) room.inode.below room.in_region room.fits in
      make_node-Stored t run st

find_free_dirent_num-ok :
    (s : Fs) (n : ℕ)
    → field s n w_direct + 1 ≤ s.nblks
    → find_free_dirent_num n s ≡ ok (first_index 32 0 (λ j. not (dir_valid (dir_of s n) j))) s
unfolding find_free_dirent_num
find_free_dirent_num-ok s n h = after _ (read_dir-ok s n h) refl

-- `fs_mknod` of a new name in a directory that has room succeeds, stores the inode and adds the
-- entry, and changes nothing else.
module _ (env : Env) (s : Fs) (mode father i k : ℕ) (dir : Bytes) (c : ℕ) (rest : Bytes)
    (plain : IsPlain (c ∷ rest)) where
  pub fs_mknod-Created :
      length (c ∷ rest) < 28
      → is_reg mode ≡ true
      → Leads s father true 1 true (tokens dir)
      → Lacks (dir_of s father) (c ∷ rest)
      → HasRoom s father i k
      → (t : Fs) × (fs_mknod env (path_of dir c rest) mode s ≡ ok (pos 0) t)
        × Created s father i k (new_inode env mode 0) (new_dirent false k (c ∷ rest)) t
  unfolding fs_mknod
  fs_mknod-Created short regular way lacks room =
      let path : Bytes = dir ++ slash ∷ c ∷ rest in
      let (t, run, created) =
        make_node-Created env s path mode father i k (get_name-path dir c rest plain) short room in
      let to_father : translate (dir ++ slash ∷ []) s ≡ ok (pos father) s =
        (translate_iff s (dir ++ slash ∷ []) (pos father)).1
          (rw (tokens-slash dir) (Leads-arrived way)) in
      let no_such : translate path s ≡ ok enoent s =
        (translate_iff s path enoent).1
          (rw (tokens-path dir c rest plain) (Leads-Resolves way (missing room.dir lacks))) in
      (
        t,
        rw (regular, trancate_path-path dir c rest plain)
            (after _ to_father (
              after _ no_such (
                after _ (inode_at-ok s father room.dir.in_region) (
                  after _ (find_free_dirent_num-ok s father room.dir.on_disk)
                    (rw room.entry run))))),
        created,
      )
