-- ===== src/Shell/Put/Shown.antt =====
-- `do_put` of a file of the host, and then `do_show`.
use cs5600_filesystem.Base.{
  ℕ, zero, suc, ◌+◌, ◌≤◌, ◌<◌, ◌≡◌, ◌≢◌, refl, ap, ◌∙◌, subst, true, ◌⊎◌, inl, inr, [], ◌∷◌, some,
  All, Bytes, arith, length, get_or,
}
use cs5600_filesystem.Base.Int.{ℤ, pos, negsuc}
use cs5600_filesystem.Names.{tokens}
use cs5600_filesystem.Names.Tokens.{IsPlain, path_of}
use cs5600_filesystem.State.{Fs, ok}
use cs5600_filesystem.State.Alloc.{AreUsed, block_bits}
use cs5600_filesystem.Mount.{IsMounted}
use cs5600_filesystem.Tree.{translate}
use cs5600_filesystem.Tree.Entries.{IsShort}
use cs5600_filesystem.Tree.Lookup.{Lacks, dir_of}
use cs5600_filesystem.Tree.Leads.{Leads}
use cs5600_filesystem.Ops.Create.{fs_mknod}
use cs5600_filesystem.Ops.Mknod.{HasRoom}
use cs5600_filesystem.Ops.Read.{Buffer}
use cs5600_filesystem.Ops.Content.{file_byte}
use cs5600_filesystem.Ops.Extend.Back.{IsWhole-HasBlocks, file_byte-content}
use cs5600_filesystem.Ops.Extend.Chunks.{Stores}
use cs5600_filesystem.Ops.Extend.New.{AreKept, fs_mknod-Stores}
use cs5600_filesystem.Shell.{Shell, Host, ran, said, after_run}
use cs5600_filesystem.Shell.Words.{take}
use cs5600_filesystem.Shell.Files.{path_to, prefix, put_all, do_put, do_show}
use cs5600_filesystem.Shell.Steps.{and_so, quiet, path_in, path_to-ok}
use cs5600_filesystem.Shell.Show.{bytes_from, prefix-same, do_show_lem}
use cs5600_filesystem.Shell.Put.{put_all-Puts}

prefix-get_or : (n : ℕ) (xs : Bytes) → n ≤ length xs → prefix n (λ o. get_or xs o 0) ≡ take n xs
unfolding prefix take
prefix-get_or zero xs le = refl
prefix-get_or (suc n) [] le = absurd (omega arith)
prefix-get_or (suc n) (x ∷ xs) le =
    ap (λ t. x ∷ t)
      (prefix-same n _ (λ o. get_or xs o 0)
          (λ o lt. ap (λ i. get_or (x ∷ xs) i 0) {y = suc o} (omega arith))
        ∙ prefix-get_or n xs (omega arith))

take-length : (xs : Bytes) → take (length xs) xs ≡ xs
unfolding take
take-length [] = refl
take-length (x ∷ xs) = ap (λ t. x ∷ t) (take-length xs)

abbrev size_of : ℤ → ℕ
size_of (pos n) = n
size_of (negsuc n) = 0

-- `do_put` behind a successful `fs_mknod`.
do_put_run :
    (host : Host) (outside inside text : Bytes) (sh end : Shell) (s t u : Fs) (path : Bytes)
    (b v : ℕ)
    → host.content outside ≡ some text
    → path_to inside sh s ≡ ran path sh s []
    → fs_mknod host.env path 0o100777 s ≡ ok (pos 0) t
    → sh.blksiz ≡ pos b
    → put_all (length text) path b text 0 (pos 0) sh t ≡ ran (pos v) end u []
    → do_put host outside inside sh s ≡ ran (pos 0) end u []
unfolding do_put
do_put_run host outside inside text sh end s t u path b v there to_path made chunks run =
    rw (do_put, there)
      (and_so _ to_path (
        and_so _ (ap (after_run sh) made) (
          quiet (
            and_so _
              (ap (λ z. put_all (length text) path (size_of z) text 0 (pos 0) sh t) chunks ∙ run)
              refl))))

-- `put` and then `show`, in a mounted file system in which the directories are kept in the maps, of
-- a file of the host with less than 6144 bytes, under a short new name in a directory that has room,
-- with a block size above zero, where the path has room in 128 bytes: `put` returns 0, and `show`
-- prints the bytes of the file, or, if all blocks are in use then, its first bytes. Neither prints
-- anything else, and all paths with short names that led to an inode lead there still.
pub do_put-do_show :
    (host : Host) (outside inside : Bytes) (text : Bytes) (sh : Shell) (b : ℕ) (s : Fs)
    (father i k : ℕ) (dir : Bytes) (c : ℕ) (rest : Bytes)
    → host.content outside ≡ some text
    → length text < 6144
    → sh.blksiz ≡ pos b
    → b ≢ 0
    → length sh.cwd + 1 + length inside < 128
    → path_in sh inside ≡ path_of dir c rest
    → IsPlain (c ∷ rest)
    → IsShort (c ∷ rest)
    → All IsShort (tokens dir)
    → IsMounted s s
    → s.num_of_blocks ≤ s.nblks
    → AreKept s
    → Leads s father true 1 true (tokens dir)
    → Lacks (dir_of s father) (c ∷ rest)
    → HasRoom s father i k
    → (n : ℕ) × (buf buf' : Buffer) × (u : Fs) × (do_put host outside inside sh s
        ≡ ran (pos 0) (record sh { blkbuf = buf }) u [])
      × (do_show inside (record sh { blkbuf = buf }) u
          ≡ ran (pos 0) (record sh { blkbuf = buf' }) u (said (take n text) ∷ []))
      × ((take n text ≡ text) ⊎ AreUsed u.block_map 0 (block_bits s))
      × ((p : Bytes) (m : ℕ)
          → All IsShort (tokens p)
          → translate p s ≡ ok (pos m) s
          → translate p u ≡ ok (pos m) u)
do_put-do_show host outside inside text sh b s father i k dir c rest there small chunks some_room
      fits same plain short toks mounted held kept way lacks room =
    let f : Buffer = λ o. get_or text o 0 in
    let (t, made, found, h, paths) =
      fs_mknod-Stores host.env s 0o100777 father i k dir c rest f plain short toks refl
        (omega arith) mounted held kept way lacks room in
    let put =
      put_all-Puts s (path_of dir c rest) k b f sh (length text) text 0 0 sh.blkbuf some_room
        (omega (arith, room.inode.above)) (omega arith) (omega arith)
        (λ o lt. ap (λ i. get_or text i 0) (omega arith)) found h in
    let u : Fs = put.state in
    let n : ℕ = put.count in
    let none_before : 0 + n ≡ n = omega arith in
    let h' : Stores s u k n f = subst (λ m. Stores s u k m f) none_before put.stores in
    let le : n ≤ length text = put.le in
    let found' : translate (path_in sh inside) u ≡ ok (pos k) u =
      rw same (put.paths (path_of dir c rest) (pos k) found) in
    let (buf', shown) =
      do_show_lem u (record sh { blkbuf = put.buf }) inside k n b fits found'
        (omega (arith, h'.store.inside, h'.store.mounted.sound.sized)) h'.regular h'.size
        (omega arith) (IsWhole-HasBlocks h'.store n (omega arith) h'.whole) chunks some_room in
    let text' : bytes_from u k 0 n ≡ take n text =
      prefix-same n _ f (λ o lt.
        ap (file_byte u k) (omega arith)
        ∙ file_byte-content h'.store n (omega arith) h'.whole o lt
        ∙ h'.bytes o lt)
      ∙ prefix-get_or n text le in
    (
      n,
      put.buf,
      buf',
      u,
      do_put_run host outside inside text sh _ s t u (path_of dir c rest) b put.last there
          (path_to-ok sh s inside fits ∙ ap (λ p. ran p sh s []) same) made chunks put.run,
      shown ∙ ap (λ t. ran (pos 0) (record sh { blkbuf = buf' }) u (said t ∷ [])) text',
      elim put.ends [
        | inl all ↦ inl (ap (λ m. take m text) all ∙ take-length text)
        | inr full ↦ inr full
      ],
      λ p m toks' e. put.paths p (pos m) (paths p m toks' e),
    )
