-- ===== src/Shell/Put.antt =====
-- `do_put`: the loop of writes over a file of the host.
pub mod Shown
use Prim.Native.Nat.{min}
use cs5600_filesystem.Base.{
  ℕ, zero, suc, ◌+◌, ◌-◌, ◌^◌, ◌≤◌, ◌<◌, ◌≡◌, ◌≢◌, refl, ap, ◌∙◌, subst, true, false, ◌⊎◌, inl, inr,
  List, [], ◌∷◌, Option, some, All, Bytes, arith, length, get_or, ◌==◌, Bool-cases,
}
use cs5600_filesystem.Base.Int.{ℤ, pos, negsuc}
use cs5600_filesystem.Memory.{copy_bytes}
use cs5600_filesystem.Names.{tokens}
use cs5600_filesystem.Names.Tokens.{IsPlain, path_of}
use cs5600_filesystem.State.{Fs, ok}
use cs5600_filesystem.State.Alloc.{AreUsed, block_bits}
use cs5600_filesystem.Mount.{IsMounted}
use cs5600_filesystem.Tree.{translate}
use cs5600_filesystem.Tree.Entries.{IsShort}
use cs5600_filesystem.Tree.Lookup.{Lacks, dir_of}
use cs5600_filesystem.Tree.Leads.{Leads}
use cs5600_filesystem.Ops.Create.{fs_mknod}
use cs5600_filesystem.Ops.Mknod.{HasRoom}
use cs5600_filesystem.Ops.Read.{Buffer}
use cs5600_filesystem.Ops.Write.{fs_write}
use cs5600_filesystem.Ops.Content.{file_byte}
use cs5600_filesystem.Ops.Extend.Back.{IsWhole-HasBlocks, file_byte-content}
use cs5600_filesystem.Ops.Extend.Chunks.{Stores, fs_write-Stores}
use cs5600_filesystem.Ops.Extend.New.{AreKept, fs_mknod-Stores}
use cs5600_filesystem.Shell.{Shell, Host, Ran, ran, said, after_run}
use cs5600_filesystem.Shell.Words.{take}
use cs5600_filesystem.Shell.Files.{path_to, drop, prefix, put_all, do_put, do_show}
use cs5600_filesystem.Shell.Steps.{and_so, quiet, path_in, path_to-ok}
use cs5600_filesystem.Shell.Show.{bytes_from, prefix-same, do_show_lem}

length-drop : (n : ℕ) (xs : Bytes) → length (drop n xs) ≡ length xs - n
unfolding drop
length-drop zero xs = omega arith
length-drop (suc n) [] = omega arith
length-drop (suc n) (x ∷ xs) = length-drop n xs ∙ omega arith

get_or-drop : (n o : ℕ) (xs : Bytes) → get_or (drop n xs) o 0 ≡ get_or xs (n + o) 0
unfolding drop
get_or-drop zero o xs = ap (λ i. get_or xs i 0) (omega arith)
get_or-drop (suc n) o [] = refl
get_or-drop (suc n) o (x ∷ xs) =
    get_or-drop n o xs ∙ ap (λ i. get_or (x ∷ xs) i 0) {x = suc (n + o)} (omega arith)

module _ (g : Fs) (path : Bytes) (inum b : ℕ) (f : Buffer) (sh : Shell) where
  -- How the loop ends, from the state `t` on, where `at` bytes are written and `len` are left.
  pub record Puts (t : Fs) (at len : ℕ) (r : Ran ℤ) : Type 0 where
    pub count : ℕ
    pub state : Fs
    pub buf : Buffer
    pub last : ℕ
    pub run : r ≡ ran (pos last) (record sh { blkbuf = buf }) state []
    pub le : count ≤ len
    pub ends : (count ≡ len) ⊎ AreUsed state.block_map 0 (block_bits g)
    pub stores : Stores g state inum (at + count) f
    pub paths : (p : Bytes) (r : ℤ) → translate p t ≡ ok r t → translate p state ≡ ok r state

  abbrev with_buffer : Buffer → Shell
  with_buffer buf = record sh { blkbuf = buf }

  -- What a round reads of the bytes that are left, and the buffer that it writes.
  abbrev read_len : Bytes → ℕ
  read_len left = min b (length left)

  abbrev refilled : Buffer → Bytes → Buffer
  refilled buf left = copy_bytes buf 0 (read_len left) (λ i. get_or left i 0)

  Puts-none :
      {t : Fs} {at : ℕ} (left : Bytes) (v : ℕ) (buf : Buffer) {r : Ran ℤ}
      → length left ≡ 0
      → Stores g t inum at f
      → r ≡ ran (pos v) (with_buffer buf) t []
      → Puts t at (length left) r
  Puts-none {t} {at} left v buf empty h run = record {
    count = 0;
    state = t;
    buf = buf;
    last = v;
    run = run;
    le = omega arith;
    ends = inl (omega (arith, empty));
    stores = let place : at ≡ at + 0 = omega arith in subst (λ n. Stores g t inum n f) place h;
    paths = λ p r e. e;
  }

  put_short :
      (k at v n : ℕ) (left : Bytes) (buf : Buffer) (t : Fs) {u : Fs}
      → (read_len left == 0) ≡ false
      → fs_write path (read_len left) at (refilled buf left) t ≡ ok (pos n) u
      → (n == read_len left) ≡ false
      → put_all (suc k) path b left at (pos v) (with_buffer buf) t
        ≡ ran (pos n) (with_buffer (refilled buf left)) u []
  unfolding put_all
  put_short k at v n left buf t some_left run differ =
      rw some_left (quiet (quiet (and_so _ (ap (after_run _) run) (rw differ refl))))

  Puts-round :
      (k at v n : ℕ) (left : Bytes) (buf : Buffer) (t u : Fs)
      → (read_len left == 0) ≡ false
      → fs_write path (read_len left) at (refilled buf left) t ≡ ok (pos n) u
      → (n == read_len left) ≡ true
      → ((p : Bytes) (r : ℤ) → translate p t ≡ ok r t → translate p u ≡ ok r u)
      → Puts u (at + read_len left) (length (drop (read_len left) left)) (
          put_all k path b
            (drop (read_len left) left)
            (at + read_len left)
            (pos n)
            (with_buffer (refilled buf left))
            u)
      → Puts t at (length left) (put_all (suc k) path b left at (pos v) (with_buffer buf) t)
  unfolding put_all
  Puts-round k at v n left buf t u some_left run equal paths rest =
      let left' = length-drop (read_len left) left in
      record {
        count = read_len left + rest.count;
        state = rest.state;
        buf = rest.buf;
        last = rest.last;
        run = rw some_left (quiet (quiet (and_so _ (ap (after_run _) run) (rw equal rest.run))));
        le = omega (arith, rest.le, left');
        ends = elim rest.ends [ inl done ↦ inl (omega (arith, done, left')) | inr full ↦ inr full ];
        stores =
            let place : at + read_len left + rest.count ≡ at + (read_len left + rest.count) =
              omega arith in
            subst (λ m. Stores g rest.state inum m f) place rest.stores;
        paths = λ p r e. rest.paths p r (paths p r e);
      }

  refilled-byte :
      (buf : Buffer) (left : Bytes) (o : ℕ)
      → o < read_len left
      → refilled buf left o ≡ get_or left o 0
  unfolding copy_bytes
  refilled-byte buf left o lt = ground arith

  pub put_all-Puts :
      (fuel : ℕ) (left : Bytes) (at v : ℕ) (buf : Buffer) {t : Fs}
      → b ≢ 0
      → inum ≢ 0
      → length left ≤ fuel
      → at + length left < 6144
      → ((o : ℕ) → o < length left → get_or left o 0 ≡ f (at + o))
      → translate path t ≡ ok (pos inum) t
      → Stores g t inum at f
      → Puts t at (length left) (put_all fuel path b left at (pos v) (with_buffer buf) t)
  unfolding put_all
  put_all-Puts zero left at v buf {t} some_room ne enough before same found h =
      Puts-none left v buf (omega arith) h refl
  put_all-Puts (suc k) left at v buf {t} some_room ne enough before same found h =
      let len : ℕ = read_len left in
      elim (Bool-cases (len == 0)) [
        | inl e ↦ Puts-none left v buf (ground arith) h (rw e refl)
        | inr e ↦
            let (n, u, run, le, ends, h', paths) =
              fs_write-Stores path len at (refilled buf left) f inum h found ne (omega arith)
                λ o lt. refilled-byte buf left o lt ∙ same o (omega arith) in
            elim (Bool-cases (n == len)) [
              | inl equal ↦
                  let all : n ≡ len = ground arith in
                  let left' = length-drop len left in
                  let h'' : Stores g u inum (at + len) f = rw all at h' in
                  let rest =
                    put_all-Puts k (drop len left) (at + len) n (refilled buf left) some_room ne
                      (ground arith) (omega (arith, left'))
                      (λ o lt.
                        get_or-drop len o left
                        ∙ same (len + o) (omega (arith, left', lt))
                        ∙ ap f (omega arith))
                      (paths path (pos inum) found) h'' in
                  Puts-round k at v n left buf t u e run equal paths rest
              | inr differ ↦ record {
                count = n;
                state = u;
                buf = refilled buf left;
                last = n;
                run = put_short k at v n left buf t e run differ;
                le = omega arith;
                ends = elim ends [ inl all ↦ absurd (ground arith) | inr full ↦ inr full ];
                stores = h';
                paths = paths;
              }
            ]
      ]
