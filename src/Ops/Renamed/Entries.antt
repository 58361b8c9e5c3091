-- ===== src/Ops/Renamed/Entries.antt =====
-- `rename_entries` in a directory where one entry has the name.
use cs5600_filesystem.Base.{
  ℕ, zero, suc, ◌+◌, ◌*◌, ◌≤◌, ◌<◌, ◌≡◌, ◌≢◌, refl, ap, ◌∙◌, true, false, ◌&&◌, arith, Bytes,
  length, ltb, ◌==◌, Bool-cases, inl, inr,
}
use cs5600_filesystem.Memory.{Block}
use cs5600_filesystem.State.{Fs, ok}
use cs5600_filesystem.State.Post.{after, put_disk, write_block-ok}
use cs5600_filesystem.Tree.{matches}
use cs5600_filesystem.Tree.Dirent.{dir_valid, dir_name_is}
use cs5600_filesystem.Ops.Rename.{put_name, rename_entries}

-- `rename_entries` where no entry is left to be renamed, and where just the entry `i` is.
module _ (b : ℕ) (src dst : Bytes) where
  rename_entries-none :
      (s : Fs) (n j : ℕ) (dir : Block)
      → ((k : ℕ) → j ≤ k → k < j + n → matches dir src k ≡ false)
      → rename_entries n j b src dst dir s ≡ ok tt s
  unfolding rename_entries matches
  rename_entries-none s zero j dir none_named = refl
  rename_entries-none s (suc n) j dir none_named =
      let no : (dir_valid dir j && dir_name_is dir j src) ≡ false = ground (arith, none_named j) in
      rw (no, rename_entries)
        (rename_entries-none s n (j + 1) dir (λ k lo hi. none_named k (omega arith) (omega arith)))

  pub rename_entries-one :
      (s : Fs) (n j i : ℕ) (dir : Block)
      → j ≤ i
      → i < j + n
      → i < 32
      → b ≢ 0
      → b + 1 ≤ s.nblks
      → length dst < 28
      → matches dir src i ≡ true
      → ((k : ℕ) → j ≤ k → k < j + n → matches dir src k ≡ true → k ≡ i)
      → ((k : ℕ) → i < k → k < j + n → matches (put_name dir i dst) src k ≡ false)
      → rename_entries n j b src dst dir s ≡ ok tt (put_disk s b (put_name dir i dst))
  unfolding rename_entries matches
  rename_entries-one s zero j i dir lo hi in_block ne on_disk fits named only behind =
      absurd (omega arith)
  rename_entries-one s (suc n) j i dir lo hi in_block ne on_disk fits named only behind =
      elim (Bool-cases (j == i)) [
        | inl e ↦
            let here : j ≡ i = ground arith in
            let yes : (dir_valid dir j && dir_name_is dir j src) ≡ true = ground (arith, named) in
            let inside : ltb (32 * j + 4 + length dst) 1024 ≡ true = ground arith in
            let t : Fs = put_disk s b (put_name dir j dst) in
            let rest : rename_entries n (j + 1) b src dst (put_name dir j dst) t ≡ ok tt t =
              rename_entries-none t n (j + 1) (put_name dir j dst)
                (λ k lo' hi'. rw here (behind k (omega arith) (omega arith))) in
            rw (yes, rename_entries)
              (rw inside (
                after _ (write_block-ok s b (put_name dir j dst) ne on_disk)
                  (rest ∙ ap (λ i. ok tt (put_disk s b (put_name dir i dst))) here)))
        | inr e ↦
            let no : (dir_valid dir j && dir_name_is dir j src) ≡ false = ground (arith, only j) in
            rw (no, rename_entries)
              (rename_entries-one s n (j + 1) i dir (ground arith) (omega arith) in_block ne on_disk
                fits named (λ k lo' hi'. only k (omega arith) (omega arith))
                (λ k lo' hi'. behind k lo' (omega arith)))
      ]
