-- ===== src/Shell/Dirs.antt =====
-- The current directory and the listings: `do_cd`, `do_pwd`, `do_ls0`, `do_ls1` and the two forms of
-- `ls-l`.
use cs5600_filesystem.Base.{
  ◌+◌, ◌&&◌, none, some, List, [], ◌∷◌, ◌++◌, map, ltb, ◌==◌, if◌then◌else◌, Bytes, codes, length,
  bytes_eq, get_or,
}
use cs5600_filesystem.Base.Int.{ℤ, pos}
use cs5600_filesystem.Names.{slash}
use cs5600_filesystem.State.Inode.{Stat, is_dir}
use cs5600_filesystem.Ops.Attr.{fs_readdir, fs_getattr}
use cs5600_filesystem.Shell.{Shell, Act, ran, ◌>>=◌, ◌>>◌, pure, call, say, get_shell, within}
use cs5600_filesystem.Shell.Words.{split, fix_path}
use cs5600_filesystem.Shell.Print.{short_row, long_row, sort_rows, concat}

-- The names of the path, each behind a slash; the last name comes first in the list.
unfoldable pub join : List Bytes → Bytes
join [] = []
join (name ∷ names) = join names ++ slash ∷ name

unfoldable pub update_cwd : Act (Unit {0})
update_cwd = do
  cwd ← get_shell (λ sh. join sh.names)
  within (ltb (length cwd) 128)
  λ sh s. ran tt (record sh { cwd = cwd }) s []

-- `strcpy(paths[depth], names[i])` and `depth++`, for each name: 16 rows of 44 bytes.
unfoldable pub push_names : List Bytes → Act (Unit {0})
push_names [] = pure tt
push_names (name ∷ rest) = do
  depth ← get_shell (λ sh. length sh.names)
  within (ltb depth 16 && ltb (length name) 44)
  (λ sh s. ran tt (record sh { names = name ∷ sh.names }) s [])
  push_names rest

abbrev pub tail : List Bytes → List Bytes
tail [] = []
tail (_ ∷ names) = names

unfoldable pub do_cd : (dir : Bytes) → Act ℤ
do_cd dir = do
  if bytes_eq dir (codes "..")
      then (λ sh s. ran tt (record sh { names = tail sh.names }) s [])
      else do
        (λ sh s.
            ran tt (record sh { names = if get_or dir 0 0 == slash then [] else sh.names }) s [])
        push_names (split dir 10 (codes "/"))
  update_cwd
  pure (pos 0)

unfoldable pub get_cwd : Shell → Bytes
get_cwd sh = elim sh.names [ [] ↦ codes "/" | _ ∷ _ ↦ sh.cwd ]

unfoldable pub do_pwd : Act ℤ
do_pwd = do cwd ← get_shell get_cwd; say (cwd ++ codes "\n"); pure (pos 0)

-- `sprintf(path, "%s/%s", dir, name)` into 128 bytes.
unfoldable pub make_path : (dir name : Bytes) → Act Bytes
make_path dir name = do within (ltb (length dir + 1 + length name) 128); pure (dir ++ slash ∷ name)

-- `sprintf(lsbuf[lsi++], …)` for each row: 64 bytes with the NUL.
unfoldable pub fill : List Bytes → Act (Unit {0})
fill [] = pure tt
fill (row ∷ rows) = do within (ltb (length row) 64); fill rows

unfoldable pub print_ls : List Bytes → Act (Unit {0})
print_ls rows = do fill rows; say (concat (sort_rows rows))

unfoldable pub list_dir : (Bytes × Stat → Bytes) → Bytes → Act ℤ
list_dir row path = do
  (retval, entries) ← call (fs_readdir path)
  print_ls (map row entries)
  pure retval

unfoldable pub do_ls0 : Act ℤ
do_ls0 = do cwd ← get_shell get_cwd; list_dir short_row cwd

unfoldable pub do_ls1 : Bytes → Act ℤ
do_ls1 arg = do
  cwd ← get_shell get_cwd
  path ← make_path cwd arg
  list_dir short_row (fix_path path)

unfoldable pub lsdashl : Bytes → Act ℤ
lsdashl path = do
  (retval, found) ← call (fs_getattr path)
  elim found [
    | none ↦ pure retval
    | some sb ↦
        if is_dir sb.st_mode
        then list_dir long_row path
        else do print_ls (long_row (path, sb) ∷ []); pure (pos 0)
  ]

unfoldable pub do_lsdashl0 : Act ℤ
do_lsdashl0 = do cwd ← get_shell get_cwd; lsdashl cwd

unfoldable pub do_lsdashl1 : Bytes → Act ℤ
do_lsdashl1 arg = do
  cwd ← get_shell (λ sh. sh.cwd)
  path ← make_path cwd arg
  lsdashl (fix_path path)
