-- ===== src/Shell/Loop.antt =====
-- `cmdloop` of misc.c and its table of commands.
use cs5600_filesystem.Base.{
  ℕ, zero, suc, ◌+◌, Bool, true, false, ◌&&◌, ◌||◌, Option, none, some, List, [], ◌∷◌, ◌++◌, map,
  ◌==◌, if◌then◌else◌, Bytes, codes, length, bytes_eq, get_or,
}
use cs5600_filesystem.Base.Int.{ℤ, pos, ℤ_eq}
use cs5600_filesystem.Shell.{Host, Act, ◌>>=◌, ◌>>◌, pure, stop, say}
use cs5600_filesystem.Shell.Words.{split}
use cs5600_filesystem.Shell.Print.{concat}
use cs5600_filesystem.Shell.Dirs.{
  update_cwd, do_cd, do_pwd, do_ls0, do_ls1, do_lsdashl0, do_lsdashl1,
}
use cs5600_filesystem.Shell.Files.{
  do_chmod, do_rename, do_mkdir, do_rmdir, do_rm, do_put, do_get, do_show, do_statfs, do_blksiz,
}

pub data Name : Type 0 where
  cd pwd ls0 ls1 lsl0 lsl1 chmod rename mkdir rmdir rm put2 put1 get2 get1 show statfs blksiz : Name

pub record Entry : Type 0 where
  pub name : Bytes
  pub nargs : ℕ
  pub f : Name
  pub help : Bytes

abbrev entry : Bytes → ℕ → Name → Bytes → Entry
entry name nargs f help = record { name = name; nargs = nargs; f = f; help = help }

unfoldable pub cmds : List Entry
cmds =
    entry (codes "cd") 1 cd (codes "cd <path> - change directory")
    ∷ entry (codes "pwd") 0 pwd (codes "pwd - display current directory")
    ∷ entry (codes "ls") 0 ls0 (codes "ls - list files in current directory")
    ∷ entry (codes "ls") 1 ls1 (codes "ls <dir> - list specified directory")
    ∷ entry (codes "ls-l") 0 lsl0 (codes "ls-l - display detailed file listing")
    ∷ entry (codes "ls-l") 1 lsl1 (codes "ls-l <file> - display detailed file info")
    ∷ entry (codes "chmod") 2 chmod (codes "chmod <mode> <file> - change permissions")
    ∷ entry (codes "rename") 2 rename (codes "rename <oldname> <newname> - rename file")
    ∷ entry (codes "mkdir") 1 mkdir (codes "mkdir <dir> - create directory")
    ∷ entry (codes "rmdir") 1 rmdir (codes "rmdir <dir> - remove directory")
    ∷ entry (codes "rm") 1 rm (codes "rm <file> - remove file")
    ∷ entry (codes "put") 2 put2
        (codes "put <outside> <inside> - copy a file from localdir into file system")
    ∷ entry (codes "put") 1 put1 (codes "put <name> - ditto, but keep the same name")
    ∷ entry (codes "get") 2 get2
        (codes "get <inside> <outside> - retrieve a file from file system to local directory")
    ∷ entry (codes "get") 1 get1 (codes "get <name> - ditto, but keep the same name")
    ∷ entry (codes "show") 1 show (codes "show <file> - retrieve and print a file")
    ∷ entry (codes "statfs") 0 statfs (codes "statfs - print file system info")
    ∷ entry (codes "blksiz") 1 blksiz (codes "blksiz - set read/write block size")
    ∷ []

-- The function of an entry, with the words behind the name: `argv[0]` and `argv[1]`.
unfoldable pub run_command : Host → Name → (a b : Bytes) → Act ℤ
run_command host cd a b = do_cd a
run_command host pwd a b = do_pwd
run_command host ls0 a b = do_ls0
run_command host ls1 a b = do_ls1 a
run_command host lsl0 a b = do_lsdashl0
run_command host lsl1 a b = do_lsdashl1 a
run_command host chmod a b = do_chmod a b
run_command host rename a b = do_rename a b
run_command host mkdir a b = do_mkdir host a
run_command host rmdir a b = do_rmdir a
run_command host rm a b = do_rm a
run_command host put2 a b = do_put host a b
run_command host put1 a b = do_put host a a
run_command host get2 a b = do_get host a b
run_command host get1 a b = do_get host a a
run_command host show a b = do_show a
run_command host statfs a b = do_statfs
run_command host blksiz a b = do_blksiz a

-- The first entry with the name and the number of arguments.
unfoldable pub find_command : (word : Bytes) → (nargs : ℕ) → List Entry → Option Name
find_command word nargs [] = none
find_command word nargs (e ∷ es) =
    let rest = find_command word nargs es in
    if bytes_eq word e.name && nargs == e.nargs + 1 then some e.f else rest

abbrev pub word_at : List Bytes → ℕ → Bytes
word_at args i = get_or args i []

abbrev report : Host → ℤ → Act (Unit {0})
report host err =
    if ℤ_eq err (pos 0) then pure tt else say (codes "error: " ++ (host.strerror err ++ codes "\n"))

-- One command line, split into words; `false` ends the loop.
unfoldable pub run_words : Host → List Bytes → Act Bool
run_words host [] = pure true
run_words host (word ∷ words) =
    if bytes_eq word (codes "quit") || bytes_eq word (codes "exit")
    then pure false
    else if bytes_eq word (codes "help")
    then (do say (concat (map (λ e. e.help ++ codes "\n") cmds)); pure true)
    else elim (find_command word (length words + 1) cmds) [
      | none ↦ do say (codes "bad command: " ++ (word ++ codes "\n")); pure true
      | some f ↦ do
        err ← run_command host f (word_at words 0) (word_at words 1)
        report host err
        pure true
    ]

unfoldable pub run_line : Host → Bytes → Act Bool
run_line host line = do
  if host.is_terminal then pure tt else say line
  if get_or line 0 0 == b'#' then pure true else run_words host (split line 10 (codes " \t\n"))

-- `fgets(line, 128, stdin)`: at most 127 bytes, up to a newline; what is left of the input.
unfoldable pub fgets : (room : ℕ) → Bytes → Bytes × Bytes
fgets zero input = ([], input)
fgets (suc n) [] = ([], [])
fgets (suc n) (c ∷ input) =
    let (line, rest) = fgets n input in if c == b'\n' then (c ∷ [], input) else (c ∷ line, rest)

-- The loop, on the input that is left; every line takes one byte at least.
unfoldable pub command_loop : (fuel : ℕ) → Host → Bytes → Act (Unit {0})
command_loop zero host input = stop
command_loop (suc k) host input = do
  say (codes "cmd> ")
  elim input [
    | [] ↦ pure tt
    | c ∷ rest ↦ do
      let (line, left) = fgets 127 (c ∷ rest)
      go_on ← run_line host line
      if go_on then command_loop k host left else pure tt
  ]

unfoldable pub cmdloop : Host → Bytes → Act ℤ
cmdloop host input = do update_cwd; command_loop (length input + 1) host input; pure (pos 0)
