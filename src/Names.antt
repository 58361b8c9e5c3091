-- ===== src/Names.antt =====
-- Path strings: `strtok` with the delimiter "/", `trancate_path`, `get_name` and `strip`.
-- A path is the list of its bytes before the NUL.
pub mod Tokens
use cs5600_filesystem.Base.{
  ℕ, ◌≡◌, Bool, not, Option, none, some, List, [], ◌∷◌, ◌++◌, reverse, arith, ◌==◌, if◌then◌else◌,
  Bytes,
}

abbrev pub slash : ℕ
slash = b'/'

-- The stretches between slashes, the empty ones too.
add_byte : ℕ → List Bytes → List Bytes
add_byte c [] = (c ∷ []) ∷ []
add_byte c (t ∷ ts) = (c ∷ t) ∷ ts

segments : Bytes → List Bytes
segments [] = [] ∷ []
segments (c ∷ s) = let rest = segments s in if c == slash then [] ∷ rest else add_byte c rest

drop_empty : List Bytes → List Bytes
drop_empty [] = []
drop_empty ([] ∷ ts) = drop_empty ts
drop_empty ((c ∷ t) ∷ ts) = (c ∷ t) ∷ drop_empty ts

-- What the calls `strtok(_path, "/")`, `strtok(NULL, "/")`, … return until NULL.
unfoldable pub tokens : Bytes → List Bytes
unfolding segments add_byte drop_empty
tokens path = drop_empty (segments path)

-- The loops of the path functions run over the path from its end: here, over its reverse.
drop_slashes : Bytes → Bytes
drop_slashes [] = []
drop_slashes (c ∷ s) = if c == slash then drop_slashes s else c ∷ s

to_slash : Bytes → Bytes
to_slash [] = []
to_slash (c ∷ s) = if c == slash then c ∷ s else to_slash s

before_slash : Bytes → Bytes
before_slash [] = []
before_slash (c ∷ s) = if c == slash then [] else c ∷ before_slash s

non_empty : Bytes → Option Bytes
non_empty [] = none
non_empty (c ∷ s) = some (reverse (c ∷ s))

-- The path up to the slash before its last token, that slash included; `none` for the result 0.
unfoldable pub trancate_path : Bytes → Option Bytes
unfolding drop_slashes to_slash non_empty
trancate_path path = non_empty (to_slash (drop_slashes (reverse path)))

named : Bytes → Bytes → Option Bytes
named [] name = none
named (_ ∷ _) name = some (reverse name)

-- What stands behind the last slash; `none` for the address before the string that the code
-- computes where there is no slash.
unfoldable pub get_name : Bytes → Option Bytes
unfolding to_slash before_slash named
get_name path = named (to_slash (reverse path)) (before_slash (reverse path))

drop_slash : Bytes → Bytes
drop_slash [] = []
drop_slash (c ∷ s) = if c == slash then s else c ∷ s

-- One slash at the end is taken off.
unfoldable pub strip : Bytes → Bytes
unfolding drop_slash
strip path = reverse (drop_slash (reverse path))
