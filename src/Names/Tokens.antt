-- ===== src/Names/Tokens.antt =====
-- How the path functions of homework.c take a path apart: its tokens, its father and its name.
pub mod Cons
use mathlib.Core.List.{reverse-append, reverse-reverse, append_assoc, append-nil}
use cs5600_filesystem.Base.{
  ℕ, ◌≡◌, ◌≢◌, refl, ap, ◌∙◌, some, List, [], ◌∷◌, ◌++◌, reverse, arith, ◌==◌, Bytes, All,
  Bool-cases, inl, inr,
}
use cs5600_filesystem.Names.{
  slash, add_byte, segments, drop_empty, tokens, drop_slashes, to_slash, before_slash, non_empty,
  named, trancate_path, get_name,
}

-- A byte string with no slash.
abbrev pub IsPlain : Bytes → Type 0
IsPlain = All (λ c. c ≢ slash)

All-append {ℓ} : (P : ℕ → Type ℓ) (xs ys : Bytes) → All P xs → All P ys → All P (xs ++ ys)
All-append P [] ys h k = k
All-append P (x ∷ xs) ys h k = (h.0, All-append P xs ys h.1 k)

reverse-IsPlain : (xs : Bytes) → IsPlain xs → IsPlain (reverse xs)
reverse-IsPlain [] h = tt
reverse-IsPlain (x ∷ xs) h =
    rw (reverse-append (x ∷ []) xs)
      (All-append _ (reverse xs) (x ∷ []) (reverse-IsPlain xs h.1) (h.0, tt))

to_slash-append : (r d : Bytes) → IsPlain r → to_slash (r ++ slash ∷ d) ≡ slash ∷ d
unfolding to_slash
to_slash-append [] d h = refl
to_slash-append (c ∷ r) d h = ground (arith, to_slash-append r d h.1)

before_slash-append : (r d : Bytes) → IsPlain r → before_slash (r ++ slash ∷ d) ≡ r
unfolding before_slash
before_slash-append [] d h = refl
before_slash-append (c ∷ r) d h = ground (arith, before_slash-append r d h.1)

-- `segments` never returns the empty list.
segments-cons : (s : Bytes) → (t : Bytes) × (ts : List Bytes) × (segments s ≡ t ∷ ts)
unfolding segments add_byte
segments-cons [] = ([], [], refl)
segments-cons (c ∷ s) =
    let (t, ts, e) = segments-cons s in
    elim (Bool-cases (c == slash)) [
      | inl h ↦ ([], segments s, rw h)
      | inr h ↦ (c ∷ t, ts, rw (h, e))
    ]

add_byte-append :
    (c : ℕ) (ss ts : List Bytes) → ss ≢ [] → add_byte c (ss ++ ts) ≡ add_byte c ss ++ ts
unfolding add_byte
add_byte-append c [] ts h = absurd (h refl)
add_byte-append c (s ∷ ss) ts h = refl

segments-append : (xs ys : Bytes) → segments (xs ++ slash ∷ ys) ≡ segments xs ++ segments ys
unfolding segments
segments-append [] ys = refl
segments-append (c ∷ xs) ys =
    let (t, ts, e) = segments-cons xs in
    ground (arith, segments-append xs ys, add_byte-append c (segments xs) (segments ys))

segments-IsPlain : (xs : Bytes) → IsPlain xs → segments xs ≡ xs ∷ []
unfolding segments add_byte
segments-IsPlain [] h = refl
segments-IsPlain (c ∷ xs) h = ground (arith, segments-IsPlain xs h.1)

drop_empty-append : (ss ts : List Bytes) → drop_empty (ss ++ ts) ≡ drop_empty ss ++ drop_empty ts
unfolding drop_empty
drop_empty-append [] ts = refl
drop_empty-append ([] ∷ ss) ts = drop_empty-append ss ts
drop_empty-append ((c ∷ s) ∷ ss) ts = ap (λ l. (c ∷ s) ∷ l) (drop_empty-append ss ts)

-- A slash separates tokens.
pub tokens-append : (xs ys : Bytes) → tokens (xs ++ slash ∷ ys) ≡ tokens xs ++ tokens ys
unfolding tokens
tokens-append xs ys = rw (segments-append xs ys) (drop_empty-append (segments xs) (segments ys))

pub tokens-IsPlain :
    (c : ℕ) (name : Bytes) → IsPlain (c ∷ name) → tokens (c ∷ name) ≡ (c ∷ name) ∷ []
unfolding tokens
tokens-IsPlain c name h = rw (segments-IsPlain (c ∷ name) h)

drop_slashes-append : (r d : Bytes) → IsPlain r → r ≢ [] → drop_slashes (r ++ d) ≡ r ++ d
unfolding drop_slashes
drop_slashes-append [] d h ne = absurd (ne refl)
drop_slashes-append (c ∷ r) d h ne = ground arith

reverse-path :
    (dir name : Bytes) → reverse (dir ++ slash ∷ name) ≡ reverse name ++ slash ∷ reverse dir
reverse-path dir name =
    rw (reverse-append dir (slash ∷ name), reverse-append (slash ∷ []) name)
      (append_assoc (reverse name) (slash ∷ []) (reverse dir))

reverse-ne-nil : (c : ℕ) (xs : Bytes) → reverse (c ∷ xs) ≢ []
reverse-ne-nil c xs e = cc (reverse-reverse (c ∷ xs), ap reverse e)

-- A path whose last slash is followed by the name `c ∷ rest`.
abbrev pub path_of : Bytes → ℕ → Bytes → Bytes
path_of dir c rest = dir ++ slash ∷ c ∷ rest

module _ (dir : Bytes) (c : ℕ) (rest : Bytes) (plain : IsPlain (c ∷ rest)) where
  pub trancate_path-path : trancate_path (path_of dir c rest) ≡ some (dir ++ slash ∷ [])
  unfolding trancate_path non_empty
  trancate_path-path =
      let r : IsPlain (reverse (c ∷ rest)) = reverse-IsPlain (c ∷ rest) plain in
      rw
        (
          reverse-path dir (c ∷ rest),
          drop_slashes-append (reverse (c ∷ rest)) (slash ∷ reverse dir) r (reverse-ne-nil c rest),
          to_slash-append (reverse (c ∷ rest)) (reverse dir) r,
        )
        (ap some (
          reverse-append (slash ∷ []) (reverse dir)
          ∙ ap (λ d. d ++ slash ∷ []) (reverse-reverse dir)))

  pub get_name-path : get_name (path_of dir c rest) ≡ some (c ∷ rest)
  unfolding get_name named
  get_name-path =
      let r : IsPlain (reverse (c ∷ rest)) = reverse-IsPlain (c ∷ rest) plain in
      rw
        (
          reverse-path dir (c ∷ rest),
          before_slash-append (reverse (c ∷ rest)) (reverse dir) r,
          to_slash-append (reverse (c ∷ rest)) (reverse dir) r,
        )
        (ap some (reverse-reverse (c ∷ rest)))

  pub tokens-path : tokens (path_of dir c rest) ≡ tokens dir ++ (c ∷ rest) ∷ []
  tokens-path = rw (tokens-append dir (c ∷ rest), tokens-IsPlain c rest plain)

pub tokens-slash : (dir : Bytes) → tokens (dir ++ slash ∷ []) ≡ tokens dir
unfolding tokens
tokens-slash dir = tokens-append dir [] ∙ append-nil (tokens dir)

-- For a path whose last slash is followed by a name: `trancate_path` returns what comes up to that
-- slash, `get_name` the name, and the tokens of the path are those of the father and then the name.
pub trancate_path-get_name :
    (dir : Bytes) (c : ℕ) (rest : Bytes)
    → IsPlain (c ∷ rest)
    → (trancate_path (path_of dir c rest) ≡ some (dir ++ slash ∷ []))
      × (get_name (path_of dir c rest) ≡ some (c ∷ rest))
      × (tokens (path_of dir c rest) ≡ tokens (dir ++ slash ∷ []) ++ (c ∷ rest) ∷ [])
trancate_path-get_name dir c rest plain = (
  trancate_path-path dir c rest plain,
  get_name-path dir c rest plain,
  rw (tokens-slash dir) (tokens-path dir c rest plain),
)
