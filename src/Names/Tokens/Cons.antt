-- ===== src/Names/Tokens/Cons.antt =====
-- How the tokens of a path come about byte by byte.
use cs5600_filesystem.Base.{ℕ, ◌≡◌, ◌≢◌, refl, false, List, [], ◌∷◌, arith, ◌==◌, Bytes}
use cs5600_filesystem.Names.{slash, drop_empty, tokens}
use cs5600_filesystem.Names.Tokens.{segments-cons}

pub tokens-nil : tokens [] ≡ []
unfolding tokens
tokens-nil = refl

pub tokens-slash_cons : (s : Bytes) → tokens (slash ∷ s) ≡ tokens s
unfolding tokens
tokens-slash_cons s = refl

-- A byte that a slash or the end follows is a token.
pub tokens-single : (c : ℕ) → c ≢ slash → tokens (c ∷ []) ≡ (c ∷ []) ∷ []
unfolding tokens
tokens-single c ne = let e : (c == slash) ≡ false = ground arith in rw e refl

pub tokens-last : (c : ℕ) (s : Bytes) → c ≢ slash → tokens (c ∷ slash ∷ s) ≡ (c ∷ []) ∷ tokens s
unfolding tokens
tokens-last c s ne = let e : (c == slash) ≡ false = ground arith in rw e refl

-- Any other byte goes to the token behind it.
pub tokens-cons :
    (c d : ℕ) (s : Bytes)
    → c ≢ slash
    → d ≢ slash
    → (t : Bytes) × (ts : List Bytes) × (tokens (d ∷ s) ≡ t ∷ ts)
      × (tokens (c ∷ d ∷ s) ≡ (c ∷ t) ∷ ts)
unfolding tokens
tokens-cons c d s ne ne' =
    let (t, ts, e) = segments-cons s in
    let f : (c == slash) ≡ false = ground arith in
    let g : (d == slash) ≡ false = ground arith in
    (d ∷ t, drop_empty ts, rw (g, e) refl, rw (f, g, e) refl)
