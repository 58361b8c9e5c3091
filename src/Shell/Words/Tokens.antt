-- ===== src/Shell/Words/Tokens.antt =====
-- `split` with the delimiter "/" takes a path apart as homework.c does.
use cs5600_filesystem.Base.{
  ℕ, zero, suc, Bool, All, false, true, ◌≡◌, ◌≢◌, refl, sym, ap, ◌∙◌, List, [], ◌∷◌, arith, ◌==◌,
  Bytes, codes, All, Bool-cases, inl, inr,
}
use cs5600_filesystem.Names.{slash, tokens}
use cs5600_filesystem.Names.Tokens.Cons.{
  tokens-nil, tokens-slash_cons, tokens-single, tokens-last, tokens-cons,
}
use cs5600_filesystem.Shell.Words.{words, start, goes_on, take, split}
use cs5600_filesystem.Names.Tokens.{IsPlain}

cons-ne-nil : {c : ℕ} {w : Bytes} → c ∷ w ≢ []
cons-ne-nil = ground arith

words-nil : words (codes "/") [] ≡ []
unfolding words
words-nil = refl

words-slash : (c : ℕ) (s : Bytes) → c ≡ slash → words (codes "/") (c ∷ s) ≡ words (codes "/") s
unfolding words
words-slash c s e = rw e refl

words-single : (c : ℕ) → c ≢ slash → words (codes "/") (c ∷ []) ≡ (c ∷ []) ∷ []
unfolding words
words-single c ne = ground arith

words-last :
    (c : ℕ) (s : Bytes)
    → c ≢ slash
    → words (codes "/") (c ∷ slash ∷ s) ≡ (c ∷ []) ∷ words (codes "/") s
unfolding words
words-last c s ne = ground arith

words-cons :
    (c d : ℕ) (s t : Bytes) (ts : List Bytes)
    → c ≢ slash
    → d ≢ slash
    → words (codes "/") (d ∷ s) ≡ t ∷ ts
    → words (codes "/") (c ∷ d ∷ s) ≡ (c ∷ t) ∷ ts
unfolding words
words-cons c d s t ts ne ne' e = rw e (ground arith)

-- The words of a path between slashes, as the command line of misc.c splits them, are the tokens of
-- the path that homework.c walks along.
pub words-tokens : (s : Bytes) → words (codes "/") s ≡ tokens s
words-tokens [] = words-nil ∙ sym tokens-nil
words-tokens (c ∷ []) = elim (Bool-cases (c == slash)) [
  | inl e ↦
      let at : c ≡ slash = ground arith in
      words-slash c [] at
      ∙ words-nil
      ∙ sym tokens-nil
      ∙ sym (tokens-slash_cons [])
      ∙ ap (λ x. tokens (x ∷ [])) (sym at)
  | inr e ↦ let ne : c ≢ slash = ground arith in words-single c ne ∙ sym (tokens-single c ne)
]
words-tokens (c ∷ d ∷ s) = elim (Bool-cases (c == slash)) [
  | inl e ↦
      let at : c ≡ slash = ground arith in
      words-slash c (d ∷ s) at
      ∙ words-tokens (d ∷ s)
      ∙ sym (tokens-slash_cons (d ∷ s))
      ∙ ap (λ x. tokens (x ∷ d ∷ s)) (sym at)
  | inr e ↦
      let ne : c ≢ slash = ground arith in
      elim (Bool-cases (d == slash)) [
        | inl f ↦
            let at : d ≡ slash = ground arith in
            ap (λ x. words (codes "/") (c ∷ x ∷ s)) at
            ∙ words-last c s ne
            ∙ ap (λ ts. (c ∷ []) ∷ ts)
                (sym (words-slash d s at)
                  ∙ words-tokens (d ∷ s)
                  ∙ ap (λ x. tokens (x ∷ s)) at
                  ∙ tokens-slash_cons s)
            ∙ sym (tokens-last c s ne)
            ∙ ap (λ x. tokens (c ∷ x ∷ s)) (sym at)
        | inr f ↦
            let ne' : d ≢ slash = ground arith in
            let (t, ts, is, whole) = tokens-cons c d s ne ne' in
            words-cons c d s t ts ne ne' (words-tokens (d ∷ s) ∙ is) ∙ sym whole
      ]
]

-- A name is not empty and has no slash.
abbrev pub AreNames : List Bytes → Type 0
AreNames = All (λ name. (name ≢ []) × IsPlain name)

start-AreNames :
    (c : ℕ) (on : Bool) (ws : List Bytes) → c ≢ slash → AreNames ws → AreNames (start c on ws)
unfolding start
start-AreNames c false ws ne h = ((cons-ne-nil, (ne, tt)), h)
start-AreNames c true [] ne h = ((cons-ne-nil, (ne, tt)), tt)
start-AreNames c true (w ∷ ws) ne ((_, plain), h) = ((cons-ne-nil, (ne, plain)), h)

words-AreNames : (s : Bytes) → AreNames (words (codes "/") s)
unfolding words
words-AreNames [] = tt
words-AreNames (c ∷ s) = elim (Bool-cases (c == slash)) [
  | inl e ↦ rw e (words-AreNames s)
  | inr e ↦
      let ne : c ≢ slash = ground arith in
      rw e (start-AreNames c (goes_on (codes "/") s) _ ne (words-AreNames s))
]

take-AreNames : (n : ℕ) (ws : List Bytes) → AreNames ws → AreNames (take n ws)
unfolding take
take-AreNames zero ws h = tt
take-AreNames (suc n) [] h = tt
take-AreNames (suc n) (w ∷ ws) (is, h) = (is, take-AreNames n ws h)

pub split-AreNames : (s : Bytes) (n : ℕ) → AreNames (split s n (codes "/"))
split-AreNames s n = take-AreNames n (words (codes "/") s) (words-AreNames s)
