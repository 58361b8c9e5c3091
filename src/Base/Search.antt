-- ===== src/Base/Search.antt =====
-- Counted scans: the first index that passes a test (a `for` loop that breaks), and the last one
-- (a `for` loop that overwrites its result).
use Prim.Native.Nat.{ℕ, zero, suc, ◌+◌, ◌≤◌, ◌<◌}
use mathlib.Core.Path.{◌≡◌, refl}
use mathlib.Core.Logic.{◌⊎◌, inl, inr}
use mathlib.Core.Bool.{Bool, true, false}
use mathlib.Core.Option.{Option, none, some}
use native.Mathlib.Omega.{arith}
use cs5600_filesystem.Base.Tests.{◌==◌, if◌then◌else◌, Option-cases, Bool-cases}

-- for (k = i; k < i + n; k++) if (p(k)) return k;
unfoldable pub first_index : (n i : ℕ) → (ℕ → Bool) → Option ℕ
first_index zero i p = none
first_index (suc n) i p = let rest = first_index n (i + 1) p in if p i then some i else rest

-- for (k = i; k < i + n; k++) if (p(k)) found = k;
unfoldable pub last_index : (n i : ℕ) → (ℕ → Bool) → Option ℕ → Option ℕ
last_index zero i p found = found
last_index (suc n) i p found = last_index n (i + 1) p (if p i then some i else found)

module _ (p : ℕ → Bool) where
  pub first_index-none : (n i j : ℕ) → first_index n i p ≡ none → i ≤ j → j < i + n → p j ≡ false
  unfolding first_index
  first_index-none zero i j e lo hi = absurd (omega arith)
  first_index-none (suc n) i j e lo hi = ground (arith, first_index-none n (i + 1) j)

  pub first_index-bounds :
      (n i : ℕ) {j : ℕ} → first_index n i p ≡ some j → (i ≤ j) × (j < i + n) × (p j ≡ true)
  unfolding first_index
  first_index-bounds zero i e = cc
  first_index-bounds (suc n) i {j} e = ground (arith, first_index-bounds n (i + 1) {j = j})

  pub first_index-least :
      (n i k : ℕ) {j : ℕ} → first_index n i p ≡ some j → i ≤ k → k < j → p k ≡ false
  unfolding first_index
  first_index-least zero i k e lo hi = cc
  first_index-least (suc n) i k {j} e lo hi = ground (arith, first_index-least n (i + 1) k {j = j})

  -- A scan finds what passes the test.
  pub first_index-finds :
      (n i k : ℕ) → p k ≡ true → i ≤ k → k < i + n → (j : ℕ) × (first_index n i p ≡ some j)
  first_index-finds n i k t lo hi = elim (Option-cases (first_index n i p)) [
    | inl e ↦ absurd (ground (arith, first_index-none n i k e lo hi))
    | inr r ↦ r
  ]

  pub last_index-none :
      (n i j : ℕ) (found : Option ℕ)
      → last_index n i p found ≡ none
      → (found ≡ none) × (i ≤ j → j < i + n → p j ≡ false)
  unfolding last_index
  last_index-none zero i j found e = (e, λ lo hi. absurd (omega arith))
  last_index-none (suc n) i j found e =
      ground (arith, last_index-none n (i + 1) j (if p i then some i else found) e)

  -- What the scan returns was there before, or passes the test and nothing behind it does.
  pub last_index-bounds :
      (n i : ℕ) (found : Option ℕ) {j : ℕ}
      → last_index n i p found ≡ some j
      → (found ≡ some j) ⊎ ((i ≤ j) × (j < i + n) × (p j ≡ true))
  unfolding last_index
  last_index-bounds zero i found e = inl e
  last_index-bounds (suc n) i found e =
      ground (arith, last_index-bounds n (i + 1) (if p i then some i else found) e)

  pub last_index-last :
      (n i k : ℕ) (found : Option ℕ) {j : ℕ}
      → last_index n i p found ≡ some j
      → i ≤ k
      → k < i + n
      → j < k
      → p k ≡ false
  unfolding last_index
  last_index-last zero i k found e lo hi behind = absurd (omega arith)
  last_index-last (suc n) i k found {j = j} e lo hi behind =
      let found' : Option ℕ = if p i then some i else found in
      ground (arith, last_index-last n (i + 1) k found' e, last_index-bounds n (i + 1) found' e)

  pub last_index-keep :
      (n i : ℕ) (found : Option ℕ)
      → ((k : ℕ) → i ≤ k → k < i + n → p k ≡ false)
      → last_index n i p found ≡ found
  unfolding last_index
  last_index-keep zero i found h = refl
  last_index-keep (suc n) i found h =
      rw (h i (omega arith) (omega arith))
        (last_index-keep n (i + 1) found (λ k lo hi. h k (omega arith) (omega arith)))

  -- An index that passes is found, if none behind it passes.
  pub last_index-finds :
      (n i j : ℕ) (found : Option ℕ)
      → i ≤ j
      → j < i + n
      → p j ≡ true
      → ((k : ℕ) → j < k → k < i + n → p k ≡ false)
      → last_index n i p found ≡ some j
  unfolding last_index
  last_index-finds zero i j found lo hi t behind = absurd (omega arith)
  last_index-finds (suc n) i j found lo hi t behind = elim (Bool-cases (i == j)) [
    | inl here ↦
        let e : i ≡ j = ground arith in
        rw (e, t) (last_index-keep n (j + 1) (some j) λ k a b. behind k (omega arith) (omega arith))
    | inr later ↦
        last_index-finds n (i + 1) j (if p i then some i else found) (ground arith) (omega arith) t
          (λ k a b. behind k a (omega arith))
  ]
