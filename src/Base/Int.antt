-- ===== src/Base/Int.antt =====
-- C's `int`: a number or an error code below zero. `negsuc n` is -(n + 1).
use Prim.Native.Nat.{ℕ, suc, ◌-◌, ◌/◌, ◌^◌}
use mathlib.Core.Bool.{Bool, true, false, ◌||◌}
use cs5600_filesystem.Base.Tests.{ltb, ◌==◌, if◌then◌else◌}

pub data ℤ : Type 0 where
  pos : ℕ → ℤ
  negsuc : ℕ → ℤ

abbrev pub ℤ_eq : ℤ → ℤ → Bool
ℤ_eq (pos a) (pos b) = a == b
ℤ_eq (pos a) (negsuc b) = false
ℤ_eq (negsuc a) (pos b) = false
ℤ_eq (negsuc a) (negsuc b) = a == b

-- `x > k` for a number `k`.
abbrev pub exceeds : ℤ → ℕ → Bool
exceeds (pos a) k = ltb k a
exceeds (negsuc a) k = false

-- `x < 0`
abbrev pub is_negative : ℤ → Bool
is_negative (pos a) = false
is_negative (negsuc a) = true

-- `x / k`, which C rounds towards zero.
abbrev pub quot : ℤ → ℕ → ℤ
quot (pos a) k = pos (a / k)
quot (negsuc a) k = if (suc a) / k == 0 then pos 0 else negsuc ((suc a) / k - 1)

-- The `int32_t` with the bit pattern `w`.
abbrev pub signed32 : ℕ → ℤ
signed32 w = if ltb w (2 ^ 31) then pos w else negsuc (2 ^ 32 - w - 1)

-- The negated error numbers of <errno.h> on Linux.
abbrev pub enoent : ℤ
enoent = negsuc 1

abbrev pub eexist : ℤ
eexist = negsuc 16

abbrev pub enotdir : ℤ
enotdir = negsuc 19

abbrev pub eisdir : ℤ
eisdir = negsuc 20

abbrev pub einval : ℤ
einval = negsuc 21

abbrev pub enospc : ℤ
enospc = negsuc 27

abbrev pub enotempty : ℤ
enotempty = negsuc 38

-- The test `inum == -ENOENT || inum == -ENOTDIR` that follows a path translation.
abbrev pub lookup_failed : ℤ → Bool
lookup_failed inum = ℤ_eq inum enoent || ℤ_eq inum enotdir
