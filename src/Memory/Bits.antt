-- ===== src/Memory/Bits.antt =====
-- Bit sets, as FD_SET, FD_CLR and FD_ISSET of <sys/select.h> lay them out: bit `i % 8` of byte
-- `i / 8`.
use cs5600_filesystem.Base.{
  ℕ, zero, suc, ◌+◌, ◌*◌, ◌/◌, ◌%◌, ◌≡◌, Bool, true, false, ◌&&◌, arith, ◌==◌, if◌then◌else◌,
}
use cs5600_filesystem.Memory.Words.{Area}

-- `b & (1 << k)`, `b | (1 << k)` and `b & ~(1 << k)`, digit by digit.
unfoldable pub bit_of : ℕ → ℕ → Bool
bit_of zero b = b % 2 == 1
bit_of (suc k) b = bit_of k (b / 2)

unfoldable pub put_bit : Bool → ℕ → ℕ → ℕ
put_bit v zero b = 2 * (b / 2) + (if v then 1 else 0)
put_bit v (suc k) b = 2 * put_bit v k (b / 2) + b % 2

unfoldable pub fd_isset : ℕ → Area → Bool
fd_isset i m = bit_of (i % 8) (m (i / 8192) (i / 8 % 1024))

unfoldable pub fd_put : Bool → ℕ → Area → Area
fd_put v i m k o = if k == i / 8192 && o == i / 8 % 1024 then put_bit v (i % 8) (m k o) else m k o

unfoldable pub fd_set : ℕ → Area → Area
fd_set = fd_put true

unfoldable pub fd_clr : ℕ → Area → Area
fd_clr = fd_put false

bit_of-put_bit :
    (v : Bool) (j k b : ℕ) → bit_of j (put_bit v k b) ≡ (if j == k then v else bit_of j b)
unfolding bit_of put_bit
bit_of-put_bit v zero zero b = ground arith
bit_of-put_bit v zero (suc k) b = ground arith
bit_of-put_bit v (suc j) zero b = ground arith
bit_of-put_bit v (suc j) (suc k) b = ground (arith, bit_of-put_bit v j k (b / 2))

fd_isset-fd_put :
    (v : Bool) (i j : ℕ) (m : Area)
    → fd_isset j (fd_put v i m) ≡ (if j == i then v else fd_isset j m)
unfolding fd_put fd_isset
fd_isset-fd_put v i j m =
    ground (arith, bit_of-put_bit v (j % 8) (i % 8) (m (j / 8192) (j / 8 % 1024)))

-- FD_SET puts one number into the set, and leaves the others as they are.
pub fd_isset-fd_set :
    (i j : ℕ) (m : Area) → fd_isset j (fd_set i m) ≡ (if j == i then true else fd_isset j m)
unfolding fd_set
fd_isset-fd_set = fd_isset-fd_put true

-- FD_CLR takes one number out of the set, and leaves the others as they are.
pub fd_isset-fd_clr :
    (i j : ℕ) (m : Area) → fd_isset j (fd_clr i m) ≡ (if j == i then false else fd_isset j m)
unfolding fd_clr
fd_isset-fd_clr = fd_isset-fd_put false
