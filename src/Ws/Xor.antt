-- ===== src/Ws/Xor.antt =====
-- Masking a byte twice gives it back.
use Prim.Native.Nat.{bit_xor}
use sekur_ircd.Base.{ℕ, zero, suc, ◌≡◌, ◌<◌, refl, Bool, true, ◌&&◌, ◌==◌, ==→eq, arith}

check_below : ℕ → (ℕ → Bool) → Bool
check_below zero p = true
check_below (suc n) p = p n && check_below n p

below_all : (n : ℕ) (p : ℕ → Bool) (x : ℕ) → check_below n p ≡ true → x < n → p x ≡ true
unfolding check_below
below_all zero p x h lt = absurd (omega arith)
below_all (suc n) p x h lt = ground (arith, below_all n p x)

masks_ok : ℕ → Bool
unfolding check_below
masks_ok x = check_below 256 (λ m. bit_xor (bit_xor x m) m == x)

xor_table : check_below 256 masks_ok ≡ true
unfolding check_below masks_ok
xor_table = refl

pub bit_xor_twice : (x m : ℕ) → x < 256 → m < 256 → bit_xor (bit_xor x m) m ≡ x
unfolding masks_ok
bit_xor_twice x m h k =
    ==→eq _ x
      (below_all 256 (λ m. bit_xor (bit_xor x m) m == x) m (below_all 256 masks_ok x xor_table h) k)
