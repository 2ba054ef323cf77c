-- ===== src/Base/Bytes.antt =====
-- Facts about single bytes, checked at each of the 256 values.
use Prim.Native.Nat.{ℕ, zero, suc, ◌%◌, ◌<◌, bit_and}
use mathlib.Core.Path.{◌≡◌, refl}
use mathlib.Core.Bool.{Bool, true, ◌&&◌}
use native.Mathlib.Omega.{arith}
use penguin_rs.Base.Tests.{◌==◌, ==_iff}

holds_below : ℕ → (ℕ → Bool) → Bool
holds_below zero test = true
holds_below (suc n) test = test n && holds_below n test

holds_below→true :
    (n : ℕ) (test : ℕ → Bool) (x : ℕ) → x < n → holds_below n test ≡ true → test x ≡ true
unfolding holds_below
holds_below→true zero test x lt h = absurd (omega arith)
holds_below→true (suc n) test x lt h = ground (arith, holds_below→true n test x)

low_half_table : holds_below 256 (λ x. bit_and x 0x0f == x % 16) ≡ true
unfolding holds_below
low_half_table = refl

pub bit_and-low_half : (x : ℕ) → x < 256 → bit_and x 0x0f ≡ x % 16
bit_and-low_half x h = (==_iff _ _).0 (holds_below→true 256 _ x h low_half_table)
