-- ===== src/Prelude/Bits.antt =====
-- `byte |= 0x80u` as arithmetic. A mask of low ones, `x & 0x7F`, is written `x % 128` in the model.
use Prim.Native.Nat.{ℕ, zero, suc, ◌+◌, ◌<◌, bit_or}
use mathlib.Core.Path.{◌≡◌, refl}
use mathlib.Core.Bool.{Bool, true, false}
use native.Mathlib.Omega.{arith}
use embarch_outpost.Prelude.Tests.{◌==◌, if◌then◌else◌}

-- The two functions agree on every number below the bound.
same_below : (f g : ℕ → ℕ) → ℕ → Bool
same_below f g zero = true
same_below f g (suc k) = if f k == g k then same_below f g k else false

same_below→eq : (f g : ℕ → ℕ) (k x : ℕ) → x < k → same_below f g k ≡ true → f x ≡ g x
unfolding same_below
same_below→eq f g zero x lt h = absurd (omega arith)
same_below→eq f g (suc k) x lt h = ground (arith, same_below→eq f g k x)

pub bit_or-top : (x : ℕ) → x < 128 → bit_or x 0x80 ≡ x + 128
unfolding same_below
bit_or-top x lt = same_below→eq (λ b. bit_or b 0x80) (λ b. b + 128) 128 x lt refl
