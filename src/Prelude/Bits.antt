-- ===== src/Prelude/Bits.antt =====
-- The bitwise operations at variables: `|` of disjoint fields is addition, and a mask is a remainder.
pub mod Mask
use Prim.Native.Nat.{
  ℕ, zero, suc, ◌+◌, ◌*◌, ◌/◌, ◌%◌, ◌^◌, ◌≤◌, ◌<◌, max, bit_or, digits, bit_or-bitwise,
}
use mathlib.Core.Path.{◌≡◌, refl, sym}
use native.Mathlib.Omega.{arith}
use native.Mathlib.Nat.{pow-suc, pow-zero, mul_assoc, add-zero, add-suc}

-- Bit `k` of a word.
abbrev pub shr : ℕ → ℕ → ℕ
shr x k = x / 2 ^ k

abbrev or_digits : ℕ → ℕ → ℕ → ℕ
or_digits n a b = digits (λ b. b) max n a b

or_digits_fuel : (n m a b : ℕ) → a ≤ n → a ≤ m → or_digits n a b ≡ or_digits m a b
or_digits_fuel zero zero a b p q = refl
or_digits_fuel zero (suc m) zero b p q = refl
or_digits_fuel zero (suc m) (suc a) b p q = absurd (omega arith)
or_digits_fuel (suc n) zero zero b p q = refl
or_digits_fuel (suc n) zero (suc a) b p q = absurd (omega arith)
or_digits_fuel (suc n) (suc m) zero b p q = refl
or_digits_fuel (suc n) (suc m) (suc a) b p q =
    omega (arith, or_digits_fuel n m (suc a / 2) (b / 2) (omega arith) (omega arith))

pub zero-bit_or : (b : ℕ) → bit_or 0 b ≡ b
zero-bit_or b = bit_or-bitwise 0 b

pub bit_or_step : (a b : ℕ) → bit_or a b ≡ bit_or (a / 2) (b / 2) * 2 + max (a % 2) (b % 2)
bit_or_step zero b = omega (arith, zero-bit_or b, zero-bit_or (b / 2))
bit_or_step (suc a) b = omega (
  arith,
  bit_or-bitwise (suc a) b,
  bit_or-bitwise (suc a / 2) (b / 2),
  or_digits_fuel a (suc a / 2) (suc a / 2) (b / 2) (omega arith) (omega arith),
)

bit_or-double : (a x : ℕ) → bit_or a (x * 2) ≡ bit_or (a / 2) x * 2 + a % 2
bit_or-double a x =
    let e : x * 2 / 2 ≡ x = omega arith in omega (arith, rw e at (bit_or_step a (x * 2)))

-- Fields that do not overlap: the low one is below 2 ^ k, the high one a multiple of it.
pub bit_or-disjoint : (k a b : ℕ) → a < 2 ^ k → bit_or a (b * 2 ^ k) ≡ a + b * 2 ^ k
bit_or-disjoint zero a b h =
    let e : a ≡ 0 = omega arith in rw e (omega (arith, zero-bit_or (b * 2 ^ 0)))
bit_or-disjoint (suc k) a b h =
    let e : b * 2 ^ suc k ≡ b * 2 ^ k * 2 = rw pow-suc (sym (mul_assoc b (2 ^ k) 2)) in
    let half : a / 2 < 2 ^ k = omega (arith, pow-suc 2 k) in
    rw e (omega (arith, bit_or-double a (b * 2 ^ k), bit_or-disjoint k (a / 2) b half))

pub pow-add : (a b : ℕ) → 2 ^ (a + b) ≡ 2 ^ a * 2 ^ b
pow-add a zero = simp (add-zero, pow-zero) (omega arith)
pow-add a (suc b) =
    rw (add-suc a b)
      (rw (pow-suc 2 (a + b)) (rw (pow-suc 2 b) (rw (pow-add a b) (mul_assoc (2 ^ a) (2 ^ b) 2))))

-- `byte | 0x80` on seven bits.
pub bit_or_high : (b : ℕ) → b < 128 → bit_or b 128 ≡ b + 128
bit_or_high b h = bit_or-disjoint 7 b 1 h

-- `|` keeps to the width of its operands.
pub bit_or-lt : (k a b : ℕ) → a < 2 ^ k → b < 2 ^ k → bit_or a b < 2 ^ k
bit_or-lt zero a b h g = let e : a ≡ 0 = omega arith in rw e (omega (arith, zero-bit_or b))
bit_or-lt (suc k) a b h g =
    let p = pow-suc 2 k in
    omega (arith, bit_or_step a b, bit_or-lt k (a / 2) (b / 2) (omega arith) (omega arith))
