-- ===== src/Prelude/Bits/Mask.antt =====
-- `&` with a mask whose low bits are off: `x & !(2^k - 1)` is the multiple of 2^k at or below x.
use Prim.Native.Nat.{
  ℕ, zero, suc, ◌+◌, ◌-◌, ◌*◌, ◌/◌, ◌%◌, ◌^◌, ◌≤◌, ◌<◌, min, bit_and, digits, bit_and-bitwise,
}
use mathlib.Core.Path.{◌≡◌, sym, ap, ◌∙◌}
use native.Mathlib.Omega.{arith}
use native.Mathlib.Nat.{pow-suc, mul_assoc, suc-mul, div-div-eq-div-mul}
use afs_ld.Prelude.Bits.{pow-add}

-- `bit_and` goes through the digits of its first argument; any fuel from there on gives the same.
any_fuel :
    (bound fuel x mask : ℕ)
    → fuel ≤ bound
    → x ≤ fuel
    → digits (λ y. zero) min fuel x mask ≡ bit_and x mask
any_fuel bound zero zero mask f e = sym (bit_and-bitwise zero mask)
any_fuel bound (suc fuel) zero mask f e = sym (bit_and-bitwise zero mask)
any_fuel bound zero (suc x) mask f e = absurd (omega arith)
any_fuel zero (suc fuel) (suc x) mask f e = absurd (omega arith)
any_fuel (suc bound) (suc fuel) (suc x) mask f e =
    let long = any_fuel bound fuel (suc x / 2) (mask / 2) (omega arith) (omega arith) in
    let short = any_fuel bound x (suc x / 2) (mask / 2) (omega arith) (omega arith) in
    let whole = bit_and-bitwise (suc x) mask in omega (arith, long, short, whole)

by_digit : (x mask : ℕ) → bit_and x mask ≡ 2 * bit_and (x / 2) (mask / 2) + min (x % 2) (mask % 2)
by_digit zero mask =
    let none_on = bit_and-bitwise zero mask in
    let none_above = bit_and-bitwise zero (mask / 2) in omega (arith, none_on, none_above)
by_digit (suc x) mask =
    let above = any_fuel x x (suc x / 2) (mask / 2) (omega arith) (omega arith) in
    let whole = bit_and-bitwise (suc x) mask in omega (arith, above, whole)

pub pow_pos : (k : ℕ) → 0 < 2 ^ k
pow_pos zero = omega arith
pow_pos (suc k) = omega (arith, pow_pos k, pow-suc 2 k)

pred_mul : (n d : ℕ) → (n - 1) * d ≡ n * d - d
pred_mul zero d = omega arith
pred_mul (suc n) d = let e : suc n - 1 ≡ n = omega arith in rw (e, suc-mul n d) (omega arith)

full : (w k : ℕ) → k ≤ w → w ≡ (w - k) + k
full w k h = omega arith

-- All bits of the width are on.
bit_and_ones : (w a : ℕ) → a < 2 ^ w → bit_and a (2 ^ w - 1) ≡ a
bit_and_ones zero a h = let e : a ≡ 0 = omega arith in rw e (bit_and-bitwise 0 (2 ^ 0 - 1))
bit_and_ones (suc w) a h =
    let p = pow-suc 2 w in
    let half : (2 ^ suc w - 1) / 2 ≡ 2 ^ w - 1 = omega (arith, p) in
    let odd : (2 ^ suc w - 1) % 2 ≡ 1 = omega (arith, p) in
    omega (
      arith,
      rw (half, odd) at (by_digit a (2 ^ suc w - 1)),
      bit_and_ones w (a / 2) (omega (arith, p)),
    )

bit_and_high : (k w a : ℕ) → a < 2 ^ (k + w) → bit_and a ((2 ^ w - 1) * 2 ^ k) ≡ a / 2 ^ k * 2 ^ k
bit_and_high zero w a h =
    let e : (2 ^ w - 1) * 2 ^ 0 ≡ 2 ^ w - 1 = omega arith in
    let f : 0 + w ≡ w = omega arith in rw e (bit_and_ones w a (rw f at h) ∙ omega arith)
bit_and_high (suc k) w a h =
    let p = pow-suc 2 k in
    let shape : (2 ^ w - 1) * 2 ^ suc k ≡ (2 ^ w - 1) * 2 ^ k * 2 =
      rw p (sym (mul_assoc (2 ^ w - 1) (2 ^ k) 2)) in
    let halved : (2 ^ w - 1) * 2 ^ k * 2 / 2 ≡ (2 ^ w - 1) * 2 ^ k = omega arith in
    let even : (2 ^ w - 1) * 2 ^ k * 2 % 2 ≡ 0 = omega arith in
    let wide : 2 ^ (suc k + w) ≡ 2 ^ (k + w) * 2 =
      ap (λ n. 2 ^ n) (omega arith) ∙ pow-suc 2 (k + w) in
    let half = bit_and_high k w (a / 2) (omega (arith, wide)) in
    let twice : 2 * 2 ^ k ≡ 2 ^ suc k = omega (arith, p) in
    let nested : a / 2 / 2 ^ k ≡ a / 2 ^ suc k =
      div-div-eq-div-mul a 2 (2 ^ k) ∙ ap (λ d. a / d) twice in
    let out : a / 2 ^ suc k * 2 ^ suc k ≡ a / 2 ^ suc k * 2 ^ k * 2 =
      ap (λ m. a / 2 ^ suc k * m) p ∙ sym (mul_assoc (a / 2 ^ suc k) (2 ^ k) 2) in
    rw shape (
      omega (
        arith,
        rw (halved, even) at (by_digit a ((2 ^ w - 1) * 2 ^ k * 2)),
        rw nested at half,
        out,
      ))

-- `value & !(align - 1)` on 64 bits.
pub bit_and_mask :
    (k a : ℕ) → k ≤ 64 → a < 2 ^ 64 → bit_and a (2 ^ 64 - 1 - (2 ^ k - 1)) ≡ a / 2 ^ k * 2 ^ k
bit_and_mask k a h small =
    let split : 2 ^ 64 ≡ 2 ^ (64 - k) * 2 ^ k =
      ap (λ n. 2 ^ n) (full 64 k h) ∙ pow-add (64 - k) k in
    let out : (2 ^ (64 - k) - 1) * 2 ^ k ≡ 2 ^ (64 - k) * 2 ^ k - 2 ^ k =
      pred_mul (2 ^ (64 - k)) (2 ^ k) in
    let pos : 0 < 2 ^ k = pow_pos k in
    let mask : 2 ^ 64 - 1 - (2 ^ k - 1) ≡ (2 ^ (64 - k) - 1) * 2 ^ k =
      omega (arith, split, out, pos) in
    let width : k + (64 - k) ≡ 64 = omega arith in
    rw mask (bit_and_high k (64 - k) a (rw width small))

none_on : (bound x : ℕ) → x ≤ bound → bit_and x 0 ≡ 0
none_on bound zero small = bit_and-bitwise 0 0
none_on zero (suc x) small = absurd (omega arith)
none_on (suc bound) (suc x) small =
    let half = none_on bound (suc x / 2) (omega arith) in
    let digit = by_digit (suc x) 0 in omega (arith, half, digit)

-- `x & 1` and `x & 0x0e`.
pub bit_and_lowest : (x : ℕ) → bit_and x 1 ≡ x % 2
bit_and_lowest x =
    let above = none_on (x / 2) (x / 2) (omega arith) in
    let digit = by_digit x 1 in omega (arith, above, digit)

pub bit_and_three : (x : ℕ) → bit_and x 14 ≡ x / 2 % 8 * 2
bit_and_three x =
    let last = bit_and_lowest (x / 2 / 2 / 2) in
    let third = by_digit (x / 2 / 2) 3 in
    let second = by_digit (x / 2) 7 in
    let first = by_digit x 14 in omega (arith, first, second, third, last)
