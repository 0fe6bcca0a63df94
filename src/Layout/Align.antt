-- ===== src/Layout/Align.antt =====
-- src/layout.rs, `align_up`: the least multiple of a power of two that is not below a value.
use native.Mathlib.Nat.{div-mul-le_self, lt-div-mul-add, mul-mod_left}
use afs_ld.Prelude.{
  ℕ, ◌+◌, ◌-◌, ◌*◌, ◌/◌, ◌^◌, ◌%◌, ◌≤◌, ◌<◌, ◌≡◌, inl, inr, Bool-cases, leb, leb→le, min, arith,
}
use afs_ld.Prelude.Bits.Mask.{bit_and_mask, pow_pos}
use afs_ld.Layout.{align_up, alignment, page_size, u64}

align_up-rounds :
    (value k : ℕ)
    → k ≤ 63
    → value + 2 ^ k ≤ 2 ^ 64
    → align_up value (2 ^ k) ≡ (value + (2 ^ k - 1)) / 2 ^ k * 2 ^ k
unfolding align_up
align_up-rounds value k h room =
    let pos = pow_pos k in
    let exact : u64 (value + (2 ^ k - 1)) ≡ value + (2 ^ k - 1) = omega arith in
    elim (Bool-cases (leb (2 ^ k) 1)) [
      | inl one ↦
          let e : 2 ^ k ≡ 1 = omega (arith, leb→le (2 ^ k) 1 one, pos) in rw (one, e) (omega arith)
      | inr more ↦
          rw (more, exact) (bit_and_mask k (value + (2 ^ k - 1)) (omega arith) (omega arith))
    ]

-- What `align_up` promises of its result.
pub record IsAlignUp (value align result : ℕ) : Type 0 where
  pub at_least : value ≤ result
  pub below : result < value + align
  pub aligned : result % align ≡ 0

pub align_up-IsAlignUp :
    (value k : ℕ)
    → k ≤ 63
    → value + 2 ^ k ≤ 2 ^ 64
    → IsAlignUp value (2 ^ k) (align_up value (2 ^ k))
align_up-IsAlignUp value k h room =
    let pos = pow_pos k in
    let top = value + (2 ^ k - 1) in
    let e = align_up-rounds value k h room in
    let under : top / 2 ^ k * 2 ^ k ≤ top = div-mul-le_self top (2 ^ k) in
    let over : top < top / 2 ^ k * 2 ^ k + 2 ^ k = lt-div-mul-add pos in
    rw e (record {
      at_least = omega arith;
      below = omega arith;
      aligned = mul-mod_left (top / 2 ^ k) (2 ^ k);
    })

pub alignment-IsAlignUp :
    (value align_pow2 : ℕ)
    → value + alignment align_pow2 ≤ 2 ^ 64
    → IsAlignUp value (alignment align_pow2) (align_up value (alignment align_pow2))
alignment-IsAlignUp value align_pow2 room =
    align_up-IsAlignUp value (min align_pow2 63) (omega arith) room

pub page-IsAlignUp :
    (value : ℕ) → value + page_size ≤ 2 ^ 64 → IsAlignUp value page_size (align_up value page_size)
page-IsAlignUp value room = align_up-IsAlignUp value 14 (omega arith) room
