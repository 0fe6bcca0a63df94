-- ===== src/Reloc/Patch/Branch.antt =====
-- `patch_branch26`: the patched instruction branches to the target.
use afs_ld.Prelude.{
  ℕ, ◌+◌, ◌-◌, ◌*◌, ◌/◌, ◌%◌, ◌^◌, ◌≤◌, ◌<◌, ◌≡◌, refl, true, false, not, ok, err, arith, length,
  bit_or, ltb, if◌then◌else◌, Bool-cases, inl, inr,
}
use afs_ld.Prelude.Bits.{bit_or-disjoint}
use afs_ld.Prelude.Bytes.{Bytes, IsBytes}
use afs_ld.Reloc.Patch.{
  Detail, shr_signed, unaligned, fits_signed, low_bits, branch_delta, branch26_in_range, with_imm26,
  patch_branch26, encode_branch26,
}
use afs_ld.Reloc.Patch.Words.{
  Untouched, patched, word_at, read_inside, write_inside, word_at-lt, patched-Untouched,
  word_at-patched,
}

-- A signed field of `bits` bits times `scale`, as a 64-bit pattern.
abbrev pub displacement : ℕ → ℕ → ℕ → ℕ
displacement bits scale x =
    if ltb x (2 ^ (bits - 1)) then x * scale else 2 ^ 64 - (2 ^ bits - x) * scale

-- Where `b` and `bl` at an address go, by the architecture's definition.
abbrev pub branch_destination : ℕ → ℕ → ℕ
branch_destination place insn = (place + displacement 26 4 (insn % 2 ^ 26)) % 2 ^ 64

abbrev imm26_of : ℕ → ℕ → ℕ
imm26_of place target = low_bits (shr_signed (branch_delta place target) 2) 26

module _ (place target : ℕ) (hp : place < 2 ^ 64) (ht : target < 2 ^ 64)
    (r : branch26_in_range place target ≡ true) where
  imm26-lt : imm26_of place target < 2 ^ 26
  unfolding branch26_in_range
  imm26-lt = ground arith

  imm26-reaches : (place + displacement 26 4 (imm26_of place target)) % 2 ^ 64 ≡ target
  unfolding branch26_in_range
  imm26-reaches = ground arith

in_range-parts :
    (place target : ℕ)
    → branch26_in_range place target ≡ true
    → (not (unaligned (branch_delta place target)) ≡ true)
      × (fits_signed (shr_signed (branch_delta place target) 2) 26 ≡ true)
unfolding branch26_in_range
in_range-parts place target r = ground arith

with_imm26_lem :
    (insn imm : ℕ)
    → insn < 2 ^ 32
    → imm < 2 ^ 26
    → (with_imm26 insn imm < 2 ^ 32)
      × (with_imm26 insn imm % 2 ^ 26 ≡ imm)
      × (with_imm26 insn imm / 2 ^ 26 ≡ insn / 2 ^ 26)
with_imm26_lem insn imm h k =
    rw (bit_or-disjoint 26 imm (insn / 2 ^ 26) k) (omega arith, omega arith, omega arith)

-- What the patch does to the instruction at an offset.
abbrev pub BranchesTo : ℕ → ℕ → Bytes → ℕ → Bytes → Type 0
BranchesTo place target before offset after =
    (branch_destination place (word_at after offset) ≡ target)
    × (word_at after offset / 2 ^ 26 ≡ word_at before offset / 2 ^ 26)
    × Untouched before offset after

module _ (bytes : Bytes) (offset place target : ℕ) where
  -- When the target is in range of the place, both are 64-bit addresses, and the instruction lies
  -- inside the bytes, `patch_branch26` succeeds, and the instruction then branches from the place
  -- to the target, with its opcode kept and no other byte changed.
  pub patch_branch26-branch_destination :
      IsBytes bytes
      → place < 2 ^ 64
      → target < 2 ^ 64
      → offset + 4 ≤ length bytes
      → branch26_in_range place target ≡ true
      → (after : Bytes) × (patch_branch26 bytes offset place target ≡ ok after)
        × BranchesTo place target bytes offset after
  unfolding patch_branch26
  patch_branch26-branch_destination h hp ht inside r =
      let (a, f) = in_range-parts place target r in
      let imm = imm26_of place target in
      let insn = word_at bytes offset in
      let (small, low, high) =
        with_imm26_lem insn imm (word_at-lt bytes offset inside h)
          (imm26-lt place target hp ht r) in
      let there = word_at-patched bytes offset inside (with_imm26 insn imm) small in
      rw
        (
          a,
          f,
          read_inside bytes offset inside,
          write_inside bytes offset inside (with_imm26 insn imm),
        )
        (
          patched bytes offset (with_imm26 insn imm),
          refl,
          (
            rw (there, low) (imm26-reaches place target hp ht r),
            rw there high,
            patched-Untouched bytes offset inside (with_imm26 insn imm),
          ),
        )

  -- When the target is not in range of the place, `patch_branch26` is an error.
  pub patch_branch26-refuses :
      branch26_in_range place target ≡ false
      → (d : Detail) × (patch_branch26 bytes offset place target ≡ err d)
  unfolding patch_branch26 branch26_in_range
  patch_branch26-refuses r = elim (Bool-cases (unaligned (branch_delta place target))) [
    | inl u ↦ rw u (_, refl)
    | inr a ↦
        let f : fits_signed (shr_signed (branch_delta place target) 2) 26 ≡ false = rw a at r in
        rw (a, f) (_, refl)
  ]

-- The instruction that `encode_branch26` makes for a target in range of the place, both 64-bit
-- addresses, is a `b` to that target.
pub encode_branch26-branch_destination :
    (place target : ℕ)
    → place < 2 ^ 64
    → target < 2 ^ 64
    → branch26_in_range place target ≡ true
    → (insn : ℕ) × (encode_branch26 place target ≡ ok insn)
      × (branch_destination place insn ≡ target)
      × (insn / 2 ^ 26 ≡ 5)
unfolding encode_branch26
encode_branch26-branch_destination place target hp ht r =
    let (a, f) = in_range-parts place target r in
    let imm = imm26_of place target in
    let small = imm26-lt place target hp ht r in
    let sum : bit_or imm 0x1400_0000 ≡ imm + 5 * 2 ^ 26 = bit_or-disjoint 26 imm 5 small in
    let low : (imm + 5 * 2 ^ 26) % 2 ^ 26 ≡ imm = omega arith in
    rw (a, f, sum)
      (imm + 5 * 2 ^ 26, refl, rw low (imm26-reaches place target hp ht r), omega arith)
