-- ===== src/Leb/Signed.antt =====
-- SLEB128: the round trip of every i64.
use mathlib.Core.WellFounded
use mathlib.Core.WellFounded.{Acc, Acc-prop}
use native.Mathlib.Nat.{mul-le-mul_right, div-add-mod, one-le-pow, pow-le-pow_right}
use afs_ld.Prelude.{
  ℕ, ◌+◌, ◌-◌, ◌*◌, ◌/◌, ◌%◌, ◌^◌, ◌≤◌, ◌<◌, ◌≡◌, ◌≢◌, refl, sym, ap, ap₂, ◌∙◌, [], ◌∷◌, ◌++◌, Bool,
  true, false, arith, bit_or, ok, length, dec_lt, dec_true, ◌⊎◌, inl, inr,
}
use afs_ld.Prelude.Bits.{bit_or-disjoint, pow-add}
use afs_ld.Prelude.Bytes.{Bytes}
use afs_ld.Prelude.Int.{ℤ, pos, negsuc}
use afs_ld.Prelude.Order.{lt_wf}
use afs_ld.Leb.Unsigned.{group-fits, split_power}
use afs_ld.Leb.{
  group, sleb_loop, sign_fill, map_value, read_sleb, low_seven, sleb_done, sleb_falls, write_sleb,
}
use afs_ld.Leb.Emitted.{emitted, low_seven-lt, emit_last, emitted_more}

-- The pattern that a sign and a magnitude leave above `shift` bits already read.
abbrev pattern_of : Bool → ℕ → ℕ → ℕ → ℕ
pattern_of false n value shift = value + n * 2 ^ shift
pattern_of true n value shift = value + (2 ^ 64 - (n + 1) * 2 ^ shift)

abbrev SignedReadsBack : Bool → ℕ → Type 0
SignedReadsBack s n =
    (have value shift k i : ℕ) (rest : Bytes)
    → value < 2 ^ shift
    → shift + k ≡ 64
    → k % 7 ≡ 1
    → 2 * n < 2 ^ k
    → sleb_loop have value shift i (emitted s n [] ++ rest)
      ≡ ok (pattern_of s n value shift, i + length (emitted s n []))

read_more :
    (have value shift i b : ℕ) (rest : Bytes)
    → shift < 64
    → b < 128
    → sleb_loop have value shift i ((b + 128) ∷ rest)
      ≡ sleb_loop have (bit_or value (group (b + 128) shift)) (shift + 7) (i + 1) rest
unfolding sleb_loop
read_more have value shift i b rest h small = ground arith

-- The last byte of a number that is not negative.
read_last_false :
    (have value shift i b : ℕ) (rest : Bytes)
    → shift < 64
    → b < 64
    → sleb_loop have value shift i (b ∷ rest) ≡ ok (bit_or value (group b shift), i + 1)
unfolding sleb_loop
read_last_false have value shift i b rest h small = ground arith

-- The last byte of a negative number, with bits above it to fill.
read_last_true :
    (have value shift i b : ℕ) (rest : Bytes)
    → shift + 7 < 64
    → 64 ≤ b
    → b < 128
    → sleb_loop have value shift i (b ∷ rest)
      ≡ ok (sign_fill (bit_or value (group b shift)) (shift + 7), i + 1)
unfolding sleb_loop
read_last_true have value shift i b rest h big small = ground arith

wide_or_top : (k : ℕ) → k % 7 ≡ 1 → (k ≡ 1) ⊎ (7 < k)
wide_or_top k h = elim (dec_lt 7 k) [ yes w ↦ inr w | no w ↦ inl (omega arith) ]

-- Above bit `shift` there is room for one more group.
module _ (shift k : ℕ) (e : shift + k ≡ 64) (wide : 7 < k) where
  whole : 2 ^ 64 ≡ 2 ^ (k - 7) * (2 ^ shift * 128)
  whole =
      let c = split_power k wide in
      let all : 2 ^ shift * 2 ^ k ≡ 2 ^ 64 = sym (pow-add shift k) ∙ ap (λ n. 2 ^ n) e in
      omega (arith, rw c at all)

  room_for : (b : ℕ) → b < 128 → b < 2 ^ k
  room_for b h =
      let p : 2 ^ 7 ≤ 2 ^ k = pow-le-pow_right (omega arith) {i = 7} (omega arith) in omega arith

  next_low : (value b : ℕ) → value < 2 ^ shift → b < 128 → value + b * 2 ^ shift < 2 ^ (shift + 7)
  next_low value b low h =
      rw (pow-add shift 7)
        (omega (arith, mul-le-mul_right {m = b} {n = 127} (2 ^ shift) (omega arith)))

  -- The sign fill adds all that lies above.
  fill : (v : ℕ) → v < 2 ^ (shift + 7) → sign_fill v (shift + 7) ≡ v + (2 ^ 64 - 2 ^ shift * 128)
  fill v h =
      let p = 2 ^ (shift + 7) in
      let double : p ≡ 2 ^ shift * 128 = pow-add shift 7 in
      let q = 2 ^ (k - 7) in
      let one : q - 1 + 1 ≡ q = omega (arith, one-le-pow (k - 7) 2 (omega arith)) in
      let all : 2 ^ 64 ≡ q * p = whole ∙ ap (λ x. q * x) (sym double) in
      let above : 2 ^ 64 - p ≡ (q - 1) * p = omega (arith, all, ap (λ t. t * p) one) in
      rw above (bit_or-disjoint (shift + 7) v (q - 1) h)
      ∙ ap (λ x. v + x) (sym above ∙ ap (λ x. 2 ^ 64 - x) double)

signed_last_false : (n : ℕ) → sleb_done false n ≡ true → SignedReadsBack false n
signed_last_false n done have value shift k i rest low e m fits =
    let small : n < 64 = ground arith in
    let same : low_seven false n ≡ n = omega arith in
    let below : n % 128 < 2 ^ k = omega arith in
    rw (emit_last false n [] done) (
      rw same (
        read_last_false have value shift i n rest (omega arith) small
        ∙ ap (λ x. ok (x, i + 1))
            (group-fits value shift k n low e below ∙ ap (λ x. value + x * 2 ^ shift) same)))

-- -1 is the one value whose last byte stands at bit 63.
read_top :
    (have value i : ℕ) (rest : Bytes)
    → value < 2 ^ 63
    → sleb_loop have value 63 i (127 ∷ rest) ≡ ok (pattern_of true 0 value 63, i + 1)
unfolding sleb_loop
read_top have value i rest low = ap (λ x. ok (x, i + 1)) (bit_or-disjoint 63 value 1 low)

module _ (value shift k n : ℕ) (low : value < 2 ^ shift) (e : shift + k ≡ 64) (wide : 7 < k) where
  -- The last byte of a negative number and the fill above it.
  filled :
      n < 64
      → sign_fill (bit_or value (group (low_seven true n) shift)) (shift + 7)
        ≡ pattern_of true n value shift
  filled small =
      let b = low_seven true n in
      let same : b % 128 ≡ b = omega arith in
      let less : b < 128 = omega arith in
      let sum : b + n + 1 ≡ 128 = omega arith in
      let power = one-le-pow (k - 7) 2 (omega arith) in
      let p = 2 ^ shift in
      let enough : p * 128 ≤ 2 ^ 64 =
        rw (whole shift k e wide)
          (omega (arith, mul-le-mul_right {m = 1} {n = 2 ^ (k - 7)} (p * 128) power)) in
      rw (group-fits value shift k b low e (rw same (room_for shift k e wide b less))) (
        rw same (
          fill shift k e wide _ (next_low shift k e wide value b low less)
          ∙ omega (arith, ap (λ t. t * p) sum, enough)))

signed_last_true : (n : ℕ) → sleb_done true n ≡ true → SignedReadsBack true n
signed_last_true n done have value shift k i rest low e m fits =
    let small : n < 64 = ground arith in
    rw (emit_last true n [] done) (elim (wide_or_top k m) [
      | inl top ↦
          let s63 : shift ≡ 63 = omega arith in
          let zero_n : n ≡ 0 = omega (arith, rw top at fits) in
          rw (zero_n, s63) (read_top have value i rest (rw s63 at low))
      | inr wide ↦
          read_last_true have value shift i (low_seven true n) rest (omega arith) (omega arith)
            (omega arith)
          ∙ ap (λ x. ok (x, i + 1)) (filled value shift k n low e wide small)
    ])

-- One bit of magnitude always ends the encoding.
more_wide : (s : Bool) (k n : ℕ) → k % 7 ≡ 1 → 2 * n < 2 ^ k → sleb_done s n ≢ true → 7 < k
more_wide s k n m fits more = elim (wide_or_top k m) [
  | inr wide ↦ wide
  | inl top ↦
      let none_left : n ≡ 0 = omega (arith, rw top at fits) in absurd (more (rw none_left (ends s)))
]
  where
    ends : (s : Bool) → sleb_done s 0 ≡ true
    ends true = refl
    ends false = refl

module _ (value shift k n : ℕ) (e : shift + k ≡ 64) (wide : 7 < k) (fits : 2 * n < 2 ^ k) where
  next_pattern :
      (s : Bool)
      → pattern_of s (n / 128) (value + low_seven s n * 2 ^ shift) (shift + 7)
        ≡ pattern_of s n value shift
  next_pattern false =
      rw (pow-add shift 7) (omega (arith, ap (λ t. t * 2 ^ shift) (div-add-mod n 128)))
  next_pattern true =
      let p = 2 ^ shift in
      let sum : low_seven true n + n + 1 ≡ (n / 128 + 1) * 128 = omega arith in
      let half : n / 128 + 1 ≤ 2 ^ (k - 7) = omega (arith, split_power k wide) in
      let enough : (n / 128 + 1) * (p * 128) ≤ 2 ^ 64 =
        rw (whole shift k e wide) (mul-le-mul_right (p * 128) half) in
      rw (pow-add shift 7) (omega (arith, ap (λ t. t * p) sum, enough))

signed_more :
    (s : Bool) (n : ℕ) → sleb_done s n ≢ true → SignedReadsBack s (n / 128) → SignedReadsBack s n
signed_more s n more ih have value shift k i rest low e m fits =
    let wide = more_wide s k n m fits more in
    let b = low_seven s n in
    let less = low_seven-lt s n in
    let same : (b + 128) % 128 ≡ b = omega arith in
    rw (emitted_more s n more) (
      read_more have value shift i b _ (omega arith) less
      ∙ rw (group-fits value shift k (b + 128) low e (rw same (room_for shift k e wide b less))) (
          rw same (
            ih have (value + b * 2 ^ shift) (shift + 7) (k - 7) (i + 1) rest
              (next_low shift k e wide value b low less) (omega arith) (omega arith)
              (omega (arith, split_power k wide))
            ∙ ap₂ (λ x y. ok (x, y)) (next_pattern value shift k n e wide fits s) (omega arith))))

signed_reads_back : (s : Bool) (n : ℕ) → SignedReadsBack s n
signed_reads_back s v = WellFounded.induction lt_wf {C = SignedReadsBack s} v λ n ih.
    elim (dec_true (sleb_done s n)) [
      | yes h ↦ signed_last s n h
      | no h ↦ signed_more s n h (ih (n / 128) (sleb_falls s n h))
    ]
  where
    signed_last : (s : Bool) (n : ℕ) → sleb_done s n ≡ true → SignedReadsBack s n
    signed_last true = signed_last_true
    signed_last false = signed_last_false

-- The range of an i64.
abbrev pub InRange64 : ℤ → Type 0
InRange64 (pos n) = n < 2 ^ 63
InRange64 (negsuc n) = n < 2 ^ 63

-- Every i64 is read back from what `write_sleb` appends, whatever bytes follow, with the number of
-- bytes written.
pub read_sleb-write_sleb :
    (v : ℤ) (rest : Bytes)
    → InRange64 v
    → read_sleb (write_sleb v [] ++ rest) ≡ ok (v, length (write_sleb v []))
unfolding read_sleb write_sleb
read_sleb-write_sleb (pos n) rest h =
    ap map_value (
      signed_reads_back false n _ 0 0 64 0 rest (omega arith) (omega arith) (omega arith)
        (omega arith))
    ∙ ap₂ (λ x y. ok (x, y)) (ground arith) (omega arith)
read_sleb-write_sleb (negsuc n) rest h =
    ap map_value (
      signed_reads_back true n _ 0 0 64 0 rest (omega arith) (omega arith) (omega arith)
        (omega arith))
    ∙ ap₂ (λ x y. ok (x, y)) (ground arith) (omega arith)
