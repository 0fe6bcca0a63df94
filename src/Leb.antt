-- ===== src/Leb.antt =====
-- src/leb.rs: the ULEB128 and SLEB128 codec. A u64 is a number below 2 ^ 64; an i64 is an integer
-- for the writer, and the 64-bit pattern that `signed64` reads for the reader.
pub mod Unsigned
pub mod Emitted
pub mod Signed
mod Tests
use mathlib.Core.Logic.{dite}
use mathlib.Core.WellFounded.{Acc}
use afs_ld.Prelude.{
  ℕ, zero, suc, ◌+◌, ◌-◌, ◌*◌, ◌/◌, ◌%◌, ◌^◌, ◌<◌, ◌≡◌, ◌≢◌, List, [], ◌∷◌, ◌++◌, Bool, true, false,
  ◌&&◌, ◌||◌, not, arith, bit_or, ltb, leb, ◌==◌, if◌then◌else◌, dec_true, ok, err, length,
  ℕ_discrete,
}
use afs_ld.Prelude.Bytes.{Bytes}
use afs_ld.Prelude.Int.{ℤ, pos, negsuc}
use afs_ld.Prelude.Order.{lt_wf}
use afs_ld.Reader.{Read, truncated, bad_relocation}

-- `b & 0x80 == 0`: the byte ends its encoding.
abbrev pub is_last : ℕ → Bool
is_last b = b / 128 % 2 == 0

-- `((b & 0x7f) as u64) << shift`, with the bits above bit 63 lost.
abbrev pub group : ℕ → ℕ → ℕ
group b shift = b % 128 * 2 ^ shift % 2 ^ 64

-- The loop of `read_uleb`: `have` is `bytes.len()`, `i` counts the bytes read.
pub uleb_loop : ℕ → ℕ → ℕ → ℕ → Bytes → Read (ℕ × ℕ)
uleb_loop have value shift i [] = err (truncated (have + 1) have "ULEB128 (unterminated)")
uleb_loop have value shift i (b ∷ bs) =
    let value' = bit_or value (group b shift) in
    let rest = uleb_loop have value' (shift + 7) (i + 1) bs in
    if leb 64 shift
    then err (bad_relocation 0 "ULEB128 overflows u64")
    else if is_last b
    then ok (value', i + 1)
    else rest

unfoldable pub read_uleb : Bytes → Read (ℕ × ℕ)
unfolding uleb_loop
read_uleb bytes = uleb_loop (length bytes) 0 0 0 bytes

-- `value |= !0i64 << shift`, on bit patterns.
abbrev pub sign_fill : ℕ → ℕ → ℕ
sign_fill value shift = bit_or value (2 ^ 64 - 2 ^ shift)

-- The loop of `read_sleb`.
pub sleb_loop : ℕ → ℕ → ℕ → ℕ → Bytes → Read (ℕ × ℕ)
sleb_loop have value shift i [] = err (truncated (have + 1) have "SLEB128 (unterminated)")
sleb_loop have value shift i (b ∷ bs) =
    let value' = bit_or value (group b shift) in
    let shift' = shift + 7 in
    let rest = sleb_loop have value' shift' (i + 1) bs in
    if leb 64 shift
    then err (bad_relocation 0 "SLEB128 overflows i64")
    else if is_last b
    then ok (
      (if ltb shift' 64 && not (b / 64 % 2 == 0) then sign_fill value' shift' else value'),
      i + 1,
    )
    else rest

-- The i64 that a 64-bit pattern stands for.
abbrev pub signed64 : ℕ → ℤ
signed64 w = if ltb w (2 ^ 63) then pos w else negsuc (2 ^ 64 - w - 1)

pub map_value : Read (ℕ × ℕ) → Read (ℤ × ℕ)
map_value (ok (v, n)) = ok (signed64 v, n)
map_value (err e) = err e

unfoldable pub read_sleb : Bytes → Read (ℤ × ℕ)
unfolding sleb_loop map_value
read_sleb bytes = map_value (sleb_loop (length bytes) 0 0 0 bytes)

-- The loop of `write_uleb`; it ends, since the value falls.
pub write_uleb_loop : (value : ℕ) → Acc ◌<◌ value → Bytes → Bytes
write_uleb_loop value (Acc.intro _ smaller) out =
    dite (ℕ_discrete (value / 128) 0) (λ _. out ++ value % 128 ∷ [])
      (λ more.
        write_uleb_loop (value / 128) (smaller (value / 128) (omega arith))
          (out ++ bit_or (value % 128) 128 ∷ []))

unfoldable pub write_uleb : ℕ → Bytes → Bytes
unfolding write_uleb_loop lt_wf ℕ_discrete
write_uleb value out = write_uleb_loop value (lt_wf.apply value) out

-- The low seven bits of an i64; `negsuc n` is -(n + 1).
abbrev pub low_seven : Bool → ℕ → ℕ
low_seven true n = 127 - n % 128
low_seven false n = n % 128

-- `done` of `write_sleb`: what the arithmetic shift leaves is the sign that bit 6 says.
abbrev pub sleb_done : Bool → ℕ → Bool
sleb_done true n = n / 128 == 0 && not (low_seven true n / 64 % 2 == 0)
sleb_done false n = n / 128 == 0 && low_seven false n / 64 % 2 == 0

pub sleb_falls : (negative : Bool) (n : ℕ) → sleb_done negative n ≢ true → n / 128 < n
sleb_falls true n h = ground arith
sleb_falls false n h = ground arith

-- The loop of `write_sleb` on a sign and the magnitude of `pos n` or `negsuc n`: the arithmetic
-- shift keeps the sign and divides the magnitude by 128.
pub write_sleb_loop : Bool → (n : ℕ) → Acc ◌<◌ n → Bytes → Bytes
write_sleb_loop negative n (Acc.intro _ smaller) out =
    let byte = low_seven negative n in
    dite (dec_true (sleb_done negative n)) (λ _. out ++ byte ∷ [])
      (λ more.
        write_sleb_loop negative (n / 128) (smaller (n / 128) (sleb_falls negative n more))
          (out ++ bit_or byte 128 ∷ []))

unfoldable pub write_sleb : ℤ → Bytes → Bytes
unfolding write_sleb_loop lt_wf dec_true
write_sleb (pos n) out = write_sleb_loop false n (lt_wf.apply n) out
write_sleb (negsuc n) out = write_sleb_loop true n (lt_wf.apply n) out
