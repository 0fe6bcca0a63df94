-- ===== src/Reloc/Patch.antt =====
-- src/reloc/arm64.rs: the patches of ARM64 instructions. A path, an atom and a described referent
-- only word an error, so an error here is its `detail`. u64 arithmetic wraps at 2 ^ 64; a
-- complemented mask is written as the fields that it keeps, and `|` of fields in different places as a sum.
pub mod Words
pub mod Branch
pub mod Page
pub mod PageOff
use afs_ld.Leb.{signed64}
use afs_ld.Prelude.{
  ℕ, suc, ◌+◌, ◌-◌, ◌*◌, ◌/◌, ◌%◌, ◌^◌, Bool, true, false, not, ◌&&◌, ◌||◌, List, [], ◌∷◌, ◌++◌,
  Result, ok, err, ◌>>=◌, ◌>>◌, ensure, length, take, drop, ltb, leb, ◌==◌, if◌then◌else◌, bit_or,
}
use afs_ld.Prelude.Bytes.{Bytes, slice, le_bytes, le_value}
use afs_ld.Prelude.Int.{ℤ, pos, negsuc}

-- The `detail` of a `RelocError`.
pub data Detail : Type 0 where
  unaligned_branch : (delta : ℤ) → Detail
  branch_out_of_range : (delta : ℤ) → Detail
  page_out_of_range : (delta : ℤ) → Detail
  unscaled_pageoff : (pageoff : ℕ) → Detail
  wide_pageoff : (imm : ℕ) → Detail
  past_the_atom : Detail

abbrev pub Patched : Type 0 → Type 0
Patched A = Result Detail A

-- `x & !(2^k - 1)`
abbrev pub clear_low : ℕ → ℕ → ℕ
clear_low k x = x / 2 ^ k * 2 ^ k

unfoldable pub page : ℕ → ℕ
page v = clear_low 12 v

-- `a.wrapping_sub(b)`
abbrev pub wrapping_sub : ℕ → ℕ → ℕ
wrapping_sub a b = (a + (2 ^ 64 - b)) % 2 ^ 64

abbrev pub wrapping_add_signed : ℕ → ℤ → ℕ
wrapping_add_signed a (pos n) = (a + n) % 2 ^ 64
wrapping_add_signed a (negsuc n) = (a + (2 ^ 64 - suc n % 2 ^ 64)) % 2 ^ 64

-- `x >> k` of a signed number rounds down.
abbrev pub shr_signed : ℤ → ℕ → ℤ
shr_signed (pos n) k = pos (n / 2 ^ k)
shr_signed (negsuc n) k = negsuc (n / 2 ^ k)

-- `x & 0b11 != 0`
abbrev pub unaligned : ℤ → Bool
unaligned (pos n) = not (n % 4 == 0)
unaligned (negsuc n) = not (n % 4 == 3)

abbrev pub fits_signed : ℤ → ℕ → Bool
fits_signed (pos n) bits = ltb n (2 ^ (bits - 1))
fits_signed (negsuc n) bits = ltb n (2 ^ (bits - 1))

-- `(x as u32) & (2^k - 1)`
abbrev pub low_bits : ℤ → ℕ → ℕ
low_bits (pos n) k = n % 2 ^ 32 % 2 ^ k
low_bits (negsuc n) k = (2 ^ 32 - 1 - n % 2 ^ 32) % 2 ^ k

unfoldable pub read_u32 : Bytes → ℕ → Patched ℕ
read_u32 bytes offset =
    if leb (offset + 4) (length bytes)
    then ok (le_value (slice bytes offset (offset + 4)))
    else err past_the_atom

unfoldable pub write_u32 : Bytes → ℕ → ℕ → Patched Bytes
write_u32 bytes offset v =
    if leb (offset + 4) (length bytes)
    then ok (take offset bytes ++ (le_bytes 4 v ++ drop (offset + 4) bytes))
    else err past_the_atom

abbrev pub branch_delta : ℕ → ℕ → ℤ
branch_delta place target = signed64 (wrapping_sub target place)

unfoldable pub branch26_in_range : ℕ → ℕ → Bool
branch26_in_range place target =
    let delta = branch_delta place target in
    not (unaligned delta) && fits_signed (shr_signed delta 2) 26

-- `(insn & !0x03ff_ffff) | imm26`
abbrev pub with_imm26 : ℕ → ℕ → ℕ
with_imm26 insn imm26 = bit_or imm26 (clear_low 26 insn)

unfoldable pub patch_branch26 : Bytes → ℕ → ℕ → ℕ → Patched Bytes
unfolding read_u32 write_u32
patch_branch26 bytes offset place target = do
  let delta = branch_delta place target
  ensure (not (unaligned delta)) (unaligned_branch delta)
  let imm = shr_signed delta 2
  ensure (fits_signed imm 26) (branch_out_of_range delta)
  insn ← read_u32 bytes offset
  write_u32 bytes offset (with_imm26 insn (low_bits imm 26))

-- `encode_branch26`: a `b` of the linker's own.
unfoldable pub encode_branch26 : ℕ → ℕ → Patched ℕ
encode_branch26 place target = do
  let delta = branch_delta place target
  ensure (not (unaligned delta)) (unaligned_branch delta)
  let imm = shr_signed delta 2
  ensure (fits_signed imm 26) (branch_out_of_range delta)
  ok (bit_or (low_bits imm 26) 0x1400_0000)

abbrev pub page_delta : ℕ → ℕ → ℤ
page_delta place target = signed64 (wrapping_sub (page target) (page place))

-- `(insn & !((0x3 << 29) | (0x7ffff << 5))) | (immlo << 29) | (immhi << 5)`
abbrev pub with_imm21 : ℕ → ℕ → ℕ
with_imm21 insn encoded =
    let immlo = encoded % 4 in
    let immhi = encoded / 4 % 2 ^ 19 in
    let kept = insn % 2 ^ 5 + insn / 2 ^ 24 % 2 ^ 5 * 2 ^ 24 + insn / 2 ^ 31 * 2 ^ 31 in
    kept + immlo * 2 ^ 29 + immhi * 2 ^ 5

unfoldable pub patch_page21 : Bytes → ℕ → ℤ → ℕ → ℕ → Patched Bytes
unfolding read_u32 write_u32 page
patch_page21 bytes offset addend place target = do
  let delta = page_delta place (wrapping_add_signed target addend)
  let imm = shr_signed delta 12
  ensure (fits_signed imm 21) (page_out_of_range delta)
  insn ← read_u32 bytes offset
  write_u32 bytes offset (with_imm21 insn (low_bits imm 21))

-- `(insn & 0x1f00_0000) == 0x1100_0000`
unfoldable pub is_add_immediate : ℕ → Bool
is_add_immediate insn = insn / 2 ^ 24 % 2 ^ 5 == 0x11

unfoldable pub is_simd_fp_pageoff : ℕ → Bool
is_simd_fp_pageoff insn = insn / 2 ^ 24 % 2 ^ 3 == 5

unfoldable pub simd_fp_pageoff_shift : ℕ → ℕ
simd_fp_pageoff_shift insn =
    let size = insn / 2 ^ 30 % 4 in
    let opc = insn / 2 ^ 22 % 4 in if size == 0 && leb 2 opc then 4 else size

unfoldable pub pageoff_load_store_shift : ℕ → ℕ
unfolding is_simd_fp_pageoff simd_fp_pageoff_shift
pageoff_load_store_shift insn =
    if is_simd_fp_pageoff insn then simd_fp_pageoff_shift insn else insn / 2 ^ 30 % 4

unfoldable pub pageoff_imm : ℕ → ℕ → Patched ℕ
unfolding is_add_immediate pageoff_load_store_shift
pageoff_imm insn pageoff = if is_add_immediate insn then ok pageoff else (do
  let shift = pageoff_load_store_shift insn
  ensure (pageoff % 2 ^ shift == 0) (unscaled_pageoff pageoff)
  ok (pageoff / 2 ^ shift))

-- `(insn & !(0xfff << 10)) | (imm << 10)`
abbrev pub with_imm12 : ℕ → ℕ → ℕ
with_imm12 insn imm = insn % 2 ^ 10 + imm * 2 ^ 10 + insn / 2 ^ 22 * 2 ^ 22

unfoldable pub patch_pageoff12 : Bytes → ℕ → ℤ → ℕ → Patched Bytes
unfolding read_u32 write_u32 pageoff_imm
patch_pageoff12 bytes offset addend target = do
  let pageoff = wrapping_add_signed target addend % 2 ^ 12
  insn ← read_u32 bytes offset
  imm ← pageoff_imm insn pageoff
  ensure (leb imm 0xfff) (wide_pageoff imm)
  write_u32 bytes offset (with_imm12 insn imm)
