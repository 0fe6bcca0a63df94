-- ===== src/Reloc/Write.antt =====
-- `write_relocs`: the fused stream lowered to raw entries.
use afs_ld.Prelude.{
  ℕ, ◌-◌, ◌%◌, ◌^◌, Bool, true, false, List, [], ◌∷◌, ◌++◌, ok, ◌>>=◌, ◌>>◌, ensure, ok_or, leb,
  ◌==◌, if◌then◌else◌,
}
use afs_ld.Prelude.Int.{ℤ, pos, negsuc}
use afs_ld.Reader.{Read, bad_relocation}
use afs_ld.Reloc.Fused.{
  RelocKind, unsigned, branch26, page21, page_off12, got_load_page21, got_load_page_off12,
  pointer_to_got, tlvp_load_page21, tlvp_load_page_off12, subtractor, as_bits, Referent, symbol,
  section, Reloc, is_subtractor,
}
use afs_ld.Reloc.Parse.{arm64_reloc_unsigned, arm64_reloc_subtractor, arm64_reloc_addend}
use afs_ld.Reloc.Raw.{RawRelocation}

abbrev pub ref_symbolnum : Referent → ℕ
ref_symbolnum (symbol index) = index % 2 ^ 24
ref_symbolnum (section index) = index

abbrev pub ref_extern : Referent → Bool
ref_extern (symbol index) = true
ref_extern (section index) = false

abbrev pub ref_to_raw_parts : Referent → ℕ × Bool
ref_to_raw_parts r = (ref_symbolnum r, ref_extern r)

abbrev pub reloc_type_byte : RelocKind → ℕ
reloc_type_byte unsigned = 0
reloc_type_byte branch26 = 2
reloc_type_byte page21 = 3
reloc_type_byte page_off12 = 4
reloc_type_byte got_load_page21 = 5
reloc_type_byte got_load_page_off12 = 6
reloc_type_byte pointer_to_got = 7
reloc_type_byte tlvp_load_page21 = 8
reloc_type_byte tlvp_load_page_off12 = 9
reloc_type_byte subtractor = 0

-- `(ADDEND_MIN..=ADDEND_MAX).contains(&addend)`
abbrev pub in_addend_range : ℤ → Bool
in_addend_range (pos n) = leb n 0x7f_ffff
in_addend_range (negsuc n) = leb n 0x7f_ffff

-- `(addend as i32) as u32 & 0x00FF_FFFF`
abbrev pub low24 : ℤ → ℕ
low24 (pos n) = n % 2 ^ 32 % 2 ^ 24
low24 (negsuc n) = (2 ^ 32 - 1 - n % 2 ^ 32) % 2 ^ 24

unfoldable pub encode_addend_prefix : ℕ → ℤ → ℕ → Read RawRelocation
encode_addend_prefix offset addend len = do
  ensure (in_addend_range addend)
      (bad_relocation offset "addend outside 24-bit signed range (use ARM64_RELOC_ADDEND)")
  ok (record {
    r_address = offset;
    r_symbolnum = low24 addend;
    r_pcrel = false;
    r_length = len;
    r_extern = false;
    r_type = arm64_reloc_addend;
  })

abbrev pub is_zero : ℤ → Bool
is_zero (pos n) = n == 0
is_zero (negsuc n) = false

-- The ADDEND entry, where the addend is not zero.
unfoldable pub addend_prefix : Reloc → Read (List RawRelocation)
unfolding encode_addend_prefix
addend_prefix r =
    if is_zero r.addend
    then ok []
    else do raw ← encode_addend_prefix r.offset r.addend (as_bits r.len); ok (raw ∷ [])

-- One entry of the relocation for a referent.
abbrev pub entry : Reloc → Referent → Bool → ℕ → RawRelocation
entry r referent pcrel ty = record {
  r_address = r.offset;
  r_symbolnum = (ref_to_raw_parts referent).0;
  r_pcrel = pcrel;
  r_length = as_bits r.len;
  r_extern = (ref_to_raw_parts referent).1;
  r_type = ty;
}

unfoldable pub write_one : Reloc → Read (List RawRelocation)
unfolding addend_prefix
write_one r =
    if is_subtractor r.kind
    then (do
      sub ← ok_or r.subtrahend (bad_relocation r.offset "Subtractor kind requires a subtrahend")
      prefix ← addend_prefix r
      ok (
          entry r sub false arm64_reloc_subtractor
          ∷ (prefix ++ entry r r.referent false arm64_reloc_unsigned ∷ [])))
    else (do
      prefix ← addend_prefix r
      ok (prefix ++ entry r r.referent r.pcrel (reloc_type_byte r.kind) ∷ []))

unfoldable pub write_relocs : List Reloc → Read (List RawRelocation)
unfolding write_one
write_relocs [] = ok []
write_relocs (r ∷ rs) = do raws ← write_one r; rest ← write_relocs rs; ok (raws ++ rest)
