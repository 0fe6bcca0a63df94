-- ===== src/Reloc/Raw.antt =====
-- `RawRelocation`: the eight bytes of one `relocation_info`. `r_address`, an i32, is kept as its
-- 32-bit pattern: the code only copies, compares and casts it.
pub mod Wire
use afs_ld.Prelude.{
  ℕ, zero, suc, ◌+◌, ◌-◌, ◌*◌, ◌/◌, ◌%◌, ◌^◌, ◌<◌, Bool, true, false, not, List, [], ◌∷◌, ◌++◌,
  bit_or, ok, err, ◌>>=◌, length, ltb, ◌==◌, if◌then◌else◌,
}
use afs_ld.Prelude.Bytes.{Bytes, slice, le_bytes, le_value}
use afs_ld.Reader.{Read, truncated}

abbrev pub raw_reloc_size : ℕ
raw_reloc_size = 8

pub record RawRelocation : Type 0 where
  pub r_address : ℕ
  pub r_symbolnum : ℕ
  pub r_pcrel : Bool
  pub r_length : ℕ
  pub r_extern : Bool
  pub r_type : ℕ

-- `b as u32`
abbrev pub to_bit : Bool → ℕ
to_bit true = 1
to_bit false = 0

-- `x != 0`
abbrev pub nonzero : ℕ → Bool
nonzero x = not (x == 0)

abbrev pub unpack : ℕ → ℕ → RawRelocation
unpack address info = record {
  r_address = address;
  r_symbolnum = info % 2 ^ 24;
  r_pcrel = nonzero (info / 2 ^ 24 % 2);
  r_length = info / 2 ^ 25 % 4;
  r_extern = nonzero (info / 2 ^ 27 % 2);
  r_type = info / 2 ^ 28 % 16;
}

unfoldable pub parse : Bytes → Read RawRelocation
parse bytes =
    if ltb (length bytes) raw_reloc_size
    then err (truncated raw_reloc_size (length bytes) "relocation_info")
    else ok (unpack (le_value (slice bytes 0 4)) (le_value (slice bytes 4 8)))

-- `info` of `write`.
abbrev pub pack : RawRelocation → ℕ
pack r =
    bit_or
      (bit_or
        (bit_or (bit_or (r.r_symbolnum % 2 ^ 24) (to_bit r.r_pcrel * 2 ^ 24))
          (r.r_length % 4 * 2 ^ 25))
        (to_bit r.r_extern * 2 ^ 27))
      (r.r_type % 16 * 2 ^ 28)

unfoldable pub write : RawRelocation → Bytes → Bytes
write r out = (out ++ le_bytes 4 r.r_address) ++ le_bytes 4 (pack r)

-- The loop of `parse_raw_relocs` over `n` entries from offset `off`.
unfoldable pub parse_entries : Bytes → ℕ → ℕ → Read (List RawRelocation)
parse_entries file off zero = ok []
parse_entries file off (suc n) = do
  r ← parse (slice file off (off + raw_reloc_size))
  rs ← parse_entries file (off + raw_reloc_size) n
  ok (r ∷ rs)

-- Its bounds check; `usize` has 64 bits.
unfoldable pub parse_raw_relocs : Bytes → ℕ → ℕ → Read (List RawRelocation)
unfolding parse_entries
parse_raw_relocs file reloff nreloc =
    let total = nreloc * raw_reloc_size in
    let end = reloff + total in
    if ltb total (2 ^ 64)
    then if ltb end (2 ^ 64)
      then if ltb (length file) end
        then err (truncated end (length file) "reloc table")
        else parse_entries file reloff nreloc
      else err (truncated (2 ^ 64 - 1) (length file) "reloc table (reloff + size overflows)")
    else err (truncated (2 ^ 64 - 1) (length file) "reloc table (nreloc × 8 overflows)")

unfoldable pub write_raw_relocs : List RawRelocation → Bytes → Bytes
write_raw_relocs [] out = out
write_raw_relocs (r ∷ rs) out = write_raw_relocs rs (write r out)
