-- ===== src/Nlist/Tests.antt =====
-- Runs of the symbol-table reader on one record, in a file with a byte before it and one after it.
use afs_ld.Prelude.{◌*◌, ◌≡◌, refl, [], ◌∷◌, some, ok, arith, length, take, drop}
use afs_ld.Nlist.{
  RawNlist, InputSymbol, parse, parse_nlist_table, write_nlist_table, common_size,
  common_align_pow2,
}
use afs_ld.Nlist.Table.{write_nlist_table-parse_nlist_table}
use afs_ld.Nlist.Wire.{Fits}
use afs_ld.Prelude.Bytes.{Bytes, IsBytes, all_bytes-IsBytes}

-- A common symbol of 64 bytes, aligned to 8.
abbrev common : RawNlist
common = record { strx = 258; n_type = 1; n_sect = 0; n_desc = 0x300; n_value = 64 }

abbrev common_symbol : InputSymbol
common_symbol = record { raw = common }

common_read : (common_size common_symbol ≡ some 64) × (common_align_pow2 common_symbol ≡ some 3)
unfolding common_size common_align_pow2
common_read = (refl, refl)

common-Fits : Fits common
common-Fits = record {
  strx = omega arith;
  n_type = omega arith;
  n_sect = omega arith;
  n_desc = omega arith;
  n_value = omega arith;
}

abbrev image : Bytes
image = 7 ∷ 2 ∷ 1 ∷ 0 ∷ 0 ∷ 1 ∷ 0 ∷ 0 ∷ 3 ∷ 64 ∷ 0 ∷ 0 ∷ 0 ∷ 0 ∷ 0 ∷ 0 ∷ 0 ∷ 9 ∷ []

image-IsBytes : IsBytes image
image-IsBytes = all_bytes-IsBytes image refl

image_parses : parse_nlist_table image 1 1 ≡ ok (common_symbol ∷ [])
unfolding parse_nlist_table parse
image_parses = refl

write_nlist_table-parse_nlist_table_example :
    (write_nlist_table (common_symbol ∷ []) [] ≡ take (1 * 16) (drop 1 image))
    × (length (common_symbol ∷ []) ≡ 1)
write_nlist_table-parse_nlist_table_example =
    write_nlist_table-parse_nlist_table image 1 1 (common_symbol ∷ []) image-IsBytes image_parses
