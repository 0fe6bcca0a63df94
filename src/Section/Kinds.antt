-- ===== src/Section/Kinds.antt =====
-- Which sections have no bytes in a file, and which have instructions.
use afs_ld.Prelude.{ℕ, ◌%◌, ◌≡◌, Bool, false, ◌||◌, arith, ◌==◌}
use afs_ld.Prelude.Bytes.{Bytes}
use afs_ld.Section.{classify_regular, classify_section, is_zerofill}

-- `S_ZEROFILL`, `S_GB_ZEROFILL` and `S_THREAD_LOCAL_ZEROFILL`.
abbrev pub zerofill_type : ℕ → Bool
zerofill_type ty = ty == 0x1 || (ty == 0xc || ty == 0x12)

regular_kinds :
    (segname sectname : Bytes) (flags : ℕ)
    → (is_zerofill (classify_regular segname sectname flags) ≡ false)
unfolding classify_regular
regular_kinds segname sectname flags = ground arith

-- Whether a section has no bytes in the file depends on the type in its flags alone, not on its names.
pub is_zerofill-classify_section :
    (segname sectname : Bytes) (flags : ℕ)
    → is_zerofill (classify_section segname sectname flags) ≡ zerofill_type (flags % 256)
unfolding classify_section
is_zerofill-classify_section segname sectname flags =
    ground (arith, regular_kinds segname sectname flags)
