-- ===== src/Reloc/Patch/Page.antt =====
-- `patch_page21`: the patched `adrp` gives the target's page.
use afs_ld.Prelude.{ℕ, ◌+◌, ◌*◌, ◌/◌, ◌%◌, ◌^◌, ◌≡◌, Bool}
use afs_ld.Prelude.Bytes.{Bytes}
use afs_ld.Reloc.Patch.{page, shr_signed, fits_signed, low_bits, page_delta}
use afs_ld.Reloc.Patch.Branch.{displacement}
use afs_ld.Reloc.Patch.Words.{Untouched, word_at}

-- `immhi:immlo` of an `adrp`.
abbrev pub adrp_field : ℕ → ℕ
adrp_field insn = insn / 2 ^ 29 % 4 + insn / 2 ^ 5 % 2 ^ 19 * 4

-- The page that `adrp` at an address gives, by the architecture's definition.
abbrev pub adrp_page : ℕ → ℕ → ℕ
adrp_page place insn = (page place + displacement 21 (2 ^ 12) (adrp_field insn)) % 2 ^ 64

-- The test of `patch_page21`.
abbrev pub page21_in_range : ℕ → ℕ → Bool
page21_in_range place target = fits_signed (shr_signed (page_delta place target) 12) 21

abbrev imm21_of : ℕ → ℕ → ℕ
imm21_of place target = low_bits (shr_signed (page_delta place target) 12) 21

abbrev pub GivesPage : ℕ → ℕ → Bytes → ℕ → Bytes → Type 0
GivesPage place target before offset after =
    (adrp_page place (word_at after offset) ≡ page target)
    × (word_at after offset % 2 ^ 5 ≡ word_at before offset % 2 ^ 5)
    × (word_at after offset / 2 ^ 31 ≡ word_at before offset / 2 ^ 31)
    × (word_at after offset / 2 ^ 24 % 2 ^ 5 ≡ word_at before offset / 2 ^ 24 % 2 ^ 5)
    × Untouched before offset after
