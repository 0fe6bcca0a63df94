-- ===== src/Reloc/Fused.antt =====
-- `Reloc`, the fused linker-facing relocation, and the checks on it. Addends, i64 in the source, are
-- integers.
use afs_ld.Prelude.{
  ℕ, ◌+◌, ◌^◌, Bool, true, false, not, ◌&&◌, ◌||◌, List, [], ◌∷◌, Option, none, some, ok, ◌>>◌,
  ensure, ltb, leb, ◌==◌, if◌then◌else◌,
}
use afs_ld.Prelude.Int.{ℤ}
use afs_ld.Reader.{Read, bad_relocation}

pub data RelocKind : Type 0 where
  unsigned branch26 page21 page_off12 got_load_page21 got_load_page_off12 : RelocKind
  pointer_to_got tlvp_load_page21 tlvp_load_page_off12 subtractor : RelocKind

pub data RelocLength : Type 0 where
  byte half word quad : RelocLength

abbrev pub from_bits : ℕ → Option RelocLength
from_bits v =
    if v == 0
    then some byte
    else if v == 1
    then some half
    else if v == 2
    then some word
    else if v == 3
    then some quad
    else none

abbrev pub as_bits : RelocLength → ℕ
as_bits byte = 0
as_bits half = 1
as_bits word = 2
as_bits quad = 3

-- `1 << (self as u8)`
abbrev pub byte_width : RelocLength → ℕ
byte_width l = 2 ^ as_bits l

pub data Referent : Type 0 where
  symbol : (index : ℕ) → Referent
  section : (index : ℕ) → Referent

pub record Reloc : Type 0 where
  pub offset : ℕ
  pub kind : RelocKind
  pub len : RelocLength
  pub pcrel : Bool
  pub referent : Referent
  pub addend : ℤ
  pub subtrahend : Option Referent

-- `kind == RelocKind::Subtractor`
abbrev pub is_subtractor : RelocKind → Bool
is_subtractor subtractor = true
is_subtractor _ = false

abbrev pub is_word : RelocLength → Bool
is_word word = true
is_word _ = false

abbrev pub kind_expects_word_only : RelocKind → Bool
kind_expects_word_only unsigned = false
kind_expects_word_only subtractor = false
kind_expects_word_only pointer_to_got = false
kind_expects_word_only _ = true

abbrev pub kind_expects_pcrel : RelocKind → Option Bool
kind_expects_pcrel branch26 = some true
kind_expects_pcrel page21 = some true
kind_expects_pcrel got_load_page21 = some true
kind_expects_pcrel tlvp_load_page21 = some true
kind_expects_pcrel page_off12 = some false
kind_expects_pcrel got_load_page_off12 = some false
kind_expects_pcrel tlvp_load_page_off12 = some false
kind_expects_pcrel unsigned = none
kind_expects_pcrel subtractor = none
kind_expects_pcrel pointer_to_got = none

abbrev pub Checked : Type 0
Checked = Read (Unit {0})

unfoldable pub validate_referent : ℕ → Referent → ℕ → ℕ → Checked
validate_referent offset (symbol index) nsyms nsects =
    ensure (ltb index nsyms) (bad_relocation offset "r_symbolnum past end of symbol table")
validate_referent offset (section index) nsyms nsects =
    ensure (not (index == 0 || ltb nsects index))
      (bad_relocation offset "section-relative reloc with out-of-range section index")

abbrev pub validate_subtrahend : ℕ → Option Referent → ℕ → ℕ → Checked
validate_subtrahend offset none nsyms nsects = ok tt
validate_subtrahend offset (some r) nsyms nsects = validate_referent offset r nsyms nsects

abbrev pub same_bool : Bool → Bool → Bool
same_bool true b = b
same_bool false b = not b

abbrev pub validate_pcrel : ℕ → Bool → Option Bool → Checked
validate_pcrel offset pcrel none = ok tt
validate_pcrel offset pcrel (some expected) =
    ensure (same_bool pcrel expected)
      (bad_relocation offset "reloc kind has fixed r_pcrel value that this entry violates")

abbrev pub is_none : Option Referent → Bool
is_none none = true
is_none (some _) = false

unfoldable pub validate_reloc : Reloc → ℕ → ℕ → ℕ → Checked
unfolding validate_referent
validate_reloc r section_size nsyms nsects = do
  let end = r.offset + byte_width r.len
  ensure (ltb end (2 ^ 64)) (bad_relocation r.offset "reloc offset + width overflows u64")
  ensure (leb end section_size)
      (bad_relocation r.offset "reloc offset + width exceeds section size")
  validate_referent r.offset r.referent nsyms nsects
  validate_subtrahend r.offset r.subtrahend nsyms nsects
  ensure (not (kind_expects_word_only r.kind && not (is_word r.len)))
      (bad_relocation r.offset "reloc kind must use Word length (4 bytes)")
  validate_pcrel r.offset r.pcrel (kind_expects_pcrel r.kind)
  ensure (not (is_subtractor r.kind && is_none r.subtrahend))
      (bad_relocation r.offset "Subtractor kind requires a subtrahend")

unfoldable pub validate_relocs : List Reloc → ℕ → ℕ → ℕ → Checked
unfolding validate_reloc
validate_relocs [] section_size nsyms nsects = ok tt
validate_relocs (r ∷ rs) section_size nsyms nsects = do
  validate_reloc r section_size nsyms nsects
  validate_relocs rs section_size nsyms nsects
