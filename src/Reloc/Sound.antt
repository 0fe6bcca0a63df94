-- ===== src/Reloc/Sound.antt =====
-- src/reloc/mod.rs: the relocations that the comments allow, and those that `validate_relocs` accepts.
use afs_ld.Prelude.{
  ℕ, ◌+◌, ◌^◌, ◌<◌, ◌≤◌, ◌≡◌, ◌≢◌, Bool, true, false, List, Option, none, some, ◌⊎◌, All,
}
use afs_ld.Reloc.Fused.{
  RelocKind, unsigned, branch26, page21, page_off12, got_load_page21, got_load_page_off12,
  pointer_to_got, tlvp_load_page21, tlvp_load_page_off12, subtractor, RelocLength, byte, half, word,
  quad, byte_width, Referent, Reloc,
}
use afs_ld.Reloc.Validate.{Resolves, SubtrahendResolves, IsChecked}

-- The kinds that write data and patch no instruction.
pub data IsData : RelocKind → Type 0 where
  unsigned_data : IsData unsigned
  subtractor_data : IsData subtractor
  pointer_data : IsData pointer_to_got

-- Data has four or eight bytes, an instruction has four.
pub data HasWidth : RelocKind → RelocLength → Type 0 where
  four : {k : RelocKind} → HasWidth k word
  eight : {k : RelocKind} → IsData k → HasWidth k quad

-- Branches and pages are relative to the place; page offsets and plain pointers are not. A difference and a
-- pointer to a slot of the GOT may be either.
pub data HasPcrel : RelocKind → Bool → Type 0 where
  branch : HasPcrel branch26 true
  page : HasPcrel page21 true
  got_page : HasPcrel got_load_page21 true
  tlvp_page : HasPcrel tlvp_load_page21 true
  offset : HasPcrel page_off12 false
  got_offset : HasPcrel got_load_page_off12 false
  tlvp_offset : HasPcrel tlvp_load_page_off12 false
  pointer : HasPcrel unsigned false
  difference : {p : Bool} → HasPcrel subtractor p
  got_pointer : {p : Bool} → HasPcrel pointer_to_got p

-- A subtractor has a second referent, and nothing else has one.
pub data IsPaired : RelocKind → Option Referent → Type 0 where
  pair : {r : Referent} → IsPaired subtractor (some r)
  single : {k : RelocKind} → k ≢ subtractor → IsPaired k none

-- A relocation as the comments have it: its bytes lie inside the section, its referents exist, and its width,
-- `pcrel` flag and subtrahend are those of its kind.
pub record IsSound (section_size nsyms nsects : ℕ) (r : Reloc) : Type 0 where
  pub inside : r.offset + byte_width r.len ≤ section_size
  pub no_wrap : r.offset + byte_width r.len < 2 ^ 64
  pub target : Resolves nsyms nsects r.referent
  pub second : SubtrahendResolves nsyms nsects r.subtrahend
  pub width : HasWidth r.kind r.len
  pub pcrel : HasPcrel r.kind r.pcrel
  pub paired : IsPaired r.kind r.subtrahend

-- What is wrong with a relocation that is accepted all the same: data of one or two bytes, a plain pointer that
-- is relative, or a subtrahend where none belongs.
pub data IsLax (r : Reloc) : Type 0 where
  narrow : IsData r.kind → (r.len ≡ byte) ⊎ (r.len ≡ half) → IsLax r
  relative : r.kind ≡ unsigned → r.pcrel ≡ true → IsLax r
  stray : r.kind ≢ subtractor → (second : Referent) → r.subtrahend ≡ some second → IsLax r

abbrev Second : RelocKind → Option Referent → Type 0
Second k s = (k ≢ subtractor) × ((second : Referent) × (s ≡ some second))

module _ (section_size nsyms nsects : ℕ) where
  -- Sound, or one of the three sorts that pass the tests of the code and are not sound.
  abbrev pub IsAccepted : Reloc → Type 0
  IsAccepted r =
      IsSound section_size nsyms nsects r ⊎ (IsChecked section_size nsyms nsects r × IsLax r)

  abbrev pub AllAccepted : List Reloc → Type 0
  AllAccepted = All IsAccepted
