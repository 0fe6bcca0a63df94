-- ===== src/Layout/Group/Tests.antt =====
-- src/layout.rs: a text atom, a constant and a tentative definition are grouped; another text atom is not live.
use mathlib.Core.List.{Perm}
use afs_ld.Prelude.{ℕ, ◌≡◌, refl, List, [], ◌∷◌, Option, some, none, map, ok, Result}
use afs_ld.Prelude.Bytes.{Bytes, codes}
use afs_ld.Section.{SectionKind, text, const_data, Header, InputSection}
use afs_ld.Atoms as A
use afs_ld.Atoms.{Atom, AtomSection}
use afs_ld.Layout.{OutputSection, Panics, executable}
use afs_ld.Layout.Split.Cuts.{all_atoms}
use afs_ld.Layout.Group.{LayoutInput, output_atom, find_input_section, grouped_sections}
use afs_ld.Layout.Group.Placed.{live_of}
use afs_ld.Layout.Group.Sorted.{grouped_sections-Perm}

abbrev header : Bytes → Bytes → ℕ → Header
header segname sectname align = record {
  sectname = sectname;
  segname = segname;
  addr = 0;
  size = 8;
  offset = 0;
  align = align;
  reloff = 0;
  nreloc = 0;
  flags = 0;
  reserved1 = 0;
  reserved2 = 0;
  reserved3 = 0;
}

abbrev input_section : Bytes → Bytes → SectionKind → ℕ → InputSection
input_section segname sectname kind align = record {
  segname = segname;
  sectname = sectname;
  kind = kind;
  header = header segname sectname align;
  contents = [];
  raw_relocs = [];
}

abbrev inputs : List LayoutInput
inputs =
    record {
      id = 7;
      sections =
          input_section (codes "__TEXT") (codes "__text") text 2
          ∷ input_section (codes "__DATA") (codes "__const") const_data 3
          ∷ [];
      load_order = 0;
      archive_member_offset = none;
    }
    ∷ []

abbrev atom : ℕ → AtomSection → Atom
atom input_section section = record {
  id = 0;
  origin = 7;
  input_section = input_section;
  section = section;
  input_offset = 0;
  size = 8;
  align_pow2 = 3;
  owner = none;
  alt_entries = [];
  content = [];
  flags = 0;
  parent_of = none;
}

abbrev atoms : List (ℕ × Atom)
atoms =
    (1, atom 0 A.common) ∷ (2, atom 2 A.const_data) ∷ (3, atom 1 A.text) ∷ (4, atom 1 A.text) ∷ []

abbrev live : Option (List ℕ)
live = some (1 ∷ 2 ∷ 4 ∷ [])

abbrev places : Panics (List OutputSection) → List (Bytes × ℕ)
places (Result.ok sections) = map (λ s. (s.name, s.align_pow2)) sections
places (Result.err message) = []

sections_in_order :
    places (grouped_sections executable inputs atoms [] live)
    ≡ (codes "__text", 3) ∷ (codes "__const", 3) ∷ (codes "__common", 3) ∷ []
unfolding grouped_sections
sections_in_order = refl

grouped_sections-Perm_example :
    (sections : List OutputSection) × (grouped_sections executable inputs atoms [] live
      ≡ ok sections)
    × Perm (all_atoms sections) (map output_atom (live_of live atoms))
unfolding find_input_section
grouped_sections-Perm_example =
    grouped_sections-Perm executable inputs atoms [] live ((_, refl), ((_, refl), ((_, refl), tt)))
      tt
