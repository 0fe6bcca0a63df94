-- ===== src/Layout/Tests.antt =====
-- Runs of the layout: two atoms in a section, a cut, an extra section, and the addresses of three sections.
use mathlib.Core.List.{Perm}
use Prim.Native.String.{String}
use afs_ld.Prelude.{
  ℕ, ◌≡◌, refl, false, List, [], ◌∷◌, ◌++◌, map, some, none, ok, err, ◌⊎◌, All, arith,
}
use afs_ld.Prelude.Bytes.{Bytes, codes, same_bytes}
use afs_ld.Section.{text, plain_data, zero_fill, SectionKind}
use afs_ld.Atoms.{Atom, AtomTable}
use afs_ld.Atoms as A
use afs_ld.Layout.{OutputAtom, OutputSection, executable, Layout}
use afs_ld.Layout.Place.{place_section, synthetic_data_align_pow2}
use afs_ld.Layout.Place.Bounds.{SectionPlaced, place_section-SectionPlaced}
use afs_ld.Layout.Split.{
  split_sections_after_atoms, after_section, after_atom, insert_after, insert_extra_sections,
  ExtraOutputSection, is_anchor,
}
use afs_ld.Layout.Split.Cuts.{all_atoms, IsCut, split_sections_after_atoms-IsCut}
use afs_ld.Layout.Split.Extra.{IsAfter, insert_after-IsAfter, insert_extra_sections-Perm}
use afs_ld.Layout.Addresses.{assign_addresses}
use afs_ld.Layout.Addresses.Assigned.{IsAssigned, names}
use afs_ld.Layout.Segments.{build_segments}
use afs_ld.Layout.Segments.Addressed.{unassigned, build_segments-assign_addresses}

abbrev atom : ℕ → ℕ → ℕ → Atom
atom id size align = record {
  id = id;
  origin = 0;
  input_section = 1;
  section = A.text;
  input_offset = 0;
  size = size;
  align_pow2 = align;
  owner = none;
  alt_entries = [];
  content = [];
  flags = 0;
  parent_of = none;
}

abbrev two_atoms : AtomTable
two_atoms = record { atoms = atom 1 5 0 ∷ atom 2 8 3 ∷ [] }

abbrev placed : ℕ → ℕ → OutputAtom
placed id size = record { atom = id; offset = 0; size = size; content = [] }

abbrev section : Bytes → Bytes → SectionKind → ℕ → List OutputAtom → ℕ → OutputSection
section segment name kind align atoms size = record {
  segment = segment;
  name = name;
  kind = kind;
  align_pow2 = align;
  flags = 0;
  reserved1 = 0;
  reserved2 = 0;
  reserved3 = 0;
  atoms = atoms;
  synthetic_offset = 0;
  synthetic_data = [];
  addr = 0;
  size = size;
  file_off = 0;
}

abbrev text_section : OutputSection
text_section = section (codes "__TEXT") (codes "__text") text 3 (placed 1 5 ∷ placed 2 8 ∷ []) 0

abbrev text_placed : OutputSection
text_placed = record text_section {
  atoms = placed 1 5 ∷ record (placed 2 8) { offset = 8 } ∷ [];
  size = 16;
}

text_is_placed : place_section two_atoms text_section ≡ ok text_placed
unfolding place_section
text_is_placed = refl

place_section-SectionPlaced_example :
    (after : OutputSection) × (place_section two_atoms text_section ≡ ok after)
    × SectionPlaced two_atoms text_section after
unfolding synthetic_data_align_pow2 A.get
place_section-SectionPlaced_example =
    place_section-SectionPlaced two_atoms text_section
      ((atom 1 5 0, refl), ((atom 2 8 3, refl), tt)) (omega arith)

split_sections_after_atoms-IsCut_example :
    (all_atoms (split_sections_after_atoms (text_section ∷ []) (1 ∷ []))
      ≡ all_atoms (text_section ∷ []))
    × All (IsCut (1 ∷ [])) (split_sections_after_atoms (text_section ∷ []) (1 ∷ []))
split_sections_after_atoms-IsCut_example =
    split_sections_after_atoms-IsCut (text_section ∷ []) (1 ∷ [])

abbrev data_section : OutputSection
data_section = section (codes "__DATA") (codes "__data") plain_data 3 [] 5

abbrev bss_section : OutputSection
bss_section = section (codes "__DATA") (codes "__bss") zero_fill 4 [] 64

insert_after-IsAfter_example :
    ((after : List OutputSection) × (insert_after
          (some (after_section (codes "__TEXT") (codes "__text")))
          (text_section ∷ bss_section ∷ [])
          data_section
        ≡ ok after)
      × IsAfter
          (after_section (codes "__TEXT") (codes "__text"))
          (text_section ∷ bss_section ∷ [])
          data_section
          after)
    ⊎ ((message : String) × (insert_after
            (some (after_section (codes "__TEXT") (codes "__text")))
            (text_section ∷ bss_section ∷ [])
            data_section
          ≡ err message)
        × All
            (λ s. is_anchor (after_section (codes "__TEXT") (codes "__text")) s ≡ false)
            (text_section ∷ bss_section ∷ []))
insert_after-IsAfter_example =
    insert_after-IsAfter (after_section (codes "__TEXT") (codes "__text"))
      (text_section ∷ bss_section ∷ []) data_section

abbrev extra : ExtraOutputSection
extra = record { after = some (after_atom 2); section = data_section }

insert_extra_sections-Perm_example :
    Perm
      (text_section ∷ data_section ∷ bss_section ∷ [])
      (map (λ e. e.section) (extra ∷ []) ++ text_section ∷ bss_section ∷ [])
unfolding insert_extra_sections
insert_extra_sections-Perm_example =
    insert_extra_sections-Perm (text_section ∷ bss_section ∷ [])
      (text_section ∷ data_section ∷ bss_section ∷ []) (extra ∷ []) refl

abbrev three_sections : List OutputSection
three_sections = text_placed ∷ data_section ∷ bss_section ∷ []

three_segments :
    names (build_segments executable three_sections)
    ≡ codes "__PAGEZERO" ∷ codes "__TEXT" ∷ codes "__DATA" ∷ codes "__LINKEDIT" ∷ []
unfolding build_segments
three_segments = refl

build_segments-assign_addresses_example :
    (after : Layout) × (assign_addresses 0x200 (unassigned executable three_sections) ≡ ok after)
    × IsAssigned 0x200 (unassigned executable three_sections) after
unfolding build_segments same_bytes
build_segments-assign_addresses_example =
    build_segments-assign_addresses executable 0x200 three_sections (refl, (refl, (refl, tt)))
      (omega arith) (omega arith)
