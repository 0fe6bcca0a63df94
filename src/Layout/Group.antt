-- ===== src/Layout/Group.antt =====
-- src/layout.rs, `build_with_synthetics_and_extra_filtered`: atoms are grouped into output sections, and the
-- sections of generated tables are added. Which atoms are live and which sections are generated are inputs;
-- of an input's object only its sections are read.
pub mod Placed
pub mod Sorted
mod Tests
use Prim.Native.String.{String}
use afs_ld.Prelude.{
  ℕ, zero, suc, ◌+◌, ◌-◌, ◌^◌, ◌%◌, Bool, true, false, not, ◌&&◌, ◌||◌, List, [], ◌∷◌, ◌++◌, Option,
  none, some, length, set, get_elem?, max, min, ok, err, ◌>>=◌, ok_or, ◌==◌, if◌then◌else◌, bit_and,
  bit_or,
}
use afs_ld.Prelude.Bytes.{Bytes, codes, same_bytes, contains}
use afs_ld.Section.{SectionKind, InputSection, zero_fill}
use afs_ld.Atoms.{Atom, AtomSection, common}
use afs_ld.Prelude.Sort.{sort_by}
use afs_ld.Layout.Segments.{compare_output_sections}
use afs_ld.Layout.{OutputKind, OutputAtom, OutputSection, Panics, normalize_output_alignment}
use afs_ld.Layout.Place.{is_empty}

pub record LayoutInput : Type 0 where
  pub id : ℕ
  pub sections : List InputSection
  pub load_order : ℕ
  pub archive_member_offset : Option ℕ

pub record SectionKey : Type 0 where
  pub segment : Bytes
  pub name : Bytes
  pub flags : ℕ
  pub stub_size : ℕ

unfoldable pub output_section_flags : ℕ → ℕ
output_section_flags flags = bit_and flags (2 ^ 32 - 1 - 0x300)

unfoldable pub compatibility_flags : ℕ → ℕ
unfolding output_section_flags
compatibility_flags flags = bit_and (output_section_flags flags) (2 ^ 32 - 1 - 0x1800_0000)

unfoldable pub section_key : (segment name : Bytes) → (flags reserved2 : ℕ) → SectionKey
unfolding compatibility_flags
section_key segment name flags reserved2 = record {
  segment = segment;
  name = name;
  flags = compatibility_flags flags;
  stub_size = if bit_and flags 0xff == 8 then reserved2 else 0;
}

unfoldable pub output_section_key : InputSection → SectionKey
unfolding section_key
output_section_key s =
    let segment =
      if same_bytes s.segname (codes "__DATA") && same_bytes s.sectname (codes "__const")
      then codes "__DATA_CONST"
      else s.segname in
    section_key segment s.sectname s.header.flags s.header.reserved2

unfoldable pub output_section_key_from_output : OutputSection → SectionKey
unfolding section_key
output_section_key_from_output s = section_key s.segment s.name s.flags s.reserved2

abbrev pub same_key : SectionKey → SectionKey → Bool
same_key a b =
    (same_bytes a.segment b.segment && same_bytes a.name b.name)
    && (a.flags == b.flags && a.stub_size == b.stub_size)

-- The key of tentative definitions, which have no section in their input.
abbrev pub common_key : SectionKey
common_key = record { segment = codes "__DATA"; name = codes "__common"; flags = 1; stub_size = 0 }

abbrev pub atom_key : Option InputSection → SectionKey
atom_key none = common_key
atom_key (some input_section) = output_section_key input_section

abbrev or_else : Option LayoutInput → Option LayoutInput → Option LayoutInput
or_else none other = other
or_else (some input) other = some input

-- `input_map.get`: of inputs with the same id the last is in the map.
unfoldable pub find_input : List LayoutInput → ℕ → Option LayoutInput
find_input [] id = none
find_input (input ∷ inputs) id =
    or_else (find_input inputs id) (if input.id == id then some input else none)

abbrev pub is_common : AtomSection → Bool
is_common common = true
is_common _ = false

unfoldable pub find_input_section : List LayoutInput → Atom → Panics (Option InputSection)
unfolding find_input
find_input_section inputs atom = if is_common atom.section then ok none else (do
  input ← ok_or (find_input inputs atom.origin) "missing object for input"
  input_section ←
      ok_or (get_elem? input.sections (atom.input_section - 1)) "section missing for atom"
  ok (some input_section))

-- The output section of a key that no atom had before.
unfoldable pub new_section : SectionKey → Option InputSection → Atom → OutputSection
unfolding normalize_output_alignment output_section_flags
new_section key info atom =
    let fresh : SectionKind → ℕ → ℕ → ℕ → ℕ → ℕ → OutputSection =
      λ kind align_pow2 flags reserved1 reserved2 reserved3. record {
        segment = key.segment;
        name = key.name;
        kind = kind;
        align_pow2 = align_pow2;
        flags = flags;
        reserved1 = reserved1;
        reserved2 = reserved2;
        reserved3 = reserved3;
        atoms = [];
        synthetic_offset = 0;
        synthetic_data = [];
        addr = 0;
        size = 0;
        file_off = 0;
      } in
    elim info [
      | some s ↦
          fresh s.kind (normalize_output_alignment s.kind (min s.header.align 255))
            (output_section_flags s.header.flags) s.header.reserved1 s.header.reserved2
            s.header.reserved3
      | none ↦ fresh zero_fill atom.align_pow2 1 0 0 0
    ]

abbrev pub flags_with : Option InputSection → ℕ → ℕ
flags_with none flags = flags
flags_with (some s) flags = bit_or flags (output_section_flags s.header.flags)

abbrev pub output_atom : ℕ × Atom → OutputAtom
output_atom (id, atom) = record { atom = id; offset = 0; size = atom.size; content = atom.content }

unfoldable pub add_atom : Option InputSection → ℕ × Atom → OutputSection → OutputSection
unfolding normalize_output_alignment
add_atom info (id, atom) out = record out {
  flags = flags_with info out.flags;
  align_pow2 = normalize_output_alignment out.kind (max out.align_pow2 atom.align_pow2);
  atoms = out.atoms ++ output_atom (id, atom) ∷ [];
}

-- The state of the loop: `sections` and `section_index`.
pub record Groups : Type 0 where
  pub sections : List OutputSection
  pub index : List (SectionKey × ℕ)

abbrev pub no_groups : Groups
no_groups = record { sections = []; index = [] }

abbrev pub find_key : List (SectionKey × ℕ) → SectionKey → Option ℕ
find_key [] key = none
find_key ((k, idx) ∷ index) key = if same_key k key then some idx else find_key index key

-- The index of the key's section, which is made where there is none.
abbrev pub section_at : Option ℕ → SectionKey → OutputSection → Groups → ℕ × Groups
section_at (some idx) key fresh groups = (idx, groups)
section_at none key fresh groups = (
  length groups.sections,
  record {
    sections = groups.sections ++ fresh ∷ [];
    index = (key, length groups.sections) ∷ groups.index;
  },
)

-- One round of the loop over the live atoms.
unfoldable pub group_atom : List LayoutInput → ℕ × Atom → Groups → Panics Groups
unfolding find_input_section new_section add_atom output_section_key
group_atom inputs (id, atom) groups = do
  info ← find_input_section inputs atom
  let key = atom_key info
  let (idx, with) = section_at (find_key groups.index key) key (new_section key info atom) groups
  out ← ok_or (get_elem? with.sections idx) "index out of bounds"
  ok (record with { sections = set with.sections idx (add_atom info (id, atom) out) })

abbrev pub is_live : Option (List ℕ) → ℕ → Bool
is_live none id = true
is_live (some live) id = contains live id

unfoldable pub group_atoms :
    List LayoutInput → Option (List ℕ) → List (ℕ × Atom) → Groups → Panics Groups
unfolding group_atom
group_atoms inputs live [] groups = ok groups
group_atoms inputs live ((id, atom) ∷ atoms) groups =
    if is_live live id
    then (do next ← group_atom inputs (id, atom) groups; group_atoms inputs live atoms next)
    else group_atoms inputs live atoms groups

-- `merge_synthetic_section`; its assertions are in debug builds alone.
unfoldable pub merge_synthetic_section : OutputSection → OutputSection → OutputSection
unfolding normalize_output_alignment
merge_synthetic_section existing synthetic = record existing {
  align_pow2 =
      normalize_output_alignment existing.kind (max existing.align_pow2 synthetic.align_pow2);
  flags = bit_or existing.flags synthetic.flags;
  reserved1 = synthetic.reserved1;
  reserved2 = synthetic.reserved2;
  reserved3 = synthetic.reserved3;
  synthetic_data = existing.synthetic_data ++ synthetic.synthetic_data;
}

-- A section of __DATA,__data goes into the first with its key, any other to the end.
abbrev pub merge_first : SectionKey → OutputSection → List OutputSection → List OutputSection
merge_first key synthetic [] = synthetic ∷ []
merge_first key synthetic (s ∷ sections) =
    if same_key (output_section_key_from_output s) key
    then merge_synthetic_section s synthetic ∷ sections
    else s ∷ merge_first key synthetic sections

unfoldable pub add_synthetic : OutputSection → List OutputSection → List OutputSection
unfolding output_section_flags output_section_key_from_output merge_synthetic_section
add_synthetic generated sections =
    let synthetic = record generated { flags = output_section_flags generated.flags } in
    if same_bytes synthetic.segment (codes "__DATA") && same_bytes synthetic.name (codes "__data")
    then merge_first (output_section_key_from_output synthetic) synthetic sections
    else sections ++ synthetic ∷ []

unfoldable pub add_synthetics : List OutputSection → List OutputSection → List OutputSection
unfolding add_synthetic
add_synthetics [] sections = sections
add_synthetics (generated ∷ rest) sections = add_synthetics rest (add_synthetic generated sections)

-- The sections before they are split: grouped, with the generated ones, in their order.
unfoldable pub grouped_sections :
    (kind : OutputKind) (inputs : List LayoutInput) (atoms : List (ℕ × Atom))
    (synthetics : List OutputSection) (live : Option (List ℕ))
    → Panics (List OutputSection)
unfolding group_atoms add_synthetics sort_by compare_output_sections
grouped_sections kind inputs atoms synthetics live = do
  groups ← group_atoms inputs live atoms no_groups
  ok (sort_by (compare_output_sections kind) (add_synthetics synthetics groups.sections))
