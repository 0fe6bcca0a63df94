-- ===== src/Layout/Place.antt =====
-- src/layout.rs, `Layout::build_with_synthetics_and_extra_filtered`: the loop that gives the atoms of a
-- section their offsets and the section its size.
pub mod Bounds
use afs_ld.Prelude.{
  ℕ, ◌+◌, Bool, true, false, not, ◌&&◌, ◌||◌, List, [], ◌∷◌, ok, ok_or, ◌>>=◌, length,
  if◌then◌else◌,
}
use afs_ld.Prelude.Bytes.{Bytes, codes, same_bytes}
use afs_ld.Atoms.{AtomTable}
use afs_ld.Atoms as A
use afs_ld.Layout.{OutputAtom, OutputSection, Panics, alignment, align_up, u64}

abbrev pub is_empty {ℓ} : {A : Type ℓ} → List A → Bool
is_empty [] = true
is_empty (_ ∷ _) = false

-- The atoms with their offsets, and the size of the section; a panic where an atom is not in the table.
unfoldable pub place_atoms : AtomTable → ℕ → List OutputAtom → Panics (List OutputAtom × ℕ)
unfolding align_up A.get
place_atoms table size [] = ok ([], size)
place_atoms table size (placed ∷ rest) = do
  atom ← ok_or (A.get table placed.atom) "index out of bounds"
  let offset = align_up size (alignment atom.align_pow2)
  (atoms, end) ← place_atoms table (u64 (offset + placed.size)) rest
  ok (record placed { offset = offset } ∷ atoms, end)

unfoldable pub synthetic_data_align_pow2 : OutputSection → ℕ
unfolding same_bytes
synthetic_data_align_pow2 section =
    if same_bytes section.segment (codes "__DATA") && same_bytes section.name (codes "__data")
    then 3
    else section.align_pow2

unfoldable pub synthetic_start : OutputSection → ℕ → ℕ
unfolding align_up synthetic_data_align_pow2
synthetic_start section size =
    if is_empty section.synthetic_data || is_empty section.atoms
    then 0
    else align_up size (alignment (synthetic_data_align_pow2 section))

-- The section with its atoms, its synthetic data at `start`, and its size.
abbrev pub closed : OutputSection → ℕ → List OutputAtom × ℕ → OutputSection
closed section start (atoms, size) = record section {
  atoms = atoms;
  synthetic_offset = start;
  size =
      if is_empty section.synthetic_data then size else u64 (start + length section.synthetic_data);
}

unfoldable pub close_section : OutputSection → List OutputAtom × ℕ → OutputSection
unfolding synthetic_start
close_section section placed = closed section (synthetic_start section placed.1) placed

unfoldable pub place_section : AtomTable → OutputSection → Panics OutputSection
unfolding place_atoms close_section
place_section table section = do
  placed ← place_atoms table 0 section.atoms
  ok (close_section section placed)

unfoldable pub place_sections : AtomTable → List OutputSection → Panics (List OutputSection)
unfolding place_section
place_sections table [] = ok []
place_sections table (section ∷ sections) = do
  placed ← place_section table section
  rest ← place_sections table sections
  ok (placed ∷ rest)
