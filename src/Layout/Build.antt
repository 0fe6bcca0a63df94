-- ===== src/Layout/Build.antt =====
-- src/layout.rs, `build_with_synthetics_and_extra_filtered`: the order of the atoms in a section, and the whole
-- layout, step by step. The sections of the synthetic plan are an input.
mod Tests
use Prim.Native.Nat.{Ordering, compare}
use Prim.Native.String.{String}
use afs_ld.Prelude.{
  ℕ, Bool, true, false, List, [], ◌∷◌, Option, none, some, map, length, ltb, ok, err, ◌>>=◌, ok_or,
  if◌then◌else◌,
}
use afs_ld.Prelude.Sort.{then_with, sort_by}
use afs_ld.Atoms as A
use afs_ld.Atoms.{Atom, AtomTable}
use afs_ld.Layout.{OutputKind, OutputAtom, OutputSection, Layout, Panics}
use afs_ld.Layout.Group.{LayoutInput, find_input, grouped_sections}
use afs_ld.Layout.Split.{ExtraOutputSection, split_sections_after_atoms, insert_extra_sections}
use afs_ld.Layout.Place.{place_sections}
use afs_ld.Layout.Segments.{build_segments}
use afs_ld.Layout.Addresses.{assign_addresses}

-- What atoms are ordered by.
pub record AtomOrder : Type 0 where
  pub load_order : ℕ
  pub member_offset : ℕ
  pub origin : ℕ
  pub input_offset : ℕ
  pub atom : ℕ

abbrev unwrap_or_zero : Option ℕ → ℕ
unwrap_or_zero none = 0
unwrap_or_zero (some n) = n

unfoldable pub atom_order :
    List LayoutInput → AtomTable → OutputAtom → Panics (OutputAtom × AtomOrder)
unfolding find_input A.get
atom_order inputs table placed = do
  atom ← ok_or (A.get table placed.atom) "index out of bounds"
  input ← ok_or (find_input inputs atom.origin) "missing object for input"
  ok (
    placed,
    record {
      load_order = input.load_order;
      member_offset = unwrap_or_zero input.archive_member_offset;
      origin = atom.origin;
      input_offset = atom.input_offset;
      atom = placed.atom;
    },
  )

abbrev compare_atoms : OutputAtom × AtomOrder → OutputAtom × AtomOrder → Ordering
compare_atoms (_, a) (_, b) =
    then_with
      (then_with
        (then_with
          (then_with (compare a.load_order b.load_order) (compare a.member_offset b.member_offset))
          (compare a.origin b.origin))
        (compare a.input_offset b.input_offset))
      (compare a.atom b.atom)

abbrev atom_orders :
    List LayoutInput → AtomTable → List OutputAtom → Panics (List (OutputAtom × AtomOrder))
atom_orders inputs table [] = ok []
atom_orders inputs table (placed ∷ rest) = do
  first ← atom_order inputs table placed
  others ← atom_orders inputs table rest
  ok (first ∷ others)

-- Fewer than two atoms are never compared; of more, each is, and panics where it has no input.
unfoldable pub sort_atoms :
    List LayoutInput → AtomTable → List OutputAtom → Panics (List OutputAtom)
unfolding atom_order sort_by
sort_atoms inputs table atoms = if ltb (length atoms) 2 then ok atoms else (do
  orders ← atom_orders inputs table atoms
  ok (map (λ x. x.0) (sort_by compare_atoms orders)))

unfoldable pub sort_all_atoms :
    List LayoutInput → AtomTable → List OutputSection → Panics (List OutputSection)
unfolding sort_atoms
sort_all_atoms inputs table [] = ok []
sort_all_atoms inputs table (section ∷ sections) = do
  atoms ← sort_atoms inputs table section.atoms
  rest ← sort_all_atoms inputs table sections
  ok (record section { atoms = atoms } ∷ rest)

-- The whole layout: group, order, split, insert, place, and assign addresses.
unfoldable pub build_with_synthetics_and_extra_filtered :
    (kind : OutputKind) (inputs : List LayoutInput) (table : AtomTable) (header_size : ℕ)
    (synthetics : List OutputSection) (live : Option (List ℕ))
    (extra_sections : List ExtraOutputSection) (split_after_atoms : List ℕ)
    → Panics Layout
unfolding grouped_sections sort_all_atoms split_sections_after_atoms insert_extra_sections
    place_sections build_segments assign_addresses A.iter
build_with_synthetics_and_extra_filtered kind inputs table header_size synthetics live
      extra_sections split_after_atoms =
    do
      grouped ← grouped_sections kind inputs (A.iter table) synthetics live
      ordered ← sort_all_atoms inputs table grouped
      extended ←
          insert_extra_sections (split_sections_after_atoms ordered split_after_atoms)
            extra_sections
      placed ← place_sections table extended
      assign_addresses header_size
          (record { kind = kind; segments = build_segments kind placed; sections = placed })
