-- ===== src/Layout/Place/Bounds.antt =====
-- src/layout.rs: the atoms of a placed section are aligned, in order, apart from each other and inside it.
use afs_ld.Prelude.{
  ℕ, ◌+◌, ◌^◌, ◌%◌, ◌≤◌, ◌<◌, ◌≡◌, refl, sym, ap, true, false, List, [], ◌∷◌, map, Option, none,
  some, ok, ok-injective, min, Bool-cases, inl, inr, length, All, if◌then◌else◌, arith,
}
use afs_ld.Prelude.Bytes.{Bytes}
use afs_ld.Prelude.Bits.Mask.{pow_pos}
use afs_ld.Atoms.{Atom, AtomTable}
use afs_ld.Atoms as A
use afs_ld.Layout.{OutputAtom, OutputSection, alignment, align_up, u64}
use afs_ld.Layout.Align.{alignment-IsAlignUp}
use afs_ld.Layout.Place.{
  is_empty, place_atoms, closed, close_section, place_section, synthetic_start,
  synthetic_data_align_pow2,
}

abbrev Known : AtomTable → OutputAtom → Type 0
Known table placed = (atom : Atom) × (A.get table placed.atom ≡ some atom)

abbrev pub AllKnown : AtomTable → List OutputAtom → Type 0
AllKnown table = All (Known table)

abbrev room_of : Option Atom → ℕ
room_of none = 0
room_of (some atom) = alignment atom.align_pow2

-- More than the atoms can take, whatever their padding.
abbrev pub room : AtomTable → List OutputAtom → ℕ
room table [] = 0
room table (placed ∷ rest) = room_of (A.get table placed.atom) + placed.size + room table rest

-- From one offset on the atoms stand one after the other, each at a multiple of its alignment, up to another.
abbrev pub InOrder : AtomTable → ℕ → List OutputAtom → ℕ → Type 0
InOrder table from [] to = from ≤ to
InOrder table from (placed ∷ rest) to =
    (from ≤ placed.offset)
    × ((atom : Atom) × (A.get table placed.atom ≡ some atom)
        × (placed.offset % alignment atom.align_pow2 ≡ 0))
    × InOrder table (placed.offset + placed.size) rest to

InOrder-weaken :
    (table : AtomTable) (from to further : ℕ) (atoms : List OutputAtom)
    → to ≤ further
    → InOrder table from atoms to
    → InOrder table from atoms further
InOrder-weaken table from to further [] le h = omega arith
InOrder-weaken table from to further (placed ∷ rest) le (h, aligned, more) =
    (h, aligned, InOrder-weaken table (placed.offset + placed.size) to further rest le more)

-- An atom without its offset.
abbrev pub unplaced : OutputAtom → ℕ × ℕ × Bytes
unplaced placed = (placed.atom, placed.size, placed.content)

record AtomsPlaced (table : AtomTable) (from : ℕ) (before : List OutputAtom) : Type 0 where
  atoms : List OutputAtom
  end : ℕ
  runs : place_atoms table from before ≡ ok (atoms, end)
  same : map unplaced atoms ≡ map unplaced before
  in_order : InOrder table from atoms end
  within : end ≤ from + room table before

place_atoms-step :
    (table : AtomTable) (from next : ℕ) (placed : OutputAtom) (rest atoms : List OutputAtom)
    (end : ℕ) (atom : Atom)
    → A.get table placed.atom ≡ some atom
    → u64 (align_up from (alignment atom.align_pow2) + placed.size) ≡ next
    → place_atoms table next rest ≡ ok (atoms, end)
    → place_atoms table from (placed ∷ rest)
      ≡ ok (record placed { offset = align_up from (alignment atom.align_pow2) } ∷ atoms, end)
unfolding place_atoms
place_atoms-step table from next placed rest atoms end atom there exact runs =
    rw (there, exact, runs) refl

place_atoms-AtomsPlaced :
    (table : AtomTable) (from : ℕ) (before : List OutputAtom)
    → AllKnown table before
    → from + room table before < 2 ^ 64
    → AtomsPlaced table from before
unfolding place_atoms
place_atoms-AtomsPlaced table from [] known small = record {
  atoms = [];
  end = from;
  runs = refl;
  same = refl;
  in_order = omega arith;
  within = omega arith;
}
place_atoms-AtomsPlaced table from (placed ∷ rest) ((atom, there), known) small =
    let size = ap room_of there in
    let up = alignment-IsAlignUp from atom.align_pow2 (omega (arith, size)) in
    let offset = align_up from (alignment atom.align_pow2) in
    let exact : u64 (offset + placed.size) ≡ offset + placed.size = omega (arith, up.below, size) in
    let r =
      place_atoms-AtomsPlaced table (offset + placed.size) rest known
        (omega (arith, up.below, size)) in
    record {
      atoms = record placed { offset = offset } ∷ r.atoms;
      end = r.end;
      runs = place_atoms-step table from _ placed rest r.atoms r.end atom there exact r.runs;
      same = ap (◌∷◌ (unplaced placed)) r.same;
      in_order = (up.at_least, (atom, there, up.aligned), r.in_order);
      within = omega (arith, up.below, size, r.within);
    }

-- A section that was placed: the same atoms, aligned, in order and apart, all of them before the synthetic
-- data if there is some, and nothing outside the section.
pub record SectionPlaced (table : AtomTable) (before after : OutputSection) : Type 0 where
  pub same : map unplaced after.atoms ≡ map unplaced before.atoms
  pub in_order :
      InOrder table 0 after.atoms
        (if is_empty before.synthetic_data then after.size else after.synthetic_offset)
  pub holds_synthetic :
      is_empty before.synthetic_data ≡ false
      → after.size ≡ after.synthetic_offset + length before.synthetic_data
  pub within :
      after.size
      ≤ room table before.atoms
        + alignment (synthetic_data_align_pow2 before)
        + length before.synthetic_data

alignment-pos : (align_pow2 : ℕ) → 0 < alignment align_pow2
alignment-pos align_pow2 = pow_pos (min align_pow2 63)

-- The synthetic data starts after the atoms.
synthetic_start-bounds :
    (section : OutputSection) (end : ℕ)
    → (is_empty section.atoms ≡ true → end ≡ 0)
    → is_empty section.synthetic_data ≡ false
    → end + alignment (synthetic_data_align_pow2 section) ≤ 2 ^ 64
    → (end ≤ synthetic_start section end)
      × (synthetic_start section end < end + alignment (synthetic_data_align_pow2 section))
unfolding synthetic_start
synthetic_start-bounds section end no_atoms with_data small =
    let up = alignment-IsAlignUp end (synthetic_data_align_pow2 section) small in
    let pos = alignment-pos (synthetic_data_align_pow2 section) in
    elim (Bool-cases (is_empty section.atoms)) [
      | inl none_there ↦
          let e = no_atoms none_there in
          rw (with_data, none_there) (omega (arith, e), omega (arith, pos))
      | inr some_there ↦ rw (with_data, some_there) (up.at_least, up.below)
    ]

closed-SectionPlaced :
    (table : AtomTable) (section : OutputSection) (start : ℕ)
    (r : AtomsPlaced table 0 section.atoms)
    → (is_empty section.synthetic_data ≡ false
        → (r.end ≤ start) × (start < r.end + alignment (synthetic_data_align_pow2 section)))
    → room table section.atoms
        + alignment (synthetic_data_align_pow2 section)
        + length section.synthetic_data
      < 2 ^ 64
    → SectionPlaced table section (closed section start (r.atoms, r.end))
closed-SectionPlaced table section start r bounds small =
    elim (Bool-cases (is_empty section.synthetic_data)) [
      | inl without ↦ record {
        same = r.same;
        in_order = rw without r.in_order;
        holds_synthetic = λ e. absurd (cc (without, e));
        within = rw without (omega (arith, r.within));
      }
      | inr with_data ↦
          let (after, before) = bounds with_data in
          let exact : u64 (start + length section.synthetic_data)
              ≡ start + length section.synthetic_data =
            omega (arith, before, r.within) in
          record {
            same = r.same;
            in_order = rw with_data (InOrder-weaken table 0 r.end start r.atoms after r.in_order);
            holds_synthetic = λ _. rw with_data exact;
            within = rw with_data (omega (arith, exact, before, r.within));
          }
    ]

place_atoms-empty :
    (table : AtomTable) (atoms : List OutputAtom) (r : AtomsPlaced table 0 atoms)
    → is_empty atoms ≡ true
    → r.end ≡ 0
unfolding place_atoms
place_atoms-empty table [] r h = sym (ap (λ x. x.1) (ok-injective r.runs))
place_atoms-empty table (placed ∷ rest) r h = cc

-- A section whose atoms are all in the table is placed, where everything together has room in 64 bits: its
-- atoms are the same, in the same order, each at a multiple of its alignment, none overlapping the next, and
-- all inside the section, before its synthetic data.
pub place_section-SectionPlaced :
    (table : AtomTable) (section : OutputSection)
    → AllKnown table section.atoms
    → room table section.atoms
        + alignment (synthetic_data_align_pow2 section)
        + length section.synthetic_data
      < 2 ^ 64
    → (placed : OutputSection) × (place_section table section ≡ ok placed)
      × SectionPlaced table section placed
unfolding place_section close_section
place_section-SectionPlaced table section known small =
    let r = place_atoms-AtomsPlaced table 0 section.atoms known (omega arith) in
    (
      close_section section (r.atoms, r.end),
      rw (r.runs) refl,
      closed-SectionPlaced table section (synthetic_start section r.end) r
          (λ with_data.
            synthetic_start-bounds section r.end (place_atoms-empty table section.atoms r) with_data
              (omega (arith, r.within)))
          small,
    )
