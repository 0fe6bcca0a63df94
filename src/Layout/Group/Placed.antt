-- ===== src/Layout/Group/Placed.antt =====
-- src/layout.rs: every live atom is in one output section, once.
use mathlib.Core.List.{Perm, perm_middle}
use mathlib.Core.List.Perm
use afs_ld.Prelude.{
  ℕ, zero, suc, ◌+◌, ◌<◌, ◌≤◌, ◌≡◌, refl, sym, subst, ◌∙◌, List, [], ◌∷◌, ◌++◌, append_assoc,
  append-nil, map, Option, none, some, some-injective, length, length-append, length-set, set,
  get_elem?, ok, Bool-cases, Option-cases, inl, inr, if◌then◌else◌, arith, All, All-imp,
}
use afs_ld.Atoms.{Atom}
use afs_ld.Section.{InputSection}
use afs_ld.Layout.{OutputSection}
use afs_ld.Layout.Split.Cuts.{all_atoms}
use afs_ld.Layout.Group.{
  LayoutInput, SectionKey, Groups, find_input_section, atom_key, same_key, find_key, section_at,
  new_section, add_atom, output_atom, is_live, group_atom, group_atoms,
}

-- The input of an atom has the section that the atom is from.
abbrev pub HasInput : List LayoutInput → Atom → Type 0
HasInput inputs atom = (info : Option InputSection) × (find_input_section inputs atom ≡ ok info)

-- The live atoms, in order.
abbrev pub live_of : Option (List ℕ) → List (ℕ × Atom) → List (ℕ × Atom)
live_of live [] = []
live_of live ((id, atom) ∷ atoms) =
    if is_live live id then (id, atom) ∷ live_of live atoms else live_of live atoms

-- The index leads to sections.
abbrev IsIndexed : Groups → Type 0
IsIndexed groups = All (λ e. e.1 < length groups.sections) groups.index

pub all_atoms-append :
    (front back : List OutputSection)
    → all_atoms (front ++ back) ≡ all_atoms front ++ all_atoms back
all_atoms-append [] back = refl
all_atoms-append (s ∷ front) back =
    rw (all_atoms-append front back) (sym (append_assoc s.atoms (all_atoms front) (all_atoms back)))

add_atom-Perm :
    (info : Option InputSection) (x : ℕ × Atom) (sections : List OutputSection) (i : ℕ)
    (s : OutputSection)
    → get_elem? sections i ≡ some s
    → Perm (all_atoms (set sections i (add_atom info x s))) (output_atom x ∷ all_atoms sections)
unfolding add_atom
add_atom-Perm info x [] i s h = cc
add_atom-Perm info x (t ∷ sections) zero s h =
    let same : t ≡ s = some-injective h in
    rw same (
      subst (λ xs. Perm xs (output_atom x ∷ s.atoms ++ all_atoms sections))
        (sym (append_assoc s.atoms (output_atom x ∷ []) (all_atoms sections)))
        (perm_middle s.atoms (all_atoms sections)))
add_atom-Perm info x (t ∷ sections) (suc i) s h =
    Perm.trans (Perm.append_left t.atoms (add_atom-Perm info x sections i s h))
      (perm_middle t.atoms (all_atoms sections))

get-some : {A : Type 0} (xs : List A) (i : ℕ) → i < length xs → (x : A) × (get_elem? xs i ≡ some x)
get-some [] i h = absurd (omega arith)
get-some (x ∷ xs) zero h = (x, refl)
get-some (x ∷ xs) (suc i) h = get-some xs i (omega arith)

find_key-bound :
    (index : List (SectionKey × ℕ)) (key : SectionKey) (idx n : ℕ)
    → All (λ e. e.1 < n) index
    → find_key index key ≡ some idx
    → idx < n
find_key-bound [] key idx n h e = cc
find_key-bound ((k, i) ∷ index) key idx n h e = elim (Bool-cases (same_key k key)) [
  | inl same ↦ let at : i ≡ idx = some-injective (rw same at e) in subst (λ j. j < n) at h.0
  | inr other ↦ find_key-bound index key idx n h.1 (rw other at e)
]

All-bound-suc :
    (index : List (SectionKey × ℕ)) (n m : ℕ)
    → n ≤ m
    → All (λ e. e.1 < n) index
    → All (λ e. e.1 < m) index
All-bound-suc index n m le h = All-imp index (λ e lt. omega (arith, lt, le)) h

record Opened (groups : Groups) (idx : ℕ) (with : Groups) : Type 0 where
  inside : idx < length with.sections
  indexed : IsIndexed with
  same_atoms : all_atoms with.sections ≡ all_atoms groups.sections

section_at-Opened :
    (groups : Groups) (key : SectionKey) (fresh : OutputSection)
    → fresh.atoms ≡ []
    → IsIndexed groups
    → let (idx, with) = section_at (find_key groups.index key) key fresh groups in
      Opened groups idx with
section_at-Opened groups key fresh empty indexed = elim (Option-cases (find_key groups.index key)) [
  | inr (idx, found) ↦ rw found (record {
    inside = find_key-bound groups.index key idx (length groups.sections) indexed found;
    indexed = indexed;
    same_atoms = refl;
  })
  | inl new ↦
      let longer : length (groups.sections ++ fresh ∷ []) ≡ length groups.sections + 1 =
        length-append groups.sections (fresh ∷ []) in
      rw new (record {
        inside = omega (arith, longer);
        indexed =
            (omega (arith, longer), All-bound-suc groups.index _ _ (omega (arith, longer)) indexed);
        same_atoms =
            all_atoms-append groups.sections (fresh ∷ [])
            ∙ (rw empty (append-nil (all_atoms groups.sections)));
      })
]

new_section-atoms :
    (key : SectionKey) (info : Option InputSection) (atom : Atom)
    → (new_section key info atom).atoms ≡ []
unfolding new_section
new_section-atoms key none atom = refl
new_section-atoms key (some s) atom = refl

record Grouped (inputs : List LayoutInput) (x : ℕ × Atom) (groups : Groups) : Type 0 where
  next : Groups
  runs : group_atom inputs x groups ≡ ok next
  indexed : IsIndexed next
  placed : Perm (all_atoms next.sections) (output_atom x ∷ all_atoms groups.sections)

group_atom-Grouped :
    (inputs : List LayoutInput) (id : ℕ) (atom : Atom) (groups : Groups)
    → HasInput inputs atom
    → IsIndexed groups
    → Grouped inputs (id, atom) groups
unfolding group_atom
group_atom-Grouped inputs id atom groups (info, found) indexed =
    let key = atom_key info in
    let fresh = new_section key info atom in
    let (idx, with) = section_at (find_key groups.index key) key fresh groups in
    let o = section_at-Opened groups key fresh (new_section-atoms key info atom) indexed in
    let (out, there) = get-some with.sections idx o.inside in
    let after = set with.sections idx (add_atom info (id, atom) out) in
    record {
      next = record with { sections = after };
      runs = rw (found, there) refl;
      indexed =
          All-bound-suc with.index _ _
            (let same = length-set with.sections idx (add_atom info (id, atom) out) in
              omega (arith, same))
            o.indexed;
      placed =
          subst (λ xs. Perm (all_atoms after) (output_atom (id, atom) ∷ xs)) o.same_atoms
            (add_atom-Perm info (id, atom) with.sections idx out there);
    }

-- Where every live atom's input section is there, grouping does not panic, and the output sections then have
-- the atoms that they had and each live atom, once.
pub group_atoms-Perm :
    (inputs : List LayoutInput) (live : Option (List ℕ)) (atoms : List (ℕ × Atom)) (groups : Groups)
    → All (λ x. HasInput inputs x.1) (live_of live atoms)
    → IsIndexed groups
    → (after : Groups) × (group_atoms inputs live atoms groups ≡ ok after)
      × Perm
          (all_atoms after.sections)
          (map output_atom (live_of live atoms) ++ all_atoms groups.sections)
unfolding group_atoms
group_atoms-Perm inputs live [] groups known indexed =
    (groups, refl, Perm.refl (all_atoms groups.sections))
group_atoms-Perm inputs live ((id, atom) ∷ atoms) groups known indexed =
    elim (Bool-cases (is_live live id)) [
      | inr dead ↦ rw dead (group_atoms-Perm inputs live atoms groups (rw dead at known) indexed)
      | inl alive ↦
          let (first, rest) = rw alive at known in
          let g = group_atom-Grouped inputs id atom groups first indexed in
          let (after, runs, perm) = group_atoms-Perm inputs live atoms g.next rest g.indexed in
          let front = map output_atom (live_of live atoms) in
          rw alive (
            rw g.runs (
              after,
              runs,
              Perm.trans perm (
                  Perm.trans (Perm.append_left front g.placed)
                    (perm_middle front (all_atoms groups.sections))),
            ))
    ]
