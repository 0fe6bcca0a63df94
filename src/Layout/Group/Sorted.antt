-- ===== src/Layout/Group/Sorted.antt =====
-- src/layout.rs: generated sections and the order of sections leave the atoms alone.
use mathlib.Core.List.{Perm, perm_middle}
use mathlib.Core.List.Perm
use Prim.Native.Nat.{Ordering}
use afs_ld.Prelude.{
  ℕ, ◌≡◌, refl, sym, subst, ap, ◌∙◌, ◌&&◌, List, [], ◌∷◌, ◌++◌, append-nil, map, Option, ok,
  Bool-cases, inl, inr, All,
}
use afs_ld.Prelude.Bytes.{codes, same_bytes}
use afs_ld.Prelude.Sort.{chosen, insert_sorted, sort_by}
use afs_ld.Atoms.{Atom}
use afs_ld.Layout.{OutputKind, OutputSection}
use afs_ld.Layout.Segments.{compare_output_sections}
use afs_ld.Layout.Split.Cuts.{all_atoms}
use afs_ld.Layout.Group.{
  LayoutInput, SectionKey, no_groups, output_atom, output_section_flags,
  output_section_key_from_output, same_key, merge_synthetic_section, merge_first, add_synthetic,
  add_synthetics, grouped_sections,
}
use afs_ld.Layout.Group.Placed.{HasInput, live_of, all_atoms-append, group_atoms-Perm}

swap_blocks : {A : Type 0} (xs ys zs : List A) → Perm (xs ++ (ys ++ zs)) (ys ++ (xs ++ zs))
swap_blocks [] ys zs = Perm.refl (ys ++ zs)
swap_blocks (x ∷ xs) ys zs =
    Perm.trans (Perm.cons x (swap_blocks xs ys zs)) (Perm.symm (perm_middle ys (xs ++ zs)))

module _ (order : OutputSection → OutputSection → Ordering) where
  chosen-Perm :
      (o : Ordering) (x y : OutputSection) (rest ys : List OutputSection)
      → Perm (all_atoms rest) (x.atoms ++ all_atoms ys)
      → Perm (all_atoms (chosen o x y rest ys)) (x.atoms ++ (y.atoms ++ all_atoms ys))
  chosen-Perm Ordering.gt x y rest ys h =
      Perm.trans (Perm.append_left y.atoms h) (swap_blocks y.atoms x.atoms (all_atoms ys))
  chosen-Perm Ordering.lt x y rest ys h = Perm.refl (x.atoms ++ (y.atoms ++ all_atoms ys))
  chosen-Perm Ordering.eq x y rest ys h = Perm.refl (x.atoms ++ (y.atoms ++ all_atoms ys))

  insert_sorted-Perm :
      (x : OutputSection) (ys : List OutputSection)
      → Perm (all_atoms (insert_sorted order x ys)) (x.atoms ++ all_atoms ys)
  unfolding insert_sorted
  insert_sorted-Perm x [] = Perm.refl (x.atoms ++ [])
  insert_sorted-Perm x (y ∷ ys) =
      chosen-Perm (order x y) x y (insert_sorted order x ys) ys (insert_sorted-Perm x ys)

  sort_by-Perm : (xs : List OutputSection) → Perm (all_atoms (sort_by order xs)) (all_atoms xs)
  unfolding sort_by
  sort_by-Perm [] = Perm.refl []
  sort_by-Perm (x ∷ xs) =
      Perm.trans (insert_sorted-Perm x (sort_by order xs))
        (Perm.append_left x.atoms (sort_by-Perm xs))

merge_first-atoms :
    (key : SectionKey) (synthetic : OutputSection) (sections : List OutputSection)
    → synthetic.atoms ≡ []
    → all_atoms (merge_first key synthetic sections) ≡ all_atoms sections
unfolding merge_synthetic_section
merge_first-atoms key synthetic [] empty = rw empty refl
merge_first-atoms key synthetic (s ∷ sections) empty =
    elim (Bool-cases (same_key (output_section_key_from_output s) key)) [
      | inl same ↦ rw same refl
      | inr other ↦
          rw other (ap (λ xs. s.atoms ++ xs) (merge_first-atoms key synthetic sections empty))
    ]

add_synthetic-atoms :
    (generated : OutputSection) (sections : List OutputSection)
    → generated.atoms ≡ []
    → all_atoms (add_synthetic generated sections) ≡ all_atoms sections
unfolding add_synthetic
add_synthetic-atoms generated sections empty =
    let synthetic = record generated { flags = output_section_flags generated.flags } in
    elim (Bool-cases (
      same_bytes generated.segment (codes "__DATA")
      && same_bytes generated.name (codes "__data"))) [
        | inl scratch ↦
            rw scratch (
              merge_first-atoms (output_section_key_from_output synthetic) synthetic sections empty)
        | inr other ↦ rw other (
            all_atoms-append sections (synthetic ∷ []) ∙ rw empty (append-nil (all_atoms sections)))
      ]

add_synthetics-atoms :
    (synthetics sections : List OutputSection)
    → All (λ s. s.atoms ≡ []) synthetics
    → all_atoms (add_synthetics synthetics sections) ≡ all_atoms sections
unfolding add_synthetics
add_synthetics-atoms [] sections empty = refl
add_synthetics-atoms (s ∷ synthetics) sections empty =
    add_synthetics-atoms synthetics (add_synthetic s sections) empty.1
    ∙ add_synthetic-atoms s sections empty.0

-- Where the input section of every live atom is there, and the generated sections have no atoms, the output
-- sections are made without a panic, and every live atom is in one of them, once, and no other atom is.
pub grouped_sections-Perm :
    (kind : OutputKind) (inputs : List LayoutInput) (atoms : List (ℕ × Atom))
    (synthetics : List OutputSection) (live : Option (List ℕ))
    → All (λ x. HasInput inputs x.1) (live_of live atoms)
    → All (λ s. s.atoms ≡ []) synthetics
    → (sections : List OutputSection) × (grouped_sections kind inputs atoms synthetics live
        ≡ ok sections)
      × Perm (all_atoms sections) (map output_atom (live_of live atoms))
unfolding grouped_sections
grouped_sections-Perm kind inputs atoms synthetics live known empty =
    let (groups, runs, perm) = group_atoms-Perm inputs live atoms no_groups known tt in
    let order = compare_output_sections kind in
    let all = add_synthetics synthetics groups.sections in
    (
      sort_by order all,
      rw runs refl,
      Perm.trans (sort_by-Perm order all) (
          subst (λ xs. Perm xs (map output_atom (live_of live atoms)))
            (sym (add_synthetics-atoms synthetics groups.sections empty))
            (rw (append-nil (map output_atom (live_of live atoms))) at perm)),
    )
