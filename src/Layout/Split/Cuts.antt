-- ===== src/Layout/Split/Cuts.antt =====
-- src/layout.rs, `split_sections_after_atoms`: cutting loses no atom, and every cut is made.
use afs_ld.Prelude.{
  ℕ, suc, ◌+◌, ◌-◌, ◌≡◌, ◌≢◌, refl, sym, ap, ap₂, ◌∙◌, Bool, true, false, not, ◌&&◌, List, [], ◌∷◌,
  ◌++◌, append-nil, append_assoc, length, ltb, Bool-cases, inl, inr, All, All-append, All-imp,
  ==_iff, ◌==◌, arith,
}
use afs_ld.Prelude.Bytes.{contains}
use afs_ld.Layout.{OutputAtom, OutputSection}
use afs_ld.Layout.Place.{is_empty}
use afs_ld.Layout.Split.{
  any_point, split_section_template, split_atoms, split_section, split_each,
  split_sections_after_atoms,
}

-- The atoms of all sections, in order.
abbrev pub all_atoms : List OutputSection → List OutputAtom
all_atoms [] = []
all_atoms (section ∷ sections) = section.atoms ++ all_atoms sections

-- No atom but the last is one to cut after.
abbrev pub NoCutInside : List ℕ → List OutputAtom → Type 0
NoCutInside points [] = Unit
NoCutInside points (placed ∷ []) = Unit
NoCutInside points (placed ∷ next ∷ rest) =
    (contains points placed.atom ≡ false) × NoCutInside points (next ∷ rest)

abbrev AllFree : List ℕ → List OutputAtom → Type 0
AllFree points = All (λ placed. contains points placed.atom ≡ false)

all_atoms-append :
    (xs ys : List OutputSection) → all_atoms (xs ++ ys) ≡ all_atoms xs ++ all_atoms ys
all_atoms-append [] ys = refl
all_atoms-append (x ∷ xs) ys =
    ap (λ rest. x.atoms ++ rest) (all_atoms-append xs ys)
    ∙ sym (append_assoc (x.atoms) (all_atoms xs) (all_atoms ys))

NoCutInside-concat :
    (points : List ℕ) (free : List OutputAtom) (last : OutputAtom)
    → AllFree points free
    → NoCutInside points (free ++ last ∷ [])
NoCutInside-concat points [] last h = tt
NoCutInside-concat points (x ∷ []) last h = (h.0, tt)
NoCutInside-concat points (x ∷ y ∷ rest) last h =
    (h.0, NoCutInside-concat points (y ∷ rest) last h.1)

AllFree-NoCutInside :
    (points : List ℕ) (free : List OutputAtom) → AllFree points free → NoCutInside points free
AllFree-NoCutInside points [] h = tt
AllFree-NoCutInside points (x ∷ []) h = tt
AllFree-NoCutInside points (x ∷ y ∷ rest) h = (h.0, AllFree-NoCutInside points (y ∷ rest) h.1)

any_point-AllFree :
    (points : List ℕ) (atoms : List OutputAtom)
    → any_point points atoms ≡ false
    → AllFree points atoms
any_point-AllFree points [] h = tt
any_point-AllFree points (x ∷ rest) h = elim (Bool-cases (contains points x.atom)) [
  | inl point ↦ absurd (cc (rw point at h))
  | inr free ↦ (free, any_point-AllFree points rest (rw free at h))
]

and_false : (b : Bool) → (b && false) ≡ false
and_false true = refl
and_false false = refl

module _ (points : List ℕ) (section : OutputSection) where
  all_atoms-split_atoms :
      (last_idx idx : ℕ) (current atoms : List OutputAtom)
      → all_atoms (split_atoms points section last_idx idx current atoms) ≡ current ++ atoms
  unfolding split_atoms split_section_template
  all_atoms-split_atoms last_idx idx current [] = refl
  all_atoms-split_atoms last_idx idx current (placed ∷ rest) =
      let longer = current ++ placed ∷ [] in
      elim (Bool-cases (contains points placed.atom && not (idx == last_idx))) [
        | inl cut ↦ rw cut (
            ap (λ xs. longer ++ xs) (all_atoms-split_atoms last_idx (idx + 1) [] rest)
            ∙ append_assoc current (placed ∷ []) rest)
        | inr whole ↦ rw whole (
            all_atoms-split_atoms last_idx (idx + 1) longer rest
            ∙ append_assoc current (placed ∷ []) rest)
      ]

  split_atoms-NoCutInside :
      (last_idx idx : ℕ) (current atoms : List OutputAtom)
      → idx + length atoms ≡ suc last_idx
      → AllFree points current
      → All
          (λ s. NoCutInside points s.atoms)
          (split_atoms points section last_idx idx current atoms)
  unfolding split_atoms split_section_template
  split_atoms-NoCutInside last_idx idx current [] at free =
      (AllFree-NoCutInside points current free, tt)
  split_atoms-NoCutInside last_idx idx current (placed ∷ []) at free =
      let here : (idx == last_idx) ≡ true = (==_iff idx last_idx).1 (omega arith) in
      let ends : (contains points placed.atom && not true) ≡ false =
        and_false (contains points placed.atom) in
      rw (here, ends) (NoCutInside-concat points current placed free, tt)
  split_atoms-NoCutInside last_idx idx current (placed ∷ next ∷ rest) at free =
      let longer = current ++ placed ∷ [] in
      let differs : idx ≢ last_idx = λ e. omega arith in
      let inside : (idx == last_idx) ≡ false = ground (arith, differs) in
      elim (Bool-cases (contains points placed.atom)) [
        | inl point ↦
            rw (inside, point)
              (
                NoCutInside-concat points current placed free,
                split_atoms-NoCutInside last_idx (idx + 1) [] (next ∷ rest) (omega arith) tt,
              )
        | inr other ↦
            rw (inside, other)
              (split_atoms-NoCutInside last_idx (idx + 1) longer (next ∷ rest) (omega arith) (
                All-append (λ p. contains points p.atom ≡ false) current (placed ∷ []) free
                  (other, tt)))
      ]

-- What is promised of the sections after the cutting.
abbrev pub IsCut : List ℕ → OutputSection → Type 0
IsCut points section = is_empty section.synthetic_data ≡ true → NoCutInside points section.atoms

short-NoCutInside :
    (points : List ℕ) (atoms : List OutputAtom)
    → ltb (length atoms) 2 ≡ true
    → NoCutInside points atoms
short-NoCutInside points [] h = tt
short-NoCutInside points (x ∷ []) h = tt
short-NoCutInside points (x ∷ y ∷ rest) h = absurd (ground arith)

split_section-IsCut :
    (points : List ℕ) (section : OutputSection)
    → (all_atoms (split_section points section) ≡ section.atoms)
      × All (IsCut points) (split_section points section)
unfolding split_section
split_section-IsCut points section = elim (Bool-cases (ltb (length section.atoms) 2)) [
  | inl short ↦
      rw short (append-nil (section.atoms), (λ _. short-NoCutInside points section.atoms short, tt))
  | inr long ↦ elim (Bool-cases (is_empty section.synthetic_data)) [
    | inr synthetic ↦ rw (long, synthetic) (append-nil (section.atoms), (λ e. absurd (cc e), tt))
    | inl plain ↦ elim (Bool-cases (any_point points section.atoms)) [
      | inr clear ↦
          rw (long, plain, clear)
            (
              append-nil (section.atoms),
              (
                λ _.
                    AllFree-NoCutInside points section.atoms
                      (any_point-AllFree points section.atoms clear),
                tt,
              ),
            )
      | inl cut ↦
          rw (long, plain, cut)
            (
              all_atoms-split_atoms points section (length section.atoms - 1) 0 [] section.atoms,
              All-imp _ (λ s h _. h)
                  (split_atoms-NoCutInside points section (length section.atoms - 1) 0 []
                    section.atoms (ground (arith, long)) tt),
            )
    ]
  ]
]

split_each-IsCut :
    (points : List ℕ) (sections : List OutputSection)
    → (all_atoms (split_each points sections) ≡ all_atoms sections)
      × All (IsCut points) (split_each points sections)
split_each-IsCut points [] = (refl, tt)
split_each-IsCut points (section ∷ sections) =
    let (same, cut) = split_section-IsCut points section in
    let (same', cut') = split_each-IsCut points sections in
    (
      all_atoms-append (split_section points section) (split_each points sections)
          ∙ ap₂ ◌++◌ same same',
      All-append (IsCut points) (split_section points section) _ cut cut',
    )

no_points-NoCutInside : (atoms : List OutputAtom) → NoCutInside [] atoms
no_points-NoCutInside [] = tt
no_points-NoCutInside (x ∷ []) = tt
no_points-NoCutInside (x ∷ y ∷ rest) = (refl, no_points-NoCutInside (y ∷ rest))

no_points-IsCut : (sections : List OutputSection) → All (IsCut []) sections
no_points-IsCut [] = tt
no_points-IsCut (section ∷ sections) =
    (λ _. no_points-NoCutInside section.atoms, no_points-IsCut sections)

-- Cutting keeps all atoms in their order, and afterwards an atom to cut after is the last one of its section,
-- but in the sections with synthetic data, which are not cut.
pub split_sections_after_atoms-IsCut :
    (sections : List OutputSection) (points : List ℕ)
    → (all_atoms (split_sections_after_atoms sections points) ≡ all_atoms sections)
      × All (IsCut points) (split_sections_after_atoms sections points)
unfolding split_sections_after_atoms
split_sections_after_atoms-IsCut sections [] = (refl, no_points-IsCut sections)
split_sections_after_atoms-IsCut sections (p ∷ points) = split_each-IsCut (p ∷ points) sections
