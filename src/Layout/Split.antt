-- ===== src/Layout/Split.antt =====
-- src/layout.rs, `split_sections_after_atoms` and `insert_extra_sections`: a section is cut after some of its
-- atoms, so that other sections can stand between the parts.
pub mod Cuts
pub mod Extra
use afs_ld.Prelude.{
  ℕ, zero, suc, ◌+◌, ◌-◌, Bool, true, false, not, ◌&&◌, ◌||◌, List, [], ◌∷◌, ◌++◌, Option, none,
  some, length, ltb, ok, err, ◌>>=◌, ok_or, ◌==◌, if◌then◌else◌,
}
use afs_ld.Prelude.Bytes.{Bytes, same_bytes, contains}
use afs_ld.Layout.{OutputAtom, OutputSection, Panics}
use afs_ld.Layout.Place.{is_empty}

abbrev pub any_point : List ℕ → List OutputAtom → Bool
any_point points [] = false
any_point points (placed ∷ rest) = contains points placed.atom || any_point points rest

-- `split_section_template`, with the atoms that it is given.
unfoldable pub split_section_template : OutputSection → List OutputAtom → OutputSection
split_section_template section atoms = record section {
  atoms = atoms;
  synthetic_offset = 0;
  synthetic_data = [];
  addr = 0;
  size = 0;
  file_off = 0;
}

-- The loop over the atoms of one section, from index `idx` on; `current` are those of the open part.
unfoldable pub split_atoms :
    List ℕ
    → OutputSection
    → (last_idx idx : ℕ) → List OutputAtom
    → List OutputAtom
    → List OutputSection
unfolding split_section_template
split_atoms points section last_idx idx current [] = split_section_template section current ∷ []
split_atoms points section last_idx idx current (placed ∷ rest) =
    let longer = current ++ placed ∷ [] in
    let cut = split_atoms points section last_idx (idx + 1) [] rest in
    let whole = split_atoms points section last_idx (idx + 1) longer rest in
    if contains points placed.atom && not (idx == last_idx)
    then split_section_template section longer ∷ cut
    else whole

unfoldable pub split_section : List ℕ → OutputSection → List OutputSection
unfolding split_atoms
split_section points section =
    if ltb (length section.atoms) 2 || not (is_empty section.synthetic_data)
    then section ∷ []
    else if not (any_point points section.atoms)
    then section ∷ []
    else split_atoms points section (length section.atoms - 1) 0 [] section.atoms

abbrev pub split_each : List ℕ → List OutputSection → List OutputSection
split_each points [] = []
split_each points (section ∷ sections) = split_section points section ++ split_each points sections

unfoldable pub split_sections_after_atoms : List OutputSection → List ℕ → List OutputSection
unfolding split_section
split_sections_after_atoms sections points =
    if is_empty points then sections else split_each points sections

pub data ExtraSectionAnchor : Type 0 where
  after_section : (segment name : Bytes) → ExtraSectionAnchor
  after_atom : (atom : ℕ) → ExtraSectionAnchor

pub record ExtraOutputSection : Type 0 where
  pub after : Option ExtraSectionAnchor
  pub section : OutputSection

abbrev pub ends_in : ℕ → List OutputAtom → Bool
ends_in atom [] = false
ends_in atom (placed ∷ []) = placed.atom == atom
ends_in atom (_ ∷ placed ∷ rest) = ends_in atom (placed ∷ rest)

abbrev pub is_anchor : ExtraSectionAnchor → OutputSection → Bool
is_anchor (after_section segment name) candidate =
    same_bytes candidate.segment segment && same_bytes candidate.name name
is_anchor (after_atom atom) candidate = ends_in atom candidate.atoms

abbrev pub later_or : Bool → Option ℕ → Option ℕ
later_or here (some i) = some (suc i)
later_or true none = some 0
later_or false none = none

-- `rposition`: the place of the last element that passes the test.
unfoldable pub rposition {ℓ} : {A : Type ℓ} → (A → Bool) → List A → Option ℕ
rposition test [] = none
rposition test (x ∷ xs) = later_or (test x) (rposition test xs)

-- `Vec::insert`.
unfoldable pub insert_at {ℓ} : {A : Type ℓ} → List A → ℕ → A → List A
insert_at xs zero x = x ∷ xs
insert_at [] (suc i) x = x ∷ []
insert_at (y ∷ ys) (suc i) x = y ∷ insert_at ys i x

unfoldable pub insert_after :
    Option ExtraSectionAnchor → List OutputSection → OutputSection → Panics (List OutputSection)
unfolding rposition insert_at same_bytes
insert_after none sections section = ok (sections ++ section ∷ [])
insert_after (some anchor) sections section = do
  idx ← ok_or (rposition (is_anchor anchor) sections) "missing anchor"
  ok (insert_at sections (idx + 1) section)

unfoldable pub insert_extra_sections :
    List OutputSection → List ExtraOutputSection → Panics (List OutputSection)
unfolding insert_after
insert_extra_sections sections [] = ok sections
insert_extra_sections sections (extra ∷ extras) = do
  after ← insert_after extra.after sections extra.section
  insert_extra_sections after extras
