-- ===== src/Layout/Segments/Names.antt =====
-- src/layout.rs, `build_segments`: the names of the segments, in order, and that every section has its own.
use mathlib.Core.List.{reverse, reverse-cons, reverse-reverse}
use afs_ld.Prelude.{
  ◌≡◌, refl, sym, ap, ◌∙◌, subst, Bool, true, false, not, List, [], ◌∷◌, ◌++◌, map, append_assoc,
  length, Bool-cases, inl, inr, All, All-imp, All-append,
}
use afs_ld.Prelude.Bytes.{Bytes, same_bytes}
use afs_ld.Prelude.Sort.{compare_bytes, sort_by, sort_by-All}
use afs_ld.Prelude.Sort.Ascending.{sort_by-Ascending}
use afs_ld.Layout.{OutputSection, OutputSegment, OutputKind, executable, dylib}
use afs_ld.Layout.Split.{insert_at}
use afs_ld.Layout.Addresses.{pagezero_name, text_name, linkedit_name}
use afs_ld.Layout.Addresses.Whole.{ReadyNames, LastName, same_bytes_symm}
use afs_ld.Layout.Addresses.Assigned.{names, IsShape}
use afs_ld.Layout.Segments.{
  data_const_name, data_name, standard_names, standard_segment_required, standard_segment,
  custom_segment, any_in, filter_by, is_one_of, custom_names, insert_customs, build_segments,
}
use afs_ld.Layout.Segments.Shape.{
  or-false, not-true, IsCustom, filter_by-All, Different, dedup-All, dedup-Different,
}

insert_at-length :
    (front back : List OutputSegment) (x : OutputSegment)
    → insert_at (front ++ back) (length front) x ≡ front ++ x ∷ back
unfolding insert_at
insert_at-length [] [] x = refl
insert_at-length [] (s ∷ back) x = refl
insert_at-length (s ∷ front) back x = ap (◌∷◌ s) (insert_at-length front back x)

map-append : {A B : Type 0} (f : A → B) (xs ys : List A) → map f (xs ++ ys) ≡ map f xs ++ map f ys
map-append f [] ys = refl
map-append f (x ∷ xs) ys = ap (◌∷◌ (f x)) (map-append f xs ys)

-- Inserted one by one at the same place, the names stand there in reverse.
names-insert_customs :
    (sections : List OutputSection) (front back : List OutputSegment) (cs : List Bytes)
    → names (insert_customs sections (length front) cs (front ++ back))
      ≡ names front ++ (reverse cs ++ names back)
unfolding custom_segment
names-insert_customs sections front back [] = map-append (λ s. s.name) front back
names-insert_customs sections front back (c ∷ cs) =
    ap (λ segments. names (insert_customs sections (length front) cs segments))
      (insert_at-length front back (custom_segment sections c))
    ∙ names-insert_customs sections front (custom_segment sections c ∷ back) cs
    ∙ ap (λ xs. names front ++ xs)
        (sym (append_assoc (reverse cs) (c ∷ []) (names back))
          ∙ ap (λ xs. xs ++ names back) (sym (reverse-cons c cs)))

names-insert_reversed :
    (sections : List OutputSection) (front back : List OutputSegment) (cs : List Bytes)
    → names (insert_customs sections (length front) (reverse cs) (front ++ back))
      ≡ names front ++ (cs ++ names back)
names-insert_reversed sections front back cs =
    names-insert_customs sections front back (reverse cs)
    ∙ ap (λ xs. names front ++ (xs ++ names back)) (reverse-reverse cs)

abbrev pub optional : Bool → Bytes → List Bytes → List Bytes
optional true name rest = name ∷ rest
optional false name rest = rest

abbrev pub opening : OutputKind → List Bytes → List Bytes
opening executable rest = pagezero_name ∷ text_name ∷ rest
opening dylib rest = text_name ∷ rest

-- The names after __TEXT.
abbrev pub after_text : (has_const has_data : Bool) → List Bytes → List Bytes
after_text has_const has_data customs =
    optional has_const data_const_name (optional has_data data_name (customs ++ linkedit_name ∷ []))

pub build_segments-names :
    (kind : OutputKind) (sections : List OutputSection)
    → names (build_segments kind sections)
      ≡ opening kind (
          after_text
            (any_in data_const_name sections)
            (any_in data_name sections)
            (custom_names kind sections))
unfolding build_segments standard_segment_required standard_segment
build_segments-names executable sections =
    let cs = custom_names executable sections in
    let z = standard_segment pagezero_name in
    let t = standard_segment text_name in
    let c = standard_segment data_const_name in
    let d = standard_segment data_name in
    let l = standard_segment linkedit_name in
    elim (Bool-cases (any_in data_const_name sections)) [
      | inl has_const ↦ elim (Bool-cases (any_in data_name sections)) [
        | inl has_data ↦
            rw (has_const, has_data)
              (names-insert_reversed sections (z ∷ t ∷ c ∷ d ∷ []) (l ∷ []) cs)
        | inr no_data ↦
            rw (has_const, no_data) (names-insert_reversed sections (z ∷ t ∷ c ∷ []) (l ∷ []) cs)
      ]
      | inr no_const ↦ elim (Bool-cases (any_in data_name sections)) [
        | inl has_data ↦
            rw (no_const, has_data) (names-insert_reversed sections (z ∷ t ∷ d ∷ []) (l ∷ []) cs)
        | inr no_data ↦
            rw (no_const, no_data) (names-insert_reversed sections (z ∷ t ∷ []) (l ∷ []) cs)
      ]
    ]
build_segments-names dylib sections =
    let cs = custom_names dylib sections in
    let t = standard_segment text_name in
    let c = standard_segment data_const_name in
    let d = standard_segment data_name in
    let l = standard_segment linkedit_name in
    elim (Bool-cases (any_in data_const_name sections)) [
      | inl has_const ↦ elim (Bool-cases (any_in data_name sections)) [
        | inl has_data ↦
            rw (has_const, has_data) (names-insert_reversed sections (t ∷ c ∷ d ∷ []) (l ∷ []) cs)
        | inr no_data ↦
            rw (has_const, no_data) (names-insert_reversed sections (t ∷ c ∷ []) (l ∷ []) cs)
      ]
      | inr no_const ↦ elim (Bool-cases (any_in data_name sections)) [
        | inl has_data ↦
            rw (no_const, has_data) (names-insert_reversed sections (t ∷ d ∷ []) (l ∷ []) cs)
        | inr no_data ↦ rw (no_const, no_data) (names-insert_reversed sections (t ∷ []) (l ∷ []) cs)
      ]
    ]

IsCustom-name :
    (kind : OutputKind) (name : Bytes)
    → same_bytes pagezero_name name ≡ false
    → is_one_of (standard_names kind) name ≡ false
    → IsCustom name
IsCustom-name executable name no_pagezero h = h
IsCustom-name dylib name no_pagezero h = rw no_pagezero h

custom_names-IsCustom :
    (kind : OutputKind) (sections : List OutputSection)
    → All (λ s. same_bytes pagezero_name s.segment ≡ false) sections
    → All IsCustom (custom_names kind sections)
unfolding custom_names
custom_names-IsCustom kind sections no_pagezero = dedup-All IsCustom _ (
    sort_by-All compare_bytes IsCustom _ (
      All-imp _ (λ name h. IsCustom-name kind name h.0 (not-true _ h.1))
        (filter_by-All (λ name. not (is_one_of (standard_names kind) name))
          (λ name. same_bytes pagezero_name name ≡ false) (map (λ s. s.segment) sections)
          (All-map (λ name. same_bytes pagezero_name name ≡ false) sections no_pagezero))))
  where
    All-map :
        (P : Bytes → Type 0) (ss : List OutputSection)
        → All (λ s. P (s.segment)) ss
        → All P (map (λ s. s.segment) ss)
    All-map P [] h = tt
    All-map P (s ∷ ss) h = (h.0, All-map P ss h.1)

custom_names-Different :
    (kind : OutputKind) (sections : List OutputSection) → Different (custom_names kind sections)
unfolding custom_names
custom_names-Different kind sections =
    let customs =
      filter_by (λ name. not (is_one_of (standard_names kind) name))
        (map (λ s. s.segment) sections) in
    dedup-Different (sort_by compare_bytes customs) (sort_by-Ascending customs)

-- A custom name is none of the five.
record Differs (name : Bytes) : Type 0 where
  from_pagezero : same_bytes pagezero_name name ≡ false
  from_text : same_bytes text_name name ≡ false
  from_const : same_bytes data_const_name name ≡ false
  from_data : same_bytes data_name name ≡ false
  from_linkedit : same_bytes linkedit_name name ≡ false

IsCustom-Differs : (name : Bytes) → IsCustom name → Differs name
IsCustom-Differs name h =
    let (a, h1) = or-false (same_bytes pagezero_name name) _ h in
    let (b, h2) = or-false (same_bytes text_name name) _ h1 in
    let (c, h3) = or-false (same_bytes data_const_name name) _ h2 in
    let (d, h4) = or-false (same_bytes data_name name) _ h3 in
    let (e, _) = or-false (same_bytes linkedit_name name) _ h4 in
    record { from_pagezero = a; from_text = b; from_const = c; from_data = d; from_linkedit = e }

customs-ReadyNames :
    (cs : List Bytes) → All IsCustom cs → Different cs → ReadyNames (cs ++ linkedit_name ∷ [])
unfolding same_bytes
customs-ReadyNames [] custom different = ((refl, refl), tt, tt, tt)
customs-ReadyNames (c ∷ cs) custom different =
    let d = IsCustom-Differs c custom.0 in
    let no_linkedit = same_bytes_symm linkedit_name c d.from_linkedit in
    (
      (same_bytes_symm pagezero_name c d.from_pagezero, same_bytes_symm text_name c d.from_text),
      All-append (λ m. same_bytes c m ≡ false) cs (linkedit_name ∷ []) different.0
          (no_linkedit, tt),
      LastName-append c cs no_linkedit,
      customs-ReadyNames cs custom.1 different.1,
    )
  where
    LastName-append :
        (n : Bytes) (ns : List Bytes)
        → same_bytes n linkedit_name ≡ false
        → LastName n (ns ++ linkedit_name ∷ [])
    LastName-append n [] h = h
    LastName-append n (m ∷ ms) h = h

apart_from_customs :
    (name : Bytes) (cs : List Bytes)
    → ((c : Bytes) → Differs c → same_bytes name c ≡ false)
    → same_bytes name linkedit_name ≡ false
    → All IsCustom cs
    → All (λ m. same_bytes name m ≡ false) (cs ++ linkedit_name ∷ [])
apart_from_customs name cs apart last custom =
    All-append (λ m. same_bytes name m ≡ false) cs (linkedit_name ∷ [])
      (All-imp cs (λ c h. apart c (IsCustom-Differs c h)) custom) (last, tt)

LastName-other : (n : Bytes) (ns : List Bytes) → same_bytes n linkedit_name ≡ false → LastName n ns
LastName-other n [] h = tt
LastName-other n (m ∷ ms) h = h

data-ReadyNames :
    (cs : List Bytes)
    → All IsCustom cs
    → Different cs
    → ReadyNames (data_name ∷ (cs ++ linkedit_name ∷ []))
unfolding same_bytes
data-ReadyNames cs custom different = (
  (refl, refl),
  apart_from_customs data_name cs (λ c d. d.from_data) refl custom,
  LastName-other data_name (cs ++ linkedit_name ∷ []) refl,
  customs-ReadyNames cs custom different,
)

after_text-ReadyNames :
    (has_const has_data : Bool) (cs : List Bytes)
    → All IsCustom cs
    → Different cs
    → ReadyNames (after_text has_const has_data cs)
unfolding same_bytes
after_text-ReadyNames false false cs custom different = customs-ReadyNames cs custom different
after_text-ReadyNames false true cs custom different = data-ReadyNames cs custom different
after_text-ReadyNames true has_data cs custom different =
    let customs_apart = apart_from_customs data_const_name cs (λ c d. d.from_const) refl custom in
    elim has_data as (λ b. ReadyNames (after_text true b cs)) [
      | false ↦ (
        (refl, refl),
        customs_apart,
        LastName-other data_const_name (cs ++ linkedit_name ∷ []) refl,
        customs-ReadyNames cs custom different,
      )
      | true ↦ ((refl, refl), (refl, customs_apart), refl, data-ReadyNames cs custom different)
    ]

opening-IsShape :
    (kind : OutputKind) (rest : List Bytes) → ReadyNames rest → IsShape kind (opening kind rest)
opening-IsShape executable rest h = (refl, refl, h)
opening-IsShape dylib rest h = (refl, h)

-- The segments of an output are those that `assign_addresses` needs, where no section names __PAGEZERO.
pub build_segments-IsShape :
    (kind : OutputKind) (sections : List OutputSection)
    → All (λ s. same_bytes pagezero_name s.segment ≡ false) sections
    → IsShape kind (names (build_segments kind sections))
build_segments-IsShape kind sections no_pagezero =
    subst (IsShape kind) (sym (build_segments-names kind sections)) (
      opening-IsShape kind _ (
        after_text-ReadyNames (any_in data_const_name sections) (any_in data_name sections)
          (custom_names kind sections) (custom_names-IsCustom kind sections no_pagezero)
          (custom_names-Different kind sections)))
