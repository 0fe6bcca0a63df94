-- ===== src/Layout/Segments/Addressed.antt =====
-- src/layout.rs, `build_segments`: every section has a segment of its name, and the addresses of a whole output.
use afs_ld.Prelude.{
  ℕ, ◌+◌, ◌*◌, ◌^◌, ◌≤◌, ◌<◌, ok, ◌≡◌, refl, sym, ◌∙◌, subst, Bool, true, false, not, ◌||◌, List,
  [], ◌∷◌, ◌++◌, map, length, Bool-cases, inl, inr, All, All-imp, Any, Any-imp,
}
use afs_ld.Prelude.Bytes.{Bytes, same_bytes, same_bytes→≡, ≡→same_bytes}
use afs_ld.Prelude.Sort.{compare_bytes, sort_by-Any}
use afs_ld.Layout.{OutputSection, OutputSegment, OutputKind, executable, dylib}
use afs_ld.Layout.Addresses.{pagezero_name, text_name, linkedit_name}
use afs_ld.Layout.Addresses.Assigned.{names}
use afs_ld.Layout.Segments.{
  data_const_name, data_name, standard_names, any_in, is_one_of, custom_names, build_segments,
}
use afs_ld.Layout.{Layout, page_size}
use afs_ld.Layout.Addresses.{text_base_of, assign_addresses}
use afs_ld.Layout.Addresses.Listed.{need_all}
use afs_ld.Layout.Addresses.Assigned.{IsAssigned, assign_addresses-IsAssigned}
use afs_ld.Layout.Segments.Shape.{filter_by-Any, dedup-Any}
use afs_ld.Layout.Segments.Names.{
  optional, opening, after_text, build_segments-names, build_segments-IsShape,
}

abbrev HasName : Bytes → List Bytes → Type 0
HasName name = Any (λ n. n ≡ name)

Any-append_left : (name : Bytes) (xs ys : List Bytes) → HasName name xs → HasName name (xs ++ ys)
Any-append_left name [] ys h = elim h [ ]
Any-append_left name (x ∷ xs) ys (inl h) = inl h
Any-append_left name (x ∷ xs) ys (inr h) = inr (Any-append_left name xs ys h)

Any-append_right : (name : Bytes) (xs ys : List Bytes) → HasName name ys → HasName name (xs ++ ys)
Any-append_right name [] ys h = h
Any-append_right name (x ∷ xs) ys h = inr (Any-append_right name xs ys h)

optional-has :
    (present : Bool) (name n : Bytes) (rest : List Bytes)
    → HasName name rest
    → HasName name (optional present n rest)
optional-has true name n rest h = inr h
optional-has false name n rest h = h

optional-here :
    (present : Bool) (n : Bytes) (rest : List Bytes)
    → present ≡ true
    → HasName n (optional present n rest)
optional-here true n rest h = inl refl
optional-here false n rest h = cc

opening-has :
    (kind : OutputKind) (name : Bytes) (rest : List Bytes)
    → HasName name rest
    → HasName name (opening kind rest)
opening-has executable name rest h = inr (inr h)
opening-has dylib name rest h = inr h

opening-text : (kind : OutputKind) (rest : List Bytes) → HasName text_name (opening kind rest)
opening-text executable rest = inr (inl refl)
opening-text dylib rest = inl refl

-- A standard name other than __PAGEZERO that a section has.
module _ (has_const has_data : Bool) (cs : List Bytes) where
  after_text-tail :
      (name : Bytes)
      → HasName name (cs ++ linkedit_name ∷ [])
      → HasName name (after_text has_const has_data cs)
  after_text-tail name h =
      optional-has has_const name data_const_name _
        (optional-has has_data name data_name (cs ++ linkedit_name ∷ []) h)

  after_text-const : has_const ≡ true → HasName data_const_name (after_text has_const has_data cs)
  after_text-const h = optional-here has_const data_const_name _ h

  after_text-data : has_data ≡ true → HasName data_name (after_text has_const has_data cs)
  after_text-data h =
      optional-has has_const data_name data_const_name _
        (optional-here has_data data_name (cs ++ linkedit_name ∷ []) h)

any_in-true :
    (name : Bytes) (sections : List OutputSection)
    → Any (λ s. s.segment ≡ name) sections
    → any_in name sections ≡ true
any_in-true name [] h = elim h [ ]
any_in-true name (s ∷ sections) (inl e) = rw (≡→same_bytes e) refl
any_in-true name (s ∷ sections) (inr h) = elim (Bool-cases (same_bytes s.segment name)) [
  | inl here ↦ rw here refl
  | inr other ↦ rw other (any_in-true name sections h)
]

custom_names-has :
    (kind : OutputKind) (sections : List OutputSection) (name : Bytes)
    → Any (λ s. s.segment ≡ name) sections
    → is_one_of (standard_names kind) name ≡ false
    → HasName name (custom_names kind sections)
unfolding custom_names
custom_names-has kind sections name has custom = dedup-Any name _ (
    sort_by-Any compare_bytes (λ n. n ≡ name) _
      (filter_by-Any (λ n. not (is_one_of (standard_names kind) n)) (λ n. n ≡ name)
        (map (λ s. s.segment) sections) (kept sections has)))
  where
    kept :
        (ss : List OutputSection)
        → Any (λ s. s.segment ≡ name) ss
        → Any
            (λ n. (n ≡ name) × (not (is_one_of (standard_names kind) n) ≡ true))
            (map (λ s. s.segment) ss)
    kept [] h = elim h [ ]
    kept (s ∷ ss) (inl e) = inl (e, rw e (rw custom refl))
    kept (s ∷ ss) (inr h) = inr (kept ss h)

one_of_after_text :
    (kind : OutputKind) (sections : List OutputSection) (name : Bytes)
    → Any (λ s. s.segment ≡ name) sections
    → (same_bytes text_name name
        || (same_bytes data_const_name name
            || (same_bytes data_name name || (same_bytes linkedit_name name || false))))
      ≡ true
    → HasName name (
        opening kind (
          after_text
            (any_in data_const_name sections)
            (any_in data_name sections)
            (custom_names kind sections)))
one_of_after_text kind sections name has h =
    let dc = any_in data_const_name sections in
    let da = any_in data_name sections in
    let cs = custom_names kind sections in
    let final = opening kind (after_text dc da cs) in
    elim (Bool-cases (same_bytes text_name name)) [
      | inl e ↦ subst (λ n. HasName n final) (same_bytes→≡ text_name name e) (opening-text kind _)
      | inr no_text ↦ elim (Bool-cases (same_bytes data_const_name name)) [
        | inl e ↦
            let same = same_bytes→≡ data_const_name name e in
            subst (λ n. HasName n final) same
              (opening-has kind data_const_name _ (
                after_text-const dc da cs (
                  any_in-true data_const_name sections
                    (Any-imp sections (λ s h'. h' ∙ sym same) has))))
        | inr no_const ↦ elim (Bool-cases (same_bytes data_name name)) [
          | inl e ↦
              let same = same_bytes→≡ data_name name e in
              subst (λ n. HasName n final) same
                (opening-has kind data_name _ (
                  after_text-data dc da cs (
                    any_in-true data_name sections (Any-imp sections (λ s h'. h' ∙ sym same) has))))
          | inr no_data ↦ elim (Bool-cases (same_bytes linkedit_name name)) [
            | inl e ↦
                subst (λ n. HasName n final) (same_bytes→≡ linkedit_name name e)
                  (opening-has kind linkedit_name _ (
                    after_text-tail dc da cs linkedit_name
                      (Any-append_right linkedit_name cs (linkedit_name ∷ []) (inl refl))))
            | inr no_linkedit ↦ absurd (cc (rw (no_text, no_const, no_data, no_linkedit) at h))
          ]
        ]
      ]
    ]

-- Every section that does not name __PAGEZERO has its segment.
build_segments-has :
    (kind : OutputKind) (sections : List OutputSection) (name : Bytes)
    → same_bytes pagezero_name name ≡ false
    → Any (λ s. s.segment ≡ name) sections
    → HasName name (names (build_segments kind sections))
build_segments-has kind sections name no_pagezero has =
    subst (HasName name) (sym (build_segments-names kind sections))
      (elim (Bool-cases (is_one_of (standard_names kind) name)) [
        | inl standard ↦ one_of_after_text kind sections name has (go kind standard)
        | inr custom ↦ opening-has kind name _ (
            after_text-tail (any_in data_const_name sections) (any_in data_name sections)
              (custom_names kind sections) name
              (Any-append_left name (custom_names kind sections) (linkedit_name ∷ [])
                (custom_names-has kind sections name has custom)))
      ])
  where
    go :
        (k : OutputKind)
        → is_one_of (standard_names k) name ≡ true
        → (same_bytes text_name name
            || (same_bytes data_const_name name
                || (same_bytes data_name name || (same_bytes linkedit_name name || false))))
          ≡ true
    go executable h = rw no_pagezero at h
    go dylib h = h

names-Any :
    (name : Bytes) (segments : List OutputSegment)
    → HasName name (names segments)
    → Any (λ s. s.name ≡ name) segments
names-Any name [] h = elim h [ ]
names-Any name (s ∷ segments) (inl e) = inl e
names-Any name (s ∷ segments) (inr h) = inr (names-Any name segments h)

All-in :
    (all rest : List OutputSection)
    → ((name : Bytes) → Any (λ s. s.segment ≡ name) rest → Any (λ s. s.segment ≡ name) all)
    → All (λ s. Any (λ o. o.segment ≡ s.segment) all) rest
All-in all [] keep = tt
All-in all (s ∷ rest) keep =
    (keep s.segment (inl refl), All-in all rest (λ name h. keep name (inr h)))

All-both :
    {A : Type 0} (P Q : A → Type 0) (xs : List A) → All P xs → All Q xs → All (λ x. P x × Q x) xs
All-both P Q [] h g = tt
All-both P Q (x ∷ xs) h g = ((h.0, g.0), All-both P Q xs h.1 g.1)

-- The layout of an output before its addresses are assigned.
abbrev pub unassigned : OutputKind → List OutputSection → Layout
unassigned kind sections = record {
  kind = kind;
  segments = build_segments kind sections;
  sections = sections;
}

-- The sections of any output, where none names __PAGEZERO and all have room in 64 bits, get their segments
-- from `build_segments` and their places from `assign_addresses`, which does not panic: every section is listed
-- in a segment of its name, the segments are in a row, each from a page on, and the sections of a segment are
-- aligned, in order and apart, inside it.
pub build_segments-assign_addresses :
    (kind : OutputKind) (header : ℕ) (sections : List OutputSection)
    → All (λ s. same_bytes pagezero_name s.segment ≡ false) sections
    → length sections ≤ 2 ^ 32
    → text_base_of kind
        + header
        + 2 * page_size * length (build_segments kind sections)
        + need_all sections
      < 2 ^ 64
    → (after : Layout) × (assign_addresses header (unassigned kind sections) ≡ ok after)
      × IsAssigned header (unassigned kind sections) after
build_segments-assign_addresses kind header sections no_pagezero few small =
    assign_addresses-IsAssigned header (unassigned kind sections)
      (build_segments-IsShape kind sections no_pagezero)
      (All-imp sections
        (λ s h. names-Any s.segment _ (build_segments-has kind sections s.segment h.0 h.1))
        (All-both (λ s. same_bytes pagezero_name s.segment ≡ false)
          (λ s. Any (λ o. o.segment ≡ s.segment) sections) sections no_pagezero
          (All-in sections sections (λ name h. h))))
      few small
