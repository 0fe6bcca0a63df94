-- ===== src/Layout/Addresses/Assigned.antt =====
-- src/layout.rs: `assign_addresses` on a layout whose segments are those of `build_segments`.
use afs_ld.Prelude.{
  ℕ, ◌+◌, ◌*◌, ◌^◌, ◌≤◌, ◌<◌, ◌≡◌, refl, sym, ap, ap₂, ◌∙◌, subst, false, List, [], ◌∷◌, map, ok,
  some, length, get_elem?, inl, inr, All, All-imp, Any, arith,
}
use afs_ld.Prelude.Bytes.{Bytes, same_bytes, ≡→same_bytes}
use afs_ld.Layout.{
  OutputSection, OutputSegment, OutputKind, executable, dylib, Layout, page_size,
  executable_text_base,
}
use afs_ld.Layout.Addresses.{
  pagezero_name, text_name, clear_segment, place_pagezero, text_base_of, reserve_pagezero,
  address_segments, assign_addresses,
}
use afs_ld.Layout.Addresses.Run.{info}
use afs_ld.Layout.Addresses.Segment.{update_segment-middle}
use afs_ld.Layout.Addresses.Step.{IsListed, Ready, room}
use afs_ld.Layout.Addresses.Loop.{NewNames}
use afs_ld.Layout.Addresses.Pushed.{AllApart, BothApart, HasSection}
use afs_ld.Layout.Addresses.Listed.{need_all, list_sections-SectionsListed}
use afs_ld.Layout.Addresses.Whole.{
  ReadyNames, Ready-of, TextAndRest, FromText, address_segments-FromText, Chain-names,
  Chain-HasSection, same_bytes_symm,
}

abbrev pub names : List OutputSegment → List Bytes
names = map (λ s. s.name)

-- The names of the segments of an executable and of a dylib.
abbrev pub IsShape : OutputKind → List Bytes → Type 0
IsShape executable (z ∷ t ∷ rest) = (z ≡ pagezero_name) × (t ≡ text_name) × ReadyNames rest
IsShape dylib (t ∷ rest) = (t ≡ text_name) × ReadyNames rest
IsShape _ _ = ⊥

-- Where the segments are: __PAGEZERO below __TEXT in an executable, and the rest in a row after it.
abbrev pub ArePlaced : OutputKind → ℕ → List OutputSection → List OutputSegment → Type 0
ArePlaced executable header sections (z ∷ t ∷ rest) =
    (z.vm_addr ≡ 0)
    × (z.vm_size ≡ executable_text_base)
    × TextAndRest executable_text_base header sections t rest
ArePlaced dylib header sections (t ∷ rest) = TextAndRest 0 header sections t rest
ArePlaced _ _ _ _ = ⊥

-- What `assign_addresses` does to a layout.
pub record IsAssigned (header : ℕ) (before after : Layout) : Type 0 where
  pub same_kind : after.kind ≡ before.kind
  pub same_names : names after.segments ≡ names before.segments
  pub same_info : map info after.sections ≡ map info before.sections
  pub all_listed :
      (i : ℕ) (section : OutputSection)
      → get_elem? before.sections i ≡ some section
      → HasSection after.segments section.segment i
  pub placed : ArePlaced before.kind header after.sections after.segments

record Finished (kind : OutputKind) (header : ℕ) (sections : List OutputSection)
    (listed : List OutputSegment) : Type 0 where
  reserved : List OutputSegment
  segments : List OutputSegment
  after : List OutputSection
  end_vm : ℕ
  end_file : ℕ
  reserves : reserve_pagezero kind listed ≡ ok reserved
  runs :
      address_segments (text_base_of kind) header (names reserved) (record {
        sections = sections;
        segments = reserved;
        next_vm = text_base_of kind;
        next_file = 0;
      })
      ≡ ok
          (record { sections = after; segments = segments; next_vm = end_vm; next_file = end_file })
  same_names : names segments ≡ names listed
  same_info : map info after ≡ map info sections
  still : (name : Bytes) (id : ℕ) → HasSection listed name id → HasSection segments name id
  placed : ArePlaced kind header after segments

NewNames-pagezero :
    (z : OutputSegment) (count : ℕ) (ts : List OutputSegment)
    → z.name ≡ pagezero_name
    → Ready count ts
    → NewNames (z ∷ []) ts
NewNames-pagezero z count [] same ready = tt
NewNames-pagezero z count (u ∷ ts) same (plain, _, _, _, ready) = (
  (
    subst (λ n. same_bytes n u.name ≡ false) (sym same)
        (same_bytes_symm u.name pagezero_name plain.0),
    tt,
  ),
  NewNames-pagezero z count ts same ready,
)

NewNames-none : (ts : List OutputSegment) → NewNames [] ts
NewNames-none [] = tt
NewNames-none (u ∷ ts) = (tt, NewNames-none ts)

text-HasSection :
    (base header : ℕ) (front : List OutputSegment) (t : OutputSegment) (ts : List OutputSegment)
    (sections : List OutputSection) (f : FromText base header front t ts sections) (name : Bytes)
    (id : ℕ)
    → HasSection (t ∷ ts) name id
    → HasSection (f.text ∷ f.rest) name id
text-HasSection base header front t ts sections f name id (inl (e, m)) =
    inl (f.same_text.0 ∙ e, subst (Any (λ x. x ≡ id)) (sym f.same_text.1) m)
text-HasSection base header front t ts sections f name id (inr later) =
    inr (Chain-HasSection f.after _ _ ts f.rest name id f.chain later)

finish :
    (kind : OutputKind) (header : ℕ) (sections : List OutputSection) (listed : List OutputSegment)
    → IsShape kind (names listed)
    → All (IsListed (length sections)) listed
    → AllApart listed
    → text_base_of kind + header + room sections listed < 2 ^ 64
    → Finished kind header sections listed
unfolding reserve_pagezero address_segments
finish executable header sections [] shape there apart small = elim shape [ ]
finish executable header sections (z ∷ []) shape there apart small = elim shape [ ]
finish executable header sections (z ∷ t ∷ ts) (z_is, t_is, ready) there apart small =
    let ready' = Ready-of (length sections) ts ready there.1.1 apart.1.1 in
    let f =
      address_segments-FromText executable_text_base header (place_pagezero z ∷ []) ts t sections
        t_is refl there.1.0 ready' apart.1.0
        (
          subst (λ n. same_bytes n t.name ≡ false) (sym z_is)
              (subst (λ n. same_bytes pagezero_name n ≡ false) (sym t_is) refl),
          tt,
        )
        (NewNames-pagezero (place_pagezero z) (length sections) ts z_is ready') (omega arith) in
    record {
      reserved = place_pagezero z ∷ t ∷ ts;
      segments = place_pagezero z ∷ f.text ∷ f.rest;
      after = f.after;
      end_vm = f.end_vm;
      end_file = f.end_file;
      reserves = update_segment-middle pagezero_name place_pagezero [] (t ∷ ts) z tt z_is;
      runs = rw (≡→same_bytes z_is) f.runs;
      same_names =
          ap₂ (λ n ns. z.name ∷ n ∷ ns) f.same_text.0 (Chain-names f.after _ _ ts f.rest f.chain);
      same_info = f.same_info;
      still = λ name id h. elim h [
        | inl here ↦ inl here
        | inr later ↦ inr (
            text-HasSection executable_text_base header (place_pagezero z ∷ []) t ts sections f name
              id later)
      ];
      placed = (refl, refl, f.placed);
    }
finish dylib header sections [] shape there apart small = elim shape [ ]
finish dylib header sections (t ∷ ts) (t_is, ready) there apart small =
    let ready' = Ready-of (length sections) ts ready there.1 apart.1 in
    let f =
      address_segments-FromText 0 header [] ts t sections t_is refl there.0 ready' apart.0 tt
        (NewNames-none ts) (omega arith) in
    record {
      reserved = t ∷ ts;
      segments = f.text ∷ f.rest;
      after = f.after;
      end_vm = f.end_vm;
      end_file = f.end_file;
      reserves = refl;
      runs = f.runs;
      same_names = ap₂ ◌∷◌ f.same_text.0 (Chain-names f.after _ _ ts f.rest f.chain);
      same_info = f.same_info;
      still = λ name id h. text-HasSection 0 header [] t ts sections f name id h;
      placed = f.placed;
    }

names-clear : (segments : List OutputSegment) → names (map clear_segment segments) ≡ names segments
names-clear [] = refl
names-clear (s ∷ segments) = ap (◌∷◌ (s.name)) (names-clear segments)

clear-IsListed : (segments : List OutputSegment) → All (IsListed 0) (map clear_segment segments)
clear-IsListed [] = tt
clear-IsListed (s ∷ segments) = ((tt, tt), clear-IsListed segments)

AllApart-clear : (segments : List OutputSegment) → AllApart (map clear_segment segments)
AllApart-clear [] = tt
AllApart-clear (s ∷ segments) = (none_shared segments, AllApart-clear segments)
  where
    none_shared :
        (ts : List OutputSegment) → All (λ u. BothApart (clear_segment s) u) (map clear_segment ts)
    none_shared [] = tt
    none_shared (u ∷ us) = ((tt, tt), none_shared us)

room-clear :
    (sections : List OutputSection) (segments : List OutputSegment)
    → room sections (map clear_segment segments) ≡ 2 * page_size * length segments
room-clear sections [] = refl
room-clear sections (s ∷ segments) = omega (arith, room-clear sections segments)

has_name-clear :
    (name : Bytes) (segments : List OutputSegment)
    → Any (λ s. s.name ≡ name) segments
    → Any (λ s. s.name ≡ name) (map clear_segment segments)
has_name-clear name [] h = elim h [ ]
has_name-clear name (s ∷ segments) (inl h) = inl h
has_name-clear name (s ∷ segments) (inr h) = inr (has_name-clear name segments h)

-- On a layout with the segments of its kind, each section's among them, and with room in 64 bits,
-- `assign_addresses` succeeds. It keeps the segments' names and all of the sections but their places, and lists
-- every section in a segment of its name. __TEXT starts at its base, after __PAGEZERO in an executable; every
-- segment starts at a page, at or after the end of the one before it, in memory and in the file; and the
-- sections of a segment stand in it one after the other, each at a multiple of its alignment, after the header
-- in __TEXT, zerofill ones without file bytes (the file range of __LINKEDIT is not claimed).
pub assign_addresses-IsAssigned :
    (header : ℕ) (layout : Layout)
    → IsShape layout.kind (names layout.segments)
    → All (λ section. Any (λ s. s.name ≡ section.segment) layout.segments) layout.sections
    → length layout.sections ≤ 2 ^ 32
    → text_base_of layout.kind
        + header
        + 2 * page_size * length layout.segments
        + need_all layout.sections
      < 2 ^ 64
    → (after : Layout) × (assign_addresses header layout ≡ ok after)
      × IsAssigned header layout after
unfolding assign_addresses
assign_addresses-IsAssigned header layout shape has few small =
    let sections = layout.sections in
    let cleared = map clear_segment layout.segments in
    let l =
      list_sections-SectionsListed sections sections 0 cleared
        (λ i s h. subst (λ k. get_elem? sections k ≡ some s) (omega arith) h)
        (All-imp sections (λ s h. has_name-clear s.segment layout.segments h) has) (omega arith)
        (clear-IsListed layout.segments) (AllApart-clear layout.segments) in
    let same = l.same_names ∙ names-clear layout.segments in
    let count : 0 + length sections ≡ length sections = omega arith in
    let f =
      finish layout.kind header sections l.after (subst (IsShape layout.kind) (sym same) shape)
        (subst (λ n. All (IsListed n) l.after) count l.listed) l.apart
        (omega (arith, l.room_is, room-clear sections layout.segments)) in
    (
      record layout { segments = f.segments; sections = f.after },
      rw (l.runs, f.reserves, f.runs) refl,
      record {
        same_kind = refl;
        same_names = f.same_names ∙ same;
        same_info = f.same_info;
        all_listed = λ i section h.
            f.still section.segment i
              (subst (HasSection l.after section.segment) (omega arith) (l.there i section h));
        placed = f.placed;
      },
    )
