-- ===== src/Layout/Addresses/Whole.antt =====
-- src/layout.rs, `assign_addresses` as a whole: the segments and sections of a layout get places that do not
-- overlap.
use afs_ld.Prelude.{
  ℕ, ◌+◌, ◌^◌, ◌%◌, ◌≤◌, ◌<◌, ◌≡◌, refl, sym, ap₂, ◌∙◌, subst, true, false, List, [], ◌∷◌, ◌++◌,
  map, append_assoc, ok, length, Bool-cases, inl, inr, All, All-imp, Any, if◌then◌else◌, arith,
}
use afs_ld.Prelude.Bytes.{Bytes, same_bytes, same_bytes→≡, ≡→same_bytes}
use afs_ld.Layout.{OutputSection, OutputSegment, page_size}
use afs_ld.Layout.Addresses.{
  Start, pagezero_name, text_name, linkedit_name, segment_start, place_segment, address_segments,
}
use afs_ld.Layout.Addresses.Run.{info, need}
use afs_ld.Layout.Addresses.Chains.{SameAt}
use afs_ld.Layout.Addresses.Segment.{SegmentPlaced, IsStart, at_text-IsStart}
use afs_ld.Layout.Addresses.Step.{
  is_linkedit, IsListed, LastIfLinkedit, Ready, AreApart, room, room-info, Chain,
  SegmentPlaced-same, Stepped, address_segment-Stepped,
}
use afs_ld.Layout.Addresses.Loop.{
  Looped, address_segments-Looped, Follows-step, NewNames, NewNames-step, Apart-same,
}
use afs_ld.Layout.Addresses.Pushed.{AllApart, BothApart, HasSection}

pub same_bytes_symm : (a b : Bytes) → same_bytes a b ≡ false → same_bytes b a ≡ false
same_bytes_symm a b h = elim (Bool-cases (same_bytes b a)) [
  | inr other ↦ other
  | inl same ↦ absurd (cc (h, ≡→same_bytes (sym (same_bytes→≡ b a same))))
]

abbrev pub LastName : Bytes → List Bytes → Type 0
LastName n [] = Unit
LastName n (_ ∷ _) = same_bytes n linkedit_name ≡ false

-- The names of the segments after __TEXT: new ones, and only the last may be __LINKEDIT.
abbrev pub ReadyNames : List Bytes → Type 0
ReadyNames [] = Unit
ReadyNames (n ∷ ns) =
    ((same_bytes n pagezero_name ≡ false) × (same_bytes n text_name ≡ false))
    × All (λ m. same_bytes n m ≡ false) ns
    × LastName n ns
    × ReadyNames ns

AreApart-of :
    (t : OutputSegment) (ts : List OutputSegment)
    → All (λ m. same_bytes t.name m ≡ false) (map (λ s. s.name) ts)
    → All (BothApart t) ts
    → All (AreApart t) ts
AreApart-of t [] names apart = tt
AreApart-of t (u ∷ us) names apart =
    ((names.0, apart.0.0, apart.0.1), AreApart-of t us names.1 apart.1)

LastIfLinkedit-of :
    (t : OutputSegment) (ts : List OutputSegment)
    → LastName t.name (map (λ s. s.name) ts)
    → LastIfLinkedit t ts
LastIfLinkedit-of t [] h = tt
LastIfLinkedit-of t (u ∷ us) h = h

pub Ready-of :
    (count : ℕ) (ts : List OutputSegment)
    → ReadyNames (map (λ s. s.name) ts)
    → All (IsListed count) ts
    → AllApart ts
    → Ready count ts
Ready-of count [] names listed apart = tt
Ready-of count (t ∷ ts) names listed apart = (
  names.0,
  listed.0,
  AreApart-of t ts (names.1) apart.0,
  LastIfLinkedit-of t ts (names.2),
  Ready-of count ts (names.3) listed.1 apart.1,
)

-- The segments are in a row, in memory and in the file, each with its sections in it.
abbrev pub InRow : List OutputSection → (vm file : ℕ) → List OutputSegment → Type 0
InRow sections vm file [] = Unit
InRow sections vm file (p ∷ ps) =
    SegmentPlaced sections 0 (is_linkedit p) p
    × (vm ≤ p.vm_addr)
    × (file ≤ p.file_off)
    × InRow sections (p.vm_addr + p.vm_size) (p.file_off + p.file_size) ps

Chain→InRow :
    (sections : List OutputSection) (vm file : ℕ) (ts ps : List OutputSegment)
    → Chain sections vm file ts ps
    → InRow sections vm file ps
Chain→InRow sections vm file [] [] h = tt
Chain→InRow sections vm file [] (p ∷ ps) h = elim h [ ]
Chain→InRow sections vm file (t ∷ ts) [] h = elim h [ ]
Chain→InRow sections vm file (t ∷ ts) (p ∷ ps) (_, placed, vm_le, file_le, rest) = (
  placed,
  vm_le,
  file_le,
  Chain→InRow sections (p.vm_addr + p.vm_size) (p.file_off + p.file_size) ts ps rest,
)

pub Chain-names :
    (sections : List OutputSection) (vm file : ℕ) (ts ps : List OutputSegment)
    → Chain sections vm file ts ps
    → map (λ s. s.name) ps ≡ map (λ s. s.name) ts
Chain-names sections vm file [] [] h = refl
Chain-names sections vm file [] (p ∷ ps) h = elim h [ ]
Chain-names sections vm file (t ∷ ts) [] h = elim h [ ]
Chain-names sections vm file (t ∷ ts) (p ∷ ps) ((name, _), _, _, _, rest) =
    ap₂ ◌∷◌ name
      (Chain-names sections (p.vm_addr + p.vm_size) (p.file_off + p.file_size) ts ps rest)

pub Chain-HasSection :
    (sections : List OutputSection) (vm file : ℕ) (ts ps : List OutputSegment) (name : Bytes)
    (id : ℕ)
    → Chain sections vm file ts ps
    → HasSection ts name id
    → HasSection ps name id
Chain-HasSection sections vm file [] ps name id h has = elim has [ ]
Chain-HasSection sections vm file (t ∷ ts) [] name id h has = elim h [ ]
Chain-HasSection sections vm file (t ∷ ts) (p ∷ ps) name id ((same, ids), _, _, _, _) (inl (e, m)) =
    inl (same ∙ e, subst (Any (λ x. x ≡ id)) (sym ids) m)
Chain-HasSection sections vm file (t ∷ ts) (p ∷ ps) name id (_, _, _, _, rest) (inr later) = inr (
    Chain-HasSection sections (p.vm_addr + p.vm_size) (p.file_off + p.file_size) ts ps name id rest
      later)

-- __TEXT at its base with its header, and the segments after it.
pub record TextAndRest (base header : ℕ) (sections : List OutputSection) (text : OutputSegment)
    (rest : List OutputSegment) : Type 0 where
  pub text_vm : text.vm_addr ≡ base
  pub text_file : text.file_off ≡ 0
  pub text_placed : SegmentPlaced sections header false text
  pub in_row : InRow sections (text.vm_addr + text.vm_size) (text.file_off + text.file_size) rest

-- The loop from __TEXT on.
pub record FromText (base header : ℕ) (front : List OutputSegment) (t : OutputSegment)
    (ts : List OutputSegment) (sections : List OutputSection) : Type 0 where
  pub text : OutputSegment
  pub rest : List OutputSegment
  pub after : List OutputSection
  pub end_vm : ℕ
  pub end_file : ℕ
  pub runs :
      address_segments base header
        (map (λ s. s.name) (t ∷ ts))
        (record { sections = sections; segments = front ++ t ∷ ts; next_vm = base; next_file = 0 })
      ≡ ok (record {
        sections = after;
        segments = front ++ text ∷ rest;
        next_vm = end_vm;
        next_file = end_file;
      })
  pub same_info : map info after ≡ map info sections
  pub same_text : (text.name ≡ t.name) × (text.sections ≡ t.sections)
  pub chain : Chain after (text.vm_addr + text.vm_size) (text.file_off + text.file_size) ts rest
  pub placed : TextAndRest base header after text rest

text-LastIfLinkedit :
    (t : OutputSegment) (ts : List OutputSegment) → is_linkedit t ≡ false → LastIfLinkedit t ts
text-LastIfLinkedit t [] h = tt
text-LastIfLinkedit t (u ∷ us) h = h

text-AreApart :
    (t : OutputSegment) (count : ℕ) (ts : List OutputSegment)
    → t.name ≡ text_name
    → Ready count ts
    → All (BothApart t) ts
    → All (AreApart t) ts
text-AreApart t count [] same ready apart = tt
text-AreApart t count (u ∷ us) same (plain, _, _, _, ready) apart = (
  (
    subst (λ n. same_bytes n u.name ≡ false) (sym same) (same_bytes_symm u.name text_name plain.1),
    apart.0.0,
    apart.0.1,
  ),
  text-AreApart t count us same ready apart.1,
)

FromText-cons :
    (base header : ℕ) (front ts : List OutputSegment) (t : OutputSegment)
    (sections : List OutputSection) (start : Start)
    (st : Stepped base header front ts t sections base 0 header start)
    → same_bytes t.name pagezero_name ≡ false
    → is_linkedit t ≡ false
    → start.vm ≡ base
    → start.file ≡ 0
    → All (AreApart t) ts
    → let p = place_segment (is_linkedit t) start st.a.c' t in
      Looped base header
        (front ++ p ∷ [])
        ts
        st.a.after
        (if is_linkedit t then start.vm else st.a.c'.vm_end)
        (if is_linkedit t then start.file else st.a.c'.file_end)
        (start.vm + p.vm_size)
        (start.file + p.file_size)
      → FromText base header front t ts sections
unfolding address_segments place_segment
FromText-cons base header front ts t sections start st not_pagezero not_linkedit vm_is file_is apart
      r =
    let p = place_segment (is_linkedit t) start st.a.c' t in
    let keeps : SameAt st.a.after r.after t.sections =
      Apart-same st.a.after r.after t.sections ts r.others (All-imp ts (λ u h. h.2) apart) in
    record {
      text = p;
      rest = r.placed;
      after = r.after;
      end_vm = r.end_vm;
      end_file = r.end_file;
      runs =
          rw (not_pagezero, st.runs)
            (rw (append_assoc front (p ∷ []) ts, append_assoc front (p ∷ []) r.placed) at r.runs);
      same_info = r.same_info ∙ st.a.same_info;
      same_text = (refl, refl);
      chain = r.chain;
      placed = record {
        text_vm = vm_is;
        text_file = file_is;
        text_placed =
            SegmentPlaced-same st.a.after r.after header false p keeps
              (subst (λ l. SegmentPlaced st.a.after header l p) not_linkedit st.placed);
        in_row =
            Chain→InRow r.after (start.vm + p.vm_size) (start.file + p.file_size) ts r.placed
              r.chain;
      };
    }

pub address_segments-FromText :
    (base header : ℕ) (front ts : List OutputSegment) (t : OutputSegment)
    (sections : List OutputSection)
    → t.name ≡ text_name
    → base % page_size ≡ 0
    → IsListed (length sections) t
    → Ready (length sections) ts
    → All (BothApart t) ts
    → All (λ s. same_bytes s.name t.name ≡ false) front
    → NewNames front ts
    → base + header + room sections (t ∷ ts) < 2 ^ 64
    → FromText base header front t ts sections
unfolding address_segments place_segment segment_start
address_segments-FromText base header front ts t sections same aligned listed ready apart others new
      small =
    let is_text : same_bytes t.name text_name ≡ true = ≡→same_bytes same in
    let not_linkedit : is_linkedit t ≡ false =
      subst (λ n. same_bytes n linkedit_name ≡ false) (sym same) refl in
    let not_pagezero : same_bytes t.name pagezero_name ≡ false =
      subst (λ n. same_bytes n pagezero_name ≡ false) (sym same) refl in
    let start = segment_start (same_bytes t.name text_name) base header base 0 in
    let s : IsStart start header × (start.vm ≡ base) × (start.file ≡ 0) =
      rw is_text (at_text-IsStart base header base 0 aligned (omega arith), refl, refl) in
    let (is_start, vm_is, file_is) = s in
    let st =
      address_segment-Stepped base header base 0 header front ts t sections is_start listed others
        (omega (arith, vm_is)) (omega (arith, file_is)) in
    let p = place_segment (is_linkedit t) start st.a.c' t in
    let apart_t = text-AreApart t (length sections) ts same ready apart in
    let last = text-LastIfLinkedit t ts not_linkedit in
    let rooms = room-info sections st.a.after ts st.a.same_info in
    let vm_next : (if is_linkedit t then start.vm else st.a.c'.vm_end)
        ≤ base + header + need sections t.sections =
      rw not_linkedit (omega (arith, st.a.tight.0, st.a.vm_bound, is_start.vm_first, vm_is)) in
    let file_next : (if is_linkedit t then start.file else st.a.c'.file_end)
        ≤ header + need sections t.sections =
      rw not_linkedit
        (omega (arith, st.a.tight.1, st.a.file_bound, is_start.file_first, file_is)) in
    let r =
      address_segments-Looped base header ts (if is_linkedit t then start.vm else st.a.c'.vm_end)
        (if is_linkedit t then start.file else st.a.c'.file_end) (start.vm + p.vm_size)
        (start.file + p.file_size) (front ++ p ∷ []) st.a.after
        (subst (λ n. Ready n ts) (sym st.a.same_length) ready)
        (NewNames-step front ts t p refl new apart_t)
        (Follows-step t ts _ start.vm st.a.c'.vm_end last (λ e. (st.ends e).0))
        (Follows-step t ts _ start.file st.a.c'.file_end last (λ e. (st.ends e).1))
        (omega (arith, rooms, vm_next)) (omega (arith, rooms, file_next)) in
    FromText-cons base header front ts t sections start st not_pagezero not_linkedit vm_is file_is
      apart_t r
