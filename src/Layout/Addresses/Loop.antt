-- ===== src/Layout/Addresses/Loop.antt =====
-- src/layout.rs, `assign_addresses`: the loop over the segments after __TEXT.
use afs_ld.Prelude.{
  ℕ, ◌+◌, ◌^◌, ◌≤◌, ◌<◌, ◌≡◌, ◌≢◌, refl, sym, ◌∙◌, subst, Bool, true, false, List, [], ◌∷◌, ◌++◌,
  map, append_assoc, ok, length, get_elem?, All, All-imp, All-append, if◌then◌else◌, arith,
}
use afs_ld.Prelude.Bytes.{same_bytes}
use afs_ld.Layout.{OutputSection, OutputSegment, page_size}
use afs_ld.Layout.Addresses.{
  Start, pagezero_name, text_name, segment_start, place_segment, address_segments,
}
use afs_ld.Layout.Addresses.Run.{info, need}
use afs_ld.Layout.Addresses.Chains.{SameAt}
use afs_ld.Layout.Addresses.Segment.{EndsBefore, IsStart, at_page-IsStart}
use afs_ld.Layout.Addresses.Step.{
  is_linkedit, Apart, AreApart, LastIfLinkedit, Ready, room, room-info, Chain, SegmentPlaced-same,
  Stepped, address_segment-Stepped,
}

-- What the loop does from a state on: its end, and the segments placed after two ends.
pub record Looped (text_base header_size : ℕ) (front todo : List OutputSegment)
    (sections : List OutputSection) (next_vm next_file from_vm from_file : ℕ) : Type 0 where
  pub placed : List OutputSegment
  pub after : List OutputSection
  pub end_vm : ℕ
  pub end_file : ℕ
  pub runs :
      address_segments text_base header_size (map (λ s. s.name) todo) (record {
        sections = sections;
        segments = front ++ todo;
        next_vm = next_vm;
        next_file = next_file;
      })
      ≡ ok (record {
        sections = after;
        segments = front ++ placed;
        next_vm = end_vm;
        next_file = end_file;
      })
  pub same_info : map info after ≡ map info sections
  pub same_length : length after ≡ length sections
  pub others :
      (other : ℕ)
      → All (λ t. All (λ id. id ≢ other) t.sections) todo
      → get_elem? after other ≡ get_elem? sections other
  pub chain : Chain after from_vm from_file todo placed

-- The ends that the next segment follows.
abbrev pub Follows : ℕ → ℕ → List OutputSegment → Type 0
Follows from next [] = Unit
Follows from next (_ ∷ _) = EndsBefore from next

abbrev pub NewNames : List OutputSegment → List OutputSegment → Type 0
NewNames front todo = All (λ t. All (λ s. same_bytes s.name t.name ≡ false) front) todo

All-swap :
    {A B : Type 0} (R : A → B → Type 0) (xs : List A) (ys : List B)
    → All (λ x. All (R x) ys) xs
    → All (λ y. All (λ x. R x y) xs) ys
All-swap R xs [] h = tt
All-swap R xs (y ∷ ys) h = (All-imp xs (λ x r. r.0) h, All-swap R xs ys (All-imp xs (λ x r. r.1) h))

-- What is apart from the segments to come is as it was.
pub Apart-same :
    (before after : List OutputSection) (ids : List ℕ) (ts : List OutputSegment)
    → ((other : ℕ)
        → All (λ t. All (λ id. id ≢ other) t.sections) ts
        → get_elem? after other ≡ get_elem? before other)
    → All (λ u. Apart u.sections ids) ts
    → SameAt before after ids
Apart-same before after ids ts others apart =
    All-imp ids others (All-swap (λ u id. All (λ x. x ≢ id) u.sections) ts ids apart)

Looped-cons :
    (text_base header_size next_vm next_file from_vm from_file : ℕ) (front ts : List OutputSegment)
    (t : OutputSegment) (sections : List OutputSection) (start : Start)
    (st : Stepped text_base header_size front ts t sections next_vm next_file 0 start)
    → same_bytes t.name pagezero_name ≡ false
    → from_vm ≤ start.vm
    → from_file ≤ start.file
    → All (AreApart t) ts
    → let p = place_segment (is_linkedit t) start st.a.c' t in
      Looped text_base header_size
        (front ++ p ∷ [])
        ts
        st.a.after
        (if is_linkedit t then start.vm else st.a.c'.vm_end)
        (if is_linkedit t then start.file else st.a.c'.file_end)
        (start.vm + p.vm_size)
        (start.file + p.file_size)
      → Looped text_base header_size front (t ∷ ts) sections next_vm next_file from_vm from_file
unfolding address_segments place_segment
Looped-cons text_base header_size next_vm next_file from_vm from_file front ts t sections start st
      plain vm_le file_le apart r =
    let p = place_segment (is_linkedit t) start st.a.c' t in
    let keeps : SameAt st.a.after r.after t.sections =
      Apart-same st.a.after r.after t.sections ts r.others (All-imp ts (λ u h. h.2) apart) in
    record {
      placed = p ∷ r.placed;
      after = r.after;
      end_vm = r.end_vm;
      end_file = r.end_file;
      runs =
          rw (plain, st.runs)
            (rw (append_assoc front (p ∷ []) ts, append_assoc front (p ∷ []) r.placed) at r.runs);
      same_info = r.same_info ∙ st.a.same_info;
      same_length = r.same_length ∙ st.a.same_length;
      others = λ other h. r.others other h.1 ∙ st.a.others other h.0;
      chain = (
        (refl, refl),
        SegmentPlaced-same st.a.after r.after 0 (is_linkedit t) p keeps st.placed,
        vm_le,
        file_le,
        r.chain,
      );
    }

if-le : (b : Bool) (x y bound : ℕ) → x ≤ bound → y ≤ bound → (if b then x else y) ≤ bound
if-le true x y bound h g = h
if-le false x y bound h g = g

pub Follows-step :
    (t : OutputSegment) (ts : List OutputSegment) (from start cursor : ℕ)
    → LastIfLinkedit t ts
    → (is_linkedit t ≡ false → EndsBefore from cursor)
    → Follows from (if is_linkedit t then start else cursor) ts
Follows-step t [] from start cursor last ends = tt
Follows-step t (u ∷ us) from start cursor last ends = rw last (ends last)

pub NewNames-step :
    (front ts : List OutputSegment) (t p : OutputSegment)
    → p.name ≡ t.name
    → NewNames front ts
    → All (AreApart t) ts
    → NewNames (front ++ p ∷ []) ts
NewNames-step front [] t p same new apart = tt
NewNames-step front (u ∷ ts) t p same new apart = (
  All-append (λ s. same_bytes s.name u.name ≡ false) front (p ∷ []) new.0
      (subst (λ name. same_bytes name u.name ≡ false) (sym same) apart.0.0, tt),
  NewNames-step front ts t p same new.1 apart.1,
)

pub address_segments-Looped :
    (text_base header_size : ℕ) (todo : List OutputSegment)
    (next_vm next_file from_vm from_file : ℕ) (front : List OutputSegment)
    (sections : List OutputSection)
    → Ready (length sections) todo
    → NewNames front todo
    → Follows from_vm next_vm todo
    → Follows from_file next_file todo
    → next_vm + room sections todo < 2 ^ 64
    → next_file + room sections todo < 2 ^ 64
    → Looped text_base header_size front todo sections next_vm next_file from_vm from_file
unfolding address_segments place_segment
address_segments-Looped text_base header_size [] next_vm next_file from_vm from_file front sections
      ready new vm_after file_after vm_room file_room =
    record {
      placed = [];
      after = sections;
      end_vm = next_vm;
      end_file = next_file;
      runs = refl;
      same_info = refl;
      same_length = refl;
      others = λ other h. refl;
      chain = tt;
    }
address_segments-Looped text_base header_size (t ∷ ts) next_vm next_file from_vm from_file front
      sections (plain, listed, apart, last, ready) new vm_after file_after vm_room file_room =
    let start =
      segment_start (same_bytes t.name text_name) text_base header_size next_vm next_file in
    let s : IsStart start 0
        × (next_vm ≤ start.vm)
        × (start.vm < next_vm + page_size)
        × (next_file ≤ start.file)
        × (start.file < next_file + page_size) =
      rw (plain.1)
        (at_page-IsStart text_base header_size next_vm next_file (omega arith) (omega arith)) in
    let (is_start, vm_least, vm_most, file_least, file_most) = s in
    let st =
      address_segment-Stepped text_base header_size next_vm next_file 0 front ts t sections is_start
        listed new.0 (omega arith) (omega arith) in
    let p = place_segment (is_linkedit t) start st.a.c' t in
    let rooms = room-info sections st.a.after ts st.a.same_info in
    let vm_next =
      if-le (is_linkedit t) start.vm st.a.c'.vm_end (next_vm + page_size + need sections t.sections)
        (omega arith) (omega (arith, st.a.tight.0, st.a.vm_bound, is_start.vm_first)) in
    let file_next =
      if-le (is_linkedit t) start.file st.a.c'.file_end
        (next_file + page_size + need sections t.sections) (omega arith)
        (omega (arith, st.a.tight.1, st.a.file_bound, is_start.file_first)) in
    Looped-cons text_base header_size next_vm next_file from_vm from_file front ts t sections start
      st plain.0 (vm_after start.vm vm_least is_start.vm_aligned)
      (file_after start.file file_least is_start.file_aligned) apart
      (address_segments-Looped text_base header_size ts
        (if is_linkedit t then start.vm else st.a.c'.vm_end)
        (if is_linkedit t then start.file else st.a.c'.file_end) (start.vm + p.vm_size)
        (start.file + p.file_size) (front ++ p ∷ []) st.a.after
        (subst (λ n. Ready n ts) (sym st.a.same_length) ready)
        (NewNames-step front ts t p refl new.1 apart)
        (Follows-step t ts _ start.vm st.a.c'.vm_end last (λ e. (st.ends e).0))
        (Follows-step t ts _ start.file st.a.c'.file_end last (λ e. (st.ends e).1))
        (omega (arith, rooms, vm_next)) (omega (arith, rooms, file_next)))
