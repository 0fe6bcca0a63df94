-- ===== src/Layout/Addresses/Step.antt =====
-- src/layout.rs, `assign_addresses`: what one round of the loop over the segments does.
use afs_ld.Prelude.{
  ℕ, ◌+◌, ◌*◌, ◌^◌, ◌≤◌, ◌<◌, ◌≡◌, ◌≢◌, refl, Bool, false, List, [], ◌∷◌, ◌++◌, map, ok, length,
  All, if◌then◌else◌, arith,
}
use afs_ld.Prelude.Bytes.{same_bytes}
use afs_ld.Layout.{OutputSection, OutputSegment, page_size}
use afs_ld.Layout.Addresses.{
  Start, pagezero_name, text_name, linkedit_name, segment_start, place_segment, address_segment,
}
use afs_ld.Layout.Addresses.Run.{
  info, need, need-info, Distinct, Addresses, address_sections-Addresses,
}
use afs_ld.Layout.Addresses.Chains.{SameAt, VmChain-same, FileChain-same}
use afs_ld.Layout.Addresses.Segment.{
  SegmentPlaced, EndsBefore, IsStart, place_segment-SegmentPlaced, find_segment-middle,
  update_segment-middle,
}

abbrev pub is_linkedit : OutputSegment → Bool
is_linkedit segment = same_bytes segment.name linkedit_name

-- No section of one list is in the other.
abbrev pub Apart : List ℕ → List ℕ → Type 0
Apart ids others = All (λ other. All (λ id. id ≢ other) ids) others

-- A segment with sections that are there, each listed once.
abbrev pub IsListed : ℕ → OutputSegment → Type 0
IsListed count segment = Distinct segment.sections × All (λ id. id < count) segment.sections

-- A segment is neither __PAGEZERO nor __TEXT.
abbrev IsPlain : OutputSegment → Type 0
IsPlain segment =
    (same_bytes segment.name pagezero_name ≡ false) × (same_bytes segment.name text_name ≡ false)

abbrev pub AreApart : OutputSegment → OutputSegment → Type 0
AreApart a b =
    (same_bytes a.name b.name ≡ false) × Apart a.sections b.sections × Apart b.sections a.sections

abbrev pub LastIfLinkedit : OutputSegment → List OutputSegment → Type 0
LastIfLinkedit t [] = Unit
LastIfLinkedit t (u ∷ us) = is_linkedit t ≡ false

-- The segments have different names and share no section, and only the last may be __LINKEDIT.
abbrev pub Ready : ℕ → List OutputSegment → Type 0
Ready count [] = Unit
Ready count (t ∷ ts) =
    IsPlain t × IsListed count t × All (AreApart t) ts × LastIfLinkedit t ts × Ready count ts

-- More than the segments can take.
abbrev pub room : List OutputSection → List OutputSegment → ℕ
room sections [] = 0
room sections (t ∷ ts) = 2 * page_size + need sections t.sections + room sections ts

pub room-info :
    (before after : List OutputSection) (ts : List OutputSegment)
    → map info after ≡ map info before
    → room after ts ≡ room before ts
room-info before after [] same = refl
room-info before after (t ∷ ts) same =
    omega (arith, need-info before after t.sections same, room-info before after ts same)

-- The segments are placed one after the other, from two ends on.
abbrev pub Chain :
    List OutputSection → (vm file : ℕ) → List OutputSegment → List OutputSegment → Type 0
Chain sections vm file [] [] = Unit
Chain sections vm file (t ∷ ts) (p ∷ ps) =
    ((p.name ≡ t.name) × (p.sections ≡ t.sections))
    × SegmentPlaced sections 0 (is_linkedit p) p
    × (vm ≤ p.vm_addr)
    × (file ≤ p.file_off)
    × Chain sections (p.vm_addr + p.vm_size) (p.file_off + p.file_size) ts ps
Chain sections vm file _ _ = ⊥

pub SegmentPlaced-same :
    (before after : List OutputSection) (header : ℕ) (linkedit : Bool) (segment : OutputSegment)
    → SameAt before after segment.sections
    → SegmentPlaced before header linkedit segment
    → SegmentPlaced after header linkedit segment
SegmentPlaced-same before after header linkedit segment same p = record {
  vm_aligned = p.vm_aligned;
  file_aligned = p.file_aligned;
  vm_chain = VmChain-same before after _ _ segment.sections same p.vm_chain;
  file_chain = λ e. FileChain-same before after _ _ segment.sections same (p.file_chain e);
}

-- One step of the loop on a segment, from a start.
pub record Stepped (text_base header_size : ℕ) (front back : List OutputSegment) (t : OutputSegment)
    (sections : List OutputSection) (next_vm next_file header : ℕ) (start : Start) : Type 0 where
  pub a : Addresses t.sections sections start.first
  pub runs :
      address_segment text_base header_size t.name (record {
        sections = sections;
        segments = front ++ t ∷ back;
        next_vm = next_vm;
        next_file = next_file;
      })
      ≡ ok (record {
        sections = a.after;
        segments = front ++ place_segment (is_linkedit t) start a.c' t ∷ back;
        next_vm = if is_linkedit t then start.vm else a.c'.vm_end;
        next_file = if is_linkedit t then start.file else a.c'.file_end;
      })
  pub placed :
      SegmentPlaced a.after header (is_linkedit t) (place_segment (is_linkedit t) start a.c' t)
  pub ends :
      is_linkedit t ≡ false
      → EndsBefore (start.vm + (place_segment (is_linkedit t) start a.c' t).vm_size) a.c'.vm_end
        × EndsBefore
            (start.file + (place_segment (is_linkedit t) start a.c' t).file_size)
            a.c'.file_end

pub address_segment-Stepped :
    (text_base header_size next_vm next_file header : ℕ) (front back : List OutputSegment)
    (t : OutputSegment) (sections : List OutputSection)
    → let start =
        segment_start (same_bytes t.name text_name) text_base header_size next_vm next_file in
      IsStart start header
      → IsListed (length sections) t
      → All (λ s. same_bytes s.name t.name ≡ false) front
      → start.vm + header + need sections t.sections + page_size < 2 ^ 64
      → start.file + header + need sections t.sections + page_size < 2 ^ 64
      → Stepped text_base header_size front back t sections next_vm next_file header start
unfolding address_segment place_segment
address_segment-Stepped text_base header_size next_vm next_file header front back t sections s
      listed others vm_room file_room =
    let start =
      segment_start (same_bytes t.name text_name) text_base header_size next_vm next_file in
    let a =
      address_sections-Addresses t.sections sections start.first s.tight listed.0 listed.1
        (omega (arith, s.vm_first)) (omega (arith, s.file_first)) in
    let (placed, ends) =
      place_segment-SegmentPlaced a.after start header (is_linkedit t) a.c' t s a.tight a.vm_chain
        a.file_chain (omega (arith, a.vm_bound, s.vm_first))
        (omega (arith, a.file_bound, s.file_first)) in
    record {
      a = a;
      runs =
          rw
            (
              find_segment-middle t.name front back t others refl,
              a.runs,
              update_segment-middle t.name (place_segment (is_linkedit t) start a.c') front back t
                  others refl,
            )
            refl;
      placed = placed;
      ends = ends;
    }
