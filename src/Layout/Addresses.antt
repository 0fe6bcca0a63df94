-- ===== src/Layout/Addresses.antt =====
-- src/layout.rs, `assign_addresses`: sections are listed in their segments, and segments and sections get their
-- places in memory and in the file. The state of the loop is the two lists and the two ends.
pub mod Run
pub mod Whole
pub mod Assigned
pub mod Pushed
pub mod Listed
pub mod Step
pub mod Loop
pub mod Chains
pub mod Segment
use afs_ld.Prelude.{
  ℕ, zero, suc, ◌+◌, ◌-◌, ◌^◌, ◌%◌, max, Bool, true, false, ◌&&◌, ◌||◌, List, [], ◌∷◌, ◌++◌, map,
  Option, none, some, Result, ok, err, ◌>>=◌, ok_or, get_elem?, set, ◌==◌, if◌then◌else◌,
}
use afs_ld.Prelude.Bytes.{Bytes, codes, same_bytes}
use afs_ld.Section.{is_zerofill}
use afs_ld.Layout.{
  OutputSection, OutputSegment, OutputKind, executable, dylib, Layout, Panics, page_size,
  executable_text_base, u64, alignment, align_up,
}

abbrev pub pagezero_name : Bytes
pagezero_name = codes "__PAGEZERO"

abbrev pub text_name : Bytes
text_name = codes "__TEXT"

abbrev pub linkedit_name : Bytes
linkedit_name = codes "__LINKEDIT"

abbrev pub clear_segment : OutputSegment → OutputSegment
clear_segment segment = record segment {
  sections = [];
  vm_addr = 0;
  vm_size = 0;
  file_off = 0;
  file_size = 0;
}

-- `segment`: the first one of the name.
unfoldable pub find_segment : Bytes → List OutputSegment → Option OutputSegment
unfolding same_bytes
find_segment name [] = none
find_segment name (segment ∷ segments) =
    if same_bytes segment.name name then some segment else find_segment name segments

-- A write through `segment_mut`, which panics where no segment has the name.
unfoldable pub update_segment :
    Bytes → (OutputSegment → OutputSegment) → List OutputSegment → Panics (List OutputSegment)
unfolding same_bytes
update_segment name change [] = err "no output segment of that name"
update_segment name change (segment ∷ segments) =
    let later = update_segment name change segments >>= λ rest. ok (segment ∷ rest) in
    if same_bytes segment.name name then ok (change segment ∷ segments) else later

abbrev pub push_section : ℕ → OutputSegment → OutputSegment
push_section idx segment = record segment { sections = segment.sections ++ idx % 2 ^ 32 ∷ [] }

-- The membership loop, from section `idx` on.
unfoldable pub list_sections :
    ℕ → List OutputSection → List OutputSegment → Panics (List OutputSegment)
unfolding update_segment
list_sections idx [] segments = ok segments
list_sections idx (section ∷ sections) segments = do
  listed ← update_segment section.segment (push_section idx) segments
  list_sections (idx + 1) sections listed

abbrev pub place_pagezero : OutputSegment → OutputSegment
place_pagezero segment = record segment {
  vm_addr = 0;
  vm_size = executable_text_base;
  file_off = 0;
  file_size = 0;
}

abbrev pub text_base_of : OutputKind → ℕ
text_base_of executable = executable_text_base
text_base_of dylib = 0

unfoldable pub reserve_pagezero : OutputKind → List OutputSegment → Panics (List OutputSegment)
unfolding update_segment
reserve_pagezero executable segments = update_segment pagezero_name place_pagezero segments
reserve_pagezero dylib segments = ok segments

-- `vm_cursor`, `file_cursor`, `seg_vm_end` and `seg_file_end`.
pub record Cursors : Type 0 where
  pub vm : ℕ
  pub file : ℕ
  pub vm_end : ℕ
  pub file_end : ℕ

-- One section at the cursors.
unfoldable pub address_section : OutputSection → Cursors → OutputSection × Cursors
unfolding align_up
address_section section c =
    let addr = align_up c.vm (alignment section.align_pow2) in
    let end = u64 (addr + section.size) in
    let file_off = align_up c.file (alignment section.align_pow2) in
    let file_end = u64 (file_off + section.size) in
    if is_zerofill section.kind
    then (
      record section { addr = addr; file_off = 0 },
      record c { vm = end; vm_end = max c.vm_end end },
    )
    else (
      record section { addr = addr; file_off = file_off },
      record {
        vm = end;
        file = file_end;
        vm_end = max c.vm_end end;
        file_end = max c.file_end file_end;
      },
    )

unfoldable pub address_sections :
    List ℕ → List OutputSection → Cursors → Panics (List OutputSection × Cursors)
unfolding address_section
address_sections [] sections c = ok (sections, c)
address_sections (id ∷ ids) sections c = do
  section ← ok_or (get_elem? sections id) "index out of bounds"
  let placed = address_section section c
  address_sections ids (set sections id placed.0) placed.1

-- The loop over the segments.
pub record Progress : Type 0 where
  pub sections : List OutputSection
  pub segments : List OutputSegment
  pub next_vm : ℕ
  pub next_file : ℕ

-- Where a segment starts, and its first free place.
pub record Start : Type 0 where
  pub vm : ℕ
  pub file : ℕ
  pub first : Cursors

abbrev pub cursors_at : ℕ → ℕ → Cursors
cursors_at vm file = record { vm = vm; file = file; vm_end = vm; file_end = file }

unfoldable pub segment_start :
    (is_text : Bool) → (text_base header_size next_vm next_file : ℕ) → Start
unfolding align_up
segment_start true text_base header_size next_vm next_file = record {
  vm = text_base;
  file = 0;
  first = cursors_at (u64 (text_base + header_size)) header_size;
}
segment_start false text_base header_size next_vm next_file =
    let vm = align_up next_vm page_size in
    let file = align_up next_file page_size in
    record { vm = vm; file = file; first = cursors_at vm file }

unfoldable pub vm_size_of : (is_linkedit : Bool) → ℕ → ℕ
unfolding align_up
vm_size_of is_linkedit raw_vm_size =
    if raw_vm_size == 0 || is_linkedit then raw_vm_size else align_up raw_vm_size page_size

unfoldable pub file_size_of : (is_linkedit : Bool) → ℕ → ℕ
unfolding align_up
file_size_of is_linkedit raw_file_size =
    if is_linkedit || raw_file_size == 0
    then (if is_linkedit then 0 else raw_file_size)
    else align_up raw_file_size page_size

unfoldable pub place_segment : Bool → Start → Cursors → OutputSegment → OutputSegment
unfolding vm_size_of file_size_of
place_segment is_linkedit start c segment = record segment {
  vm_addr = start.vm;
  file_off = start.file;
  vm_size = vm_size_of is_linkedit (c.vm_end - start.vm);
  file_size = file_size_of is_linkedit (c.file_end - start.file);
}

abbrev pub members : Option OutputSegment → List ℕ
members none = []
members (some segment) = segment.sections

unfoldable pub address_segment : ℕ → ℕ → Bytes → Progress → Panics Progress
unfolding find_segment segment_start address_sections update_segment place_segment same_bytes
address_segment text_base header_size name p = do
  let is_linkedit = same_bytes name linkedit_name
  let start = segment_start (same_bytes name text_name) text_base header_size p.next_vm p.next_file
  (sections, c) ← address_sections (members (find_segment name p.segments)) p.sections start.first
  segments ← update_segment name (place_segment is_linkedit start c) p.segments
  ok (record {
    sections = sections;
    segments = segments;
    next_vm = if is_linkedit then start.vm else c.vm_end;
    next_file = if is_linkedit then start.file else c.file_end;
  })

unfoldable pub address_segments : ℕ → ℕ → List Bytes → Progress → Panics Progress
unfolding address_segment same_bytes
address_segments text_base header_size [] p = ok p
address_segments text_base header_size (name ∷ names) p =
    let later = address_segment text_base header_size name p >>= λ q.
    address_segments text_base header_size names q in
    let skipped = address_segments text_base header_size names p in
    if same_bytes name pagezero_name then skipped else later

unfoldable pub assign_addresses : ℕ → Layout → Panics Layout
unfolding list_sections reserve_pagezero address_segments
assign_addresses header_size layout = do
  listed ← list_sections 0 layout.sections (map clear_segment layout.segments)
  segments ← reserve_pagezero layout.kind listed
  let text_base = text_base_of layout.kind
  done ← address_segments text_base header_size (map (λ s. s.name) segments) (record {
    sections = layout.sections;
    segments = segments;
    next_vm = text_base;
    next_file = 0;
  })
  ok (record layout { segments = done.segments; sections = done.sections })
