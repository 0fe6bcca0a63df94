-- ===== src/Layout/Addresses/Segment.antt =====
-- src/layout.rs, `assign_addresses`: one segment of the loop.
use afs_ld.Prelude.{
  ℕ, ◌+◌, ◌-◌, ◌^◌, ◌%◌, ◌≤◌, ◌<◌, ◌≡◌, refl, subst, Bool, true, false, List, [], ◌∷◌, ◌++◌, some,
  ok, Bool-cases, inl, inr, All, ◌==◌, ==_iff, arith,
}
use afs_ld.Prelude.Bytes.{Bytes, same_bytes, ≡→same_bytes}
use afs_ld.Layout.{OutputSection, OutputSegment, page_size}
use afs_ld.Layout.Align.{page-IsAlignUp}
use afs_ld.Layout.Addresses.{
  Cursors, Start, segment_start, vm_size_of, file_size_of, place_segment, find_segment,
  update_segment,
}
use afs_ld.Layout.Addresses.Run.{VmChain, FileChain, IsTight}
use afs_ld.Layout.Addresses.Chains.{VmChain-le, VmChain-widen, FileChain-widen, FileChain-le}

-- A placed segment: it starts at a page in memory and in the file, and after its first `header` bytes come
-- its sections, inside it. The file range of __LINKEDIT is left to the writer.
pub record SegmentPlaced (sections : List OutputSection) (header : ℕ) (is_linkedit : Bool)
    (segment : OutputSegment) : Type 0 where
  pub vm_aligned : segment.vm_addr % page_size ≡ 0
  pub file_aligned : segment.file_off % page_size ≡ 0
  pub vm_chain :
      VmChain sections
        (segment.vm_addr + header)
        segment.sections
        (segment.vm_addr + segment.vm_size)
  pub file_chain :
      is_linkedit ≡ false
      → FileChain sections
          (segment.file_off + header)
          segment.sections
          (segment.file_off + segment.file_size)

-- A segment's end, rounded to a page, is not after any page from the cursor on.
abbrev pub EndsBefore : ℕ → ℕ → Type 0
EndsBefore end cursor = (page : ℕ) → cursor ≤ page → page % page_size ≡ 0 → end ≤ page

pub record IsStart (start : Start) (header : ℕ) : Type 0 where
  pub vm_aligned : start.vm % page_size ≡ 0
  pub file_aligned : start.file % page_size ≡ 0
  pub vm_first : start.first.vm ≡ start.vm + header
  pub file_first : start.first.file ≡ start.file + header
  pub tight : IsTight start.first

vm_size_of-bounds :
    (raw : ℕ)
    → raw + page_size ≤ 2 ^ 64
    → (raw ≤ vm_size_of false raw)
      × (vm_size_of false raw < raw + page_size)
      × (vm_size_of false raw % page_size ≡ 0)
unfolding vm_size_of
vm_size_of-bounds raw room =
    let up = page-IsAlignUp raw room in
    elim (Bool-cases (raw == 0)) [
      | inl none_there ↦
          let e = (==_iff raw 0).0 none_there in rw (none_there, e) (omega arith, omega arith, refl)
      | inr some_there ↦ rw some_there (up.at_least, up.below, up.aligned)
    ]

file_size_of-bounds :
    (raw : ℕ)
    → raw + page_size ≤ 2 ^ 64
    → (raw ≤ file_size_of false raw)
      × (file_size_of false raw < raw + page_size)
      × (file_size_of false raw % page_size ≡ 0)
unfolding file_size_of
file_size_of-bounds raw room =
    let up = page-IsAlignUp raw room in
    elim (Bool-cases (raw == 0)) [
      | inl none_there ↦
          let e = (==_iff raw 0).0 none_there in rw (none_there, e) (omega arith, omega arith, refl)
      | inr some_there ↦ rw some_there (up.at_least, up.below, up.aligned)
    ]

vm_size_of-linkedit : (raw : ℕ) → vm_size_of true raw ≡ raw
unfolding vm_size_of
vm_size_of-linkedit raw = elim (Bool-cases (raw == 0)) [
  | inl none_there ↦ rw none_there refl
  | inr some_there ↦ rw some_there refl
]

ends_before :
    (start cursor size : ℕ)
    → start ≤ cursor
    → start % page_size ≡ 0
    → size < cursor - start + page_size
    → size % page_size ≡ 0
    → EndsBefore (start + size) cursor
ends_before start cursor size h aligned below size_aligned page le page_aligned = omega arith

pub place_segment-SegmentPlaced :
    (sections : List OutputSection) (start : Start) (header : ℕ) (is_linkedit : Bool) (c : Cursors)
    (segment : OutputSegment)
    → IsStart start header
    → IsTight c
    → VmChain sections start.first.vm segment.sections c.vm
    → FileChain sections start.first.file segment.sections c.file
    → c.vm + page_size ≤ 2 ^ 64
    → c.file + page_size ≤ 2 ^ 64
    → let placed = place_segment is_linkedit start c segment in
      SegmentPlaced sections header is_linkedit placed
      × (is_linkedit ≡ false
          → EndsBefore (placed.vm_addr + placed.vm_size) c.vm_end
            × EndsBefore (placed.file_off + placed.file_size) c.file_end)
unfolding place_segment
place_segment-SegmentPlaced sections start header true c segment s tight vm_chain file_chain vm_room
      file_room =
    let vm_le = VmChain-le sections start.first.vm c.vm segment.sections vm_chain in
    let size = vm_size_of-linkedit (c.vm_end - start.vm) in
    (
      record {
        vm_aligned = s.vm_aligned;
        file_aligned = s.file_aligned;
        vm_chain =
            VmChain-widen sections (start.vm + header) c.vm _ segment.sections
              (omega (arith, size, tight.0, vm_le, s.vm_first))
              (subst (λ from. VmChain sections from segment.sections c.vm) s.vm_first vm_chain);
        file_chain = λ e. absurd (cc e);
      },
      λ e. absurd (cc e),
    )
place_segment-SegmentPlaced sections start header false c segment s tight vm_chain file_chain
      vm_room file_room =
    let vm_le = VmChain-le sections start.first.vm c.vm segment.sections vm_chain in
    let file_le = FileChain-le sections start.first.file c.file segment.sections file_chain in
    let vm = vm_size_of-bounds (c.vm_end - start.vm) (omega (arith, tight.0)) in
    let file = file_size_of-bounds (c.file_end - start.file) (omega (arith, tight.1)) in
    (
      record {
        vm_aligned = s.vm_aligned;
        file_aligned = s.file_aligned;
        vm_chain =
            VmChain-widen sections (start.vm + header) c.vm _ segment.sections
              (omega (arith, vm.0, tight.0, vm_le, s.vm_first))
              (subst (λ from. VmChain sections from segment.sections c.vm) s.vm_first vm_chain);
        file_chain = λ _.
            FileChain-widen sections (start.file + header) c.file _ segment.sections
              (omega (arith, file.0, tight.1, file_le, s.file_first))
              (subst (λ from. FileChain sections from segment.sections c.file) s.file_first
                file_chain);
      },
      λ _. (
        ends_before start.vm c.vm_end _ (omega (arith, vm_le, tight.0, s.vm_first)) s.vm_aligned
            vm.1 vm.2,
        ends_before start.file c.file_end _ (omega (arith, file_le, tight.1, s.file_first))
            s.file_aligned file.1 file.2,
      ),
    )

pub at_text-IsStart :
    (text_base header next_vm next_file : ℕ)
    → text_base % page_size ≡ 0
    → text_base + header < 2 ^ 64
    → IsStart (segment_start true text_base header next_vm next_file) header
unfolding segment_start
at_text-IsStart text_base header next_vm next_file aligned room = record {
  vm_aligned = aligned;
  file_aligned = refl;
  vm_first = omega arith;
  file_first = omega arith;
  tight = (refl, refl);
}

pub at_page-IsStart :
    (text_base header next_vm next_file : ℕ)
    → next_vm + page_size < 2 ^ 64
    → next_file + page_size < 2 ^ 64
    → let start = segment_start false text_base header next_vm next_file in
      IsStart start 0
      × (next_vm ≤ start.vm)
      × (start.vm < next_vm + page_size)
      × (next_file ≤ start.file)
      × (start.file < next_file + page_size)
unfolding segment_start
at_page-IsStart text_base header next_vm next_file vm_room file_room =
    let vm = page-IsAlignUp next_vm (omega arith) in
    let file = page-IsAlignUp next_file (omega arith) in
    (
      record {
        vm_aligned = vm.aligned;
        file_aligned = file.aligned;
        vm_first = omega arith;
        file_first = omega arith;
        tight = (refl, refl);
      },
      vm.at_least,
      vm.below,
      file.at_least,
      file.below,
    )

-- The segment of a name, among segments before it of other names.
pub find_segment-middle :
    (name : Bytes) (front back : List OutputSegment) (segment : OutputSegment)
    → All (λ s. same_bytes s.name name ≡ false) front
    → segment.name ≡ name
    → find_segment name (front ++ segment ∷ back) ≡ some segment
unfolding find_segment
find_segment-middle name [] back segment others same = rw (≡→same_bytes same) refl
find_segment-middle name (s ∷ front) back segment others same =
    rw (others.0) (find_segment-middle name front back segment others.1 same)

pub update_segment-middle :
    (name : Bytes) (change : OutputSegment → OutputSegment) (front back : List OutputSegment)
    (segment : OutputSegment)
    → All (λ s. same_bytes s.name name ≡ false) front
    → segment.name ≡ name
    → update_segment name change (front ++ segment ∷ back) ≡ ok (front ++ change segment ∷ back)
unfolding update_segment
update_segment-middle name change [] back segment others same = rw (≡→same_bytes same) refl
update_segment-middle name change (s ∷ front) back segment others same =
    rw (others.0, update_segment-middle name change front back segment others.1 same) refl
