-- ===== src/Layout/Segments.antt =====
-- src/layout.rs, `build_segments`: which segments an output has, in which order, with which protections; and
-- the order of the output sections.
pub mod Shape
pub mod Addressed
pub mod Names
use Prim.Native.Nat.{Ordering, compare}
use mathlib.Core.List.{reverse}
use mathlib.Core.Option
use afs_ld.Prelude.{
  ℕ, zero, suc, Bool, true, false, not, ◌&&◌, ◌||◌, List, [], ◌∷◌, ◌++◌, map, Option, none, some,
  option_or, length, if◌then◌else◌,
}
use afs_ld.Prelude.Bytes.{Bytes, codes, same_bytes, position}
use afs_ld.Prelude.Sort.{compare_bytes, sort_by, then_with}
use afs_ld.Section.{
  SectionKind, is_zerofill, text, symbol_stubs, coalesced, const_data, c_string_literals, literal4,
  literal8, literal16, compact_unwind, eh_frame,
}
use afs_ld.Layout.{OutputSection, OutputSegment, OutputKind, executable, dylib}
use afs_ld.Layout.Split.{insert_at}
use afs_ld.Layout.Addresses.{pagezero_name, text_name, linkedit_name}

abbrev pub data_const_name : Bytes
data_const_name = codes "__DATA_CONST"

abbrev pub data_name : Bytes
data_name = codes "__DATA"

-- `EXEC_SEGMENTS` and `DYLIB_SEGMENTS`.
abbrev pub standard_names : OutputKind → List Bytes
standard_names executable =
    pagezero_name ∷ text_name ∷ data_const_name ∷ data_name ∷ linkedit_name ∷ []
standard_names dylib = text_name ∷ data_const_name ∷ data_name ∷ linkedit_name ∷ []

abbrev pub any_in : Bytes → List OutputSection → Bool
any_in name [] = false
any_in name (section ∷ sections) = same_bytes section.segment name || any_in name sections

unfoldable pub standard_segment_required : OutputKind → Bytes → List OutputSection → Bool
unfolding same_bytes
standard_segment_required executable name sections =
    if same_bytes name pagezero_name || (same_bytes name text_name || same_bytes name linkedit_name)
    then true
    else any_in name sections
standard_segment_required dylib name sections =
    if same_bytes name text_name || same_bytes name linkedit_name
    then true
    else any_in name sections

-- The bits of `Prot`.
abbrev prot_none : ℕ
prot_none = 0

abbrev read_only : ℕ
read_only = 1

abbrev read_write : ℕ
read_write = 3

abbrev read_execute : ℕ
read_execute = 5

unfoldable pub segment_init_prot : Bytes → ℕ
unfolding same_bytes
segment_init_prot name =
    if same_bytes name pagezero_name
    then prot_none
    else if same_bytes name text_name
    then read_execute
    else if same_bytes name linkedit_name
    then read_only
    else read_write

unfoldable pub segment_max_prot : Bytes → ℕ
unfolding same_bytes
segment_max_prot name =
    if same_bytes name pagezero_name
    then prot_none
    else if same_bytes name text_name
    then read_execute
    else if same_bytes name linkedit_name
    then read_only
    else read_write

-- `SG_READ_ONLY`
unfoldable pub segment_flags : Bytes → ℕ
unfolding same_bytes
segment_flags name = if same_bytes name data_const_name then 0x10 else 0

abbrev is_executable_kind : SectionKind → Bool
is_executable_kind text = true
is_executable_kind symbol_stubs = true
is_executable_kind coalesced = true
is_executable_kind _ = false

abbrev is_read_only_kind : SectionKind → Bool
is_read_only_kind const_data = true
is_read_only_kind c_string_literals = true
is_read_only_kind literal4 = true
is_read_only_kind literal8 = true
is_read_only_kind literal16 = true
is_read_only_kind compact_unwind = true
is_read_only_kind eh_frame = true
is_read_only_kind _ = false

abbrev has_exec : Bytes → List OutputSection → Bool
has_exec name [] = false
has_exec name (section ∷ sections) =
    (same_bytes section.segment name && is_executable_kind section.kind) || has_exec name sections

abbrev all_read_only : Bytes → List OutputSection → Bool
all_read_only name [] = true
all_read_only name (section ∷ sections) =
    (not (same_bytes section.segment name) || is_read_only_kind section.kind)
    && all_read_only name sections

-- The initial and the greatest protection are the same.
unfoldable pub custom_segment_prot : Bytes → List OutputSection → ℕ × ℕ
unfolding same_bytes
custom_segment_prot name sections =
    if has_exec name sections
    then (read_execute, read_execute)
    else if all_read_only name sections
    then (read_only, read_only)
    else (read_write, read_write)

unfoldable pub standard_segment : Bytes → OutputSegment
unfolding segment_init_prot segment_max_prot segment_flags
standard_segment name = record {
  name = name;
  sections = [];
  vm_addr = 0;
  vm_size = 0;
  file_off = 0;
  file_size = 0;
  init_prot = segment_init_prot name;
  max_prot = segment_max_prot name;
  flags = segment_flags name;
}

unfoldable pub custom_segment : List OutputSection → Bytes → OutputSegment
unfolding custom_segment_prot
custom_segment sections name =
    let prot = custom_segment_prot name sections in
    record {
      name = name;
      sections = [];
      vm_addr = 0;
      vm_size = 0;
      file_off = 0;
      file_size = 0;
      init_prot = prot.0;
      max_prot = prot.1;
      flags = 0;
    }

abbrev pub filter_by {ℓ} : {A : Type ℓ} → (A → Bool) → List A → List A
filter_by test [] = []
filter_by test (x ∷ xs) = if test x then x ∷ filter_by test xs else filter_by test xs

abbrev pub is_one_of : List Bytes → Bytes → Bool
is_one_of [] name = false
is_one_of (n ∷ ns) name = same_bytes n name || is_one_of ns name

-- `dedup`, with the last name that was kept.
unfoldable pub dedup_after : Bytes → List Bytes → List Bytes
unfolding same_bytes
dedup_after kept [] = kept ∷ []
dedup_after kept (name ∷ names) =
    if same_bytes kept name then dedup_after kept names else kept ∷ dedup_after name names

unfoldable pub dedup : List Bytes → List Bytes
unfolding dedup_after
dedup [] = []
dedup (name ∷ names) = dedup_after name names

unfoldable pub custom_names : OutputKind → List OutputSection → List Bytes
unfolding sort_by compare_bytes dedup same_bytes
custom_names kind sections = dedup (
    sort_by compare_bytes (
      filter_by (λ name. not (is_one_of (standard_names kind) name))
        (map (λ s. s.segment) sections)))

-- Each name in turn is inserted at the same place.
abbrev pub insert_customs :
    List OutputSection → ℕ → List Bytes → List OutputSegment → List OutputSegment
insert_customs sections at [] segments = segments
insert_customs sections at (name ∷ names) segments =
    insert_customs sections at names (insert_at segments at (custom_segment sections name))

unfoldable pub build_segments : OutputKind → List OutputSection → List OutputSegment
unfolding standard_segment_required standard_segment custom_segment custom_names insert_at
    same_bytes
build_segments kind sections =
    let segments =
      map standard_segment
        (filter_by (λ name. standard_segment_required kind name sections) (standard_names kind)) in
    let linkedit_idx =
      option_or (position (λ s. same_bytes s.name linkedit_name) segments) (length segments) in
    insert_customs sections linkedit_idx (reverse (custom_names kind sections)) segments

abbrev pub rank_in : List Bytes → Bytes → ℕ
rank_in order name = option_or (position (λ n. same_bytes n name) order) (length order)

unfoldable pub segment_rank : OutputKind → Bytes → ℕ
unfolding same_bytes
segment_rank kind segment = rank_in (standard_names kind) segment

unfoldable pub section_rank : Bytes → Bytes → ℕ
unfolding same_bytes
section_rank segment section =
    if same_bytes segment text_name
    then rank_in
        (codes "__text"
          ∷ codes "__thunks"
          ∷ codes "__stubs"
          ∷ codes "__stub_helper"
          ∷ codes "__cstring"
          ∷ codes "__const"
          ∷ codes "__literal16"
          ∷ codes "__unwind_info"
          ∷ codes "__eh_frame"
          ∷ [])
        section
    else if same_bytes segment data_const_name
    then rank_in (codes "__got" ∷ codes "__const" ∷ []) section
    else if same_bytes segment data_name
    then rank_in
        (codes "__la_symbol_ptr"
          ∷ codes "__data"
          ∷ codes "__thread_vars"
          ∷ codes "__thread_ptrs"
          ∷ codes "__thread_data"
          ∷ codes "__thread_bss"
          ∷ codes "__common"
          ∷ codes "__bss"
          ∷ [])
        section
    else 0

abbrev compare_bools : Bool → Bool → Ordering
compare_bools false true = Ordering.lt
compare_bools true false = Ordering.gt
compare_bools _ _ = Ordering.eq

unfoldable pub compare_output_sections : OutputKind → OutputSection → OutputSection → Ordering
unfolding segment_rank section_rank compare_bytes
compare_output_sections kind a b =
    then_with (compare (segment_rank kind a.segment) (segment_rank kind b.segment)) (
      then_with (compare_bytes a.segment b.segment) (
        then_with (compare_bools (is_zerofill a.kind) (is_zerofill b.kind)) (
          then_with (compare (section_rank a.segment a.name) (section_rank b.segment b.name))
            (compare_bytes a.name b.name))))
