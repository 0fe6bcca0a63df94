-- ===== src/Section.antt =====
-- src/section.rs: how a section is classified and lifted out of a file. A name is its bytes.
pub mod Kinds
pub mod Lift
mod Tests
use afs_ld.Prelude.{
  ℕ, suc, ◌+◌, ◌-◌, ◌*◌, ◌/◌, ◌%◌, ◌^◌, Bool, true, false, not, ◌&&◌, ◌||◌, List, [], ◌∷◌, Option,
  none, some, option_or, Result, ok, err, ◌>>=◌, ◌>>◌, ensure, length, take, drop, ltb, leb, ◌==◌,
  if◌then◌else◌,
}
use afs_ld.Prelude.Bytes.{Bytes, codes, slice, position}
use afs_ld.Reader.{Read, ReadError, truncated}
use afs_ld.StringTable.{is_null}

pub data SectionKind : Type 0 where
  text plain_data const_data c_string_literals literal4 literal8 literal16 zero_fill : SectionKind
  gb_zero_fill coalesced thread_local_regular thread_local_zero_fill : SectionKind
  thread_local_variables thread_local_variable_pointers thread_local_init_pointers : SectionKind
  compact_unwind eh_frame non_lazy_symbol_pointers lazy_symbol_pointers : SectionKind
  initializer_pointers terminator_pointers symbol_stubs regular : SectionKind
  unknown : (ty : ℕ) → SectionKind

abbrev pub same_name : Bytes → Bytes → Bool
same_name [] [] = true
same_name (x ∷ xs) (y ∷ ys) = x == y && same_name xs ys
same_name _ _ = false

-- `S_ATTR_DEBUG` and `S_ATTR_PURE_INSTRUCTIONS` are bits 25 and 31 of the flags.
abbrev pub has_bit : ℕ → ℕ → Bool
has_bit flags k = flags / 2 ^ k % 2 == 1

unfoldable pub classify_regular : Bytes → Bytes → ℕ → SectionKind
classify_regular segname sectname flags =
    if has_bit flags 25 && same_name sectname (codes "__compact_unwind")
    then compact_unwind
    else if has_bit flags 31
    then text
    else if same_name sectname (codes "__const")
        && (same_name segname (codes "__TEXT")
            || (same_name segname (codes "__DATA") || same_name segname (codes "__DATA_CONST")))
    then const_data
    else plain_data

unfoldable pub classify_section : Bytes → Bytes → ℕ → SectionKind
unfolding classify_regular
classify_section segname sectname flags =
    let ty = flags % 256 in
    if ty == 0x1
    then zero_fill
    else if ty == 0xc
    then gb_zero_fill
    else if ty == 0x2
    then c_string_literals
    else if ty == 0x3
    then literal4
    else if ty == 0x4
    then literal8
    else if ty == 0xe
    then literal16
    else if ty == 0x6
    then non_lazy_symbol_pointers
    else if ty == 0x7
    then lazy_symbol_pointers
    else if ty == 0x9
    then initializer_pointers
    else if ty == 0xa
    then terminator_pointers
    else if ty == 0x8
    then symbol_stubs
    else if ty == 0xb
    then (if same_name sectname (codes "__eh_frame") then eh_frame else coalesced)
    else if ty == 0x11
    then thread_local_regular
    else if ty == 0x12
    then thread_local_zero_fill
    else if ty == 0x13
    then thread_local_variables
    else if ty == 0x14
    then thread_local_variable_pointers
    else if ty == 0x15
    then thread_local_init_pointers
    else if ty == 0x0
    then classify_regular segname sectname flags
    else unknown ty

abbrev pub is_zerofill : SectionKind → Bool
is_zerofill zero_fill = true
is_zerofill gb_zero_fill = true
is_zerofill thread_local_zero_fill = true
is_zerofill _ = false

abbrev pub is_executable : SectionKind → Bool
is_executable text = true
is_executable symbol_stubs = true
is_executable coalesced = true
is_executable _ = false

-- The fields of `Section64Header`.
pub record Header : Type 0 where
  pub sectname : Bytes
  pub segname : Bytes
  pub addr : ℕ
  pub size : ℕ
  pub offset : ℕ
  pub align : ℕ
  pub reloff : ℕ
  pub nreloc : ℕ
  pub flags : ℕ
  pub reserved1 : ℕ
  pub reserved2 : ℕ
  pub reserved3 : ℕ

-- `name16_str`; `lossy` is the standard library's `from_utf8_lossy`.
unfoldable pub name16_str : (Bytes → Bytes) → Bytes → Bytes
name16_str lossy name = lossy (take (option_or (position is_null name) (length name)) name)

-- An `InputSection`: its decoded names, its kind, its bytes, and the header that its other fields copy.
pub record InputSection : Type 0 where
  pub segname : Bytes
  pub sectname : Bytes
  pub kind : SectionKind
  pub header : Header
  pub contents : Bytes
  pub raw_relocs : Bytes

unfoldable pub section_data : SectionKind → Header → Bytes → Read Bytes
section_data kind h file = if is_zerofill kind then ok [] else (do
  let end = h.offset + h.size
  ensure (ltb end (2 ^ 64))
      (truncated (2 ^ 64 - 1) (length file) "section content (offset + size overflows)")
  ensure (leb end (length file)) (truncated end (length file) "section content")
  ok (slice file h.offset end))

unfoldable pub section_relocs : Header → Bytes → Read Bytes
section_relocs h file = if h.nreloc == 0 then ok [] else (do
  let total = h.nreloc * 8
  let end = h.reloff + total
  ensure (ltb total (2 ^ 64))
      (truncated (2 ^ 64 - 1) (length file) "section relocs (nreloc × 8 overflows)")
  ensure (ltb end (2 ^ 64))
      (truncated (2 ^ 64 - 1) (length file) "section relocs (reloff + size overflows)")
  ensure (leb end (length file)) (truncated end (length file) "section relocs")
  ok (slice file h.reloff end))

unfoldable pub from_header : (Bytes → Bytes) → Header → Bytes → Read InputSection
unfolding name16_str classify_section section_data section_relocs
from_header lossy h file = do
  let segname = name16_str lossy h.segname
  let sectname = name16_str lossy h.sectname
  let kind = classify_section segname sectname h.flags
  contents ← section_data kind h file
  relocs ← section_relocs h file
  ok (record {
    segname = segname;
    sectname = sectname;
    kind = kind;
    header = h;
    contents = contents;
    raw_relocs = relocs;
  })
