-- ===== src/Layout.antt =====
-- src/layout.rs: output sections and segments. The data is that of src/section.rs; names are their bytes, an
-- atom is its handle. `u64` sums wrap.
pub mod Align
pub mod Place
pub mod Split
pub mod Addresses
pub mod Segments
pub mod Build
pub mod Group
mod Tests
use Prim.Native.Nat.{bit_and}
use Prim.Native.String.{String}
use afs_ld.Prelude.{
  ℕ, ◌+◌, ◌-◌, ◌^◌, ◌%◌, Bool, true, false, List, [], Result, min, max, leb, if◌then◌else◌,
}
use afs_ld.Prelude.Bytes.{Bytes}
use afs_ld.Section.{
  SectionKind, thread_local_regular, thread_local_zero_fill, thread_local_variables,
  thread_local_variable_pointers, thread_local_init_pointers, initializer_pointers,
  terminator_pointers,
}

-- A panic has a message.
abbrev pub Panics : Type 0 → Type 0
Panics A = Result String A

pub record OutputAtom : Type 0 where
  pub atom : ℕ
  pub offset : ℕ
  pub size : ℕ
  pub content : Bytes

pub record OutputSection : Type 0 where
  pub segment : Bytes
  pub name : Bytes
  pub kind : SectionKind
  pub align_pow2 : ℕ
  pub flags : ℕ
  pub reserved1 : ℕ
  pub reserved2 : ℕ
  pub reserved3 : ℕ
  pub atoms : List OutputAtom
  pub synthetic_offset : ℕ
  pub synthetic_data : Bytes
  pub addr : ℕ
  pub size : ℕ
  pub file_off : ℕ

-- Protections are the bits of `Prot`: 1 for reading, 2 for writing, 4 for executing.
pub record OutputSegment : Type 0 where
  pub name : Bytes
  pub sections : List ℕ
  pub vm_addr : ℕ
  pub vm_size : ℕ
  pub file_off : ℕ
  pub file_size : ℕ
  pub init_prot : ℕ
  pub max_prot : ℕ
  pub flags : ℕ

pub data OutputKind : Type 0 where
  executable dylib : OutputKind

pub record Layout : Type 0 where
  pub kind : OutputKind
  pub segments : List OutputSegment
  pub sections : List OutputSection

abbrev pub page_size : ℕ
page_size = 0x4000

abbrev pub executable_text_base : ℕ
executable_text_base = 0x100000000

abbrev pub u64 : ℕ → ℕ
u64 n = n % 2 ^ 64

-- `1u64 << align_pow2.min(63)`
abbrev pub alignment : ℕ → ℕ
alignment align_pow2 = 2 ^ min align_pow2 63

unfoldable pub align_up : ℕ → ℕ → ℕ
align_up value align =
    if leb align 1 then value else bit_and (u64 (value + (align - 1))) (2 ^ 64 - 1 - (align - 1))

unfoldable pub normalize_output_alignment : SectionKind → ℕ → ℕ
normalize_output_alignment thread_local_regular align_pow2 = max align_pow2 3
normalize_output_alignment thread_local_zero_fill align_pow2 = max align_pow2 3
normalize_output_alignment thread_local_variables align_pow2 = max align_pow2 3
normalize_output_alignment thread_local_variable_pointers align_pow2 = max align_pow2 3
normalize_output_alignment thread_local_init_pointers align_pow2 = max align_pow2 3
normalize_output_alignment initializer_pointers align_pow2 = max align_pow2 3
normalize_output_alignment terminator_pointers align_pow2 = max align_pow2 3
normalize_output_alignment _ align_pow2 = align_pow2
