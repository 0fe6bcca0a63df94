-- ===== src/Atoms.antt =====
-- src/atom.rs: atoms, and the table that hands out their handles. A handle is one more than a place in the
-- table: 0 stands for no atom. Handles of inputs and symbols are numbers, flags are the bits of `AtomFlags`.
pub mod Table
mod Tests
use afs_ld.Prelude.{
  ℕ, zero, suc, ◌+◌, ◌%◌, ◌^◌, Bool, true, false, List, [], ◌∷◌, ◌++◌, Option, none, some, length,
  get_elem?, set,
}
use afs_ld.Prelude.Bytes.{Bytes}
use afs_ld.Section.{SectionKind}
use afs_ld.Section as S

pub data AtomSection : Type 0 where
  text plain_data const_data c_string_literals literal4 literal8 literal16 zero_fill : AtomSection
  thread_local_data thread_local_bss thread_local_variables : AtomSection
  thread_local_init_pointers coalesced common compact_unwind eh_frame symbol_stubs : AtomSection
  non_lazy_symbol_pointers lazy_symbol_pointers other : AtomSection

unfoldable pub from_section_kind : SectionKind → AtomSection
from_section_kind S.text = text
from_section_kind S.plain_data = plain_data
from_section_kind S.const_data = const_data
from_section_kind S.c_string_literals = c_string_literals
from_section_kind S.literal4 = literal4
from_section_kind S.literal8 = literal8
from_section_kind S.literal16 = literal16
from_section_kind S.zero_fill = zero_fill
from_section_kind S.gb_zero_fill = zero_fill
from_section_kind S.thread_local_regular = thread_local_data
from_section_kind S.thread_local_zero_fill = thread_local_bss
from_section_kind S.thread_local_variables = thread_local_variables
from_section_kind S.thread_local_variable_pointers = thread_local_variables
from_section_kind S.thread_local_init_pointers = thread_local_init_pointers
from_section_kind S.coalesced = coalesced
from_section_kind S.compact_unwind = compact_unwind
from_section_kind S.eh_frame = eh_frame
from_section_kind S.symbol_stubs = symbol_stubs
from_section_kind S.non_lazy_symbol_pointers = non_lazy_symbol_pointers
from_section_kind S.lazy_symbol_pointers = lazy_symbol_pointers
from_section_kind S.initializer_pointers = other
from_section_kind S.terminator_pointers = other
from_section_kind S.regular = other
from_section_kind (S.unknown ty) = other

abbrev pub is_zerofill : AtomSection → Bool
is_zerofill zero_fill = true
is_zerofill thread_local_bss = true
is_zerofill common = true
is_zerofill _ = false

abbrev pub is_literal : AtomSection → Bool
is_literal c_string_literals = true
is_literal literal4 = true
is_literal literal8 = true
is_literal literal16 = true
is_literal _ = false

pub record AltEntry : Type 0 where
  pub symbol : ℕ
  pub offset_within_atom : ℕ
  pub explicit : Bool

pub record Atom : Type 0 where
  pub id : ℕ
  pub origin : ℕ
  pub input_section : ℕ
  pub section : AtomSection
  pub input_offset : ℕ
  pub size : ℕ
  pub align_pow2 : ℕ
  pub owner : Option ℕ
  pub alt_entries : List AltEntry
  pub content : Bytes
  pub flags : ℕ
  pub parent_of : Option ℕ

pub record AtomTable : Type 0 where
  pub atoms : List Atom

-- `push`: the handle, and the table with the atom.
unfoldable pub push : AtomTable → Atom → ℕ × AtomTable
push table atom =
    let id = (length table.atoms % 2 ^ 32 + 1) % 2 ^ 32 in
    (id, record { atoms = table.atoms ++ record atom { id = id } ∷ [] })

-- `get`, which panics (none) on the handle 0 and out of bounds.
unfoldable pub get : AtomTable → ℕ → Option Atom
get table zero = none
get table (suc i) = get_elem? table.atoms i

-- A write through `get_mut`.
unfoldable pub update : AtomTable → ℕ → (Atom → Atom) → Option AtomTable
unfolding get
update table zero change = none
update table (suc i) change = updated (get_elem? table.atoms i)
  where
    updated : Option Atom → Option AtomTable
    updated none = none
    updated (some atom) = some (record { atoms = set table.atoms i (change atom) })

-- `iter`: the atoms with their handles.
abbrev pub with_handles : ℕ → List Atom → List (ℕ × Atom)
with_handles i [] = []
with_handles i (atom ∷ atoms) = ((i + 1) % 2 ^ 32, atom) ∷ with_handles (i + 1) atoms

unfoldable pub iter : AtomTable → List (ℕ × Atom)
iter table = with_handles 0 table.atoms
