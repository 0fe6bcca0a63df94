-- ===== src/Nlist.antt =====
-- src/symbol.rs: the `nlist_64` records of an object's symbol table, and what the linker reads in them.
pub mod Wire
pub mod Table
pub mod Accessors
mod Tests
use afs_ld.Prelude.{
  ℕ, zero, suc, ◌+◌, ◌-◌, ◌*◌, ◌/◌, ◌%◌, ◌^◌, ◌<◌, Bool, true, false, not, ◌&&◌, ◌||◌, List, [],
  ◌∷◌, ◌++◌, Option, none, some, Result, ok, err, ◌>>=◌, length, take, drop, ltb, ◌==◌,
  if◌then◌else◌, bit_and,
}
use afs_ld.Prelude.Bytes.{Bytes, slice, le_bytes, le_value, byte_at}
use afs_ld.Reader.{Read, ReadError, truncated}

abbrev pub nlist_size : ℕ
nlist_size = 16

pub record RawNlist : Type 0 where
  pub strx : ℕ
  pub n_type : ℕ
  pub n_sect : ℕ
  pub n_desc : ℕ
  pub n_value : ℕ

abbrev pub decode : Bytes → RawNlist
decode bytes = record {
  strx = le_value (slice bytes 0 4);
  n_type = byte_at bytes 4;
  n_sect = byte_at bytes 5;
  n_desc = le_value (slice bytes 6 8);
  n_value = le_value (slice bytes 8 16);
}

unfoldable pub parse : Bytes → Read RawNlist
parse bytes =
    if ltb (length bytes) nlist_size
    then err (truncated nlist_size (length bytes) "nlist_64")
    else ok (decode bytes)

unfoldable pub write : RawNlist → Bytes → Bytes
write r out =
    (((out ++ le_bytes 4 r.strx) ++ r.n_type ∷ []) ++ r.n_sect ∷ [])
    ++ (le_bytes 2 r.n_desc ++ le_bytes 8 r.n_value)

pub data SymKind : Type 0 where
  undef absolute sect indirect : SymKind

-- `InputSymbol` holds the raw record and nothing else.
pub record InputSymbol : Type 0 where
  pub raw : RawNlist

-- `x & mask != 0`
abbrev pub has : ℕ → ℕ → Bool
has x mask = not (bit_and x mask == 0)

abbrev pub value : InputSymbol → ℕ
value s = s.raw.n_value

abbrev pub stab_kind : InputSymbol → Option ℕ
stab_kind s = if has s.raw.n_type 0xe0 then some s.raw.n_type else none

abbrev pub kind_of : ℕ → SymKind
kind_of t =
    if t == 0x0
    then undef
    else if t == 0x2
    then absolute
    else if t == 0xe
    then sect
    else if t == 0xa
    then indirect
    else undef

unfoldable pub kind : InputSymbol → SymKind
kind s = kind_of (bit_and s.raw.n_type 0x0e)

abbrev pub is_undef : SymKind → Bool
is_undef undef = true
is_undef _ = false

abbrev pub is_indirect : SymKind → Bool
is_indirect indirect = true
is_indirect _ = false

unfoldable pub is_ext : InputSymbol → Bool
is_ext s = has s.raw.n_type 0x01

unfoldable pub is_private_ext : InputSymbol → Bool
is_private_ext s = has s.raw.n_type 0x10

unfoldable pub participates_in_global_resolution : InputSymbol → Bool
unfolding is_ext is_private_ext
participates_in_global_resolution s = is_ext s || is_private_ext s

unfoldable pub weak_ref : InputSymbol → Bool
weak_ref s = has s.raw.n_desc 0x0040

unfoldable pub weak_def : InputSymbol → Bool
weak_def s = has s.raw.n_desc 0x0080

unfoldable pub no_dead_strip : InputSymbol → Bool
no_dead_strip s = has s.raw.n_desc 0x0020

unfoldable pub alt_entry : InputSymbol → Bool
alt_entry s = has s.raw.n_desc 0x0200

unfoldable pub is_common : InputSymbol → Bool
unfolding kind is_ext
is_common s = is_undef (kind s) && (is_ext s && ltb 0 s.raw.n_value)

-- `b.then_some(a)`
abbrev pub then_some {ℓ} : {A : Type ℓ} → Bool → A → Option A
then_some b a = if b then some a else none

unfoldable pub common_size : InputSymbol → Option ℕ
unfolding is_common
common_size s = then_some (is_common s) s.raw.n_value

unfoldable pub common_align_pow2 : InputSymbol → Option ℕ
unfolding is_common
common_align_pow2 s = then_some (is_common s) (s.raw.n_desc / 2 ^ 8 % 2 ^ 4)

unfoldable pub library_ordinal : InputSymbol → Option ℕ
unfolding is_common
library_ordinal s =
    if is_undef (kind s) && not (is_common s) then some (s.raw.n_desc / 2 ^ 8 % 2 ^ 8) else none

unfoldable pub indirect_target_strx : InputSymbol → Option ℕ
unfolding kind
indirect_target_strx s = if is_indirect (kind s) then some (s.raw.n_value % 2 ^ 32) else none

-- The loop of `parse_nlist_table` over `n` records from offset `off`.
unfoldable pub parse_records : Bytes → ℕ → ℕ → Read (List InputSymbol)
parse_records file off zero = ok []
parse_records file off (suc n) = do
  raw ← parse (slice file off (off + nlist_size))
  rest ← parse_records file (off + nlist_size) n
  ok (record { raw = raw } ∷ rest)

unfoldable pub parse_nlist_table : Bytes → ℕ → ℕ → Read (List InputSymbol)
unfolding parse_records
parse_nlist_table file symoff nsyms =
    let total = nsyms * nlist_size in
    let end = symoff + total in
    if ltb total (2 ^ 64)
    then if ltb end (2 ^ 64)
      then if ltb (length file) end
        then err (truncated end (length file) "symbol table (nlist region)")
        else parse_records file symoff nsyms
      else err (truncated (2 ^ 64 - 1) (length file) "symbol table (symoff + size overflows)")
    else err (truncated (2 ^ 64 - 1) (length file) "symbol table (nsyms × 16 overflows)")

unfoldable pub write_nlist_table : List InputSymbol → Bytes → Bytes
write_nlist_table [] out = out
write_nlist_table (s ∷ ss) out = write_nlist_table ss (write s.raw out)
