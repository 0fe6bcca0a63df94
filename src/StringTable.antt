-- ===== src/StringTable.antt =====
-- src/string_table.rs: names as null-terminated runs of one blob. A name is its bytes; whether bytes are
-- UTF-8 is decided by the standard library, so the decision is a parameter.
pub mod Names
pub mod Builder
mod Tests
use afs_ld.Prelude.{
  ℕ, ◌+◌, ◌-◌, ◌^◌, Bool, List, Option, Result, ok, err, ◌>>=◌, ◌>>◌, ensure, ok_or, length, take,
  drop, ltb, leb, not, ◌==◌, if◌then◌else◌,
}
use afs_ld.Prelude.Bytes.{Bytes, slice, position}
use afs_ld.Reader.{Read, ReadError, truncated, bad_cmdsize}

pub record StringTable : Type 0 where
  pub raw : Bytes

-- `raw[start..end]` of a file, with its bounds checks.
unfoldable pub from_file : Bytes → ℕ → ℕ → Read StringTable
from_file file stroff strsize = do
  let end = stroff + strsize
  ensure (ltb end (2 ^ 64))
      (truncated (2 ^ 64 - 1) (length file) "string table (stroff + strsize overflows)")
  ensure (leb end (length file)) (truncated end (length file) "string table")
  ok (record { raw = slice file stroff end })

abbrev pub is_null : ℕ → Bool
is_null b = b == 0

unfoldable pub get : (Bytes → Bool) → StringTable → ℕ → Read Bytes
get is_utf8 t strx = do
  ensure (ltb strx (length t.raw)) (bad_cmdsize 0 0 strx "strx out of bounds")
  n ←
      ok_or (position is_null (drop strx t.raw))
        (bad_cmdsize 0 0 strx "unterminated string (no null byte before end)")
  let name = slice t.raw strx (strx + n)
  ensure (is_utf8 name) (bad_cmdsize 0 0 strx "non-UTF-8 bytes in symbol name")
  ok name
