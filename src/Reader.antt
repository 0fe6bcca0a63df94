-- ===== src/Reader.antt =====
-- src/macho/reader.rs: the error type that every Mach-O decoder returns.
use Prim.Native.String.{String}
use afs_ld.Prelude.{ℕ, Result}

-- `ReadError`.
pub data ReadError : Type 0 where
  truncated : (need have : ℕ) (context : String) → ReadError
  bad_magic : (got : ℕ) → ReadError
  unsupported_cpu : (got : ℕ) → ReadError
  unsupported_cpu_subtype : (got : ℕ) → ReadError
  unexpected_filetype : (got expected : ℕ) → ReadError
  bad_dylib_identity : (reason : String) → ReadError
  bad_cmdsize : (cmd cmdsize at_offset : ℕ) (reason : String) → ReadError
  bad_relocation : (at_offset : ℕ) (reason : String) → ReadError

abbrev pub Read : Type 0 → Type 0
Read A = Result ReadError A
