-- ===== src/Reloc/Tests.antt =====
-- Runs of the relocation code: the streams that the source's own tests fuse and lower.
use afs_ld.Prelude.{
  ℕ, ◌/◌, ◌^◌, ◌<◌, ◌≡◌, refl, Bool, true, false, List, [], ◌∷◌, ◌++◌, map, none, some, ok, err,
  ◌%◌, ◌≢◌, ◌⊎◌, arith, length,
}
use afs_ld.Prelude.Bytes.{Bytes, IsBytes, all_bytes-IsBytes}
use afs_ld.Prelude.Int.{pos, negsuc}
use afs_ld.Reloc.Fused.{
  unsigned, byte, subtractor, branch26, word, quad, symbol, section, Reloc, validate_relocs,
}
use afs_ld.Reloc.Parse.{parse_relocs}
use afs_ld.Reloc.Patch.{
  branch26_in_range, patch_branch26, encode_branch26, wrapping_add_signed, patch_pageoff12,
  unscaled_pageoff,
}
use afs_ld.Reloc.Patch.Branch.{
  BranchesTo, branch_destination, patch_branch26-branch_destination,
  encode_branch26-branch_destination,
}
use afs_ld.Reloc.Patch.PageOff.{GivesOffset, vector_q, patch_pageoff12-GivesOffset}
use afs_ld.Reloc.Raw.{RawRelocation, write, parse_raw_relocs, write_raw_relocs}
use afs_ld.Reloc.Raw.Wire.{Fits, parse_raw_relocs-write_raw_relocs}
use afs_ld.Reloc.Relower.{write_relocs-parse_relocs}
use afs_ld.Reloc.RoundTrip.{parse_relocs-write_relocs}
use afs_ld.Reloc.Steps.{Fused, normal}
use afs_ld.Reloc.Write.{write_relocs}

abbrev raw_entry : ℕ → ℕ → Bool → ℕ → Bool → ℕ → RawRelocation
raw_entry address symbolnum pcrel len extern ty = record {
  r_address = address;
  r_symbolnum = symbolnum;
  r_pcrel = pcrel;
  r_length = len;
  r_extern = extern;
  r_type = ty;
}

-- A pair of SUBTRACTOR and UNSIGNED, and a branch with an ADDEND before it.
abbrev wire : List RawRelocation
wire =
    raw_entry 8 5 false 3 true 1
    ∷ raw_entry 8 2 false 3 false 0
    ∷ raw_entry 16 0xff_fffc false 2 false 10
    ∷ raw_entry 16 9 true 2 true 2
    ∷ []

abbrev pair_reloc : Reloc
pair_reloc = record {
  offset = 8;
  kind = subtractor;
  len = quad;
  pcrel = false;
  referent = section 2;
  addend = pos 0;
  subtrahend = some (symbol 5);
}

abbrev branch_reloc : Reloc
branch_reloc = record {
  offset = 16;
  kind = branch26;
  len = word;
  pcrel = true;
  referent = symbol 9;
  addend = negsuc 3;
  subtrahend = none;
}

abbrev fused : List Reloc
fused = pair_reloc ∷ branch_reloc ∷ []

parses : parse_relocs wire ≡ ok fused
unfolding parse_relocs
parses = refl

writes : write_relocs fused ≡ ok wire
unfolding write_relocs
writes = refl

-- The flag of a pair's UNSIGNED entry is dropped when the pair is lowered.
flagged_pair :
    parse_relocs (raw_entry 8 5 false 3 true 1 ∷ raw_entry 8 2 true 3 false 0 ∷ [])
    ≡ ok (record pair_reloc { pcrel = true } ∷ [])
unfolding parse_relocs
flagged_pair = refl

lowered_pair :
    write_relocs (record pair_reloc { pcrel = true } ∷ [])
    ≡ ok (raw_entry 8 5 false 3 true 1 ∷ raw_entry 8 2 false 3 false 0 ∷ [])
unfolding write_relocs
lowered_pair = refl

pair-Fused : Fused pair_reloc
pair-Fused = record { target = (omega arith, omega arith); paired = (refl, omega arith) }

branch-Fused : Fused branch_reloc
branch-Fused = record { target = omega arith; paired = refl }

parse_relocs-write_relocs_example : parse_relocs wire ≡ ok (map normal fused)
parse_relocs-write_relocs_example =
    parse_relocs-write_relocs fused wire (pair-Fused, (branch-Fused, tt)) writes

write_relocs-parse_relocs_example :
    (lowered : List RawRelocation) × (write_relocs fused ≡ ok lowered)
    × (parse_relocs lowered ≡ ok (map normal fused))
write_relocs-parse_relocs_example =
    write_relocs-parse_relocs wire fused
      (omega arith, (omega arith, (omega arith, (omega arith, tt)))) parses

-- One byte of data with a subtrahend and no subtractor, and a plain pointer that is relative: both are accepted.
abbrev lax_relocs : List Reloc
lax_relocs =
    record {
      offset = 0;
      kind = unsigned;
      len = byte;
      pcrel = false;
      referent = symbol 1;
      addend = pos 0;
      subtrahend = some (symbol 2);
    }
    ∷ record {
      offset = 8;
      kind = unsigned;
      len = quad;
      pcrel = true;
      referent = section 1;
      addend = pos 0;
      subtrahend = none;
    }
    ∷ []

accepts_lax : validate_relocs lax_relocs 20 10 2 ≡ ok tt
unfolding validate_relocs
accepts_lax = refl

entry-Fits : Fits (raw_entry 16 0xff_fffc false 2 false 10)
entry-Fits = record {
  address = omega arith;
  symbolnum = omega arith;
  len = omega arith;
  ty = omega arith;
}

pair-Fits : Fits (raw_entry 8 5 false 3 true 1)
pair-Fits = record {
  address = omega arith;
  symbolnum = omega arith;
  len = omega arith;
  ty = omega arith;
}

abbrev two_entries : List RawRelocation
two_entries = raw_entry 8 5 false 3 true 1 ∷ raw_entry 16 0xff_fffc false 2 false 10 ∷ []

table_size : length ((0 ∷ []) ++ (write_raw_relocs two_entries [] ++ 7 ∷ [])) < 2 ^ 64
unfolding write_raw_relocs write
table_size = omega arith

parse_raw_relocs-write_raw_relocs_example :
    parse_raw_relocs ((0 ∷ []) ++ (write_raw_relocs two_entries [] ++ 7 ∷ [])) 1 2 ≡ ok two_entries
parse_raw_relocs-write_raw_relocs_example =
    parse_raw_relocs-write_raw_relocs (0 ∷ []) (7 ∷ []) two_entries (pair-Fits, (entry-Fits, tt))
      table_size

-- `bl` with an empty field, after one word.
abbrev code_bytes : Bytes
code_bytes = 0 ∷ 0 ∷ 0 ∷ 0 ∷ 0 ∷ 0 ∷ 0 ∷ 0x94 ∷ []

code-IsBytes : IsBytes code_bytes
code-IsBytes = all_bytes-IsBytes code_bytes refl

backwards : branch26_in_range 0x1004 0x1000 ≡ true
unfolding branch26_in_range
backwards = refl

patch_branch26-branch_destination_example :
    (after : Bytes) × (patch_branch26 code_bytes 4 0x1004 0x1000 ≡ ok after)
    × BranchesTo 0x1004 0x1000 code_bytes 4 after
patch_branch26-branch_destination_example =
    patch_branch26-branch_destination code_bytes 4 0x1004 0x1000 code-IsBytes (omega arith)
      (omega arith) (omega arith) backwards

too_far : branch26_in_range 0x1004 0x1000_1004 ≡ false
unfolding branch26_in_range
too_far = refl

encode_branch26-branch_destination_example :
    (insn : ℕ) × (encode_branch26 0x1004 0x1000 ≡ ok insn)
    × (branch_destination 0x1004 insn ≡ 0x1000)
    × (insn / 2 ^ 26 ≡ 5)
encode_branch26-branch_destination_example =
    encode_branch26-branch_destination 0x1004 0x1000 (omega arith) (omega arith) backwards

-- `adrp x0, #0`, after one word.
abbrev adrp_bytes : Bytes
adrp_bytes = 0 ∷ 0 ∷ 0 ∷ 0 ∷ 0 ∷ 0 ∷ 0 ∷ 0x90 ∷ []

-- `ldr q0, [x0]`, after one word.
abbrev load_bytes : Bytes
load_bytes = 0 ∷ 0 ∷ 0 ∷ 0 ∷ 0 ∷ 0 ∷ 0xc0 ∷ 0x3d ∷ []

load-IsBytes : IsBytes load_bytes
load-IsBytes = all_bytes-IsBytes load_bytes refl

-- A `q` register is loaded from a multiple of 16 bytes.
load_patched :
    patch_pageoff12 load_bytes 4 (pos 8) 0x5008 ≡ ok (0 ∷ 0 ∷ 0 ∷ 0 ∷ 0 ∷ 0x04 ∷ 0xc0 ∷ 0x3d ∷ [])
unfolding patch_pageoff12
load_patched = refl

load_refused : patch_pageoff12 load_bytes 4 (pos 0) 0x5008 ≡ err (unscaled_pageoff 8)
unfolding patch_pageoff12
load_refused = refl

patch_pageoff12-GivesOffset_example :
    ((wrapping_add_signed 0x5008 (pos 8) % 2 ^ 12 % 16 ≡ 0)
      × ((after : Bytes) × (patch_pageoff12 load_bytes 4 (pos 8) 0x5008 ≡ ok after)
          × GivesOffset (wrapping_add_signed 0x5008 (pos 8)) load_bytes 4 after))
    ⊎ ((wrapping_add_signed 0x5008 (pos 8) % 2 ^ 12 % 16 ≢ 0)
        × (patch_pageoff12 load_bytes 4 (pos 8) 0x5008
            ≡ err (unscaled_pageoff (wrapping_add_signed 0x5008 (pos 8) % 2 ^ 12))))
patch_pageoff12-GivesOffset_example =
    patch_pageoff12-GivesOffset load_bytes 4 (pos 8) 0x5008 16 load-IsBytes (omega arith)
      (vector_q refl (omega arith))
