-- ===== src/Reloc/Parse.antt =====
-- `parse_relocs`: raw entries fused into relocations by a machine with two pending slots.
use afs_ld.Prelude.{
  ℕ, ◌-◌, ◌/◌, ◌%◌, ◌^◌, Bool, true, false, not, ◌||◌, List, [], ◌∷◌, ◌++◌, Option, none, some,
  option_or, ok, err, ◌>>=◌, ◌>>◌, ensure, ok_or, ltb, ◌==◌, if◌then◌else◌, bit_or,
}
use afs_ld.Prelude.Int.{ℤ, pos, negsuc}
use afs_ld.Reader.{Read, bad_relocation}
use afs_ld.Reloc.Fused.{
  RelocKind, unsigned, branch26, page21, page_off12, got_load_page21, got_load_page_off12,
  pointer_to_got, tlvp_load_page21, tlvp_load_page_off12, subtractor, from_bits, Referent, symbol,
  section, Reloc,
}
use afs_ld.Reloc.Raw.{RawRelocation, nonzero}

abbrev pub arm64_reloc_unsigned : ℕ
arm64_reloc_unsigned = 0

abbrev pub arm64_reloc_subtractor : ℕ
arm64_reloc_subtractor = 1

abbrev pub arm64_reloc_addend : ℕ
arm64_reloc_addend = 10

abbrev pub referent_from : RawRelocation → Read Referent
referent_from raw =
    if raw.r_extern
    then ok (symbol raw.r_symbolnum)
    else if raw.r_symbolnum == 0 || ltb 255 raw.r_symbolnum
    then err (bad_relocation raw.r_address "non-extern reloc with out-of-range section index")
    else ok (section raw.r_symbolnum)

-- The i32 that a 32-bit pattern stands for.
abbrev pub signed32 : ℕ → ℤ
signed32 w = if ltb w (2 ^ 31) then pos w else negsuc (2 ^ 32 - w - 1)

abbrev pub sign_extend_24 : ℕ → ℤ
sign_extend_24 v = if nonzero (v / 2 ^ 23 % 2) then signed32 (bit_or v 0xff00_0000) else signed32 v

abbrev pub primary_kind_from_type : ℕ → Option RelocKind
primary_kind_from_type t =
    if t == 0
    then some unsigned
    else if t == 2
    then some branch26
    else if t == 3
    then some page21
    else if t == 4
    then some page_off12
    else if t == 5
    then some got_load_page21
    else if t == 6
    then some got_load_page_off12
    else if t == 7
    then some pointer_to_got
    else if t == 8
    then some tlvp_load_page21
    else if t == 9
    then some tlvp_load_page_off12
    else none

-- The variables of the loop.
pub record Parser : Type 0 where
  pub pending_addend : Option ℤ
  pub pending_subtractor : Option RawRelocation
  pub out : List Reloc

abbrev pub is_some {ℓ} : {A : Type ℓ} → Option A → Bool
is_some none = false
is_some (some _) = true

-- `ARM64_RELOC_ADDEND`
unfoldable pub step_addend : Parser → RawRelocation → Read Parser
step_addend p raw = do
  ensure (not (is_some p.pending_addend))
      (bad_relocation raw.r_address "two ARM64_RELOC_ADDEND in a row")
  ensure (not raw.r_extern)
      (bad_relocation raw.r_address "ARM64_RELOC_ADDEND must not have r_extern set")
  ok (record p { pending_addend = some (sign_extend_24 raw.r_symbolnum) })

-- `ARM64_RELOC_SUBTRACTOR`
unfoldable pub step_subtractor : Parser → RawRelocation → Read Parser
step_subtractor p raw = do
  ensure (not (is_some p.pending_subtractor))
      (bad_relocation raw.r_address "two ARM64_RELOC_SUBTRACTOR in a row")
  ok (record p { pending_subtractor = some raw })

-- The kind and the subtrahend of a primary entry, from a pending subtractor.
unfoldable pub pair :
    Option RawRelocation → RawRelocation → RelocKind → Read (RelocKind × Option Referent)
pair none raw kind = ok (kind, none)
pair (some sub) raw kind = do
  ensure (raw.r_type == arm64_reloc_unsigned)
      (bad_relocation raw.r_address "SUBTRACTOR must be followed by UNSIGNED")
  ensure (sub.r_address == raw.r_address)
      (bad_relocation raw.r_address "SUBTRACTOR/UNSIGNED pair must share r_address")
  ensure (sub.r_length == raw.r_length)
      (bad_relocation raw.r_address "SUBTRACTOR/UNSIGNED pair must share r_length")
  subtrahend ← referent_from sub
  ok (subtractor, some subtrahend)

unfoldable pub step_primary : Parser → RawRelocation → Read Parser
unfolding pair
step_primary p raw = do
  kind ←
      ok_or (primary_kind_from_type raw.r_type)
        (bad_relocation raw.r_address "unknown ARM64_RELOC_* type")
  len ←
      ok_or (from_bits raw.r_length)
        (bad_relocation raw.r_address "invalid r_length (must be 0..=3)")
  let addend = option_or p.pending_addend (pos 0)
  referent ← referent_from raw
  paired ← pair p.pending_subtractor raw kind
  ok (record {
    pending_addend = none;
    pending_subtractor = none;
    out =
        p.out
        ++ record {
          offset = raw.r_address;
          kind = paired.0;
          len = len;
          pcrel = raw.r_pcrel;
          referent = referent;
          addend = addend;
          subtrahend = paired.1;
        }
          ∷ [];
  })

unfoldable pub step : Parser → RawRelocation → Read Parser
unfolding step_addend step_subtractor step_primary
step p raw =
    if raw.r_type == arm64_reloc_addend
    then step_addend p raw
    else if raw.r_type == arm64_reloc_subtractor
    then step_subtractor p raw
    else step_primary p raw

unfoldable pub finish : Parser → Read (List Reloc)
finish p = do
  ensure (not (is_some p.pending_addend))
      (bad_relocation 0 "trailing ARM64_RELOC_ADDEND with no following primary")
  ensure (not (is_some p.pending_subtractor))
      (bad_relocation 0 "trailing ARM64_RELOC_SUBTRACTOR with no following UNSIGNED")
  ok p.out

unfoldable pub run : Parser → List RawRelocation → Read (List Reloc)
unfolding step finish
run p [] = finish p
run p (raw ∷ raws) = do q ← step p raw; run q raws

abbrev pub initial : Parser
initial = record { pending_addend = none; pending_subtractor = none; out = [] }

unfoldable pub parse_relocs : List RawRelocation → Read (List Reloc)
unfolding run
parse_relocs raws = run initial raws
