-- ===== src/Reloc/Steps.antt =====
-- One step of `parse_relocs` on an entry that `write_relocs` makes.
use afs_ld.Prelude.{
  ℕ, ◌-◌, ◌%◌, ◌^◌, ◌<◌, ◌≡◌, ◌≢◌, refl, Bool, true, false, List, [], ◌∷◌, ◌++◌, Option, none, some,
  option_or, ok, err, arith, ◌==◌, ==_iff, if◌then◌else◌, ◌⊎◌, inl, inr, Bool-cases,
}
use afs_ld.Prelude.Bits.{bit_or-disjoint}
use afs_ld.Prelude.Int.{ℤ, pos, negsuc}
use afs_ld.Reloc.Fused.{
  RelocKind, unsigned, subtractor, RelocLength, byte, half, word, quad, as_bits, from_bits,
  Referent, symbol, section, Reloc, is_subtractor,
}
use afs_ld.Reloc.Parse.{primary_kind_from_type, sign_extend_24, referent_from, Parser, step, run}
use afs_ld.Reloc.Raw.{RawRelocation}
use afs_ld.Reloc.Write.{in_addend_range, low24, is_zero, addend_prefix, entry, reloc_type_byte}

-- A 24-bit addend survives its encoding.
sign_extend_24-low24 : (a : ℤ) → in_addend_range a ≡ true → sign_extend_24 (low24 a) ≡ a
sign_extend_24-low24 (pos n) h = ground arith
sign_extend_24-low24 (negsuc n) h =
    let small : n < 2 ^ 23 = ground arith in
    let e : low24 (negsuc n) ≡ 2 ^ 24 - 1 - n = omega arith in
    let p = bit_or-disjoint 24 (2 ^ 24 - 1 - n) 255 (omega arith) in rw (e, p) (ground arith)

-- What the wire can hold of a referent.
abbrev pub Encodable : Referent → Type 0
Encodable (symbol index) = index < 2 ^ 24
Encodable (section index) = (0 < index) × (index < 256)

referent_back :
    (r : Reloc) (x : Referent) (pcrel : Bool) (ty : ℕ)
    → Encodable x
    → referent_from (entry r x pcrel ty) ≡ ok x
referent_back r (symbol index) pcrel ty h = let e : index % 2 ^ 24 ≡ index = omega arith in rw e
referent_back r (section index) pcrel ty h = ground arith

-- `Subtractor` is the kind of exactly those with a subtrahend, and every referent can be encoded.
abbrev pub PairedAs : RelocKind → Option Referent → Type 0
PairedAs kind none = is_subtractor kind ≡ false
PairedAs kind (some sub) = (is_subtractor kind ≡ true) × Encodable sub

pub record Fused (r : Reloc) : Type 0 where
  pub target : Encodable r.referent
  pub paired : PairedAs r.kind r.subtrahend

-- The pair's `r_pcrel` is written as 0.
abbrev pub normal_pcrel : RelocKind → Bool → Bool
normal_pcrel kind pcrel = if is_subtractor kind then false else pcrel

abbrev pub normal : Reloc → Reloc
normal r = record r { pcrel = normal_pcrel r.kind r.pcrel }

abbrev pub state : Option ℤ → Option RawRelocation → List Reloc → Parser
state addend sub out = record { pending_addend = addend; pending_subtractor = sub; out = out }

abbrev pub pending : ℤ → Option ℤ
pending a = if is_zero a then none else some a

pub pending_or_zero : (a : ℤ) → option_or (pending a) (pos 0) ≡ a
pending_or_zero (pos n) = ground arith
pending_or_zero (negsuc n) = refl

from_bits-as_bits : (l : RelocLength) → from_bits (as_bits l) ≡ some l
from_bits-as_bits byte = refl
from_bits-as_bits half = refl
from_bits-as_bits word = refl
from_bits-as_bits quad = refl

abbrev IsPrimaryType : RelocKind → Type 0
IsPrimaryType kind =
    (primary_kind_from_type (reloc_type_byte kind) ≡ some kind)
    × ((reloc_type_byte kind == 10) ≡ false)
    × ((reloc_type_byte kind == 1) ≡ false)

primary_type : (kind : RelocKind) → is_subtractor kind ≡ false → IsPrimaryType kind
primary_type unsigned h = (refl, refl, refl)
primary_type subtractor h = cc
primary_type _ h = (refl, refl, refl)

err-ne-ok {ℓ} : {E A : Type ℓ} {e : E} {a : A} → err e ≢ ok a
err-ne-ok h = cc

abbrev addend_entry : Reloc → RawRelocation
addend_entry r = record {
  r_address = r.offset;
  r_symbolnum = low24 r.addend;
  r_pcrel = false;
  r_length = as_bits r.len;
  r_extern = false;
  r_type = 10;
}

eq_refl : (n : ℕ) → (n == n) ≡ true
eq_refl n = (==_iff n n).1 refl

-- One round of the machine.
pub run_cons :
    (p q : Parser) (raw : RawRelocation)
    → step p raw ≡ ok q
    → (rest : List RawRelocation) → run p (raw ∷ rest) ≡ run q rest
unfolding run
run_cons p q raw h rest = rw h

prefix_cases :
    (r : Reloc) (prefix : List RawRelocation)
    → addend_prefix r ≡ ok prefix
    → (is_zero r.addend ≡ true) × (prefix ≡ [])
      ⊎ (is_zero r.addend ≡ false)
        × (in_addend_range r.addend ≡ true)
        × (prefix ≡ addend_entry r ∷ [])
unfolding addend_prefix
prefix_cases r prefix h = elim (Bool-cases (is_zero r.addend)) [
  | inl z ↦ let g = rw z at h in inl (z, cc)
  | inr nz ↦
      let g = rw nz at h in
      elim (Bool-cases (in_addend_range r.addend)) [
        | inl fits ↦ let g' = rw fits at g in inr (nz, fits, cc)
        | inr outside ↦ let g' = rw outside at g in absurd (err-ne-ok g')
      ]
]

-- Either there is no prefix, or it is one entry that the parser keeps for the next primary.
module _ (r : Reloc) (sub : Option RawRelocation) (out : List Reloc) where
  step_prefix :
      in_addend_range r.addend ≡ true
      → step (state none sub out) (addend_entry r) ≡ ok (state (some r.addend) sub out)
  unfolding step
  step_prefix h = rw (sign_extend_24-low24 r.addend h)

  pub prefix_runs :
      (prefix rest : List RawRelocation)
      → addend_prefix r ≡ ok prefix
      → run (state none sub out) (prefix ++ rest) ≡ run (state (pending r.addend) sub out) rest
  prefix_runs prefix rest h = elim (prefix_cases r prefix h) [
    | inl (zero_addend, none_written) ↦ rw (zero_addend, none_written)
    | inr (more, fits, one) ↦ rw (more, one) (run_cons _ _ _ (step_prefix fits) rest)
  ]

  pub step_single :
      (addend : Option ℤ)
      → is_subtractor r.kind ≡ false
      → Encodable r.referent
      → step (state addend none out) (entry r r.referent r.pcrel (reloc_type_byte r.kind))
        ≡ ok (
            state none none (
              out
              ++ record {
                offset = r.offset;
                kind = r.kind;
                len = r.len;
                pcrel = r.pcrel;
                referent = r.referent;
                addend = option_or addend (pos 0);
                subtrahend = none;
              }
                ∷ []))
  unfolding step
  step_single addend h e =
      let (k, a, s) = primary_type r.kind h in
      rw (
        a,
        s,
        k,
        from_bits-as_bits r.len,
        referent_back r r.referent r.pcrel (reloc_type_byte r.kind) e,
      )

  pub step_minuend :
      (addend : Option ℤ) (x : Referent)
      → Encodable x
      → Encodable r.referent
      → step (state addend (some (entry r x false 1)) out) (entry r r.referent false 0)
        ≡ ok (
            state none none (
              out
              ++ record {
                offset = r.offset;
                kind = subtractor;
                len = r.len;
                pcrel = false;
                referent = r.referent;
                addend = option_or addend (pos 0);
                subtrahend = some x;
              }
                ∷ []))
  unfolding step
  step_minuend addend x hx e = rw (
    from_bits-as_bits r.len,
    referent_back r r.referent false 0 e,
    eq_refl r.offset,
    eq_refl (as_bits r.len),
    referent_back r x false 1 hx,
  )

  pub step_subtrahend :
      (x : Referent)
      → step (state none none out) (entry r x false 1)
        ≡ ok (state none (some (entry r x false 1)) out)
  unfolding step
  step_subtrahend x = refl
