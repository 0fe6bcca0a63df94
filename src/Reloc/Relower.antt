-- ===== src/Reloc/Relower.antt =====
-- Lowering what was parsed: every list that `parse_relocs` returns can be written, and parsed again.
use afs_ld.Prelude.{
  ℕ, ◌^◌, ◌<◌, ◌≡◌, refl, ap, subst, true, false, not, ◌||◌, List, [], ◌∷◌, ◌++◌, map, Option, none,
  some, option_or, ok, >>=-eq-ok, ensure-eq-ok, ok-injective, ok_or, arith, ltb, ◌==◌, inl, inr,
  Bool-cases,
}
use afs_ld.Prelude.Bits.{bit_or-disjoint}
use afs_ld.Prelude.Int.{ℤ, pos}
use afs_ld.Reloc.Fused.{RelocKind, subtractor, from_bits, Referent, Reloc, is_subtractor}
use afs_ld.Reloc.Parse.{
  sign_extend_24, primary_kind_from_type, referent_from, Parser, is_some, step, step_addend,
  step_subtractor, step_primary, pair, finish, run, initial, parse_relocs,
}
use afs_ld.Reloc.Raw.{RawRelocation}
use afs_ld.Reloc.RoundTrip.{AllFused, pair_subtrahend, parse_relocs-write_relocs}
use afs_ld.Reloc.Steps.{Encodable, PairedAs, Fused, normal}
use afs_ld.Reloc.Write.{in_addend_range, is_zero, addend_prefix, write_one, write_relocs}

-- The symbol numbers that the wire can hold.
abbrev pub AllNarrow : List RawRelocation → Type 0
AllNarrow [] = Unit
AllNarrow (r ∷ rs) = (r.r_symbolnum < 2 ^ 24) × AllNarrow rs

-- A relocation that can be written.
abbrev pub AllWritable : List Reloc → Type 0
AllWritable [] = Unit
AllWritable (r ∷ rs) = (Fused r × (in_addend_range r.addend ≡ true)) × AllWritable rs

AllWritable-concat :
    (rs : List Reloc) (r : Reloc)
    → AllWritable rs
    → Fused r
    → in_addend_range r.addend ≡ true
    → AllWritable (rs ++ r ∷ [])
AllWritable-concat [] r h f a = ((f, a), tt)
AllWritable-concat (x ∷ rs) r h f a = (h.0, AllWritable-concat rs r h.1 f a)

sign_extend_24-range : (v : ℕ) → v < 2 ^ 24 → in_addend_range (sign_extend_24 v) ≡ true
sign_extend_24-range v h = rw (bit_or-disjoint 24 v 255 h) (ground arith)

abbrev PendingFits : Option ℤ → Type 0
PendingFits none = Unit
PendingFits (some a) = in_addend_range a ≡ true

abbrev PendingNarrow : Option RawRelocation → Type 0
PendingNarrow none = Unit
PendingNarrow (some r) = r.r_symbolnum < 2 ^ 24

record Inv (p : Parser) : Type 0 where
  addend_fits : PendingFits p.pending_addend
  subtractor_narrow : PendingNarrow p.pending_subtractor
  writable : AllWritable p.out

referent-Encodable :
    (raw : RawRelocation) (x : Referent)
    → raw.r_symbolnum < 2 ^ 24
    → referent_from raw ≡ ok x
    → Encodable x
referent-Encodable raw x h e = elim (Bool-cases raw.r_extern) [
  | inl ext ↦ let g = ok-injective (rw ext at e) in subst Encodable g h
  | inr loc ↦
      let g = rw loc at e in
      elim (Bool-cases (raw.r_symbolnum == 0 || ltb 255 raw.r_symbolnum)) [
        | inl bad ↦ absurd (cc (rw bad at g))
        | inr good ↦ subst Encodable (ok-injective (rw good at g)) (ground arith)
      ]
]

primary_kind-plain :
    (t : ℕ) (k : RelocKind) → primary_kind_from_type t ≡ some k → is_subtractor k ≡ false
primary_kind-plain t k h = ground arith

ok_or-some {ℓ} : {E A : Type ℓ} (o : Option A) (e : E) {a : A} → ok_or o e ≡ ok a → o ≡ some a
ok_or-some none e h = cc
ok_or-some (some x) e h = ap some (ok-injective h)

pair-PairedAs :
    (sub : Option RawRelocation) (raw : RawRelocation) (kind : RelocKind)
    (kp : RelocKind × Option Referent)
    → is_subtractor kind ≡ false
    → PendingNarrow sub
    → pair sub raw kind ≡ ok kp
    → PairedAs (kp.0) (kp.1)
unfolding pair
pair-PairedAs none raw kind kp plain h e = subst (λ x. PairedAs (x.0) (x.1)) (ok-injective e) plain
pair-PairedAs (some sub) raw kind kp plain h e =
    let (_, e1) = ensure-eq-ok (raw.r_type == 0) _ _ e in
    let (_, e2) = ensure-eq-ok (sub.r_address == raw.r_address) _ _ e1 in
    let (_, e3) = ensure-eq-ok (sub.r_length == raw.r_length) _ _ e2 in
    let (x, from, e4) = >>=-eq-ok (referent_from sub) _ e3 in
    subst (λ x. PairedAs (x.0) (x.1)) {x = (subtractor, some x)} (ok-injective e4)
      (refl, referent-Encodable sub x h from)

pending-range : (a : Option ℤ) → PendingFits a → in_addend_range (option_or a (pos 0)) ≡ true
pending-range none h = refl
pending-range (some a) h = h

module _ (p q : Parser) (raw : RawRelocation) (h : raw.r_symbolnum < 2 ^ 24) (v : Inv p) where
  step_addend-Inv : step_addend p raw ≡ ok q → Inv q
  unfolding step_addend
  step_addend-Inv e =
      let (_, e1) = ensure-eq-ok (not (is_some p.pending_addend)) _ _ e in
      let (_, e2) = ensure-eq-ok (not raw.r_extern) _ _ e1 in
      subst Inv {x = record p { pending_addend = some (sign_extend_24 raw.r_symbolnum) }}
        (ok-injective e2)
        (record {
          addend_fits = sign_extend_24-range raw.r_symbolnum h;
          subtractor_narrow = v.subtractor_narrow;
          writable = v.writable;
        })

  step_subtractor-Inv : step_subtractor p raw ≡ ok q → Inv q
  unfolding step_subtractor
  step_subtractor-Inv e =
      let (_, e1) = ensure-eq-ok (not (is_some p.pending_subtractor)) _ _ e in
      subst Inv {x = record p { pending_subtractor = some raw }} (ok-injective e1)
        (record { addend_fits = v.addend_fits; subtractor_narrow = h; writable = v.writable })

  step_primary-Inv : step_primary p raw ≡ ok q → Inv q
  unfolding step_primary
  step_primary-Inv e =
      let (kind, k, e1) = >>=-eq-ok (ok_or (primary_kind_from_type raw.r_type) _) _ e in
      let (len, l, e2) = >>=-eq-ok (ok_or (from_bits raw.r_length) _) _ e1 in
      let (x, from, e3) = >>=-eq-ok (referent_from raw) _ e2 in
      let (kp, paired, e4) = >>=-eq-ok (pair p.pending_subtractor raw kind) _ e3 in
      let plain = primary_kind-plain raw.r_type kind (ok_or-some _ _ k) in
      subst Inv (ok-injective e4) (record {
        addend_fits = tt;
        subtractor_narrow = tt;
        writable =
            AllWritable-concat p.out _ v.writable
              (record {
                target = referent-Encodable raw x h from;
                paired = pair-PairedAs _ raw kind kp plain v.subtractor_narrow paired;
              })
              (pending-range p.pending_addend v.addend_fits);
      })

  step-Inv : step p raw ≡ ok q → Inv q
  unfolding step
  step-Inv e = elim (Bool-cases (raw.r_type == 10)) [
    | inl a ↦ step_addend-Inv (rw a at e)
    | inr b ↦
        let g = rw b at e in
        elim (Bool-cases (raw.r_type == 1)) [
          | inl s ↦ step_subtractor-Inv (rw s at g)
          | inr n ↦ step_primary-Inv (rw n at g)
        ]
  ]

run-AllWritable :
    (raws : List RawRelocation) (p : Parser) (rs : List Reloc)
    → AllNarrow raws
    → Inv p
    → run p raws ≡ ok rs
    → AllWritable rs
unfolding run finish
run-AllWritable [] p rs h v e =
    let (_, e1) = ensure-eq-ok (not (is_some p.pending_addend)) _ _ e in
    let (_, e2) = ensure-eq-ok (not (is_some p.pending_subtractor)) _ _ e1 in
    subst AllWritable (ok-injective e2) v.writable
run-AllWritable (raw ∷ raws) p rs h v e =
    let (q, s, g) = >>=-eq-ok (step p raw) _ e in
    run-AllWritable raws q rs h.1 (step-Inv p q raw h.0 v s) g

parse_relocs-AllWritable :
    (raws : List RawRelocation) (rs : List Reloc)
    → AllNarrow raws
    → parse_relocs raws ≡ ok rs
    → AllWritable rs
unfolding parse_relocs
parse_relocs-AllWritable raws rs h e =
    run-AllWritable raws initial rs h
      (record { addend_fits = tt; subtractor_narrow = tt; writable = tt }) e

addend_prefix-total :
    (r : Reloc)
    → in_addend_range r.addend ≡ true
    → (raws : List RawRelocation) × (addend_prefix r ≡ ok raws)
unfolding addend_prefix
addend_prefix-total r h = elim (Bool-cases (is_zero r.addend)) [
  | inl z ↦ rw z ([], refl)
  | inr nz ↦ rw (nz, h) (_, refl)
]

write_one-total :
    (r : Reloc)
    → Fused r
    → in_addend_range r.addend ≡ true
    → (raws : List RawRelocation) × (write_one r ≡ ok raws)
unfolding write_one
write_one-total r f h =
    let (prefix, p) = addend_prefix-total r h in
    elim (Bool-cases (is_subtractor r.kind)) [
      | inl paired ↦
          let (x, e, _) = pair_subtrahend r.kind r.subtrahend f.paired paired in
          rw (paired, e, p) (_, refl)
      | inr plain ↦ rw (plain, p) (_, refl)
    ]

write_relocs-total :
    (rs : List Reloc) → AllWritable rs → (raws : List RawRelocation) × (write_relocs rs ≡ ok raws)
unfolding write_relocs
write_relocs-total [] h = ([], refl)
write_relocs-total (r ∷ rs) h =
    let (first, w) = write_one-total r h.0.0 h.0.1 in
    let (rest, v) = write_relocs-total rs h.1 in rw (w, v) (_, refl)

AllWritable-AllFused : (rs : List Reloc) → AllWritable rs → AllFused rs
AllWritable-AllFused [] h = tt
AllWritable-AllFused (r ∷ rs) h = (h.0.0, AllWritable-AllFused rs h.1)

-- Whatever `parse_relocs` returns on entries with 24-bit symbol numbers, `write_relocs` lowers it
-- without an error, and parsing what it wrote gives the same relocations, with the `pcrel` flag of
-- each subtractor pair cleared.
pub write_relocs-parse_relocs :
    (raws : List RawRelocation) (rs : List Reloc)
    → AllNarrow raws
    → parse_relocs raws ≡ ok rs
    → (lowered : List RawRelocation) × (write_relocs rs ≡ ok lowered)
      × (parse_relocs lowered ≡ ok (map normal rs))
write_relocs-parse_relocs raws rs h e =
    let w = parse_relocs-AllWritable raws rs h e in
    let (lowered, ok_lowered) = write_relocs-total rs w in
    (
      lowered,
      ok_lowered,
      parse_relocs-write_relocs rs lowered (AllWritable-AllFused rs w) ok_lowered,
    )
