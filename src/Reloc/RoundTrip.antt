-- ===== src/Reloc/RoundTrip.antt =====
-- Parsing what `write_relocs` wrote: `parse_relocs(write_relocs(r))`.
use afs_ld.Prelude.{
  ◌≡◌, refl, sym, ap, ◌∙◌, subst, true, false, List, [], ◌∷◌, ◌++◌, append-nil, append_assoc, map,
  Option, none, some, option_or, ok, >>=-eq-ok, ok-injective, if◌then◌else◌, inl, inr, Bool-cases,
}
use afs_ld.Prelude.Int.{pos}
use afs_ld.Reloc.Fused.{RelocKind, unsigned, subtractor, Referent, Reloc, is_subtractor}
use afs_ld.Reloc.Parse.{Parser, finish, run, parse_relocs}
use afs_ld.Reloc.Raw.{RawRelocation}
use afs_ld.Reloc.Write.{addend_prefix, entry, reloc_type_byte, write_one, write_relocs}
use afs_ld.Reloc.Steps.{
  Encodable, PairedAs, Fused, normal, state, pending, pending_or_zero, run_cons, prefix_runs,
  step_single, step_minuend, step_subtrahend,
}

-- What one relocation adds to the output.
abbrev grown : List Reloc → Reloc → Parser
grown out r = state none none (out ++ normal r ∷ [])

plain_subtrahend :
    (kind : RelocKind) (sub : Option Referent)
    → PairedAs kind sub
    → is_subtractor kind ≡ false
    → sub ≡ none
plain_subtrahend kind none p h = refl
plain_subtrahend kind (some x) p h = cc

pair_kind : (kind : RelocKind) → is_subtractor kind ≡ true → kind ≡ subtractor
pair_kind subtractor h = refl
pair_kind unsigned h = cc
pair_kind _ h = cc

pub pair_subtrahend :
    (kind : RelocKind) (sub : Option Referent)
    → PairedAs kind sub
    → is_subtractor kind ≡ true
    → (x : Referent) × (sub ≡ some x) × Encodable x
pair_subtrahend kind none p h = cc
pair_subtrahend kind (some x) p h = (x, refl, p.1)

single_normal :
    (r : Reloc)
    → Fused r
    → is_subtractor r.kind ≡ false
    → record r { addend = option_or (pending r.addend) (pos 0); subtrahend = none } ≡ normal r
single_normal r f plain = λ i. record {
  offset = r.offset;
  kind = r.kind;
  len = r.len;
  pcrel = (ap (λ b. if b then false else r.pcrel) (sym plain)) i;
  referent = r.referent;
  addend = pending_or_zero r.addend i;
  subtrahend = sym (plain_subtrahend r.kind r.subtrahend f.paired plain) i;
}

pair_normal :
    (r : Reloc) (x : Referent)
    → is_subtractor r.kind ≡ true
    → r.subtrahend ≡ some x
    → record r {
      kind = subtractor;
      pcrel = false;
      addend = option_or (pending r.addend) (pos 0);
      subtrahend = some x;
    }
      ≡ normal r
pair_normal r x paired e = λ i. record {
  offset = r.offset;
  kind = sym (pair_kind r.kind paired) i;
  len = r.len;
  pcrel = (ap (λ b. if b then false else r.pcrel) (sym paired)) i;
  referent = r.referent;
  addend = pending_or_zero r.addend i;
  subtrahend = sym e i;
}

module _ (r : Reloc) (out : List Reloc) (prefix rest : List RawRelocation) (f : Fused r)
    (h : addend_prefix r ≡ ok prefix) where
  single_runs :
      is_subtractor r.kind ≡ false
      → run
          (state none none out)
          ((prefix ++ entry r r.referent r.pcrel (reloc_type_byte r.kind) ∷ []) ++ rest)
        ≡ run (grown out r) rest
  single_runs plain =
      ap (run (state none none out)) (append_assoc prefix _ rest)
      ∙ prefix_runs r none out prefix _ h
      ∙ run_cons _ _ _ (step_single r none out (pending r.addend) plain f.target) rest
      ∙ ap (λ x. run (state none none (out ++ x ∷ [])) rest) (single_normal r f plain)

  pair_runs :
      (x : Referent)
      → is_subtractor r.kind ≡ true
      → r.subtrahend ≡ some x
      → Encodable x
      → run
          (state none none out)
          ((entry r x false 1 ∷ (prefix ++ entry r r.referent false 0 ∷ [])) ++ rest)
        ≡ run (grown out r) rest
  pair_runs x paired e hx =
      run_cons _ _ _ (step_subtrahend r none out x) _
      ∙ ap (run (state none (some (entry r x false 1)) out)) (append_assoc prefix _ rest)
      ∙ prefix_runs r (some (entry r x false 1)) out prefix _ h
      ∙ run_cons _ _ _ (step_minuend r none out (pending r.addend) x hx f.target) rest
      ∙ ap (λ y. run (state none none (out ++ y ∷ [])) rest) (pair_normal r x paired e)

one_runs :
    (r : Reloc) (out : List Reloc) (raws rest : List RawRelocation)
    → Fused r
    → write_one r ≡ ok raws
    → run (state none none out) (raws ++ rest) ≡ run (grown out r) rest
unfolding write_one
one_runs r out raws rest f h = elim (Bool-cases (is_subtractor r.kind)) [
  | inl paired ↦
      let (x, e, hx) = pair_subtrahend r.kind r.subtrahend f.paired paired in
      let g = rw (paired, e) at h in
      let (prefix, p, w) = >>=-eq-ok (addend_prefix r) _ g in
      subst (λ raws. run (state none none out) (raws ++ rest) ≡ run (grown out r) rest)
        (ok-injective w) (pair_runs r out prefix rest f p x paired e hx)
  | inr plain ↦
      let g = rw plain at h in
      let (prefix, p, w) = >>=-eq-ok (addend_prefix r) _ g in
      subst (λ raws. run (state none none out) (raws ++ rest) ≡ run (grown out r) rest)
        (ok-injective w) (single_runs r out prefix rest f p plain)
]

abbrev pub AllFused : List Reloc → Type 0
AllFused [] = Unit
AllFused (r ∷ rs) = Fused r × AllFused rs

written_none : (raws : List RawRelocation) → write_relocs [] ≡ ok raws → raws ≡ []
unfolding write_relocs
written_none raws h = cc

written_cons :
    (r : Reloc) (rs : List Reloc) (raws : List RawRelocation)
    → write_relocs (r ∷ rs) ≡ ok raws
    → (first rest : List RawRelocation) × (write_one r ≡ ok first)
      × (write_relocs rs ≡ ok rest)
      × (first ++ rest ≡ raws)
unfolding write_relocs
written_cons r rs raws h =
    let (first, w, g) = >>=-eq-ok (write_one r) _ h in
    let (rest, v, k) = >>=-eq-ok (write_relocs rs) _ g in (first, rest, w, v, ok-injective k)

all_runs :
    (rs out : List Reloc) (raws : List RawRelocation)
    → AllFused rs
    → write_relocs rs ≡ ok raws
    → run (state none none out) raws ≡ ok (out ++ map normal rs)
all_runs [] out raws f h = rw (written_none raws h, append-nil) (unfold run finish in refl)
all_runs (r ∷ rs) out raws f h =
    let (first, rest, w, v, k) = written_cons r rs raws h in
    rw (← k) (
      one_runs r out first rest f.0 w
      ∙ all_runs rs (out ++ normal r ∷ []) rest f.1 v
      ∙ ap ok (append_assoc out (normal r ∷ []) (map normal rs)))

-- When `write_relocs` accepts a list of relocations whose referents fit on the wire and which have
-- a subtrahend exactly where they are subtractors, parsing the entries that it wrote gives the
-- list back, with the `pcrel` flag of each subtractor pair cleared.
pub parse_relocs-write_relocs :
    (rs : List Reloc) (raws : List RawRelocation)
    → AllFused rs
    → write_relocs rs ≡ ok raws
    → parse_relocs raws ≡ ok (map normal rs)
unfolding parse_relocs
parse_relocs-write_relocs rs raws f h = all_runs rs [] raws f h
