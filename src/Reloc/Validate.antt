-- ===== src/Reloc/Validate.antt =====
-- What `validate_relocs` asks of a relocation.
use afs_ld.Prelude.{
  ℕ, ◌+◌, ◌^◌, ◌<◌, ◌≤◌, ◌≡◌, ◌↔◌, refl, Bool, true, false, not, ◌&&◌, ◌||◌, List, [], ◌∷◌, Option,
  none, some, Result, ok, err, ◌>>◌, ensure, ensure-eq-ok, arith, ltb, leb, lt→ltb, ◌==◌,
}
use afs_ld.Reloc.Fused.{
  RelocKind, unsigned, branch26, page21, page_off12, got_load_page21, got_load_page_off12,
  pointer_to_got, tlvp_load_page21, tlvp_load_page_off12, subtractor, RelocLength, byte, half, word,
  quad, byte_width, Referent, symbol, section, Reloc, is_subtractor, is_word,
  kind_expects_word_only, kind_expects_pcrel, validate_referent, validate_subtrahend,
  validate_pcrel, is_none, validate_reloc, validate_relocs,
}

-- The referent names an entry of the symbol table, or a section by its 1-based index.
abbrev pub Resolves : ℕ → ℕ → Referent → Type 0
Resolves nsyms nsects (symbol index) = index < nsyms
Resolves nsyms nsects (section index) = (0 < index) × (index ≤ nsects)

abbrev pub SubtrahendResolves : ℕ → ℕ → Option Referent → Type 0
SubtrahendResolves nsyms nsects none = Unit
SubtrahendResolves nsyms nsects (some r) = Resolves nsyms nsects r

-- The kinds that patch an instruction have its four bytes.
abbrev pub WordWhereFixed : RelocKind → RelocLength → Type 0
WordWhereFixed unsigned l = Unit
WordWhereFixed subtractor l = Unit
WordWhereFixed pointer_to_got l = Unit
WordWhereFixed _ l = l ≡ word

abbrev pub PcrelWhereFixed : RelocKind → Bool → Type 0
PcrelWhereFixed branch26 p = p ≡ true
PcrelWhereFixed page21 p = p ≡ true
PcrelWhereFixed got_load_page21 p = p ≡ true
PcrelWhereFixed tlvp_load_page21 p = p ≡ true
PcrelWhereFixed page_off12 p = p ≡ false
PcrelWhereFixed got_load_page_off12 p = p ≡ false
PcrelWhereFixed tlvp_load_page_off12 p = p ≡ false
PcrelWhereFixed _ p = Unit

-- A subtractor needs a second referent; of the others nothing is asked.
abbrev pub HasSubtrahend : RelocKind → Option Referent → Type 0
HasSubtrahend subtractor s = (r : Referent) × (s ≡ some r)
HasSubtrahend _ s = Unit

-- The tests of the code, one by one.
pub record IsChecked (section_size nsyms nsects : ℕ) (r : Reloc) : Type 0 where
  pub no_wrap : r.offset + byte_width r.len < 2 ^ 64
  pub inside : r.offset + byte_width r.len ≤ section_size
  pub target : Resolves nsyms nsects r.referent
  pub second : SubtrahendResolves nsyms nsects r.subtrahend
  pub width : WordWhereFixed r.kind r.len
  pub pcrel : PcrelWhereFixed r.kind r.pcrel
  pub paired : HasSubtrahend r.kind r.subtrahend

abbrev pub AllChecked : ℕ → ℕ → ℕ → List Reloc → Type 0
AllChecked section_size nsyms nsects [] = Unit
AllChecked section_size nsyms nsects (r ∷ rs) =
    IsChecked section_size nsyms nsects r × AllChecked section_size nsyms nsects rs

ensured : {E : Type 0} (b : Bool) (e : E) → ensure b e ≡ ok tt → b ≡ true
ensured true e h = refl
ensured false e h = cc

bind-ok :
    {E B : Type 0} (m : Result E (Unit {0})) (k : Result E B) {x : B}
    → (m >> k) ≡ ok x
    → (m ≡ ok tt) × (k ≡ ok x)
bind-ok (ok u) k h = (refl, h)
bind-ok (err e) k h = cc

module _ (offset nsyms nsects : ℕ) where
  referent_iff :
      (r : Referent) → (validate_referent offset r nsyms nsects ≡ ok tt) ↔ Resolves nsyms nsects r
  unfolding validate_referent
  referent_iff (symbol index) = (
    λ h. let b = ensured (ltb index nsyms) _ h in ground arith,
    λ h. let b : ltb index nsyms ≡ true = ground arith in rw b,
  )
  referent_iff (section index) = (
    λ h. let b = ensured (not (index == 0 || ltb nsects index)) _ h in ground arith,
    λ h. let b : not (index == 0 || ltb nsects index) ≡ true = ground arith in rw b,
  )

  subtrahend_iff :
      (s : Option Referent)
      → (validate_subtrahend offset s nsyms nsects ≡ ok tt) ↔ SubtrahendResolves nsyms nsects s
  subtrahend_iff none = (λ h. tt, λ h. refl)
  subtrahend_iff (some r) = referent_iff r

word_iff : (l : RelocLength) → (not (not (is_word l)) ≡ true) ↔ (l ≡ word)
word_iff byte = (λ h. cc, λ h. cc)
word_iff half = (λ h. cc, λ h. cc)
word_iff word = (λ h. refl, λ h. refl)
word_iff quad = (λ h. cc, λ h. cc)

width_iff :
    (k : RelocKind) (l : RelocLength)
    → (not (kind_expects_word_only k && not (is_word l)) ≡ true) ↔ WordWhereFixed k l
width_iff unsigned l = (λ h. tt, λ h. refl)
width_iff subtractor l = (λ h. tt, λ h. refl)
width_iff pointer_to_got l = (λ h. tt, λ h. refl)
width_iff branch26 l = word_iff l
width_iff _ l = word_iff l

flag_iff :
    (offset : ℕ) (p expected : Bool)
    → (validate_pcrel offset p (some expected) ≡ ok tt) ↔ (p ≡ expected)
flag_iff offset true true = (λ h. refl, λ h. refl)
flag_iff offset false false = (λ h. refl, λ h. refl)
flag_iff offset true false = (λ h. cc, λ h. cc)
flag_iff offset false true = (λ h. cc, λ h. cc)

pcrel_iff :
    (offset : ℕ) (k : RelocKind) (p : Bool)
    → (validate_pcrel offset p (kind_expects_pcrel k) ≡ ok tt) ↔ PcrelWhereFixed k p
pcrel_iff offset branch26 p = flag_iff offset p true
pcrel_iff offset page21 p = flag_iff offset p true
pcrel_iff offset got_load_page21 p = flag_iff offset p true
pcrel_iff offset tlvp_load_page21 p = flag_iff offset p true
pcrel_iff offset page_off12 p = flag_iff offset p false
pcrel_iff offset got_load_page_off12 p = flag_iff offset p false
pcrel_iff offset tlvp_load_page_off12 p = flag_iff offset p false
pcrel_iff offset unsigned p = (λ h. tt, λ h. refl)
pcrel_iff offset subtractor p = (λ h. tt, λ h. refl)
pcrel_iff offset pointer_to_got p = (λ h. tt, λ h. refl)

paired_iff :
    (k : RelocKind) (s : Option Referent)
    → (not (is_subtractor k && is_none s) ≡ true) ↔ HasSubtrahend k s
paired_iff subtractor none = (λ h. cc, λ h. cc)
paired_iff subtractor (some r) = (λ h. (r, refl), λ h. refl)
paired_iff unsigned s = (λ h. tt, λ h. refl)
paired_iff _ s = (λ h. tt, λ h. refl)

module _ (section_size nsyms nsects : ℕ) where
  validate_reloc-IsChecked :
      (r : Reloc)
      → validate_reloc r section_size nsyms nsects ≡ ok tt
      → IsChecked section_size nsyms nsects r
  unfolding validate_reloc
  validate_reloc-IsChecked r h =
      let end = r.offset + byte_width r.len in
      let (a, h1) = ensure-eq-ok (ltb end (2 ^ 64)) _ _ h in
      let (b, h2) = ensure-eq-ok (leb end section_size) _ _ h1 in
      let (c, h3) = bind-ok (validate_referent r.offset r.referent nsyms nsects) _ h2 in
      let (d, h4) = bind-ok (validate_subtrahend r.offset r.subtrahend nsyms nsects) _ h3 in
      let (e, h5) =
        ensure-eq-ok (not (kind_expects_word_only r.kind && not (is_word r.len))) _ _ h4 in
      let (f, h6) = bind-ok (validate_pcrel r.offset r.pcrel (kind_expects_pcrel r.kind)) _ h5 in
      record {
        no_wrap = ground arith;
        inside = ground arith;
        target = (referent_iff r.offset nsyms nsects r.referent).0 c;
        second = (subtrahend_iff r.offset nsyms nsects r.subtrahend).0 d;
        width = (width_iff r.kind r.len).0 e;
        pcrel = (pcrel_iff r.offset r.kind r.pcrel).0 f;
        paired =
            (paired_iff r.kind r.subtrahend).0
              (ensured (not (is_subtractor r.kind && is_none r.subtrahend)) _ h6);
      }

  IsChecked-validate_reloc :
      (r : Reloc)
      → IsChecked section_size nsyms nsects r
      → validate_reloc r section_size nsyms nsects ≡ ok tt
  unfolding validate_reloc
  IsChecked-validate_reloc r v =
      let end = r.offset + byte_width r.len in
      let no_wrap = v.no_wrap in
      let inside = v.inside in
      let a : ltb end (2 ^ 64) ≡ true = lt→ltb end (2 ^ 64) no_wrap in
      let b : leb end section_size ≡ true = ground arith in
      rw (
        a,
        b,
        (referent_iff r.offset nsyms nsects r.referent).1 v.target,
        (subtrahend_iff r.offset nsyms nsects r.subtrahend).1 v.second,
        (width_iff r.kind r.len).1 v.width,
        (pcrel_iff r.offset r.kind r.pcrel).1 v.pcrel,
        (paired_iff r.kind r.subtrahend).1 v.paired,
      )

  pub validate_relocs-AllChecked :
      (rs : List Reloc)
      → (validate_relocs rs section_size nsyms nsects ≡ ok tt)
        ↔ AllChecked section_size nsyms nsects rs
  unfolding validate_relocs
  validate_relocs-AllChecked [] = (λ h. tt, λ h. refl)
  validate_relocs-AllChecked (r ∷ rs) = (
    λ h.
        let (first, rest) = bind-ok (validate_reloc r section_size nsyms nsects) _ h in
        (validate_reloc-IsChecked r first, (validate_relocs-AllChecked rs).0 rest),
    λ h. rw (IsChecked-validate_reloc r h.0) ((validate_relocs-AllChecked rs).1 h.1),
  )
