-- ===== src/Section/Lift.antt =====
-- `InputSection::from_header`: when a section can be lifted, and what it then holds.
use afs_ld.Prelude.{
  ℕ, ◌+◌, ◌-◌, ◌*◌, ◌^◌, ◌≤◌, ◌<◌, ◌≡◌, ◌≢◌, ◌⊎◌, inl, inr, refl, true, false, [], ok, >>=-eq-ok,
  ensure-eq-ok, arith, length, length-drop, drop, ltb, ltb→lt, lt→ltb, leb, leb→le, ◌==◌, ==_iff,
  Bool-cases,
}
use afs_ld.Prelude.Bytes.{Bytes, slice, length-take-within}
use afs_ld.Section.{
  SectionKind, is_zerofill, Header, InputSection, name16_str, classify_section, section_data,
  section_relocs, from_header,
}

-- Where the header says the contents are: nowhere for zero fill, and else inside the file.
abbrev pub ContentsInside : SectionKind → Header → Bytes → Type 0
ContentsInside kind h file =
    (is_zerofill kind ≡ false) → (h.offset + h.size < 2 ^ 64) × (h.offset + h.size ≤ length file)

abbrev pub RelocsInside : Header → Bytes → Type 0
RelocsInside h file =
    h.nreloc ≢ 0 → (h.reloff + h.nreloc * 8 < 2 ^ 64) × (h.reloff + h.nreloc * 8 ≤ length file)

length-slice :
    (file : Bytes) (start size : ℕ)
    → start + size ≤ length file
    → length (slice file start (start + size)) ≡ size
length-slice file start size h =
    let width : start + size - start ≡ size = omega arith in
    rw width (length-take-within size (drop start file) (omega (arith, length-drop start file)))

-- What `section_data` gives.
abbrev pub HoldsData : SectionKind → Header → Bytes → Bytes → Type 0
HoldsData kind h file bytes =
    (is_zerofill kind ≡ true) × (bytes ≡ [])
    ⊎ (is_zerofill kind ≡ false)
      × (bytes ≡ slice file h.offset (h.offset + h.size))
      × (length bytes ≡ h.size)

section_data_lem :
    (kind : SectionKind) (h : Header) (file : Bytes)
    → ContentsInside kind h file
    → (bytes : Bytes) × (section_data kind h file ≡ ok bytes) × HoldsData kind h file bytes
unfolding section_data
section_data_lem kind h file inside = elim (Bool-cases (is_zerofill kind)) [
  | inl z ↦ rw z ([], refl, inl (refl, refl))
  | inr n ↦
      let (a, b) = inside n in
      let fits = lt→ltb (h.offset + h.size) (2 ^ 64) a in
      let here : leb (h.offset + h.size) (length file) ≡ true = ground arith in
      rw (n, fits, here)
        (
          slice file h.offset (h.offset + h.size),
          refl,
          inr (refl, refl, length-slice file h.offset h.size b),
        )
]

section_relocs_lem :
    (h : Header) (file : Bytes)
    → RelocsInside h file
    → (bytes : Bytes) × (section_relocs h file ≡ ok bytes)
      × (length bytes ≡ h.nreloc * 8)
      × (bytes ≡ slice file h.reloff (h.reloff + h.nreloc * 8))
unfolding section_relocs
section_relocs_lem h file inside = elim (Bool-cases (h.nreloc == 0)) [
  | inl z ↦
      let e : h.nreloc ≡ 0 = (==_iff _ _).0 z in
      let width : h.reloff + h.nreloc * 8 - h.reloff ≡ 0 = omega arith in
      rw (z, width) ([], refl, omega arith, refl)
  | inr n ↦
      let (a, b) = inside (λ e. ground arith) in
      let total = lt→ltb (h.nreloc * 8) (2 ^ 64) (omega arith) in
      let fits = lt→ltb (h.reloff + h.nreloc * 8) (2 ^ 64) a in
      let here : leb (h.reloff + h.nreloc * 8) (length file) ≡ true = ground arith in
      rw (n, total, fits, here)
        (
          slice file h.reloff (h.reloff + h.nreloc * 8),
          refl,
          length-slice file h.reloff (h.nreloc * 8) b,
          refl,
        )
]

module _ (lossy : Bytes → Bytes) (h : Header) (file : Bytes) where
  abbrev pub kind_of : SectionKind
  kind_of = classify_section (name16_str lossy h.segname) (name16_str lossy h.sectname) h.flags

  -- A section whose contents (unless it is zero fill) and relocations lie inside the file is lifted: its
  -- kind is that of its names and flags, its contents are the `size` bytes at `offset` or none for zero
  -- fill, and its relocations the eight bytes each at `reloff`.
  pub from_header_lem :
      ContentsInside kind_of h file
      → RelocsInside h file
      → (s : InputSection) × (from_header lossy h file ≡ ok s)
        × (s.kind ≡ kind_of)
        × HoldsData s.kind h file s.contents
        × (length s.raw_relocs ≡ h.nreloc * 8)
        × (s.raw_relocs ≡ slice file h.reloff (h.reloff + h.nreloc * 8))
  unfolding from_header
  from_header_lem c r =
      let (bytes, d, holds) = section_data_lem kind_of h file c in
      let (relocs, e, size, where_from) = section_relocs_lem h file r in
      rw (d, e) (_, refl, refl, holds, size, where_from)

  inside_data :
      (bytes : Bytes) → section_data kind_of h file ≡ ok bytes → ContentsInside kind_of h file
  unfolding section_data
  inside_data bytes e n =
      let e1 = rw n at e in
      let (a, e2) = ensure-eq-ok (ltb (h.offset + h.size) (2 ^ 64)) _ _ e1 in
      let (b, e3) = ensure-eq-ok (leb (h.offset + h.size) (length file)) _ _ e2 in
      (ltb→lt _ _ a, leb→le _ _ b)

  inside_relocs : (bytes : Bytes) → section_relocs h file ≡ ok bytes → RelocsInside h file
  unfolding section_relocs
  inside_relocs bytes e n =
      let nonzero : (h.nreloc == 0) ≡ false = ground arith in
      let e1 = rw nonzero at e in
      let (_, e2) = ensure-eq-ok (ltb (h.nreloc * 8) (2 ^ 64)) _ _ e1 in
      let (a, e3) = ensure-eq-ok (ltb (h.reloff + h.nreloc * 8) (2 ^ 64)) _ _ e2 in
      let (b, e4) = ensure-eq-ok (leb (h.reloff + h.nreloc * 8) (length file)) _ _ e3 in
      (ltb→lt _ _ a, leb→le _ _ b)

  -- A section is lifted only when its contents (unless it is zero fill) and its relocations lie inside
  -- the file, so no slice is taken past its end.
  pub from_header-inside :
      (s : InputSection)
      → from_header lossy h file ≡ ok s
      → ContentsInside kind_of h file × RelocsInside h file
  unfolding from_header
  from_header-inside s e =
      let (bytes, d, e1) = >>=-eq-ok (section_data kind_of h file) _ e in
      let (relocs, f, e2) = >>=-eq-ok (section_relocs h file) _ e1 in
      (inside_data bytes d, inside_relocs relocs f)
