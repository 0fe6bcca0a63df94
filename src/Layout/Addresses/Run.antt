-- ===== src/Layout/Addresses/Run.antt =====
-- src/layout.rs, `assign_addresses`: the loop over the sections of one segment.
use afs_ld.Prelude.{
  ℕ, zero, suc, ◌+◌, ◌^◌, ◌%◌, ◌≤◌, ◌<◌, ◌≡◌, ◌≢◌, refl, sym, ap, ap₂, ◌∙◌, subst, Bool, true,
  false, List, [], ◌∷◌, map, Option, none, some, ok, length, length-set, get_elem?, set,
  get_elem?-set_self, get_elem?-set_ne, Bool-cases, inl, inr, All, All-imp, arith,
}
use afs_ld.Section.{is_zerofill}
use afs_ld.Layout.{OutputSection, alignment, align_up, u64}
use afs_ld.Layout.Align.{alignment-IsAlignUp}
use afs_ld.Layout.Addresses.{Cursors, address_section, address_sections}

-- A section without its place.
abbrev pub info : OutputSection → OutputSection
info section = record section { addr = 0; file_off = 0 }

abbrev pub need_at : Option OutputSection → ℕ
need_at none = 0
need_at (some section) = alignment section.align_pow2 + section.size

-- More than the sections can take, whatever their padding.
abbrev pub need : List OutputSection → List ℕ → ℕ
need sections [] = 0
need sections (id ∷ ids) = need_at (get_elem? sections id) + need sections ids

need_at-info :
    (sections : List OutputSection) (id : ℕ)
    → need_at (get_elem? sections id) ≡ need_at (get_elem? (map info sections) id)
need_at-info [] id = refl
need_at-info (section ∷ sections) zero = refl
need_at-info (section ∷ sections) (suc id) = need_at-info sections id

pub need-info :
    (before after : List OutputSection) (ids : List ℕ)
    → map info after ≡ map info before
    → need after ids ≡ need before ids
need-info before after [] same = refl
need-info before after (id ∷ ids) same =
    ap₂ ◌+◌
      (need_at-info after id
        ∙ ap (λ xs. need_at (get_elem? xs id)) same
        ∙ sym (need_at-info before id))
      (need-info before after ids same)

map-info-set :
    (sections : List OutputSection) (id : ℕ) (old new : OutputSection)
    → get_elem? sections id ≡ some old
    → info new ≡ info old
    → map info (set sections id new) ≡ map info sections
map-info-set [] id old new h same = refl
map-info-set (section ∷ sections) zero old new h same =
    let e : section ≡ old = cc h in ap (λ x. x ∷ map info sections) (same ∙ ap info (sym e))
map-info-set (section ∷ sections) (suc id) old new h same =
    ap (◌∷◌ (info section)) (map-info-set sections id old new h same)

-- From one address on the sections stand one after the other, aligned, up to another.
abbrev pub VmChain : List OutputSection → ℕ → List ℕ → ℕ → Type 0
VmChain sections from [] to = from ≤ to
VmChain sections from (id ∷ ids) to =
    (section : OutputSection) × (get_elem? sections id ≡ some section)
    × (from ≤ section.addr)
    × (section.addr % alignment section.align_pow2 ≡ 0)
    × VmChain sections (section.addr + section.size) ids to

abbrev pub FileStep : Bool → OutputSection → ℕ → (ℕ → Type 0) → Type 0
FileStep true section from Rest = (section.file_off ≡ 0) × Rest from
FileStep false section from Rest =
    (from ≤ section.file_off)
    × (section.file_off % alignment section.align_pow2 ≡ 0)
    × Rest (section.file_off + section.size)

-- The same in the file, where a zerofill section has no bytes.
abbrev pub FileChain : List OutputSection → ℕ → List ℕ → ℕ → Type 0
FileChain sections from [] to = from ≤ to
FileChain sections from (id ∷ ids) to =
    (section : OutputSection) × (get_elem? sections id ≡ some section)
    × FileStep (is_zerofill section.kind) section from (λ next. FileChain sections next ids to)

abbrev pub Distinct : List ℕ → Type 0
Distinct [] = Unit
Distinct (id ∷ ids) = All (λ other. id ≢ other) ids × Distinct ids

-- The ends are the cursors.
abbrev pub IsTight : Cursors → Type 0
IsTight c = (c.vm_end ≡ c.vm) × (c.file_end ≡ c.file)

-- What one section's step does.
record Addressed (section : OutputSection) (c : Cursors) (after : OutputSection) (c' : Cursors)
    : Type 0 where
  same_info : info after ≡ info section
  vm_from : c.vm ≤ after.addr
  vm_aligned : after.addr % alignment after.align_pow2 ≡ 0
  vm_next : c'.vm ≡ after.addr + after.size
  vm_bound : c'.vm ≤ c.vm + need_at (some section)
  file_step : FileStep (is_zerofill after.kind) after c.file (λ next. next ≡ c'.file)
  file_bound : c'.file ≤ c.file + need_at (some section)
  file_grows : c.file ≤ c'.file
  tight : IsTight c'

address_section-Addressed :
    (section : OutputSection) (c : Cursors)
    → IsTight c
    → c.vm + need_at (some section) < 2 ^ 64
    → c.file + need_at (some section) < 2 ^ 64
    → Addressed section c (address_section section c).0 (address_section section c).1
unfolding address_section
address_section-Addressed section c tight vm_room file_room =
    let vm = alignment-IsAlignUp c.vm section.align_pow2 (omega arith) in
    let file = alignment-IsAlignUp c.file section.align_pow2 (omega arith) in
    let addr = align_up c.vm (alignment section.align_pow2) in
    let file_off = align_up c.file (alignment section.align_pow2) in
    let exact : u64 (addr + section.size) ≡ addr + section.size = omega (arith, vm.below) in
    let exact' : u64 (file_off + section.size) ≡ file_off + section.size =
      omega (arith, file.below) in
    elim (Bool-cases (is_zerofill section.kind)) [
      | inl zero_filled ↦ rw zero_filled (record {
        same_info = refl;
        vm_from = vm.at_least;
        vm_aligned = vm.aligned;
        vm_next = exact;
        vm_bound = omega (arith, exact, vm.below);
        file_step = rw zero_filled (refl, refl);
        file_bound = omega arith;
        file_grows = omega arith;
        tight = (omega (arith, exact, tight.0, vm.at_least), tight.1);
      })
      | inr stored ↦ rw stored (record {
        same_info = refl;
        vm_from = vm.at_least;
        vm_aligned = vm.aligned;
        vm_next = exact;
        vm_bound = omega (arith, exact, vm.below);
        file_step = rw stored (file.at_least, file.aligned, sym exact');
        file_bound = omega (arith, exact', file.below);
        file_grows = omega (arith, exact', file.at_least);
        tight = (
          omega (arith, exact, tight.0, vm.at_least),
          omega (arith, exact', tight.1, file.at_least),
        );
      })
    ]

pub FileStep-imp :
    (zero_filled : Bool) (section : OutputSection) (from : ℕ) (P Q : ℕ → Type 0)
    → ((next : ℕ) → P next → Q next)
    → FileStep zero_filled section from P
    → FileStep zero_filled section from Q
FileStep-imp true section from P Q f (off, rest) = (off, f from rest)
FileStep-imp false section from P Q f (at_least, aligned, rest) = (at_least, aligned, f _ rest)

-- What the loop does from one state of the sections and the cursors.
pub record Addresses (ids : List ℕ) (before : List OutputSection) (c : Cursors) : Type 0 where
  pub after : List OutputSection
  pub c' : Cursors
  pub runs : address_sections ids before c ≡ ok (after, c')
  pub same_info : map info after ≡ map info before
  pub same_length : length after ≡ length before
  pub others :
      (other : ℕ) → All (λ id. id ≢ other) ids → get_elem? after other ≡ get_elem? before other
  pub vm_chain : VmChain after c.vm ids c'.vm
  pub vm_bound : c'.vm ≤ c.vm + need before ids
  pub file_chain : FileChain after c.file ids c'.file
  pub file_bound : c'.file ≤ c.file + need before ids
  pub tight : IsTight c'

present :
    (sections : List OutputSection) (id : ℕ)
    → id < length sections
    → (section : OutputSection) × (get_elem? sections id ≡ some section)
present [] id h = elim h [ ]
present (section ∷ sections) zero h = (section, refl)
present (section ∷ sections) (suc id) h = present sections id (omega arith)

Addresses-cons :
    (id : ℕ) (ids : List ℕ) (before : List OutputSection) (c : Cursors)
    (section placed : OutputSection) (c1 : Cursors)
    → get_elem? before id ≡ some section
    → id < length before
    → All (λ other. id ≢ other) ids
    → address_section section c ≡ (placed, c1)
    → Addressed section c placed c1
    → Addresses ids (set before id placed) c1
    → Addresses (id ∷ ids) before c
unfolding address_sections
Addresses-cons id ids before c section placed c1 there inside apart step s r =
    let size = ap need_at there in
    let same = map-info-set before id section placed there s.same_info in
    let needs = need-info before (set before id placed) ids same in
    let kept : get_elem? r.after id ≡ some placed =
      r.others id (All-imp ids (λ i h e. h (sym e)) apart)
      ∙ get_elem?-set_self before id placed inside in
    record {
      after = r.after;
      c' = r.c';
      runs = rw (there, step) r.runs;
      same_info = r.same_info ∙ same;
      same_length = r.same_length ∙ length-set before id placed;
      others = λ other h. r.others other h.1 ∙ get_elem?-set_ne before placed h.0;
      vm_chain = (
        placed,
        kept,
        s.vm_from,
        s.vm_aligned,
        subst (λ from. VmChain r.after from ids r.c'.vm) s.vm_next r.vm_chain,
      );
      vm_bound = omega (arith, size, s.vm_bound, needs, r.vm_bound);
      file_chain = (
        placed,
        kept,
        FileStep-imp (is_zerofill placed.kind) placed c.file (λ next. next ≡ c1.file)
            (λ next. FileChain r.after next ids r.c'.file)
            (λ next e. subst (λ from. FileChain r.after from ids r.c'.file) (sym e) r.file_chain)
            s.file_step,
      );
      file_bound = omega (arith, size, s.file_bound, needs, r.file_bound);
      tight = r.tight;
    }

-- On sections that are there, each listed once, and where there is room in 64 bits, the loop gives them places
-- one after the other, and changes nothing else.
pub address_sections-Addresses :
    (ids : List ℕ) (before : List OutputSection) (c : Cursors)
    → IsTight c
    → Distinct ids
    → All (λ id. id < length before) ids
    → c.vm + need before ids < 2 ^ 64
    → c.file + need before ids < 2 ^ 64
    → Addresses ids before c
unfolding address_sections
address_sections-Addresses [] before c tight distinct inside vm_room file_room = record {
  after = before;
  c' = c;
  runs = refl;
  same_info = refl;
  same_length = refl;
  others = λ other h. refl;
  vm_chain = omega arith;
  vm_bound = omega arith;
  file_chain = omega arith;
  file_bound = omega arith;
  tight = tight;
}
address_sections-Addresses (id ∷ ids) before c tight distinct inside vm_room file_room =
    let (section, there) = present before id inside.0 in
    let size = ap need_at there in
    let s = address_section-Addressed section c tight (omega (arith, size)) (omega (arith, size)) in
    let (placed, c1) = address_section section c in
    let needs =
      need-info before (set before id placed) ids
        (map-info-set before id section placed there s.same_info) in
    let width = length-set before id placed in
    let r =
      address_sections-Addresses ids (set before id placed) c1 s.tight distinct.1
        (All-imp ids (λ i h. omega (arith, width, h)) inside.1)
        (omega (arith, size, s.vm_bound, needs)) (omega (arith, size, s.file_bound, needs)) in
    Addresses-cons id ids before c section placed c1 there inside.0 distinct.0 refl s r
