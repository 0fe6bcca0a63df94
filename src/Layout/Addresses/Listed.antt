-- ===== src/Layout/Addresses/Listed.antt =====
-- src/layout.rs, `assign_addresses`: the loop that lists every section in the segment of its name.
use afs_ld.Prelude.{
  ℕ, zero, suc, ◌+◌, ◌^◌, ◌%◌, ◌≤◌, ◌<◌, ◌≡◌, refl, sym, ap, ◌∙◌, subst, true, false, List, [], ◌∷◌,
  ◌++◌, map, some, ok, length, get_elem?, Bool-cases, inl, inr, All, All-imp, All-append, Any,
  arith,
}
use afs_ld.Prelude.Bytes.{Bytes, same_bytes, same_bytes→≡, ≡→same_bytes}
use afs_ld.Layout.{OutputSection, OutputSegment}
use afs_ld.Layout.Addresses.{update_segment, list_sections}
use afs_ld.Layout.Addresses.Run.{need_at}
use afs_ld.Layout.Addresses.Step.{IsListed, room}
use afs_ld.Layout.Addresses.Pushed.{
  AllApart, Distinct-push, need-append, Apart-push_right, Apart-push_left, HasSection,
  Any-append_left, Any-concat, Pushed, IsListed-suc, push-apart,
}

push_section-Pushed :
    (sections : List OutputSection) (name : Bytes) (idx : ℕ) (t : OutputSegment)
    (ts : List OutputSegment)
    → same_bytes t.name name ≡ true
    → idx < 2 ^ 32
    → All (IsListed idx) (t ∷ ts)
    → AllApart (t ∷ ts)
    → Pushed sections name idx (t ∷ ts)
unfolding update_segment
push_section-Pushed sections name idx t ts same small listed apart =
    let exact : idx % 2 ^ 32 ≡ idx = omega arith in
    let after = record t { sections = t.sections ++ idx ∷ [] } in
    record {
      after = after ∷ ts;
      runs = rw (same, exact) refl;
      same_names = refl;
      listed = (
        (
          Distinct-push t.sections idx listed.0.0 listed.0.1,
          All-append (λ id. id < suc idx) t.sections (idx ∷ [])
              (All-imp t.sections (λ id lt. omega (arith, lt)) listed.0.1) (omega arith, tt),
        ),
        All-imp ts (λ s h. IsListed-suc idx s h) listed.1,
      );
      apart_from = λ u below h. (
        (
          Apart-push_right u.sections t.sections idx h.0.0 below,
          Apart-push_left t.sections u.sections idx h.0.1 below,
        ),
        h.1,
      );
      apart = (push-apart idx t ts apart.0 listed.1, apart.1);
      room_is = omega (arith, need-append sections t.sections (idx ∷ []));
      there = inl (same_bytes→≡ t.name name same, Any-concat (λ id. id ≡ idx) t.sections idx refl);
      still = λ name' id h. elim h [
        | inl (e, m) ↦ inl (e, Any-append_left (λ x. x ≡ id) t.sections (idx ∷ []) m)
        | inr later ↦ inr later
      ];
    }

Pushed-later :
    (sections : List OutputSection) (name : Bytes) (idx : ℕ) (t : OutputSegment)
    (ts : List OutputSegment)
    → same_bytes t.name name ≡ false
    → All (IsListed idx) (t ∷ ts)
    → AllApart (t ∷ ts)
    → Pushed sections name idx ts
    → Pushed sections name idx (t ∷ ts)
unfolding update_segment
Pushed-later sections name idx t ts other listed apart r = record {
  after = t ∷ r.after;
  runs = rw (other, r.runs) refl;
  same_names = ap (◌∷◌ (t.name)) r.same_names;
  listed = (IsListed-suc idx t listed.0, r.listed);
  apart_from = λ u below h. (h.0, r.apart_from u below h.1);
  apart = (r.apart_from t listed.0.1 apart.0, r.apart);
  room_is = omega (arith, r.room_is);
  there = inr r.there;
  still = λ name' id h. elim h [ inl here ↦ inl here | inr later ↦ inr (r.still name' id later) ];
}

update_segment-Pushed :
    (sections : List OutputSection) (name : Bytes) (idx : ℕ) (before : List OutputSegment)
    → Any (λ s. s.name ≡ name) before
    → idx < 2 ^ 32
    → All (IsListed idx) before
    → AllApart before
    → Pushed sections name idx before
update_segment-Pushed sections name idx [] has small listed apart = elim has [ ]
update_segment-Pushed sections name idx (t ∷ ts) has small listed apart =
    elim (Bool-cases (same_bytes t.name name)) [
      | inl same ↦ push_section-Pushed sections name idx t ts same small listed apart
      | inr other ↦ elim has [
        | inl same ↦ absurd (cc (other, ≡→same_bytes same))
        | inr later ↦
            Pushed-later sections name idx t ts other listed apart
              (update_segment-Pushed sections name idx ts later small listed.1 apart.1)
      ]
    ]

-- More than all the sections can take.
abbrev pub need_all : List OutputSection → ℕ
need_all [] = 0
need_all (section ∷ sections) = need_at (some section) + need_all sections

-- All sections from one on listed, after those in `front`.
pub record SectionsListed (all rest : List OutputSection) (idx : ℕ) (before : List OutputSegment)
    : Type 0 where
  pub after : List OutputSegment
  pub runs : list_sections idx rest before ≡ ok after
  pub same_names : map (λ s. s.name) after ≡ map (λ s. s.name) before
  pub listed : All (IsListed (idx + length rest)) after
  pub apart : AllApart after
  pub room_is : room all after ≡ room all before + need_all rest
  pub there :
      (i : ℕ) (section : OutputSection)
      → get_elem? rest i ≡ some section
      → HasSection after section.segment (idx + i)
  pub still : (name : Bytes) (id : ℕ) → HasSection before name id → HasSection after name id

has_name-same :
    (name : Bytes) (before after : List OutputSegment)
    → map (λ s. s.name) after ≡ map (λ s. s.name) before
    → Any (λ s. s.name ≡ name) before
    → Any (λ s. s.name ≡ name) after
has_name-same name [] after same h = elim h [ ]
has_name-same name (t ∷ ts) [] same h = absurd (cc same)
has_name-same name (t ∷ ts) (u ∷ us) same (inl h) = let e : u.name ≡ t.name = cc same in inl (e ∙ h)
has_name-same name (t ∷ ts) (u ∷ us) same (inr h) =
    let e : map (λ s. s.name) us ≡ map (λ s. s.name) ts = cc same in
    inr (has_name-same name ts us e h)

SectionsListed-there :
    (idx i : ℕ) (first section : OutputSection) (rest : List OutputSection)
    (after middle : List OutputSegment)
    → ((name : Bytes) (id : ℕ) → HasSection middle name id → HasSection after name id)
    → HasSection middle first.segment idx
    → ((i : ℕ) (s : OutputSection)
        → get_elem? rest i ≡ some s
        → HasSection after s.segment (suc idx + i))
    → get_elem? (first ∷ rest) i ≡ some section
    → HasSection after section.segment (idx + i)
SectionsListed-there idx zero first section rest after middle still here there h =
    let e : idx ≡ idx + 0 = omega arith in
    let same : first ≡ section = cc h in
    subst (λ k. HasSection after section.segment k) e
      (subst (λ s. HasSection after s.segment idx) same (still first.segment idx here))
SectionsListed-there idx (suc i) first section rest after middle still here there h =
    let e : suc idx + i ≡ idx + suc i = omega arith in
    subst (λ k. HasSection after section.segment k) e (there i section h)

pub list_sections-SectionsListed :
    (all rest : List OutputSection) (idx : ℕ) (before : List OutputSegment)
    → ((i : ℕ) (section : OutputSection)
        → get_elem? rest i ≡ some section
        → get_elem? all (idx + i) ≡ some section)
    → All (λ section. Any (λ s. s.name ≡ section.segment) before) rest
    → idx + length rest ≤ 2 ^ 32
    → All (IsListed idx) before
    → AllApart before
    → SectionsListed all rest idx before
unfolding list_sections
list_sections-SectionsListed all [] idx before at has small listed apart =
    let e : idx ≡ idx + 0 = omega arith in
    record {
      after = before;
      runs = refl;
      same_names = refl;
      listed = subst (λ n. All (IsListed n) before) e listed;
      apart = apart;
      room_is = omega arith;
      there = λ i section h. absurd (cc h);
      still = λ name id h. h;
    }
list_sections-SectionsListed all (section ∷ rest) idx before at has small listed apart =
    let one =
      update_segment-Pushed all section.segment idx before has.0 (omega arith) listed apart in
    let next : (i : ℕ) → idx + suc i ≡ suc idx + i = λ i. omega arith in
    let r =
      list_sections-SectionsListed all rest (suc idx) one.after
        (λ i s h. subst (λ k. get_elem? all k ≡ some s) (next i) (at (suc i) s h))
        (All-imp rest (λ s h. has_name-same s.segment before one.after one.same_names h) has.1)
        (omega arith) one.listed one.apart in
    let here : get_elem? all idx ≡ some section =
      let e : idx + 0 ≡ idx = omega arith in
      subst (λ k. get_elem? all k ≡ some section) e (at 0 section refl) in
    let step : idx + 1 ≡ suc idx = omega arith in
    let size = ap need_at here in
    record {
      after = r.after;
      runs = rw (one.runs, step) r.runs;
      same_names = r.same_names ∙ one.same_names;
      listed = subst (λ n. All (IsListed n) r.after) (sym (next (length rest))) r.listed;
      apart = r.apart;
      room_is = omega (arith, r.room_is, one.room_is, size);
      there = λ i s h.
          SectionsListed-there idx i section s rest r.after one.after
            (λ name id g. r.still name id g) one.there r.there h;
      still = λ name id h. r.still name id (one.still name id h);
    }
