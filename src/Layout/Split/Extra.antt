-- ===== src/Layout/Split/Extra.antt =====
-- src/layout.rs, `insert_extra_sections`: every extra section follows its anchor.
use mathlib.Core.List.{Perm, perm_middle}
use mathlib.Core.List.Perm
use Prim.Native.String.{String}
use afs_ld.Prelude.{
  ℕ, suc, ◌+◌, ◌≡◌, refl, sym, ap, ◌∙◌, subst, Bool, true, false, List, [], ◌∷◌, ◌++◌, map,
  append-nil, Option, none, some, Option-cases, Bool-cases, inl, inr, ◌⊎◌, ok, err, >>=-eq-ok,
  ok-injective, some-injective, All, arith,
}
use afs_ld.Layout.{OutputSection}
use afs_ld.Layout.Split.{
  ExtraSectionAnchor, ExtraOutputSection, is_anchor, rposition, insert_at, insert_after,
  insert_extra_sections,
}

-- The last element that passes a test, and what stands around it.
pub record IsLast {A : Type 0} (test : A → Bool) (xs : List A) (i : ℕ) : Type 0 where
  pub front : List A
  pub last : A
  pub back : List A
  pub list_is : xs ≡ front ++ last ∷ back
  pub passes : test last ≡ true
  pub none_later : All (λ x. test x ≡ false) back
  pub insert_is : (x : A) → insert_at xs (i + 1) x ≡ front ++ last ∷ x ∷ back

rposition-none :
    {A : Type 0} (test : A → Bool) (xs : List A)
    → rposition test xs ≡ none
    → All (λ x. test x ≡ false) xs
unfolding rposition
rposition-none test [] h = tt
rposition-none test (x ∷ xs) h = elim (Option-cases (rposition test xs)) [
  | inr (i, there) ↦ absurd (cc (rw there at h))
  | inl missing ↦ elim (Bool-cases (test x)) [
    | inl passes ↦ absurd (cc (rw (missing, passes) at h))
    | inr fails ↦ (fails, rposition-none test xs missing)
  ]
]

rposition-IsLast :
    {A : Type 0} (test : A → Bool) (xs : List A) (i : ℕ)
    → rposition test xs ≡ some i
    → IsLast test xs i
unfolding rposition insert_at
rposition-IsLast test [] i h = cc
rposition-IsLast test (x ∷ xs) i h = elim (Option-cases (rposition test xs)) [
  | inr (j, there) ↦
      let same : suc j ≡ i = some-injective (rw there at h) in
      let r = rposition-IsLast test xs j there in
      record {
        front = x ∷ r.front;
        last = r.last;
        back = r.back;
        list_is = ap (◌∷◌ x) r.list_is;
        passes = r.passes;
        none_later = r.none_later;
        insert_is = λ y.
            let at : suc (j + 1) ≡ i + 1 = omega arith in
            subst (λ k. insert_at (x ∷ xs) k y ≡ x ∷ (r.front ++ r.last ∷ y ∷ r.back)) at
              (ap (◌∷◌ x) (r.insert_is y));
      }
  | inl missing ↦ elim (Bool-cases (test x)) [
    | inr fails ↦ absurd (cc (rw (missing, fails) at h))
    | inl passes ↦
        let same : 0 ≡ i = some-injective (rw (missing, passes) at h) in
        record {
          front = [];
          last = x;
          back = xs;
          list_is = refl;
          passes = passes;
          none_later = rposition-none test xs missing;
          insert_is = λ y.
              let at : 1 ≡ i + 1 = omega arith in
              subst (λ k. insert_at (x ∷ xs) k y ≡ x ∷ y ∷ xs) at refl;
        }
  ]
]

-- Where a section is inserted after an anchor.
pub record IsAfter (anchor : ExtraSectionAnchor) (sections : List OutputSection)
    (section : OutputSection) (after : List OutputSection) : Type 0 where
  pub front : List OutputSection
  pub anchored : OutputSection
  pub back : List OutputSection
  pub before_is : sections ≡ front ++ anchored ∷ back
  pub is_there : is_anchor anchor anchored ≡ true
  pub none_later : All (λ s. is_anchor anchor s ≡ false) back
  pub after_is : after ≡ front ++ anchored ∷ section ∷ back

-- A section with an anchor is inserted straight after the last section that is its anchor, and all others
-- keep their places; a panic means that no section is its anchor.
pub insert_after-IsAfter :
    (anchor : ExtraSectionAnchor) (sections : List OutputSection) (section : OutputSection)
    → ((after : List OutputSection) × (insert_after (some anchor) sections section ≡ ok after)
        × IsAfter anchor sections section after)
      ⊎ ((message : String) × (insert_after (some anchor) sections section ≡ err message)
          × All (λ s. is_anchor anchor s ≡ false) sections)
unfolding insert_after
insert_after-IsAfter anchor sections section =
    elim (Option-cases (rposition (is_anchor anchor) sections)) [
      | inl missing ↦
          inr
            ("missing anchor", rw missing refl, rposition-none (is_anchor anchor) sections missing)
      | inr (i, there) ↦
          let r = rposition-IsLast (is_anchor anchor) sections i there in
          inl (
            insert_at sections (i + 1) section,
            rw there refl,
            record {
              front = r.front;
              anchored = r.last;
              back = r.back;
              before_is = r.list_is;
              is_there = r.passes;
              none_later = r.none_later;
              after_is = r.insert_is section;
            },
          )
    ]

insert_after-Perm :
    (anchor : Option ExtraSectionAnchor) (sections after : List OutputSection)
    (section : OutputSection)
    → insert_after anchor sections section ≡ ok after
    → Perm after (section ∷ sections)
unfolding insert_after
insert_after-Perm none sections after section h =
    let e : sections ++ section ∷ [] ≡ after = ok-injective h in
    subst (λ xs. Perm xs (section ∷ sections)) e
      (subst (λ xs. Perm (sections ++ section ∷ []) (section ∷ xs)) (append-nil sections)
        (perm_middle sections []))
insert_after-Perm (some anchor) sections after section h =
    elim (insert_after-IsAfter anchor sections section) [
      | inr (message, panics, _) ↦ absurd (cc (h, panics))
      | inl (result, runs, r) ↦
          let same : result ≡ after = ok-injective (sym runs ∙ h) in
          subst (λ xs. Perm xs (section ∷ sections)) (sym r.after_is ∙ same)
            (subst (λ xs. Perm (r.front ++ r.anchored ∷ section ∷ r.back) (section ∷ xs))
              (sym r.before_is)
              (Perm.trans (Perm.append_left r.front (Perm.swap section r.anchored r.back))
                (perm_middle r.front (r.anchored ∷ r.back))))
    ]

-- Where `insert_extra_sections` does not panic, its result has the sections and the extra ones, each once.
pub insert_extra_sections-Perm :
    (sections after : List OutputSection) (extras : List ExtraOutputSection)
    → insert_extra_sections sections extras ≡ ok after
    → Perm after (map (λ e. e.section) extras ++ sections)
unfolding insert_extra_sections
insert_extra_sections-Perm sections after [] h =
    subst (λ xs. Perm xs sections) (ok-injective h) (Perm.refl sections)
insert_extra_sections-Perm sections after (extra ∷ extras) h =
    let (middle, h1, h2) = >>=-eq-ok (insert_after extra.after sections extra.section) _ h in
    let one = insert_after-Perm extra.after sections middle extra.section h1 in
    let rest = insert_extra_sections-Perm middle after extras h2 in
    Perm.trans rest (
      Perm.trans (Perm.append_left (map (λ e. e.section) extras) one)
        (perm_middle (map (λ e. e.section) extras) sections))
