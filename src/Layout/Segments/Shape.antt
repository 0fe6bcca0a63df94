-- ===== src/Layout/Segments/Shape.antt =====
-- src/layout.rs, `build_segments`: the segments have the names that `assign_addresses` needs.
use afs_ld.Prelude.{
  ◌≡◌, refl, ◌∙◌, subst, Bool, true, false, not, ◌||◌, List, [], ◌∷◌, Bool-cases, inl, inr, All,
  All-imp, Any,
}
use afs_ld.Prelude.Bytes.{Bytes, same_bytes, same_bytes→≡, ≡→same_bytes}
use afs_ld.Prelude.Sort.Ascending.{AtMost, Below, Below-irrefl, Below-AtMost, Ascending}
use afs_ld.Layout.{executable}
use afs_ld.Layout.Segments.{standard_names, filter_by, is_one_of, dedup_after, dedup}

pub or-false : (a b : Bool) → (a || b) ≡ false → (a ≡ false) × (b ≡ false)
or-false true b h = cc
or-false false b h = (refl, h)

pub not-true : (b : Bool) → not b ≡ true → b ≡ false
not-true true h = cc
not-true false h = refl

-- A name that is not a standard one.
abbrev pub IsCustom : Bytes → Type 0
IsCustom name = is_one_of (standard_names executable) name ≡ false

pub filter_by-All :
    {A : Type 0} (test : A → Bool) (P : A → Type 0) (xs : List A)
    → All P xs
    → All (λ x. P x × (test x ≡ true)) (filter_by test xs)
filter_by-All test P [] h = tt
filter_by-All test P (x ∷ xs) h = elim (Bool-cases (test x)) [
  | inl passes ↦ rw passes ((h.0, passes), filter_by-All test P xs h.1)
  | inr fails ↦ rw fails (filter_by-All test P xs h.1)
]

pub filter_by-Any :
    {A : Type 0} (test : A → Bool) (P : A → Type 0) (xs : List A)
    → Any (λ x. P x × (test x ≡ true)) xs
    → Any P (filter_by test xs)
filter_by-Any test P [] h = elim h [ ]
filter_by-Any test P (x ∷ xs) (inl (here, passes)) = rw passes (inl here)
filter_by-Any test P (x ∷ xs) (inr later) = elim (Bool-cases (test x)) [
  | inl passes ↦ rw passes (inr (filter_by-Any test P xs later))
  | inr fails ↦ rw fails (filter_by-Any test P xs later)
]

dedup_after-All :
    (P : Bytes → Type 0) (kept : Bytes) (xs : List Bytes)
    → P kept
    → All P xs
    → All P (dedup_after kept xs)
unfolding dedup_after
dedup_after-All P kept [] h hs = (h, tt)
dedup_after-All P kept (x ∷ xs) h hs = elim (Bool-cases (same_bytes kept x)) [
  | inl same ↦ rw same (dedup_after-All P kept xs h hs.1)
  | inr other ↦ rw other (h, dedup_after-All P x xs hs.0 hs.1)
]

dedup_after-Any :
    (name kept : Bytes) (xs : List Bytes)
    → Any (λ x. x ≡ name) (kept ∷ xs)
    → Any (λ x. x ≡ name) (dedup_after kept xs)
unfolding dedup_after
dedup_after-Any name kept [] h = h
dedup_after-Any name kept (x ∷ xs) h = elim (Bool-cases (same_bytes kept x)) [
  | inl same ↦ rw same (
      dedup_after-Any name kept xs (elim h [
        | inl here ↦ inl here
        | inr (inl e) ↦ inl (same_bytes→≡ kept x same ∙ e)
        | inr (inr later) ↦ inr later
      ]))
  | inr other ↦
      rw other (elim h [ inl here ↦ inl here | inr later ↦ inr (dedup_after-Any name x xs later) ])
]

-- Each name once.
abbrev pub Different : List Bytes → Type 0
Different [] = Unit
Different (x ∷ xs) = All (λ y. same_bytes x y ≡ false) xs × Different xs

Below-differs : (xs ys : Bytes) → Below xs ys → same_bytes xs ys ≡ false
Below-differs xs ys h = elim (Bool-cases (same_bytes xs ys)) [
  | inr other ↦ other
  | inl same ↦ absurd (Below-irrefl ys (subst (λ zs. Below zs ys) (same_bytes→≡ xs ys same) h))
]

AtMost-Below : (xs ys : Bytes) → AtMost xs ys → same_bytes xs ys ≡ false → Below xs ys
AtMost-Below xs ys (inl h) other = h
AtMost-Below xs ys (inr e) other = absurd (cc (other, ≡→same_bytes e))

dedup_after-Different :
    (kept : Bytes) (xs : List Bytes) → Ascending (kept ∷ xs) → Different (dedup_after kept xs)
unfolding dedup_after
dedup_after-Different kept [] h = (tt, tt)
dedup_after-Different kept (x ∷ xs) h = elim (Bool-cases (same_bytes kept x)) [
  | inl same ↦ rw same (dedup_after-Different kept xs (h.0.1, h.1.1))
  | inr other ↦
      let less = AtMost-Below kept x h.0.0 other in
      rw other (
        All-imp _ (λ y le. Below-differs kept y (Below-AtMost less le))
            (dedup_after-All (AtMost x) x xs (inr refl) h.1.0),
        dedup_after-Different x xs h.1,
      )
]

pub dedup-All : (P : Bytes → Type 0) (xs : List Bytes) → All P xs → All P (dedup xs)
unfolding dedup
dedup-All P [] h = tt
dedup-All P (x ∷ xs) h = dedup_after-All P x xs h.0 h.1

pub dedup-Any :
    (name : Bytes) (xs : List Bytes) → Any (λ x. x ≡ name) xs → Any (λ x. x ≡ name) (dedup xs)
unfolding dedup
dedup-Any name [] h = h
dedup-Any name (x ∷ xs) h = dedup_after-Any name x xs h

pub dedup-Different : (xs : List Bytes) → Ascending xs → Different (dedup xs)
unfolding dedup
dedup-Different [] h = tt
dedup-Different (x ∷ xs) h = dedup_after-Different x xs h
