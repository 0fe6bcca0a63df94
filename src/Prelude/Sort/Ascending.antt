-- ===== src/Prelude/Sort/Ascending.antt =====
-- `cmp` on byte strings is a linear order, and `sort_by` with it sorts.
use Prim.Native.Nat.{Ordering, compare}
use native.Mathlib.Omega.{compare-lt, compare-eq, compare-gt}
use afs_ld.Prelude.{
  ℕ, ◌<◌, ◌≡◌, refl, sym, ap₂, ◌∙◌, subst, List, [], ◌∷◌, inl, inr, ◌⊎◌, All, All-imp, arith,
}
use afs_ld.Prelude.Bytes.{Bytes}
use afs_ld.Prelude.Sort.{compare_bytes, insert_sorted, sort_by, insert_sorted-All}

-- The strict lexicographic order.
pub data Below : Bytes → Bytes → Type 0 where
  shorter : {b : ℕ} {bs : Bytes} → Below [] (b ∷ bs)
  first : {a b : ℕ} {front back : Bytes} → a < b → Below (a ∷ front) (b ∷ back)
  next : {a b : ℕ} {front back : Bytes} → a ≡ b → Below front back → Below (a ∷ front) (b ∷ back)

pub Below-irrefl : (xs : Bytes) → ¬ Below xs xs
Below-irrefl [] h = elim h [ ]
Below-irrefl (x ∷ xs) (first lt) = omega arith
Below-irrefl (x ∷ xs) (next e h) = Below-irrefl xs h

pub Below-trans : {xs ys zs : Bytes} → Below xs ys → Below ys zs → Below xs zs
Below-trans shorter (first lt) = shorter
Below-trans shorter (next e h) = shorter
Below-trans (first lt) (first lt') = first (omega arith)
Below-trans (first lt) (next e h) = first (omega arith)
Below-trans (next e h) (first lt) = first (omega arith)
Below-trans (next e h) (next e' h') = next (e ∙ e') (Below-trans h h')

Ordering-cases : (o : Ordering) → (o ≡ Ordering.lt) ⊎ (o ≡ Ordering.eq) ⊎ (o ≡ Ordering.gt)
Ordering-cases Ordering.lt = inl refl
Ordering-cases Ordering.eq = inr (inl refl)
Ordering-cases Ordering.gt = inr (inr refl)

-- What the three results mean.
pub compare_bytes-cases :
    (xs ys : Bytes)
    → (compare_bytes xs ys ≡ Ordering.lt) × Below xs ys
      ⊎ (compare_bytes xs ys ≡ Ordering.eq) × (xs ≡ ys)
      ⊎ (compare_bytes xs ys ≡ Ordering.gt) × Below ys xs
unfolding compare_bytes
compare_bytes-cases [] [] = inr (inl (refl, refl))
compare_bytes-cases [] (y ∷ ys) = inl (refl, shorter)
compare_bytes-cases (x ∷ xs) [] = inr (inr (refl, shorter))
compare_bytes-cases (x ∷ xs) (y ∷ ys) = elim (Ordering-cases (compare x y)) [
  | inl less ↦ inl (rw less refl, first (compare-lt x y less))
  | inr (inr greater) ↦ inr (inr (rw greater refl, first (compare-gt x y greater)))
  | inr (inl same) ↦
      let e = compare-eq x y same in
      elim (compare_bytes-cases xs ys) [
        | inl (r, h) ↦ inl (rw (same, r) refl, next e h)
        | inr (inl (r, h)) ↦ inr (inl (rw (same, r) refl, ap₂ ◌∷◌ e h))
        | inr (inr (r, h)) ↦ inr (inr (rw (same, r) refl, next (sym e) h))
      ]
]

abbrev pub AtMost : Bytes → Bytes → Type 0
AtMost xs ys = Below xs ys ⊎ (xs ≡ ys)

pub Below-AtMost : {xs ys zs : Bytes} → Below xs ys → AtMost ys zs → Below xs zs
Below-AtMost h (inl h') = Below-trans h h'
Below-AtMost {xs} h (inr e) = subst (Below xs) e h

AtMost-trans : {xs ys zs : Bytes} → AtMost xs ys → AtMost ys zs → AtMost xs zs
AtMost-trans (inl h) h' = inl (Below-AtMost h h')
AtMost-trans {zs} (inr e) h' = subst (λ x. AtMost x zs) (sym e) h'

abbrev pub Ascending : List Bytes → Type 0
Ascending [] = Unit
Ascending (x ∷ xs) = All (AtMost x) xs × Ascending xs

insert_sorted-Ascending :
    (x : Bytes) (xs : List Bytes) → Ascending xs → Ascending (insert_sorted compare_bytes x xs)
unfolding insert_sorted
insert_sorted-Ascending x [] h = (tt, tt)
insert_sorted-Ascending x (y ∷ ys) h =
    let before : AtMost x y → Ascending (x ∷ y ∷ ys) =
      λ le. ((le, All-imp ys (λ z. AtMost-trans le) h.0), h) in
    elim (compare_bytes-cases x y) [
      | inl (r, less) ↦ rw r (before (inl less))
      | inr (inl (r, same)) ↦ rw r (before (inr same))
      | inr (inr (r, greater)) ↦ rw r (
        insert_sorted-All compare_bytes (AtMost y) x ys (inl greater) h.0,
        insert_sorted-Ascending x ys h.1,
      )
    ]

pub sort_by-Ascending : (xs : List Bytes) → Ascending (sort_by compare_bytes xs)
unfolding sort_by
sort_by-Ascending [] = tt
sort_by-Ascending (x ∷ xs) =
    insert_sorted-Ascending x (sort_by compare_bytes xs) (sort_by-Ascending xs)
