-- ===== src/Prelude/Sort.antt =====
-- Ordering of byte strings, and the standard library's stable `sort_by`, as an insertion sort, its
-- `partition_point`, as the length of the longest prefix that passes the test, and `enumerate`.
pub mod Ascending
use Prim.Native.Nat.{Ordering, compare}
use afs_ld.Prelude.{
  ℕ, zero, suc, ◌+◌, ◌-◌, ◌≤◌, ◌<◌, ◌≡◌, refl, ap, subst, Bool, true, false, List, [], ◌∷◌, Option,
  some, inl, inr, ◌⊎◌, length, get_elem?, All, Any, All-imp, Any-imp, if◌then◌else◌, arith,
}
use afs_ld.Prelude.Bytes.{Bytes}

abbrev pub then_with : Ordering → Ordering → Ordering
then_with Ordering.eq next = next
then_with first next = first

-- `lhs.cmp(rhs)` of two byte strings.
unfoldable pub compare_bytes : Bytes → Bytes → Ordering
compare_bytes [] [] = Ordering.eq
compare_bytes [] (b ∷ bs) = Ordering.lt
compare_bytes (a ∷ more) [] = Ordering.gt
compare_bytes (a ∷ more) (b ∷ bs) = let rest = compare_bytes more bs in then_with (compare a b) rest

abbrev pub is_lt : Ordering → Bool
is_lt Ordering.lt = true
is_lt _ = false

-- A stable `sort_by`: `x` goes before what is not less.
abbrev pub chosen {ℓ} : {A : Type ℓ} → Ordering → A → A → List A → List A → List A
chosen Ordering.gt x y rest ys = y ∷ rest
chosen _ x y rest ys = x ∷ y ∷ ys

unfoldable pub insert_sorted {ℓ} : {A : Type ℓ} → (A → A → Ordering) → A → List A → List A
insert_sorted order x [] = x ∷ []
insert_sorted order x (y ∷ ys) =
    let rest = insert_sorted order x ys in chosen (order x y) x y rest ys

unfoldable pub sort_by {ℓ} : {A : Type ℓ} → (A → A → Ordering) → List A → List A
unfolding insert_sorted
sort_by order [] = []
sort_by order (x ∷ xs) = insert_sorted order x (sort_by order xs)

unfoldable pub partition_point {ℓ} : {A : Type ℓ} → (A → Bool) → List A → ℕ
partition_point test [] = 0
partition_point test (x ∷ xs) = if test x then suc (partition_point test xs) else 0

abbrev pub enumerate {ℓ} : {A : Type ℓ} → ℕ → List A → List (A × ℕ)
enumerate index [] = []
enumerate index (x ∷ xs) = (x, index) ∷ enumerate (suc index) xs

module _ {ℓ} {A : Type ℓ} (order : A → A → Ordering) where
  pub insert_sorted-All :
      (P : A → Type 0) (x : A) (xs : List A) → P x → All P xs → All P (insert_sorted order x xs)
  unfolding insert_sorted
  insert_sorted-All P x [] h hs = (h, tt)
  insert_sorted-All P x (y ∷ ys) h hs =
      let rest = insert_sorted-All P x ys h hs.1 in
      elim (order x y) as (λ o. All P (chosen o x y (insert_sorted order x ys) ys)) [
        | Ordering.gt ↦ (hs.0, rest)
        | _ ↦ (h, hs)
      ]

  pub sort_by-All : (P : A → Type 0) (xs : List A) → All P xs → All P (sort_by order xs)
  unfolding sort_by
  sort_by-All P [] h = tt
  sort_by-All P (x ∷ xs) h = insert_sorted-All P x (sort_by order xs) h.0 (sort_by-All P xs h.1)

  insert_sorted-Any :
      (P : A → Type 0) (x : A) (xs : List A) → P x ⊎ Any P xs → Any P (insert_sorted order x xs)
  unfolding insert_sorted
  insert_sorted-Any P x [] h = h
  insert_sorted-Any P x (y ∷ ys) h =
      let here : P x → Any P (insert_sorted order x ys) = λ p. insert_sorted-Any P x ys (inl p) in
      let there : Any P ys → Any P (insert_sorted order x ys) =
        λ p. insert_sorted-Any P x ys (inr p) in
      let late : Any P (y ∷ insert_sorted order x ys) = elim h [
        | inl p ↦ inr (here p)
        | inr (inl p) ↦ inl p
        | inr (inr p) ↦ inr (there p)
      ] in
      elim (order x y) as (λ o. Any P (chosen o x y (insert_sorted order x ys) ys)) [
        | Ordering.gt ↦ late
        | _ ↦ h
      ]

  pub sort_by-Any : (P : A → Type 0) (xs : List A) → Any P xs → Any P (sort_by order xs)
  unfolding sort_by
  sort_by-Any P [] h = h
  sort_by-Any P (x ∷ xs) (inl h) = insert_sorted-Any P x (sort_by order xs) (inl h)
  sort_by-Any P (x ∷ xs) (inr h) =
      insert_sorted-Any P x (sort_by order xs) (inr (sort_by-Any P xs h))

module _ {A : Type 0} where
  -- Every entry of `enumerate` has the name that stands at its number.
  pub enumerate-All :
      (k : ℕ) (xs : List A)
      → All (λ e. (k ≤ e.1) × (get_elem? xs (e.1 - k) ≡ some e.0)) (enumerate k xs)
  enumerate-All k [] = tt
  enumerate-All k (x ∷ xs) =
      let first : 0 ≡ k - k = omega arith in
      (
        (omega arith, subst (λ i. get_elem? (x ∷ xs) i ≡ some x) first refl),
        All-imp (enumerate (suc k) xs)
            (λ e h.
              let next : suc (e.1 - suc k) ≡ e.1 - k = omega (arith, h.0) in
              (omega (arith, h.0), subst (λ i. get_elem? (x ∷ xs) i ≡ some e.0) next h.1))
            (enumerate-All (suc k) xs),
      )

  pub enumerate-Any :
      (k i : ℕ) (xs : List A) → i < length xs → Any (λ e. e.1 ≡ k + i) (enumerate k xs)
  enumerate-Any k i [] h = elim h [ ]
  enumerate-Any k zero (x ∷ xs) h = inl (omega arith)
  enumerate-Any k (suc i) (x ∷ xs) h = inr (
      Any-imp (enumerate (suc k) xs) (λ e h'. omega (arith, h'))
        (enumerate-Any (suc k) i xs (omega arith)))

  pub length-enumerate : (k : ℕ) (xs : List A) → length (enumerate k xs) ≡ length xs
  length-enumerate k [] = refl
  length-enumerate k (x ∷ xs) = ap suc (length-enumerate (suc k) xs)
