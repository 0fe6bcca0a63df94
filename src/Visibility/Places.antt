-- ===== src/Visibility/Places.antt =====
-- src/symbol_visibility.rs: the places `pattern[p]` and `value[v]`, and what is left from there.
use afs_ld.Prelude.{
  ℕ, zero, suc, ◌+◌, ◌≤◌, ◌<◌, ◌≡◌, refl, subst, [], ◌∷◌, none, some, length, get_elem?, drop,
  Option-cases, inl, inr, arith, All, drop-nil,
}
use afs_ld.Prelude.Bytes.{Bytes}

pub get-bound : (xs : Bytes) (i x : ℕ) → get_elem? xs i ≡ some x → i < length xs
get-bound [] i x h = cc
get-bound (y ∷ ys) zero x h = omega arith
get-bound (y ∷ ys) (suc i) x h = let below = get-bound ys i x h in omega arith

pub get-none : (xs : Bytes) (i : ℕ) → get_elem? xs i ≡ none → length xs ≤ i
get-none [] i h = omega arith
get-none (x ∷ xs) zero h = cc
get-none (x ∷ xs) (suc i) h = let past = get-none xs i h in omega arith

pub get-inside : (xs : Bytes) (i : ℕ) → i < length xs → (x : ℕ) × (get_elem? xs i ≡ some x)
get-inside [] i h = absurd (omega arith)
get-inside (x ∷ xs) zero h = (x, refl)
get-inside (x ∷ xs) (suc i) h = get-inside xs i (omega arith)

pub All-drop : (P : ℕ → Type 0) (xs : Bytes) (i : ℕ) → All P xs → All P (drop i xs)
All-drop P [] i h = rw (drop-nil {A = ℕ} i) tt
All-drop P (x ∷ xs) zero h = h
All-drop P (x ∷ xs) (suc i) h = All-drop P xs i h.1

-- What is left at a place.
pub drop-get : (xs : Bytes) (i x : ℕ) → get_elem? xs i ≡ some x → drop i xs ≡ x ∷ drop (i + 1) xs
drop-get [] i x h = cc
drop-get (y ∷ ys) zero x h = let e : y ≡ x = cc h in subst (λ z. y ∷ ys ≡ z ∷ ys) e refl
drop-get (y ∷ ys) (suc i) x h =
    let same : suc i + 1 ≡ suc (i + 1) = omega arith in rw same (drop-get ys i x h)

pub drop-none : (xs : Bytes) (i : ℕ) → get_elem? xs i ≡ none → drop i xs ≡ []
drop-none [] zero h = refl
drop-none [] (suc i) h = refl
drop-none (y ∷ ys) zero h = cc
drop-none (y ∷ ys) (suc i) h = drop-none ys i h

pub drop-past : (xs : Bytes) (i : ℕ) → length xs ≤ i → drop i xs ≡ []
drop-past xs i h = elim (Option-cases (get_elem? xs i)) [
  | inl out ↦ drop-none xs i out
  | inr (x, item) ↦ let inside = get-bound xs i x item in absurd (omega arith)
]
