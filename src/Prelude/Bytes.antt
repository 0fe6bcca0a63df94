-- ===== src/Prelude/Bytes.antt =====
-- Byte strings as lists of numbers: slices, and words in little-endian and big-endian order.
use Prim.Native.Char.{code}
use Prim.Native.String.{String}
use Prim.Native.Nat.{ℕ, zero, suc, ◌+◌, ◌-◌, ◌*◌, ◌/◌, ◌%◌, ◌^◌, ◌<◌, ◌≤◌}
use mathlib.Core.Path.{◌≡◌, refl, ap, ap₂, ◌∙◌, subst}
use mathlib.Core.Bool.{Bool, true, false, ◌&&◌, ◌||◌}
use mathlib.Core.Logic.{inl, inr}
use mathlib.Core.List.{List, [], ◌∷◌, ◌++◌, reverse}
use mathlib.Core.Option.{Option, none, some}
use mathlib.Core.Option
use native.Mathlib.Omega.{arith}
use native.Mathlib.Nat.{pow-suc}
use native.Mathlib.Numerals.{unary_clauses}
use afs_ld.Prelude.Lists.{length, take, drop, length-take, length-drop}
use afs_ld.Prelude.Tests.{if◌then◌else◌, ltb, ltb→lt, ◌==◌, ==_iff, Bool-cases}

abbrev pub Bytes : Type 0
Bytes = List ℕ

-- The bytes of an ASCII literal.
abbrev pub codes : String → Bytes
codes String.[] = []
codes (String.◌∷◌ c s) = code c ∷ codes s

-- `bytes[start..end]`, where the caller has checked start ≤ end ≤ bytes.len().
abbrev pub slice {ℓ} : {A : Type ℓ} → List A → ℕ → ℕ → List A
slice bytes start end = take (end - start) (drop start bytes)

-- `to_le_bytes` of a word of `w` bytes, and `from_le_bytes`.
abbrev pub le_bytes : ℕ → ℕ → Bytes
le_bytes zero v = []
le_bytes (suc w) v = v % 256 ∷ le_bytes w (v / 256)

abbrev pub le_value : Bytes → ℕ
le_value [] = 0
le_value (b ∷ bs) = b + 256 * le_value bs

-- `from_be_bytes`.
abbrev pub be_value : Bytes → ℕ
be_value bs = le_value (reverse bs)

pub length-le_bytes : (w v : ℕ) → length (le_bytes w v) ≡ w
length-le_bytes zero v = refl
length-le_bytes (suc w) v = ap suc (length-le_bytes w (v / 256))

pub le_value-le_bytes : (w v : ℕ) → v < 256 ^ w → le_value (le_bytes w v) ≡ v
le_value-le_bytes zero v h = omega arith
le_value-le_bytes (suc w) v h =
    let small : v / 256 < 256 ^ w = omega (arith, pow-suc 256 w) in
    omega (arith, le_value-le_bytes w (v / 256) small)

-- Every element is a byte.
abbrev pub IsBytes : Bytes → Type 0
IsBytes [] = Unit
IsBytes (b ∷ bs) = (b < 256) × IsBytes bs

pub le_value-lt : (bs : Bytes) → IsBytes bs → le_value bs < 256 ^ length bs
le_value-lt [] h = omega arith
le_value-lt (b ∷ bs) h = omega (arith, le_value-lt bs h.1, pow-suc 256 (length bs), h.0)

-- `.iter().position(test)`.
abbrev pub position {ℓ} : {A : Type ℓ} → (A → Bool) → List A → Option ℕ
position p [] = none
position p (x ∷ xs) = if p x then some 0 else Option.map suc (position p xs)

module _ {ℓ} {A : Type ℓ} where
  pub take-append : (xs ys : List A) → take (length xs) (xs ++ ys) ≡ xs
  take-append [] ys = refl
  take-append (x ∷ xs) ys = ap (◌∷◌ x) (take-append xs ys)

  pub drop-append : (xs ys : List A) → drop (length xs) (xs ++ ys) ≡ ys
  drop-append [] ys = refl
  drop-append (x ∷ xs) ys = drop-append xs ys

  pub drop-all : (xs : List A) → drop (length xs) xs ≡ []
  drop-all [] = refl
  drop-all (x ∷ xs) = drop-all xs

  pub take-all : (xs : List A) → take (length xs) xs ≡ xs
  take-all [] = refl
  take-all (x ∷ xs) = ap (◌∷◌ x) (take-all xs)

-- `bytes[i]`, where the caller has checked i < bytes.len().
abbrev pub byte_at : Bytes → ℕ → ℕ
byte_at [] i = 0
byte_at (b ∷ bs) zero = b
byte_at (b ∷ bs) (suc i) = byte_at bs i

pub le_bytes-le_value : (bs : Bytes) → IsBytes bs → le_bytes (length bs) (le_value bs) ≡ bs
le_bytes-le_value [] h = refl
le_bytes-le_value (b ∷ bs) h =
    let low : (b + 256 * le_value bs) % 256 ≡ b = omega (arith, h.0) in
    let high : (b + 256 * le_value bs) / 256 ≡ le_value bs = omega (arith, h.0) in
    rw (low, high) (ap (◌∷◌ b) (le_bytes-le_value bs h.1))

abbrev pub all_bytes : Bytes → Bool
all_bytes [] = true
all_bytes (b ∷ bs) = ltb b 256 && all_bytes bs

pub all_bytes-IsBytes : (bs : Bytes) → all_bytes bs ≡ true → IsBytes bs
all_bytes-IsBytes [] h = tt
all_bytes-IsBytes (b ∷ bs) h = elim (Bool-cases (ltb b 256)) [
  | inl small ↦ (ltb→lt b 256 small, all_bytes-IsBytes bs (rw small at h))
  | inr large ↦ absurd (cc (rw large at h))
]

pub IsBytes-take : (n : ℕ) (bs : Bytes) → IsBytes bs → IsBytes (take n bs)
IsBytes-take zero bs h = tt
IsBytes-take (suc n) [] h = tt
IsBytes-take (suc n) (b ∷ bs) h = (h.0, IsBytes-take n bs h.1)

pub IsBytes-drop : (n : ℕ) (bs : Bytes) → IsBytes bs → IsBytes (drop n bs)
IsBytes-drop zero bs h = h
IsBytes-drop (suc n) [] h = tt
IsBytes-drop (suc n) (b ∷ bs) h = IsBytes-drop n bs h.1

module _ {ℓ} {A : Type ℓ} where
  pub drop-drop : (m n : ℕ) (xs : List A) → drop n (drop m xs) ≡ drop (m + n) xs
  drop-drop zero n xs = let e : n ≡ 0 + n = omega arith in ap (λ k. drop k xs) e
  drop-drop (suc m) zero [] = simp unary_clauses refl
  drop-drop (suc m) (suc n) [] = simp unary_clauses refl
  drop-drop (suc m) n (x ∷ xs) =
      let e : suc m + n ≡ suc (m + n) = omega arith in rw e (drop-drop m n xs)

  pub take-add : (m n : ℕ) (xs : List A) → take (m + n) xs ≡ take m xs ++ take n (drop m xs)
  take-add zero n xs = let e : 0 + n ≡ n = omega arith in ap (λ k. take k xs) e
  take-add (suc m) zero [] = simp unary_clauses refl
  take-add (suc m) (suc n) [] = simp unary_clauses refl
  take-add (suc m) n (x ∷ xs) =
      let e : suc m + n ≡ suc (m + n) = omega arith in rw e (ap (◌∷◌ x) (take-add m n xs))

  -- Two adjacent segments.
  pub take-drop-add :
      (k m n : ℕ) (xs : List A)
      → take (m + n) (drop k xs) ≡ take m (drop k xs) ++ take n (drop (k + m) xs)
  take-drop-add k m n xs =
      take-add m n (drop k xs) ∙ ap (λ ys. take m (drop k xs) ++ take n ys) (drop-drop k m xs)

  pub take_idem : (n : ℕ) (xs : List A) → take n (take n xs) ≡ take n xs
  take_idem zero xs = refl
  take_idem (suc n) [] = refl
  take_idem (suc n) (x ∷ xs) = ap (◌∷◌ x) (take_idem n xs)

  pub length-take-within : (n : ℕ) (xs : List A) → n ≤ length xs → length (take n xs) ≡ n
  length-take-within n xs h = omega (arith, length-take n xs)

-- A word read at an offset and written again is the bytes that it was read from.
pub le_bytes-slice :
    (bs : Bytes) (off w : ℕ)
    → IsBytes bs
    → off + w ≤ length bs
    → le_bytes w (le_value (take w (drop off bs))) ≡ take w (drop off bs)
le_bytes-slice bs off w h bound =
    let there : w ≤ length (drop off bs) = omega (arith, length-drop off bs) in
    subst (λ n. le_bytes n (le_value (take w (drop off bs))) ≡ take w (drop off bs))
      (length-take-within w (drop off bs) there)
      (le_bytes-le_value (take w (drop off bs)) (IsBytes-take w _ (IsBytes-drop off bs h)))

pub byte_at-slice : (bs : Bytes) (i : ℕ) → i < length bs → byte_at bs i ∷ [] ≡ take 1 (drop i bs)
byte_at-slice [] i h = elim h [ ]
byte_at-slice (b ∷ bs) zero h = refl
byte_at-slice (b ∷ bs) (suc i) h = byte_at-slice bs i (omega arith)

-- `contains` of a set of numbers.
abbrev pub contains : List ℕ → ℕ → Bool
contains [] n = false
contains (x ∷ xs) n = (x == n) || contains xs n

-- Equality of byte strings, decided.
unfoldable pub same_bytes : Bytes → Bytes → Bool
same_bytes [] [] = true
same_bytes (a ∷ more) (b ∷ bs) = (a == b) && same_bytes more bs
same_bytes _ _ = false

pub same_bytes→≡ : (xs ys : Bytes) → same_bytes xs ys ≡ true → xs ≡ ys
unfolding same_bytes
same_bytes→≡ [] [] h = refl
same_bytes→≡ [] (y ∷ ys) h = cc
same_bytes→≡ (x ∷ xs) [] h = cc
same_bytes→≡ (x ∷ xs) (y ∷ ys) h = elim (Bool-cases (x == y)) [
  | inl same ↦ ap₂ ◌∷◌ ((==_iff x y).0 same) (same_bytes→≡ xs ys (rw same at h))
  | inr other ↦ absurd (cc (rw other at h))
]

pub same_bytes_refl : (xs : Bytes) → same_bytes xs xs ≡ true
unfolding same_bytes
same_bytes_refl [] = refl
same_bytes_refl (x ∷ xs) = rw ((==_iff x x).1 refl, same_bytes_refl xs) refl

pub ≡→same_bytes : {xs ys : Bytes} → xs ≡ ys → same_bytes xs ys ≡ true
≡→same_bytes {xs} e = subst (λ zs. same_bytes xs zs ≡ true) e (same_bytes_refl xs)

-- ASCII is UTF-8: the test for the runs on concrete bytes.
abbrev pub is_ascii : Bytes → Bool
is_ascii [] = true
is_ascii (b ∷ bs) = ltb b 128 && is_ascii bs
