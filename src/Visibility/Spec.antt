-- ===== src/Visibility/Spec.antt =====
-- src/symbol_visibility.rs: what a pattern is to match, with no search in it: `?` any byte, `*` any run.
use afs_ld.Prelude.{ℕ, ◌≡◌, ◌≢◌, refl, Bool, true, false, [], ◌∷◌, inl, inr, ◌⊎◌, All, arith}
use afs_ld.Prelude.Bytes.{Bytes}
use afs_ld.Visibility.{star, accepts}

-- A pattern fits a value.
pub data Fits : Bytes → Bytes → Type 0 where
  over : Fits [] []
  one : {x c : ℕ} {p s : Bytes} → accepts x c ≡ true → Fits p s → Fits (x ∷ p) (c ∷ s)
  none_taken : {x : ℕ} {p s : Bytes} → x ≡ star → Fits p s → Fits (x ∷ p) s
  some_taken : {x c : ℕ} {p s : Bytes} → x ≡ star → Fits (x ∷ p) s → Fits (x ∷ p) (c ∷ s)

-- No byte is a star.
abbrev pub NoStar : Bytes → Type 0
NoStar = All (λ c. c ≢ star)

accepts-star : (c : ℕ) → c ≢ star → accepts star c ≡ false
accepts-star c h = ground (arith, h)

not_both : {b : Bool} → b ≡ true → b ≡ false → ⊥
not_both e f = cc (e, f)

pub not-over : {c : ℕ} {s : Bytes} → ¬ Fits [] (c ∷ s)
not-over h = elim h [ ]

-- A pattern that does not begin with a star takes one byte.
pub one_inv :
    {x c : ℕ} {p s : Bytes} → x ≢ star → Fits (x ∷ p) (c ∷ s) → (accepts x c ≡ true) × Fits p s
one_inv n (one h f) = (h, f)
one_inv n (none_taken e f) = absurd (n e)
one_inv n (some_taken e f) = absurd (n e)

-- A star at a byte that is not a star: it takes the byte or ends.
pub star_inv :
    {c : ℕ} {p s : Bytes} → c ≢ star → Fits (star ∷ p) (c ∷ s) → Fits p (c ∷ s) ⊎ Fits (star ∷ p) s
star_inv {c} n (one h f) = absurd (not_both h (accepts-star c n))
star_inv n (none_taken e f) = inl f
star_inv n (some_taken e f) = inr f

pub star_end : {p : Bytes} → Fits (star ∷ p) [] → Fits p []
star_end (none_taken e f) = f

-- A second star adds nothing.
pub merge_stars : {p : Bytes} (s : Bytes) → NoStar s → Fits (star ∷ star ∷ p) s → Fits (star ∷ p) s
merge_stars [] n f = star_end f
merge_stars (c ∷ s) n f = elim (star_inv n.0 f) [
  | inl g ↦ g
  | inr g ↦ some_taken refl (merge_stars s n.1 g)
]

-- Wherever an accepted item comes first, the star may take a byte before it too.
pub skip_item :
    {x c : ℕ} {p : Bytes} (s : Bytes)
    → x ≢ star
    → NoStar (c ∷ s)
    → Fits (star ∷ x ∷ p) (c ∷ s)
    → Fits (star ∷ p) s
skip_item [] n ns f = elim (star_inv ns.0 f) [
  | inl g ↦ none_taken refl (one_inv n g).1
  | inr g ↦ elim (star_end g) [ none_taken e h ↦ absurd (n e) ]
]
skip_item (d ∷ s) n ns f = elim (star_inv ns.0 f) [
  | inl g ↦ none_taken refl (one_inv n g).1
  | inr g ↦ some_taken refl (skip_item s n ns.1 g)
]
