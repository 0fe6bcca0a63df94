-- ===== src/Resolve/Lookup.antt =====
-- The well-formedness of a symbol table, and how one slot's change is seen from the others.
use afs_ld.Prelude.{
  ℕ, zero, suc, ◌<◌, ◌≡◌, refl, ap, List, [], ◌∷◌, ◌++◌, some, arith, length, get_elem?, ◌⊎◌, inl,
  inr,
}
use afs_ld.Resolve.Symbol.{Symbol, symbol_name}
use afs_ld.Resolve.Table.{SymbolTable, find_id}

-- `by_name` and `symbols` agree: a name's slot exists and holds that name, and a slot's name leads
-- back to it.
pub record Agree (symbols : List Symbol) (by_name : List (ℕ × ℕ)) : Type 0 where
  pub held :
      (name id : ℕ)
      → find_id name by_name ≡ some id
      → (s : Symbol) × (get_elem? symbols id ≡ some s) × (symbol_name s ≡ name)
  pub named :
      (id : ℕ) (s : Symbol)
      → get_elem? symbols id ≡ some s
      → find_id (symbol_name s) by_name ≡ some id

abbrev pub IsValid : SymbolTable → Type 0
IsValid t = Agree t.symbols t.by_name

module _ {ℓ} {A : Type ℓ} where
  pub get_elem?-lt : (xs : List A) (i : ℕ) {a : A} → get_elem? xs i ≡ some a → i < length xs
  get_elem?-lt [] i h = cc
  get_elem?-lt (x ∷ xs) zero h = omega arith
  get_elem?-lt (x ∷ xs) (suc i) h = omega (arith, get_elem?-lt xs i h)

  pub get_elem?-append_left :
      (xs ys : List A) (i : ℕ) → i < length xs → get_elem? (xs ++ ys) i ≡ get_elem? xs i
  get_elem?-append_left [] ys i h = elim h [ ]
  get_elem?-append_left (x ∷ xs) ys zero h = refl
  get_elem?-append_left (x ∷ xs) ys (suc i) h = get_elem?-append_left xs ys i (omega arith)

  -- A list with one element more.
  pub get_elem?-concat :
      (xs : List A) (x : A) (i : ℕ) {a : A}
      → get_elem? (xs ++ x ∷ []) i ≡ some a
      → (i < length xs) × (get_elem? xs i ≡ some a) ⊎ (i ≡ length xs) × (a ≡ x)
  get_elem?-concat [] x zero h = inr (refl, cc)
  get_elem?-concat [] x (suc i) h = cc
  get_elem?-concat (y ∷ xs) x zero h = inl (omega arith, h)
  get_elem?-concat (y ∷ xs) x (suc i) h = elim (get_elem?-concat xs x i h) [
    | inl (lt, e) ↦ inl (omega arith, e)
    | inr (at, e) ↦ inr (ap suc at, e)
  ]

  pub get_elem?-concat_last : (xs : List A) (x : A) → get_elem? (xs ++ x ∷ []) (length xs) ≡ some x
  get_elem?-concat_last [] x = refl
  get_elem?-concat_last (y ∷ xs) x = get_elem?-concat_last xs x
