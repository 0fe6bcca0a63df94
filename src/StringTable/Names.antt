-- ===== src/StringTable/Names.antt =====
-- Which names a string table has, and that a name's tails are names of the same table.
use afs_ld.Prelude.{
  ℕ, zero, suc, ◌+◌, ◌-◌, ◌≤◌, ◌≡◌, ◌≢◌, ◌↔◌, refl, sym, ap, ◌∙◌, subst, Bool, true, [], ◌∷◌, ◌++◌,
  some, ok, ensure-eq-ok, ok-injective, arith, length, length-append, length-drop, take, drop, ltb,
  lt→ltb, ==_iff, Bool-cases, Option-cases, inl, inr,
}
use afs_ld.Prelude.Bytes.{Bytes, position, take-append, drop-drop}
use afs_ld.StringTable.{StringTable, is_null, get}

abbrev pub NoNull : Bytes → Type 0
NoNull [] = Unit
NoNull (b ∷ bs) = (b ≢ 0) × NoNull bs

-- `name` stands at an offset: its bytes, none of them null, and a null.
abbrev pub NameAt : StringTable → ℕ → Bytes → Type 0
NameAt t strx name = (rest : Bytes) × (drop strx t.raw ≡ name ++ 0 ∷ rest) × NoNull name

position-splits :
    (xs : Bytes) (n : ℕ)
    → position is_null xs ≡ some n
    → (rest : Bytes) × (xs ≡ take n xs ++ 0 ∷ rest) × NoNull (take n xs)
position-splits [] n h = cc
position-splits (x ∷ xs) n h = elim (Bool-cases (is_null x)) [
  | inl null ↦
      let g = rw null at h in
      let at : zero ≡ n = cc g in
      let e : x ≡ 0 = ground arith in rw (← at) (xs, ap (λ b. b ∷ xs) e, tt)
  | inr other ↦
      let g = rw other at h in
      elim (Option-cases (position is_null xs)) [
        | inl missing ↦ absurd (cc (rw missing at g))
        | inr (m, there) ↦
            let g' = rw there at g in
            let at : suc m ≡ n = cc g' in
            let (rest, e, clean) = position-splits xs m there in
            rw (← at) (rest, ap (◌∷◌ x) e, (λ z. ground arith, clean))
      ]
]

splits-position :
    (name rest : Bytes) → NoNull name → position is_null (name ++ 0 ∷ rest) ≡ some (length name)
splits-position [] rest h = refl
splits-position (x ∷ xs) rest h = elim (Bool-cases (is_null x)) [
  | inl null ↦ absurd (h.0 ((==_iff x 0).0 null))
  | inr other ↦ rw (other, splits-position xs rest h.1) refl
]

get-NameAt :
    (is_utf8 : Bytes → Bool) (t : StringTable) (strx : ℕ) (name : Bytes)
    → get is_utf8 t strx ≡ ok name
    → NameAt t strx name × (is_utf8 name ≡ true)
unfolding get
get-NameAt is_utf8 t strx name h =
    let (inside, h1) = ensure-eq-ok (ltb strx (length t.raw)) _ _ h in
    elim (Option-cases (position is_null (drop strx t.raw))) [
      | inl missing ↦ absurd (cc (rw missing at h1))
      | inr (n, there) ↦
          let h2 = rw there at h1 in
          let width : strx + n - strx ≡ n = omega arith in
          let h3 = rw width at h2 in
          let (utf8, h4) = ensure-eq-ok (is_utf8 (take n (drop strx t.raw))) _ _ h3 in
          let same : take n (drop strx t.raw) ≡ name = ok-injective h4 in
          let (rest, e, clean) = position-splits (drop strx t.raw) n there in
          ((rest, rw same at e, subst NoNull same clean), rw same at utf8)
    ]

NameAt-get :
    (is_utf8 : Bytes → Bool) (t : StringTable) (strx : ℕ) (name : Bytes)
    → NameAt t strx name
    → is_utf8 name ≡ true
    → get is_utf8 t strx ≡ ok name
unfolding get
NameAt-get is_utf8 t strx name (rest, e, clean) utf8 =
    let size = length-append name (0 ∷ rest) in
    let left : length (drop strx t.raw) ≡ length (name ++ 0 ∷ rest) = ap length e in
    let inside : ltb strx (length t.raw) ≡ true =
      lt→ltb strx (length t.raw) (omega (arith, length-drop strx t.raw, size, left)) in
    let width : strx + length name - strx ≡ length name = omega arith in
    rw (inside, e, splits-position name rest clean, width, take-append name (0 ∷ rest), utf8) refl

-- `get` at an offset gives a name exactly when the name stands there, ended by its first null, and is
-- UTF-8.
pub get_iff :
    (is_utf8 : Bytes → Bool) (t : StringTable) (strx : ℕ) (name : Bytes)
    → (get is_utf8 t strx ≡ ok name) ↔ NameAt t strx name × (is_utf8 name ≡ true)
get_iff is_utf8 t strx name =
    (get-NameAt is_utf8 t strx name, λ h. NameAt-get is_utf8 t strx name (h.0) (h.1))

tail_at :
    (k : ℕ) (name rest : Bytes)
    → k ≤ length name
    → NoNull name
    → (drop k (name ++ 0 ∷ rest) ≡ drop k name ++ 0 ∷ rest) × NoNull (drop k name)
tail_at zero name rest h clean = (refl, clean)
tail_at (suc k) [] rest h clean = elim h [ ]
tail_at (suc k) (x ∷ xs) rest h clean = tail_at k xs rest (omega arith) clean.1

-- When `get` gives a name at an offset, the tail of the name from any place in it, if it is UTF-8,
-- is what `get` gives at the offset of that place: names may share their tails.
pub get-drop :
    (is_utf8 : Bytes → Bool) (t : StringTable) (strx k : ℕ) (name : Bytes)
    → get is_utf8 t strx ≡ ok name
    → k ≤ length name
    → is_utf8 (drop k name) ≡ true
    → get is_utf8 t (strx + k) ≡ ok (drop k name)
get-drop is_utf8 t strx k name h bound utf8 =
    let ((rest, e, clean), _) = get-NameAt is_utf8 t strx name h in
    let (tail, clean') = tail_at k name rest bound clean in
    NameAt-get is_utf8 t (strx + k) (drop k name)
      (rest, sym (drop-drop strx k t.raw) ∙ ap (drop k) e ∙ tail, clean') utf8
