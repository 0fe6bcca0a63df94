-- ===== src/StringTable/Builder/Placed.antt =====
-- src/string_table.rs, the builder: what stands in the blob while names are placed.
use afs_ld.Prelude.{
  ℕ, zero, suc, ◌+◌, ◌-◌, ◌^◌, ◌%◌, ◌≤◌, ◌<◌, ◌≡◌, refl, sym, ap, ◌∙◌, subst, List, [], ◌∷◌, ◌++◌,
  append_assoc, append-nil, ℕ-cases, some, some-injective, Option-cases, Bool-cases, inl, inr,
  length, length-append, length-drop, get_elem?, drop, leb, arith,
}
use afs_ld.Prelude.Bytes.{Bytes, same_bytes, same_bytes→≡, drop-drop, drop-append}
use afs_ld.Prelude.Sort.{partition_point, is_lt}
use afs_ld.StringTable.Builder.{
  RootString, Blob, empty_blob, ends_with, last_below, shared_tail, tail_in,
  find_borrowed_suffix_offset, reverse_suffix_order, append_name, place,
}

-- The bytes of `name` and a null stand in `raw` at `offset`.
abbrev pub Placed : Bytes → Bytes → ℕ → Type 0
Placed raw name offset = (rest : Bytes) × (drop offset raw ≡ name ++ 0 ∷ rest)

abbrev pub AllPlaced : Bytes → List RootString → Type 0
AllPlaced raw [] = Unit
AllPlaced raw (root ∷ roots) = Placed raw root.name root.offset × AllPlaced raw roots

-- The empty name stands at 0, and every root where it says.
abbrev pub IsBlob : Blob → Type 0
IsBlob blob = Placed blob.raw [] 0 × AllPlaced blob.raw blob.roots

pub empty_blob-IsBlob : IsBlob empty_blob
empty_blob-IsBlob = (([], refl), tt)

drop-append_le : (k : ℕ) (xs ys : Bytes) → k ≤ length xs → drop k (xs ++ ys) ≡ drop k xs ++ ys
drop-append_le zero xs ys h = refl
drop-append_le (suc k) [] ys h = elim h [ ]
drop-append_le (suc k) (x ∷ xs) ys h = drop-append_le k xs ys (omega arith)

-- A placed name ends before the blob does.
pub Placed-lt :
    (raw name : Bytes) (offset : ℕ) → Placed raw name offset → offset + length name < length raw
Placed-lt raw name offset (rest, e) =
    let size : length (drop offset raw) ≡ length (name ++ 0 ∷ rest) = ap length e in
    omega (arith, length-drop offset raw, length-append name (0 ∷ rest), size)

pub Placed-append :
    (raw more name : Bytes) (offset : ℕ) → Placed raw name offset → Placed (raw ++ more) name offset
Placed-append raw more name offset (rest, e) =
    let bound = Placed-lt raw name offset (rest, e) in
    (
      rest ++ more,
      drop-append_le offset raw more (omega arith)
          ∙ ap (λ bytes. bytes ++ more) e
          ∙ append_assoc name (0 ∷ rest) more,
    )

AllPlaced-append :
    (raw more : Bytes) (roots : List RootString)
    → AllPlaced raw roots
    → AllPlaced (raw ++ more) roots
AllPlaced-append raw more [] h = tt
AllPlaced-append raw more (root ∷ roots) h =
    (Placed-append raw more root.name root.offset h.0, AllPlaced-append raw more roots h.1)

AllPlaced-concat :
    (raw : Bytes) (roots : List RootString) (root : RootString)
    → AllPlaced raw roots
    → Placed raw root.name root.offset
    → AllPlaced raw (roots ++ root ∷ [])
AllPlaced-concat raw [] root h here = (here, tt)
AllPlaced-concat raw (first ∷ roots) root h here = (h.0, AllPlaced-concat raw roots root h.1 here)

AllPlaced-get_elem? :
    (raw : Bytes) (roots : List RootString) (i : ℕ) (root : RootString)
    → AllPlaced raw roots
    → get_elem? roots i ≡ some root
    → Placed raw root.name root.offset
AllPlaced-get_elem? raw [] i root h e = cc
AllPlaced-get_elem? raw (first ∷ roots) zero root h e =
    subst (λ r. Placed raw r.name r.offset) (some-injective e) h.0
AllPlaced-get_elem? raw (first ∷ roots) (suc i) root h e =
    AllPlaced-get_elem? raw roots i root h.1 e

-- A tail that is found in a placed root is placed.
shared_tail-Placed :
    (raw : Bytes) (existing : RootString) (name : Bytes) (offset : ℕ)
    → length raw < 2 ^ 32
    → Placed raw existing.name existing.offset
    → shared_tail existing name ≡ some offset
    → Placed raw name offset
unfolding shared_tail ends_with
shared_tail-Placed raw existing name offset small (rest, e) found =
    let bound = Placed-lt raw existing.name existing.offset (rest, e) in
    let k = length existing.name - length name in
    elim (Bool-cases (leb (length name) (length existing.name))) [
      | inr short ↦ absurd (cc (rw short at found))
      | inl long ↦
          let found1 = rw long at found in
          elim (Bool-cases (same_bytes (drop k existing.name) name)) [
            | inr other ↦ absurd (cc (rw other at found1))
            | inl same ↦
                let at = some-injective (rw same at found1) in
                let exact : (existing.offset + k % 2 ^ 32) % 2 ^ 32 ≡ existing.offset + k =
                  omega arith in
                let tail : drop k existing.name ≡ name = same_bytes→≡ _ name same in
                subst (Placed raw name) (sym exact ∙ at) (
                  rest,
                  sym (drop-drop existing.offset k raw)
                      ∙ ap (drop k) e
                      ∙ drop-append_le k existing.name (0 ∷ rest) (omega arith)
                      ∙ ap (λ bytes. bytes ++ 0 ∷ rest) tail,
                )
          ]
    ]

last_below-Placed :
    (raw : Bytes) (roots : List RootString) (name : Bytes) (existing : RootString)
    → AllPlaced raw roots
    → last_below roots name ≡ some existing
    → Placed raw existing.name existing.offset
unfolding last_below
last_below-Placed raw roots name existing h found =
    elim (ℕ-cases (partition_point (λ root. is_lt (reverse_suffix_order root.name name)) roots)) [
      | inl none_below ↦ absurd (cc (rw none_below at found))
      | inr (before, e) ↦ AllPlaced-get_elem? raw roots before existing h (rw e at found)
    ]

pub find-Placed :
    (blob : Blob) (name : Bytes) (offset : ℕ)
    → length blob.raw < 2 ^ 32
    → IsBlob blob
    → find_borrowed_suffix_offset blob.roots name ≡ some offset
    → Placed blob.raw name offset
unfolding find_borrowed_suffix_offset tail_in
find-Placed blob [] offset small h found = subst (Placed blob.raw []) (some-injective found) h.0
find-Placed blob (b ∷ bs) offset small h found =
    elim (Option-cases (last_below blob.roots (b ∷ bs))) [
      | inl missing ↦ absurd (cc (rw missing at found))
      | inr (existing, there) ↦
          shared_tail-Placed blob.raw existing (b ∷ bs) offset small
            (last_below-Placed blob.raw blob.roots (b ∷ bs) existing h.1 there) (rw there at found)
    ]

append_name-Placed :
    (blob : Blob) (name : Bytes)
    → length blob.raw < 2 ^ 32
    → Placed (append_name blob name).1.raw name (append_name blob name).0
unfolding append_name
append_name-Placed blob name small =
    let exact : length blob.raw % 2 ^ 32 ≡ length blob.raw = omega arith in
    (
      [],
      ap (λ k. drop k ((blob.raw ++ name) ++ 0 ∷ [])) exact
          ∙ ap (drop (length blob.raw)) (append_assoc blob.raw name (0 ∷ []))
          ∙ drop-append blob.raw (name ++ 0 ∷ []),
    )

-- How the blob changes when a name is placed.
pub record Grows (before after : Blob) : Type 0 where
  pub more : Bytes
  pub raw_is : after.raw ≡ before.raw ++ more

Grows-append_name : (blob : Blob) (name : Bytes) → Grows blob (append_name blob name).1
unfolding append_name
Grows-append_name blob name = record {
  more = name ++ 0 ∷ [];
  raw_is = append_assoc blob.raw name (0 ∷ []);
}

append_name-IsBlob :
    (blob : Blob) (name : Bytes)
    → length blob.raw < 2 ^ 32
    → IsBlob blob
    → IsBlob (append_name blob name).1
unfolding append_name
append_name-IsBlob blob name small h =
    let here = append_name-Placed blob name small in
    let same = append_assoc blob.raw name (0 ∷ []) in
    let all =
      subst (λ raw. AllPlaced raw blob.roots) (sym same)
        (AllPlaced-append blob.raw (name ++ 0 ∷ []) blob.roots h.1) in
    (
      subst (λ raw. Placed raw [] 0) (sym same) (Placed-append blob.raw (name ++ 0 ∷ []) [] 0 h.0),
      AllPlaced-concat _ blob.roots _ all here,
    )

-- `place` gives an offset where the name stands, in a blob that only grew.
pub place-Placed :
    (blob : Blob) (name : Bytes)
    → length blob.raw < 2 ^ 32
    → IsBlob blob
    → Placed (place blob name).1.raw name (place blob name).0
      × IsBlob (place blob name).1
      × Grows blob (place blob name).1
unfolding place
place-Placed blob name small h = elim (Option-cases (find_borrowed_suffix_offset blob.roots name)) [
  | inr (offset, there) ↦ rw there (
    find-Placed blob name offset small h there,
    h,
    record { more = []; raw_is = sym (append-nil blob.raw) },
  )
  | inl missing ↦ rw missing (
    append_name-Placed blob name small,
    append_name-IsBlob blob name small h,
    Grows-append_name blob name,
  )
]

pub length-place : (blob : Blob) (name : Bytes) → length blob.raw ≤ length (place blob name).1.raw
unfolding place append_name
length-place blob name = elim (Option-cases (find_borrowed_suffix_offset blob.roots name)) [
  | inr (offset, there) ↦ rw there (omega arith)
  | inl missing ↦
      rw missing
        (omega (arith, length-append (blob.raw ++ name) (0 ∷ []), length-append blob.raw name))
]

pub Placed-Grows :
    (before after : Blob) (name : Bytes) (offset : ℕ)
    → Grows before after
    → Placed before.raw name offset
    → Placed after.raw name offset
Placed-Grows before after name offset g h =
    subst (λ raw. Placed raw name offset) (sym g.raw_is)
      (Placed-append before.raw g.more name offset h)
