-- ===== src/StringTable/Builder/Finish.antt =====
-- src/string_table.rs, `insert` and `finish`: every inserted name reads back from its offset in the map.
use afs_ld.Prelude.{
  ℕ, ◌^◌, ◌≤◌, ◌<◌, ◌≡◌, refl, sym, ap, ◌∙◌, subst, Bool, true, false, List, [], ◌∷◌, ◌++◌, map,
  some, ok, inl, inr, ◌⊎◌, length, length-append, Any, Bool-cases, Option-cases, if◌then◌else◌,
  arith,
}
use afs_ld.Prelude.Bytes.{Bytes, same_bytes, same_bytes→≡, same_bytes_refl, ≡→same_bytes}
use afs_ld.StringTable.{get}
use afs_ld.StringTable.Names.{NoNull, get_iff}
use afs_ld.StringTable.Builder.{
  Blob, empty_blob, OffsetMap, find_offset, insert_offset, insert, reverse_suffix_order, place,
  place_names, pad, finish,
}
use afs_ld.StringTable.Builder.Placed.{
  Placed, IsBlob, empty_blob-IsBlob, Placed-append, Placed-Grows, place-Placed, length-place,
}
use afs_ld.Prelude.Sort.{sort_by, sort_by-Any}
use afs_ld.StringTable.Builder.Offsets.{pad-IsPadded}

-- Inserting some names, the first one first.
abbrev pub inserted : List Bytes → OffsetMap → OffsetMap
inserted [] offsets = offsets
inserted (name ∷ names) offsets = inserted names (insert offsets name)

find_offset-insert_self :
    (offsets : OffsetMap) (name : Bytes) (offset : ℕ)
    → find_offset (insert_offset offsets name offset) name ≡ some offset
unfolding find_offset insert_offset
find_offset-insert_self [] name offset = rw (same_bytes_refl name) refl
find_offset-insert_self ((key, old) ∷ rest) name offset = elim (Bool-cases (same_bytes key name)) [
  | inl same ↦ rw (same, same) refl
  | inr other ↦ rw (other, other) (find_offset-insert_self rest name offset)
]

find_offset-insert_ne :
    (offsets : OffsetMap) (key name : Bytes) (offset : ℕ)
    → same_bytes key name ≡ false
    → find_offset (insert_offset offsets key offset) name ≡ find_offset offsets name
unfolding find_offset insert_offset
find_offset-insert_ne [] key name offset h = rw h refl
find_offset-insert_ne ((first, old) ∷ rest) key name offset h =
    elim (Bool-cases (same_bytes first key)) [
      | inl same ↦
          let e : first ≡ key = same_bytes→≡ first key same in
          let other : same_bytes first name ≡ false = rw e h in rw (same, other) refl
      | inr different ↦ rw different (
          ap (λ o. if same_bytes first name then some old else o)
            (find_offset-insert_ne rest key name offset h))
    ]

insert-find_offset :
    (offsets : OffsetMap) (key name : Bytes)
    → (key ≡ name) ⊎ (old : ℕ) × (find_offset offsets name ≡ some old)
    → (old : ℕ) × (find_offset (insert offsets key) name ≡ some old)
unfolding insert
insert-find_offset offsets key name h = elim (Option-cases (find_offset offsets key)) [
  | inr (old, there) ↦ rw there (elim h [ inl same ↦ (old, rw same at there) | inr found ↦ found ])
  | inl missing ↦ rw missing (elim (Bool-cases (same_bytes key name)) [
    | inl same ↦ (
      0,
      subst (λ n. find_offset (insert_offset offsets key 0) n ≡ some 0) (same_bytes→≡ key name same)
          (find_offset-insert_self offsets key 0),
    )
    | inr other ↦ elim h [
      | inl same ↦ absurd (cc (other, ≡→same_bytes same))
      | inr (old, found) ↦ (old, find_offset-insert_ne offsets key name 0 other ∙ found)
    ]
  ])
]

inserted-find_offset :
    (names : List Bytes) (offsets : OffsetMap) (name : Bytes)
    → Any (λ n. n ≡ name) names ⊎ (old : ℕ) × (find_offset offsets name ≡ some old)
    → (old : ℕ) × (find_offset (inserted names offsets) name ≡ some old)
inserted-find_offset [] offsets name (inl none_there) = elim none_there [ ]
inserted-find_offset [] offsets name (inr found) = found
inserted-find_offset (first ∷ names) offsets name (inl (inl same)) =
    inserted-find_offset names _ name (inr (insert-find_offset offsets first name (inl same)))
inserted-find_offset (first ∷ names) offsets name (inl (inr later)) =
    inserted-find_offset names _ name (inl later)
inserted-find_offset (first ∷ names) offsets name (inr found) =
    inserted-find_offset names _ name (inr (insert-find_offset offsets first name (inr found)))

find_offset-Any :
    (offsets : OffsetMap) (name : Bytes) (old : ℕ)
    → find_offset offsets name ≡ some old
    → Any (λ n. n ≡ name) (map (λ e. e.0) offsets)
unfolding find_offset
find_offset-Any [] name old h = cc
find_offset-Any ((key, offset) ∷ rest) name old h = elim (Bool-cases (same_bytes key name)) [
  | inl same ↦ inl (same_bytes→≡ key name same)
  | inr other ↦ inr (find_offset-Any rest name old (rw other at h))
]

length-place_names :
    (names : List Bytes) (blob : Blob) (offsets : OffsetMap)
    → length blob.raw ≤ length (place_names names blob offsets).0.raw
unfolding place_names
length-place_names [] blob offsets = omega arith
length-place_names (name ∷ names) blob offsets = omega (
  arith,
  length-place blob name,
  length-place_names names (place blob name).1 (insert_offset offsets name (place blob name).0),
)

abbrev HasName : Bytes → OffsetMap → Bytes → Type 0
HasName raw offsets name =
    (offset : ℕ) × (find_offset offsets name ≡ some offset) × Placed raw name offset

place_names-HasName :
    (names : List Bytes) (blob : Blob) (offsets : OffsetMap) (name : Bytes)
    → length (place_names names blob offsets).0.raw < 2 ^ 32
    → IsBlob blob
    → HasName blob.raw offsets name ⊎ Any (λ n. n ≡ name) names
    → HasName (place_names names blob offsets).0.raw (place_names names blob offsets).1 name
unfolding place_names
place_names-HasName [] blob offsets name small h (inl already) = already
place_names-HasName [] blob offsets name small h (inr missing) = elim missing [ ]
place_names-HasName (first ∷ names) blob offsets name small h now =
    let (offset, after) = place blob first in
    let longer = length-place blob first in
    let longest = length-place_names names after (insert_offset offsets first offset) in
    let (here, h', grows) = place-Placed blob first (omega arith) h in
    let next : HasName after.raw (insert_offset offsets first offset) name
        ⊎ Any (λ n. n ≡ name) names =
      elim (Bool-cases (same_bytes first name)) [
        | inl same ↦ inl (
            subst (HasName after.raw (insert_offset offsets first offset))
              (same_bytes→≡ first name same)
              (offset, find_offset-insert_self offsets first offset, here))
        | inr other ↦ elim now [
          | inl (old, e, there) ↦ inl (
            old,
            find_offset-insert_ne offsets first name offset other ∙ e,
            Placed-Grows blob after name old grows there,
          )
          | inr (inl same) ↦ absurd (cc (other, ≡→same_bytes same))
          | inr (inr later) ↦ inr later
        ]
      ] in
    place_names-HasName names after (insert_offset offsets first offset) name small h' next

-- A null-free UTF-8 name that was inserted, among any others and in any order, has an offset in the map
-- that `finish` returns, and is what `get` reads in the blob there. The condition is that the blob is below
-- 4 GiB.
pub finish-get :
    (is_utf8 : Bytes → Bool) (names : List Bytes) (name : Bytes)
    → Any (λ n. n ≡ name) names
    → NoNull name
    → is_utf8 name ≡ true
    → length (finish (inserted names [])).0 < 2 ^ 32
    → (offset : ℕ) × (find_offset (finish (inserted names [])).1 name ≡ some offset)
      × (get is_utf8 (record { raw = (finish (inserted names [])).0 }) offset ≡ ok name)
unfolding finish
finish-get is_utf8 names name member clean utf8 small =
    let offsets = inserted names [] in
    let sorted = sort_by reverse_suffix_order (map (λ e. e.0) offsets) in
    let blob = (place_names sorted empty_blob offsets).0 in
    let padded = pad-IsPadded blob.raw in
    let size : length (pad blob.raw) ≡ length (blob.raw ++ padded.more) = ap length padded.raw_is in
    let (old, found) = inserted-find_offset names [] name (inl member) in
    let (offset, e, there) =
      place_names-HasName sorted empty_blob offsets name
        (omega (arith, size, length-append blob.raw padded.more)) empty_blob-IsBlob
        (inr (
          sort_by-Any reverse_suffix_order (λ n. n ≡ name) _
            (find_offset-Any offsets name old found))) in
    let (rest, here) =
      subst (λ raw. Placed raw name offset) (sym padded.raw_is)
        (Placed-append blob.raw padded.more name offset there) in
    (offset, e, (get_iff is_utf8 _ offset name).1 ((rest, here, clean), utf8))
