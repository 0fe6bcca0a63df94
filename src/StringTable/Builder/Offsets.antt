-- ===== src/StringTable/Builder/Offsets.antt =====
-- src/string_table.rs, `build_with_name_offsets`: every name reads back from its offset.
use afs_ld.Prelude.{
  ℕ, zero, suc, ◌+◌, ◌-◌, ◌^◌, ◌%◌, ◌≤◌, ◌<◌, ◌≡◌, sym, ap, ◌∙◌, subst, Bool, true, List, [], ◌∷◌,
  ◌++◌, some, ok, some-injective, inl, inr, ◌⊎◌, length, length-append, length-replicate,
  append_assoc, append-nil, length-set, get_elem?, get_elem?-set_self, get_elem?-set_ne, replicate,
  set, All, Any, All-imp, Any-imp, Bool-cases, ◌==◌, ==_iff, arith, ℕ_discrete,
}
use afs_ld.Prelude.Bytes.{Bytes}
use afs_ld.Resolve.Lookup.{get_elem?-lt}
use afs_ld.StringTable.{get}
use afs_ld.StringTable.Names.{NoNull, get_iff}
use afs_ld.StringTable.Builder.{
  Blob, empty_blob, Entry, entry_order, place, place_entries, pad, pad_loop,
  build_with_name_offsets,
}
use afs_ld.StringTable.Builder.Placed.{
  Placed, IsBlob, empty_blob-IsBlob, Placed-append, Placed-Grows, place-Placed, length-place,
}
use afs_ld.Prelude.Sort.{
  sort_by, enumerate, sort_by-All, sort_by-Any, enumerate-All, enumerate-Any, length-enumerate,
}

length-place_entries :
    (entries : List Entry) (blob : Blob) (offsets : List ℕ)
    → length blob.raw ≤ length (place_entries entries blob offsets).0.raw
unfolding place_entries
length-place_entries [] blob offsets = omega arith
length-place_entries ((name, index) ∷ entries) blob offsets = omega (
  arith,
  length-place blob name,
  length-place_entries entries (place blob name).1 (set offsets index (place blob name).0),
)

-- The offset that is kept for a number is where the name stands.
abbrev HasOffset : Bytes → List ℕ → ℕ → Bytes → Type 0
HasOffset raw offsets i name =
    (offset : ℕ) × (get_elem? offsets i ≡ some offset) × Placed raw name offset

place_entries-HasOffset :
    (entries : List Entry) (blob : Blob) (offsets : List ℕ) (i : ℕ) (name : Bytes)
    → length (place_entries entries blob offsets).0.raw < 2 ^ 32
    → IsBlob blob
    → i < length offsets
    → All (λ e. e.1 ≡ i → e.0 ≡ name) entries
    → HasOffset blob.raw offsets i name ⊎ Any (λ e. e.1 ≡ i) entries
    → HasOffset
        (place_entries entries blob offsets).0.raw
        (place_entries entries blob offsets).1
        i
        name
unfolding place_entries
place_entries-HasOffset [] blob offsets i name small h bound only (inl already) = already
place_entries-HasOffset [] blob offsets i name small h bound only (inr missing) = elim missing [ ]
place_entries-HasOffset ((first, index) ∷ entries) blob offsets i name small h bound only now =
    let (offset, after) = place blob first in
    let longer = length-place blob first in
    let longest = length-place_entries entries after (set offsets index offset) in
    let (here, h', grows) = place-Placed blob first (omega arith) h in
    let next : HasOffset after.raw (set offsets index offset) i name ⊎ Any (λ e. e.1 ≡ i) entries =
      elim (ℕ_discrete index i) [
        | yes same ↦ inl (
          offset,
          subst (λ k. get_elem? (set offsets k offset) i ≡ some offset) (sym same)
              (get_elem?-set_self offsets i offset bound),
          subst (λ n. Placed after.raw n offset) (only.0 same) here,
        )
        | no other ↦ elim now [
          | inl (old, e, there) ↦ inl (
            old,
            get_elem?-set_ne offsets offset other ∙ e,
            Placed-Grows blob after name old grows there,
          )
          | inr (inl same) ↦ absurd (other same)
          | inr (inr later) ↦ inr later
        ]
      ] in
    place_entries-HasOffset entries after (set offsets index offset) i name small h'
      (omega (arith, length-set offsets index offset)) only.1 next

-- Padding adds at most seven zeros, up to a multiple of 8.
pub record IsPadded (raw padded : Bytes) : Type 0 where
  pub more : Bytes
  pub raw_is : padded ≡ raw ++ more
  pub aligned : length padded % 8 ≡ 0

pad_loop-IsPadded :
    (fuel : ℕ) (raw : Bytes)
    → (k : ℕ) × ((length raw + k) % 8 ≡ 0) × (k ≤ fuel)
    → IsPadded raw (pad_loop fuel raw)
unfolding pad_loop
pad_loop-IsPadded zero raw (k, e, le) = record {
  more = [];
  raw_is = sym (append-nil raw);
  aligned = omega arith;
}
pad_loop-IsPadded (suc fuel) raw (k, e, le) = elim (Bool-cases (length raw % 8 == 0)) [
  | inl done ↦ rw done (record {
    more = [];
    raw_is = sym (append-nil raw);
    aligned = (==_iff (length raw % 8) 0).0 done;
  })
  | inr more ↦
      let unaligned : ¬ (length raw % 8 ≡ 0) = λ z. ground arith in
      let rest =
        pad_loop-IsPadded fuel (raw ++ 0 ∷ [])
          (k - 1, omega (arith, length-append raw (0 ∷ []), unaligned), omega (arith, unaligned)) in
      rw more (record {
        more = 0 ∷ rest.more;
        raw_is = rest.raw_is ∙ append_assoc raw (0 ∷ []) rest.more;
        aligned = rest.aligned;
      })
]

pub pad-IsPadded : (raw : Bytes) → IsPadded raw (pad raw)
unfolding pad
pad-IsPadded raw = pad_loop-IsPadded 7 raw ((8 - length raw % 8) % 8, omega arith, omega arith)

-- Whatever sharing of tails the builder finds, a null-free UTF-8 name at any place among the inputs is
-- what `get` reads in the blob at the offset that is returned for that place. The condition is that the
-- blob is below 4 GiB, so that its offsets are u32.
pub build_with_name_offsets-get :
    (is_utf8 : Bytes → Bool) (names : List Bytes) (i : ℕ) (name : Bytes)
    → get_elem? names i ≡ some name
    → NoNull name
    → is_utf8 name ≡ true
    → length (build_with_name_offsets names).0 < 2 ^ 32
    → (offset : ℕ) × (get_elem? (build_with_name_offsets names).1 i ≡ some offset)
      × (get is_utf8 (record { raw = (build_with_name_offsets names).0 }) offset ≡ ok name)
unfolding build_with_name_offsets
build_with_name_offsets-get is_utf8 names i name at clean utf8 small =
    let entries = enumerate 0 names in
    let sorted = sort_by entry_order entries in
    let offsets : List ℕ = replicate (length entries) 0 in
    let wide : length offsets ≡ length entries = length-replicate _ _ in
    let blob = (place_entries sorted empty_blob offsets).0 in
    let padded = pad-IsPadded blob.raw in
    let size : length (pad blob.raw) ≡ length (blob.raw ++ padded.more) = ap length padded.raw_is in
    let bound : i < length names = get_elem?-lt names i at in
    let only =
      sort_by-All entry_order (λ e. e.1 ≡ i → e.0 ≡ name) entries
        (All-imp entries
          (λ e h same. some-injective (sym h.1 ∙ ap (get_elem? names) (omega (arith, same)) ∙ at))
          (enumerate-All 0 names)) in
    let has =
      sort_by-Any entry_order (λ e. e.1 ≡ i) entries
        (Any-imp entries (λ e h. omega (arith, h)) (enumerate-Any 0 i names bound)) in
    let (offset, e, there) =
      place_entries-HasOffset sorted empty_blob offsets i name
        (omega (arith, size, length-append blob.raw padded.more)) empty_blob-IsBlob
        (omega (arith, wide, length-enumerate 0 names)) only (inr has) in
    let (rest, here) =
      subst (λ raw. Placed raw name offset) (sym padded.raw_is)
        (Placed-append blob.raw padded.more name offset there) in
    (offset, e, (get_iff is_utf8 _ offset name).1 ((rest, here, clean), utf8))
