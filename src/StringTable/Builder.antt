-- ===== src/StringTable/Builder.antt =====
-- src/string_table.rs: the builder of a string table, which stores a name inside an earlier name that ends
-- in it.
pub mod Placed
pub mod Offsets
pub mod Finish
use mathlib.Core.Option
use mathlib.Core.List.{reverse}
use Prim.Native.Nat.{Ordering, compare}
use afs_ld.Prelude.{
  ℕ, zero, suc, ◌+◌, ◌-◌, ◌^◌, ◌%◌, Bool, true, false, ◌&&◌, List, [], ◌∷◌, ◌++◌, map, Option, none,
  some, length, get_elem?, set, drop, replicate, leb, ◌==◌, if◌then◌else◌,
}
use afs_ld.Prelude.Sort.{compare_bytes, is_lt, then_with, sort_by, partition_point, enumerate}
use afs_ld.Prelude.Bytes.{Bytes, same_bytes}

pub record RootString : Type 0 where
  pub name : Bytes
  pub offset : ℕ

-- The loop of `reverse_suffix_order`, over the two reversed iterators; `last` is `lhs.cmp(rhs)`.
unfoldable pub compare_reversed : Ordering → Bytes → Bytes → Ordering
compare_reversed last [] [] = last
compare_reversed last [] (b ∷ bs) = Ordering.gt
compare_reversed last (a ∷ more) [] = Ordering.lt
compare_reversed last (a ∷ more) (b ∷ bs) =
    let rest = compare_reversed last more bs in then_with (compare a b) rest

unfoldable pub reverse_suffix_order : Bytes → Bytes → Ordering
unfolding compare_bytes compare_reversed
reverse_suffix_order lhs rhs = compare_reversed (compare_bytes lhs rhs) (reverse lhs) (reverse rhs)

unfoldable pub ends_with : Bytes → Bytes → Bool
unfolding same_bytes
ends_with whole tail = same_bytes (drop (length whole - length tail) whole) tail

-- `roots.get(insert_at.checked_sub(1)?)?`
abbrev pub root_before : List RootString → ℕ → Option RootString
root_before roots zero = none
root_before roots (suc before) = get_elem? roots before

unfoldable pub last_below : List RootString → Bytes → Option RootString
unfolding partition_point reverse_suffix_order
last_below roots name =
    root_before roots (partition_point (λ root. is_lt (reverse_suffix_order root.name name)) roots)

-- The offset of the tail in the root, as u32.
unfoldable pub shared_tail : RootString → Bytes → Option ℕ
unfolding ends_with
shared_tail existing name =
    if leb (length name) (length existing.name) && ends_with existing.name name
    then some ((existing.offset + (length existing.name - length name) % 2 ^ 32) % 2 ^ 32)
    else none

unfoldable pub tail_in : Option RootString → Bytes → Option ℕ
unfolding shared_tail
tail_in none name = none
tail_in (some existing) name = shared_tail existing name

unfoldable pub find_borrowed_suffix_offset : List RootString → Bytes → Option ℕ
unfolding last_below tail_in
find_borrowed_suffix_offset roots [] = some 0
find_borrowed_suffix_offset roots (b ∷ bs) = tail_in (last_below roots (b ∷ bs)) (b ∷ bs)

-- The blob so far, and the names in it that have bytes of their own.
pub record Blob : Type 0 where
  pub raw : Bytes
  pub roots : List RootString

abbrev pub empty_blob : Blob
empty_blob = record { raw = 0 ∷ []; roots = [] }

-- A name that no root ends in goes to the end, with its null.
unfoldable pub append_name : Blob → Bytes → ℕ × Blob
append_name blob name =
    let offset = length blob.raw % 2 ^ 32 in
    (
      offset,
      record {
        raw = (blob.raw ++ name) ++ 0 ∷ [];
        roots = blob.roots ++ record { name = name; offset = offset } ∷ [];
      },
    )

-- The offset of a name, and the blob after it.
abbrev pub place_at : Blob → Bytes → Option ℕ → ℕ × Blob
place_at blob name (some offset) = (offset, blob)
place_at blob name none = append_name blob name

unfoldable pub place : Blob → Bytes → ℕ × Blob
unfolding find_borrowed_suffix_offset append_name
place blob name = place_at blob name (find_borrowed_suffix_offset blob.roots name)

-- `while !raw.len().is_multiple_of(8) { raw.push(0) }`, on fuel: seven zeros are enough.
unfoldable pub pad_loop : ℕ → Bytes → Bytes
pad_loop zero raw = raw
pad_loop (suc fuel) raw =
    let longer = pad_loop fuel (raw ++ 0 ∷ []) in if length raw % 8 == 0 then raw else longer

unfoldable pub pad : Bytes → Bytes
unfolding pad_loop
pad raw = pad_loop 7 raw

-- Entries are names with their places among the inputs.
abbrev pub Entry : Type 0
Entry = Bytes × ℕ

unfoldable pub entry_order : Entry → Entry → Ordering
unfolding reverse_suffix_order
entry_order lhs rhs = then_with (reverse_suffix_order lhs.0 rhs.0) (compare lhs.1 rhs.1)

unfoldable pub place_entries : List Entry → Blob → List ℕ → Blob × List ℕ
unfolding place
place_entries [] blob offsets = (blob, offsets)
place_entries ((name, index) ∷ entries) blob offsets =
    let placed = place blob name in place_entries entries placed.1 (set offsets index placed.0)

unfoldable pub build_with_name_offsets : List Bytes → Bytes × List ℕ
unfolding sort_by entry_order place_entries pad
build_with_name_offsets names =
    let entries = enumerate 0 names in
    let done =
      place_entries (sort_by entry_order entries) empty_blob (replicate (length entries) 0) in
    (pad done.0.raw, done.1)

-- The map of `StringTableBuilder`, in the order of insertion.
abbrev pub OffsetMap : Type 0
OffsetMap = List (Bytes × ℕ)

unfoldable pub find_offset : OffsetMap → Bytes → Option ℕ
unfolding same_bytes
find_offset [] name = none
find_offset ((key, offset) ∷ rest) name =
    if same_bytes key name then some offset else find_offset rest name

-- `HashMap::insert`
unfoldable pub insert_offset : OffsetMap → Bytes → ℕ → OffsetMap
unfolding same_bytes
insert_offset [] name offset = (name, offset) ∷ []
insert_offset ((key, old) ∷ rest) name offset =
    if same_bytes key name
    then (key, offset) ∷ rest
    else (key, old) ∷ insert_offset rest name offset

abbrev pub or_insert : OffsetMap → Bytes → Option ℕ → OffsetMap
or_insert offsets name (some _) = offsets
or_insert offsets name none = insert_offset offsets name 0

-- `insert`: `entry(name).or_insert(0)`.
unfoldable pub insert : OffsetMap → Bytes → OffsetMap
unfolding find_offset insert_offset
insert offsets name = or_insert offsets name (find_offset offsets name)

unfoldable pub place_names : List Bytes → Blob → OffsetMap → Blob × OffsetMap
unfolding place insert_offset
place_names [] blob offsets = (blob, offsets)
place_names (name ∷ names) blob offsets =
    let placed = place blob name in place_names names placed.1 (insert_offset offsets name placed.0)

-- `finish`, where no root was stored before.
unfoldable pub finish : OffsetMap → Bytes × OffsetMap
unfolding sort_by reverse_suffix_order place_names pad
finish offsets =
    let names = sort_by reverse_suffix_order (map (λ e. e.0) offsets) in
    let done = place_names names empty_blob offsets in (pad done.0.raw, done.1)
