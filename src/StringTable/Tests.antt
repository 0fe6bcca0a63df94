-- ===== src/StringTable/Tests.antt =====
-- Runs of the string table: a name and its tail, and three names that share bytes.
use afs_ld.Prelude.{ℕ, ◌≡◌, ◌↔◌, refl, true, List, [], ◌∷◌, some, inl, ok, arith, get_elem?}
use afs_ld.Prelude.Bytes.{Bytes, codes, is_ascii}
use afs_ld.StringTable.{StringTable, get}
use afs_ld.StringTable.Names.{NameAt, get_iff}
use afs_ld.StringTable.Builder.{build_with_name_offsets, find_offset, insert, finish}
use afs_ld.StringTable.Builder.Offsets.{build_with_name_offsets-get}
use afs_ld.StringTable.Builder.Finish.{inserted, finish-get}

-- "\0_main\0"
abbrev table : StringTable
table = record { raw = 0 ∷ 95 ∷ 109 ∷ 97 ∷ 105 ∷ 110 ∷ 0 ∷ [] }

main_there : get is_ascii table 1 ≡ ok (codes "_main")
unfolding get
main_there = refl

get_iff_example :
    (get is_ascii table 1 ≡ ok (codes "_main"))
    ↔ NameAt table 1 (codes "_main") × (is_ascii (codes "_main") ≡ true)
get_iff_example = get_iff is_ascii table 1 (codes "_main")

abbrev three_names : List Bytes
three_names = codes "bar" ∷ codes "_foobar" ∷ codes "_x" ∷ []

-- "_foobar" comes first, and "bar" is its tail.
names_share :
    build_with_name_offsets three_names ≡ (codes "\0_foobar\0_x\0\0\0\0\0", 5 ∷ 1 ∷ 9 ∷ [])
unfolding build_with_name_offsets
names_share = refl

build_with_name_offsets-get_example :
    (offset : ℕ) × (get_elem? (build_with_name_offsets three_names).1 0 ≡ some offset)
    × (get is_ascii (record { raw = (build_with_name_offsets three_names).0 }) offset
        ≡ ok (codes "bar"))
unfolding build_with_name_offsets
build_with_name_offsets-get_example =
    build_with_name_offsets-get is_ascii three_names 0 (codes "bar") refl
      (λ e. cc e, (λ e. cc e, (λ e. cc e, tt))) refl (omega arith)

finish-get_example :
    (offset : ℕ) × (find_offset (finish (inserted three_names [])).1 (codes "bar") ≡ some offset)
    × (get is_ascii (record { raw = (finish (inserted three_names [])).0 }) offset
        ≡ ok (codes "bar"))
unfolding finish insert
finish-get_example =
    finish-get is_ascii three_names (codes "bar") (inl refl)
      (λ e. cc e, (λ e. cc e, (λ e. cc e, tt))) refl (omega arith)
