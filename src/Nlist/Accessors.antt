-- ===== src/Nlist/Accessors.antt =====
-- What the fields of a symbol record mean, by its type: a size with an alignment, an ordinal, an alias's target,
-- or an address.
use afs_ld.Prelude.{ℕ, ◌+◌, ◌*◌, ◌/◌, ◌%◌, ◌^◌, ◌<◌, ◌≡◌, ◌≢◌, none, some, ◌⊎◌}
use afs_ld.Nlist.{
  InputSymbol, SymKind, undef, absolute, sect, indirect, kind, common_size, common_align_pow2,
  library_ordinal, indirect_target_strx,
}

-- The three bits N_TYPE of `n_type`, and its bit N_EXT.
abbrev pub type_bits : InputSymbol → ℕ
type_bits s = s.raw.n_type / 2 % 8

abbrev pub IsExternal : InputSymbol → Type 0
IsExternal s = s.raw.n_type % 2 ≡ 1

-- No definition and no alias: the type N_UNDF, or one that is not known.
abbrev pub IsUndefined : InputSymbol → Type 0
IsUndefined s = (type_bits s ≢ 1) × (type_bits s ≢ 7) × (type_bits s ≢ 5)

-- The `width` bits of a number from bit `at` on are `v`: they stand between the bits above and the bits below.
pub record BitsAre (number at width v : ℕ) : Type 0 where
  pub above : ℕ
  pub below : ℕ
  pub fits : v < 2 ^ width
  pub below_fits : below < 2 ^ at
  pub sum : number ≡ above * 2 ^ (at + width) + v * 2 ^ at + below

-- The readings of a record, each by what is in its fields.
pub data Reading (s : InputSymbol) : Type 0 where
  as_common :
      IsUndefined s
      → IsExternal s
      → 0 < s.raw.n_value
      → (align : ℕ) → BitsAre s.raw.n_desc 8 4 align
      → kind s ≡ undef
      → common_size s ≡ some s.raw.n_value
      → common_align_pow2 s ≡ some align
      → library_ordinal s ≡ none
      → indirect_target_strx s ≡ none
      → Reading s
  as_import :
      IsUndefined s
      → ¬ IsExternal s ⊎ (s.raw.n_value ≡ 0)
      → (ordinal : ℕ) → BitsAre s.raw.n_desc 8 8 ordinal
      → kind s ≡ undef
      → common_size s ≡ none
      → common_align_pow2 s ≡ none
      → library_ordinal s ≡ some ordinal
      → indirect_target_strx s ≡ none
      → Reading s
  as_alias :
      type_bits s ≡ 5
      → (strx : ℕ) → BitsAre s.raw.n_value 0 32 strx
      → kind s ≡ indirect
      → common_size s ≡ none
      → common_align_pow2 s ≡ none
      → library_ordinal s ≡ none
      → indirect_target_strx s ≡ some strx
      → Reading s
  as_definition :
      ((type_bits s ≡ 1) × (kind s ≡ absolute)) ⊎ ((type_bits s ≡ 7) × (kind s ≡ sect))
      → common_size s ≡ none
      → common_align_pow2 s ≡ none
      → library_ordinal s ≡ none
      → indirect_target_strx s ≡ none
      → Reading s

abbrev KindOf : ℕ → SymKind → Type 0
KindOf b k =
    ((k ≡ undef) × ((b ≢ 1) × (b ≢ 7) × (b ≢ 5)))
    ⊎ ((k ≡ indirect) × (b ≡ 5))
    ⊎ (((b ≡ 1) × (k ≡ absolute)) ⊎ ((b ≡ 7) × (k ≡ sect)))
