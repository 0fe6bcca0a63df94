-- ===== src/Synth.antt =====
-- src/synth/got.rs, src/synth/stubs.rs and src/synth/tlv.rs: the slots of the synthesized sections. The
-- four sections keep their entries in the same way, in a vector and a map from a symbol to its place,
-- so they are one type here, over their entries.
pub mod Slots
mod Tests
use afs_ld.Prelude.{ℕ, Bool, List, [], ◌∷◌, ◌++◌, Option, none, some, length, get_elem?}
use afs_ld.Resolve.Table.{find_id}

-- `entries` and `index` of a section.
pub record Section (E : Type 0) : Type 0 where
  pub entries : List E
  pub index : List (ℕ × ℕ)

abbrev pub empty : {E : Type 0} → Section E
empty = record { entries = []; index = [] }

unfoldable pub intern : {E : Type 0} → Section E → ℕ → E → Section E × ℕ
intern s symbol e = elim (find_id symbol s.index) [
  | some idx ↦ (s, idx)
  | none ↦
      let idx = length s.entries in
      (record { entries = s.entries ++ e ∷ []; index = (symbol, idx) ∷ s.index }, idx)
]

-- `Some((idx, &self.entries[idx]))`, where `none` in the place of the entry is a panic.
unfoldable pub get : {E : Type 0} → Section E → ℕ → Option (ℕ × Option E)
get s symbol = elim (find_id symbol s.index) [
  | some idx ↦ some (idx, get_elem? s.entries idx)
  | none ↦ none
]

pub record GotEntry : Type 0 where
  pub symbol : ℕ
  pub weak_import : Bool

unfoldable pub got_intern : Section GotEntry → ℕ → Bool → Section GotEntry × ℕ
unfolding intern
got_intern s symbol weak_import =
    intern s symbol (record { symbol = symbol; weak_import = weak_import })

-- `StubEntry` and `LazyPointerEntry` have the same fields.
pub record StubEntry : Type 0 where
  pub symbol : ℕ
  pub dylib : ℕ
  pub weak_import : Bool

unfoldable pub stub_intern : Section StubEntry → ℕ → ℕ → Bool → Section StubEntry × ℕ
unfolding intern
stub_intern s symbol dylib weak_import =
    intern s symbol (record { symbol = symbol; dylib = dylib; weak_import = weak_import })

pub record ThreadPointerEntry : Type 0 where
  pub symbol : ℕ

unfoldable pub tlv_intern : Section ThreadPointerEntry → ℕ → Section ThreadPointerEntry × ℕ
unfolding intern
tlv_intern s symbol = intern s symbol (record { symbol = symbol })
