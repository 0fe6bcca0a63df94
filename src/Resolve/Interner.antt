-- ===== src/Resolve/Interner.antt =====
-- `StringInterner`: handles for strings.
use Prim.Native.String.{String}
use text.Mathlib.Text.{◌==◌}
use afs_ld.Prelude.{
  ℕ, ◌%◌, ◌^◌, List, [], ◌∷◌, ◌++◌, Option, none, some, length, get_elem?, if◌then◌else◌,
}

pub record Interner : Type 0 where
  pub strings : List String
  pub index : List (String × ℕ)

abbrev pub find_string : String → List (String × ℕ) → Option ℕ
find_string s [] = none
find_string s ((k, i) ∷ rest) = if k == s then some i else find_string s rest

-- `len() as u32` wraps at 2 ^ 32.
unfoldable pub intern : Interner → String → Interner × ℕ
intern n s = elim (find_string s n.index) [
  | some i ↦ (n, i)
  | none ↦
      let id = length n.strings % 2 ^ 32 in
      (record { strings = n.strings ++ s ∷ []; index = (s, id) ∷ n.index }, id)
]

abbrev pub get : Interner → String → Option ℕ
get n s = find_string s n.index

-- `&self.strings[i]`; `none` is a panic.
abbrev pub resolve : Interner → ℕ → Option String
resolve n i = get_elem? n.strings i
