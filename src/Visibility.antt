-- ===== src/Visibility.antt =====
-- src/symbol_visibility.rs: which symbols stay visible, by lists of patterns. Reading the lists from files is
-- left out.
pub mod Ends
pub mod Hides
pub mod Loop
pub mod Places
pub mod Search
pub mod Spec
pub mod Tests
use afs_ld.Prelude.{
  ℕ, zero, suc, ◌+◌, ◌*◌, Bool, true, false, not, ◌&&◌, ◌||◌, List, [], ◌∷◌, Option, none, some,
  length, get_elem?, ◌==◌, if◌then◌else◌,
}
use afs_ld.Prelude.Bytes.{Bytes}

pub record SymbolVisibilityPolicy : Type 0 where
  pub exported : List Bytes
  pub unexported : List Bytes

abbrev pub star : ℕ
star = 42

-- `pattern[p] == b'?' || pattern[p] == value[v]`
abbrev pub accepts : ℕ → ℕ → Bool
accepts x c = (x == 63) || (x == c)

-- The saved star and `backtrack`.
abbrev pub Saved : Type 0
Saved = Option (ℕ × ℕ)

abbrev pub first_or : Option Bool → Option Bool → Option Bool
first_or none later = none
first_or (some true) later = some true
first_or (some false) later = later

abbrev pub is_empty : List Bytes → Bool
is_empty [] = true
is_empty (_ ∷ _) = false

-- A call of the loop at `p` and `v`, with what is saved.
abbrev pub Next : Type 0
Next = ℕ → ℕ → Saved → Option Bool

abbrev pub resume : Saved → Next → Option Bool
resume none next = some false
resume (some (star_idx, backtrack)) next =
    next (star_idx + 1) (backtrack + 1) (some (star_idx, backtrack + 1))

-- One round, on `pattern[p]` where p is in bounds and on `value[v]`.
abbrev pub round : Option ℕ → ℕ → ℕ → ℕ → Saved → Next → Option Bool
round none c p v saved next = resume saved next
round (some x) c p v saved next =
    let onward = next (p + 1) (v + 1) saved in
    let starred = next (p + 1) v (some (p, v)) in
    let back = resume saved next in
    if accepts x c then onward else if x == star then starred else back

-- One round of the second loop: `ends` is `p == pattern.len()`.
abbrev pub skip_star : Option ℕ → (ends more : Bool) → Bool
skip_star none ends more = ends
skip_star (some x) ends more = if x == star then more else ends

-- The second loop and the final test, on as much fuel as the pattern is long.
unfoldable pub only_stars : ℕ → Bytes → ℕ → Bool
only_stars zero pattern p = p == length pattern
only_stars (suc fuel) pattern p =
    let more = only_stars fuel pattern (p + 1) in
    skip_star (get_elem? pattern p) (p == length pattern) more

abbrev pub at_value : Option ℕ → (ends : Option Bool) → (ℕ → Option Bool) → Option Bool
at_value none ends go_on = ends
at_value (some c) ends go_on = go_on c

-- The first loop; none where the fuel ends.
unfoldable pub scan : ℕ → Bytes → Bytes → Next
unfolding only_stars
scan zero pattern value p v saved = none
scan (suc fuel) pattern value p v saved =
    let next = scan fuel pattern value in
    at_value (get_elem? value v) (some (only_stars (length pattern) pattern p))
      (λ c. round (get_elem? pattern p) c p v saved next)

unfoldable pub wildcard_matches : Bytes → Bytes → Option Bool
unfolding scan
wildcard_matches pattern value =
    scan ((length value + 1) * (length pattern + 1)) pattern value 0 0 none

-- `patterns.iter().any(|pattern| wildcard_matches(pattern, name))`
unfoldable pub any_matches : List Bytes → Bytes → Option Bool
unfolding wildcard_matches
any_matches [] name = some false
any_matches (pattern ∷ patterns) name =
    first_or (wildcard_matches pattern name) (any_matches patterns name)

abbrev pub hidden : (has_exported : Bool) → (exported unexported : Option Bool) → Option Bool
hidden true (some false) unexported = some true
hidden true none unexported = none
hidden _ _ unexported = unexported

unfoldable pub hides : SymbolVisibilityPolicy → Bytes → Option Bool
unfolding any_matches
hides policy name =
    hidden (not (is_empty policy.exported)) (any_matches policy.exported name)
      (any_matches policy.unexported name)
