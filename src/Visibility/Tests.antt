-- ===== src/Visibility/Tests.antt =====
-- src/symbol_visibility.rs: runs at given patterns and names.
use afs_ld.Prelude.{◌≡◌, ◌↔◌, refl, Bool, true, false, [], ◌∷◌, some}
use afs_ld.Prelude.Bytes.{Bytes, codes}
use afs_ld.Visibility.{SymbolVisibilityPolicy, wildcard_matches, hides}
use afs_ld.Visibility.Search.{wildcard_matches-returns, wildcard_matches_iff}
use afs_ld.Visibility.Hides.{IsHidden, hides_iff}
use afs_ld.Visibility.Spec.{Fits, NoStar}

abbrev name : Bytes
name = codes "_main"

abbrev pattern : Bytes
pattern = codes "_*i?"

name-NoStar : NoStar name
name-NoStar = ((λ e. cc e), ((λ e. cc e), ((λ e. cc e), ((λ e. cc e), ((λ e. cc e), tt)))))

abbrev policy : SymbolVisibilityPolicy
policy = record { exported = pattern ∷ []; unexported = codes "*" ∷ [] }

-- A star goes on from a later place.
star_runs : wildcard_matches pattern name ≡ some true
unfolding wildcard_matches
star_runs = refl

-- A `*` in the value is taken for the pattern's, and the pattern's is then no star.
star_in_value : wildcard_matches (codes "*") (codes "*x") ≡ some false
unfolding wildcard_matches
star_in_value = refl

hidden_name : hides policy name ≡ some true
unfolding hides
hidden_name = refl

wildcard_matches-returns_example : (b : Bool) × (wildcard_matches pattern name ≡ some b)
wildcard_matches-returns_example = wildcard_matches-returns pattern name

wildcard_matches_iff_example : (wildcard_matches pattern name ≡ some true) ↔ Fits pattern name
wildcard_matches_iff_example = wildcard_matches_iff pattern name name-NoStar

hides_iff_example : (b : Bool) × (hides policy name ≡ some b) × ((b ≡ true) ↔ IsHidden policy name)
hides_iff_example = hides_iff policy name name-NoStar
