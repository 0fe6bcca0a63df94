-- ===== src/Visibility/Hides.antt =====
-- src/symbol_visibility.rs: which names a policy hides.
use afs_ld.Prelude.{◌≡◌, ◌≢◌, ◌↔◌, refl, Bool, true, false, List, [], ◌∷◌, Option, some, inl, inr}
use afs_ld.Prelude.Bytes.{Bytes}
use afs_ld.Prelude.{not, Any, ◌⊎◌}
use afs_ld.Visibility.{SymbolVisibilityPolicy, first_or, is_empty, any_matches, hidden, hides}
use afs_ld.Visibility.Search.{matched}
use afs_ld.Visibility.Spec.{Fits, NoStar}

-- Some pattern of the list fits the name.
abbrev pub OneFits : List Bytes → Bytes → Type 0
OneFits patterns name = Any (λ pattern. Fits pattern name) patterns

-- A policy with a list of exported patterns hides what none of them fits, and every policy hides what one of
-- its unexported patterns fits.
abbrev pub IsHidden : SymbolVisibilityPolicy → Bytes → Type 0
IsHidden policy name =
    ((policy.exported ≢ []) × ¬ OneFits policy.exported name) ⊎ OneFits policy.unexported name

abbrev Answers : Option Bool → Type 0 → Type 0
Answers outcome Holds = (b : Bool) × (outcome ≡ some b) × ((b ≡ true) ↔ Holds)

first_or-Answers :
    {P Q : Type 0} (b later : Bool)
    → (b ≡ true) ↔ P
    → (later ≡ true) ↔ Q
    → Answers (first_or (some b) (some later)) (P ⊎ Q)
first_or-Answers true later p q = (true, refl, (λ h. inl (p.0 refl), λ h. refl))
first_or-Answers false later p q = (
  later,
  refl,
  (λ h. inr (q.0 h), λ h. elim h [ inl f ↦ (let yes = p.1 f in cc yes) | inr g ↦ q.1 g ]),
)

any_matches-Answers :
    (patterns : List Bytes) (name : Bytes)
    → NoStar name
    → Answers (any_matches patterns name) (OneFits patterns name)
unfolding any_matches
any_matches-Answers [] name plain = (false, refl, (λ h. cc h, λ h. absurd h))
any_matches-Answers (pattern ∷ patterns) name plain =
    let (b, first, fits) = matched pattern name plain in
    let (later, others, rest) = any_matches-Answers patterns name plain in
    rw (first, others) (first_or-Answers b later fits rest)

hidden-Answers :
    {P Q : Type 0} (exported : List Bytes) (e u : Bool)
    → (e ≡ true) ↔ P
    → (u ≡ true) ↔ Q
    → Answers (hidden (not (is_empty exported)) (some e) (some u)) (((exported ≢ []) × ¬ P) ⊎ Q)
hidden-Answers [] e u p q =
    (u, refl, (λ h. inr (q.0 h), λ h. elim h [ inl f ↦ absurd (f.0 refl) | inr g ↦ q.1 g ]))
hidden-Answers (x ∷ xs) true u p q =
    (u, refl, (λ h. inr (q.0 h), λ h. elim h [ inl f ↦ absurd (f.1 (p.0 refl)) | inr g ↦ q.1 g ]))
hidden-Answers (x ∷ xs) false u p q =
    (true, refl, (λ h. inl (λ e. cc e, λ f. let yes = p.1 f in cc yes), λ h. refl))

-- For a name without a `*`, `hides` returns, and what it returns is true just where the policy is to hide the
-- name: where patterns to export are listed and none of them fits it, or where one of the patterns not to
-- export fits it.
pub hides_iff :
    (policy : SymbolVisibilityPolicy) (name : Bytes)
    → NoStar name
    → (b : Bool) × (hides policy name ≡ some b) × ((b ≡ true) ↔ IsHidden policy name)
unfolding hides
hides_iff policy name plain =
    let (e, exported, p) = any_matches-Answers policy.exported name plain in
    let (u, unexported, q) = any_matches-Answers policy.unexported name plain in
    rw (exported, unexported) (hidden-Answers policy.exported e u p q)
