-- ===== src/Resolve/Names.antt =====
-- The interner: a string's handle leads back to the string, and stays what it is.
use native.Mathlib.Nat.{mod-eq_of_lt}
use Prim.Native.String.{String}
use text.Mathlib.Text.{◌==◌}
use text.Mathlib.TextEquality.{eq_iff}
use afs_ld.Prelude.{
  ℕ, ◌^◌, ◌<◌, ◌≡◌, refl, sym, ap, ◌∙◌, subst, [], ◌∷◌, ◌++◌, none, some, length, inl, inr,
  Bool-cases, Option-cases,
}
use afs_ld.Resolve.Interner.{Interner, find_string, intern, get, resolve}
use afs_ld.Resolve.Lookup.{
  get_elem?-lt, get_elem?-append_left, get_elem?-concat, get_elem?-concat_last,
}

-- The map and the vector agree.
pub record IsInterned (n : Interner) : Type 0 where
  pub held : (s : String) (i : ℕ) → get n s ≡ some i → resolve n i ≡ some s
  pub named : (i : ℕ) (s : String) → resolve n i ≡ some s → get n s ≡ some i

module _ (n : Interner) (v : IsInterned n) (s : String) where
  abbrev pushed : Interner
  pushed = record { strings = n.strings ++ s ∷ []; index = (s, length n.strings) ∷ n.index }

  module _ (vacant : get n s ≡ none) where
    push_held : (t : String) (i : ℕ) → get pushed t ≡ some i → resolve pushed i ≡ some t
    push_held t i at = elim (Bool-cases (s == t)) [
      | inl same ↦
          let g = rw same at at in
          let last : length n.strings ≡ i = cc g in
          rw (← last) (get_elem?-concat_last n.strings s ∙ ap some ((eq_iff s t).0 same))
      | inr other ↦
          let there = v.held t i (rw other at at) in
          get_elem?-append_left n.strings (s ∷ []) i (get_elem?-lt n.strings i there) ∙ there
    ]

    push_named : (i : ℕ) (t : String) → resolve pushed i ≡ some t → get pushed t ≡ some i
    push_named i t at = elim (get_elem?-concat n.strings s i at) [
      | inl (lt, old) ↦ elim (Bool-cases (s == t)) [
        | inl same ↦
            let found : get n t ≡ some i = v.named i t old in
            let here : get n s ≡ some i =
              subst (λ x. get n x ≡ some i) (sym ((eq_iff s t).0 same)) found in
            absurd (cc (vacant, here))
        | inr other ↦ rw other (v.named i t old)
      ]
      | inr (last, new) ↦ rw (new, last, (eq_iff s s).1 refl) refl
    ]

    pushed-IsInterned : IsInterned pushed
    pushed-IsInterned = record { held = push_held; named = push_named }

  -- What `intern` gives back.
  abbrev pub Handled : Interner × ℕ → Type 0
  Handled r =
      IsInterned (r.0)
      × (get (r.0) s ≡ some r.1)
      × (resolve (r.0) (r.1) ≡ some s)
      × ((i : ℕ) (t : String) → resolve n i ≡ some t → resolve (r.0) i ≡ some t)

  -- On an interner whose map and vector agree, with fewer than 2 ^ 32 strings, `intern` gives a
  -- handle that `resolve` leads back to the string and that `get` finds again, every handle given
  -- before keeps its string, and the map and the vector go on agreeing.
  pub intern-resolve : length n.strings < 2 ^ 32 → Handled (intern n s)
  unfolding intern
  intern-resolve room = elim (Option-cases (find_string s n.index)) [
    | inl vacant ↦
        let w = pushed-IsInterned vacant in
        let last = get_elem?-concat_last n.strings s in
        rw (intern, vacant, mod-eq_of_lt room)
          (
            w,
            w.named (length n.strings) s last,
            last,
            λ i t at. get_elem?-append_left n.strings (s ∷ []) i (get_elem?-lt n.strings i at) ∙ at,
          )
    | inr (i, at) ↦ rw (intern, at) (v, at, v.held s i at, λ j t h. h)
  ]
