-- ===== src/Synth/Slots.antt =====
-- One slot per symbol, in every section, whatever the order of the requests.
use afs_ld.Prelude.{
  ℕ, ◌≡◌, refl, sym, ap, ◌∙◌, [], ◌∷◌, ◌++◌, none, some, arith, length, get_elem?, ℕ_discrete, inl,
  inr, Option-cases,
}
use afs_ld.Resolve.Lookup.{
  get_elem?-lt, get_elem?-append_left, get_elem?-concat, get_elem?-concat_last,
}
use afs_ld.Resolve.Table.{find_id}
use afs_ld.Synth.{Section, intern, get}

module _ {E : Type 0} (s : Section E) (symbol idx : ℕ) (x : E) where
  get-found :
      find_id symbol s.index ≡ some idx
      → get_elem? s.entries idx ≡ some x
      → get s symbol ≡ some (idx, some x)
  unfolding get
  get-found at there = rw (get, at, there) refl

  found-get :
      get s symbol ≡ some (idx, some x)
      → (find_id symbol s.index ≡ some idx) × (get_elem? s.entries idx ≡ some x)
  unfolding get
  found-get h = elim (Option-cases (find_id symbol s.index)) [
    | inl none_there ↦ absurd (cc (rw (get, none_there) at h))
    | inr (j, at) ↦
        let g = rw (get, at) at h in
        let same : j ≡ idx = cc g in
        let entry : get_elem? s.entries j ≡ some x = cc g in (at ∙ ap some same, rw (← same) entry)
  ]

module _ {E : Type 0} (symbol_of : E → ℕ) where
  -- Each symbol of the index has its own slot, and each slot is in the index under its symbol.
  pub record IsIndexed (s : Section E) : Type 0 where
    pub held :
        (symbol idx : ℕ)
        → find_id symbol s.index ≡ some idx
        → (e : E) × (get_elem? s.entries idx ≡ some e) × (symbol_of e ≡ symbol)
    pub named :
        (idx : ℕ) (e : E)
        → get_elem? s.entries idx ≡ some e
        → find_id (symbol_of e) s.index ≡ some idx

  module _ (s : Section E) (v : IsIndexed s) (symbol : ℕ) (e : E)
      (same : symbol_of e ≡ symbol) where
    abbrev pushed : Section E
    pushed = record { entries = s.entries ++ e ∷ []; index = (symbol, length s.entries) ∷ s.index }

    module _ (vacant : find_id symbol s.index ≡ none) where
      push_held :
          (n i : ℕ)
          → find_id n pushed.index ≡ some i
          → (x : E) × (get_elem? pushed.entries i ≡ some x) × (symbol_of x ≡ n)
      push_held n i at = elim (ℕ_discrete symbol n) [
        | yes here ↦
            let last : length s.entries ≡ i = ground arith in
            (e, rw (← last) (get_elem?-concat_last s.entries e), same ∙ here)
        | no other ↦
            let (x, there, k) = v.held n i (ground arith) in
            (
              x,
              get_elem?-append_left s.entries (e ∷ []) i (get_elem?-lt s.entries i there) ∙ there,
              k,
            )
      ]

      push_named :
          (i : ℕ) (x : E)
          → get_elem? pushed.entries i ≡ some x
          → find_id (symbol_of x) pushed.index ≡ some i
      push_named i x at = elim (get_elem?-concat s.entries e i at) [
        | inl (lt, old) ↦ ground (arith, v.named i x old, vacant)
        | inr (last, new) ↦ rw (new, same, last) (ground arith)
      ]

      pushed-IsIndexed : IsIndexed pushed
      pushed-IsIndexed = record { held = push_held; named = push_named }

    abbrev pub Interned : Section E × ℕ → Type 0
    Interned r =
        IsIndexed (r.0)
        × ((x : E) × (get (r.0) symbol ≡ some (r.1, some x)) × (symbol_of x ≡ symbol))
        × ((other i : ℕ) (x : E)
            → get s other ≡ some (i, some x)
            → get (r.0) other ≡ some (i, some x))

    old_slot : (idx : ℕ) → find_id symbol s.index ≡ some idx → Interned (s, idx)
    old_slot idx at =
        let (x, there, k) = v.held symbol idx at in
        (v, (x, get-found s symbol idx x at there, k), λ other i x h. h)

    new_slot : find_id symbol s.index ≡ none → Interned (pushed, length s.entries)
    new_slot vacant = (
      pushed-IsIndexed vacant,
      (
        e,
        get-found pushed symbol (length s.entries) e (ground arith)
            (get_elem?-concat_last s.entries e),
        same,
      ),
      λ other i x h.
          let (at, there) = found-get s other i x h in
          get-found pushed other i x (ground (arith, vacant))
            (get_elem?-append_left s.entries (e ∷ []) i (get_elem?-lt s.entries i there) ∙ there),
    )

    -- On an indexed section, and with an entry for the symbol, `intern` gives the symbol a slot
    -- that `get` finds, keeps every slot that was given before, and keeps the section indexed,
    -- whether or not the symbol was there.
    pub intern_lem : Interned (intern s symbol e)
    unfolding intern
    intern_lem = elim (Option-cases (find_id symbol s.index)) [
      | inl vacant ↦ rw (intern, vacant) (new_slot vacant)
      | inr (idx, at) ↦ rw (intern, at) (old_slot idx at)
    ]

  -- On an indexed section, two symbols with the same slot are the same symbol.
  pub get-injective :
      (s : Section E) (a b i : ℕ) (x y : E)
      → IsIndexed s
      → get s a ≡ some (i, some x)
      → get s b ≡ some (i, some y)
      → a ≡ b
  get-injective s a b i x y v p q =
      let (pa, px) = found-get s a i x p in
      let (qb, qy) = found-get s b i y q in
      let (x', hx, kx) = v.held a i pa in
      let (y', hy, ky) = v.held b i qb in let one : x' ≡ y' = cc in sym kx ∙ ap symbol_of one ∙ ky
