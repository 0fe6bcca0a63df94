-- ===== src/Resolve/Valid.antt =====
-- `insert`, `bind_atom` and `materialize_common` keep the table well formed.
use mathlib.Core.Path.{subst₂}
use afs_ld.Prelude.{
  ℕ, ◌^◌, ◌<◌, Bool, false, ◌≡◌, ◌≢◌, refl, sym, subst, ◌∙◌, List, [], ◌∷◌, ◌++◌, Option, none,
  some, ok, err, arith, length, set, get_elem?, get_elem?-set_self, get_elem?-set_ne, ℕ_discrete,
  inl, inr,
}
use afs_ld.Resolve.Effect.{Effect, unchanged, stored, wrote, Ensures, insert-Ensures}
use afs_ld.Resolve.Insert.{Inserted, insert}
use afs_ld.Resolve.Lookup.{
  Agree, IsValid, get_elem?-lt, get_elem?-append_left, get_elem?-concat, get_elem?-concat_last,
}
use afs_ld.Resolve.Symbol.{Symbol, symbol_name}
use afs_ld.Resolve.Table.{
  SymbolTable, find_id, get, set_symbol, rebind, bind_atom, materialize_common,
}

module _ {symbols : List Symbol} {by_name : List (ℕ × ℕ)} (v : Agree symbols by_name) where
  module _ (id : ℕ) (old new : Symbol) (here : get_elem? symbols id ≡ some old)
      (e : symbol_name new ≡ symbol_name old) where
    self : get_elem? (set symbols id new) id ≡ some new
    self = get_elem?-set_self symbols id new (get_elem?-lt symbols id here)

    set_held :
        (name i : ℕ)
        → find_id name by_name ≡ some i
        → (s : Symbol) × (get_elem? (set symbols id new) i ≡ some s) × (symbol_name s ≡ name)
    set_held name i at =
        let (s, there, n) = v.held name i at in
        elim (ℕ_discrete id i) [
          | yes same ↦
              let at_id : get_elem? symbols id ≡ some s = rw same there in
              let s_old : s ≡ old = cc in (new, rw (← same) self, e ∙ cc)
          | no other ↦ (s, get_elem?-set_ne symbols new other ∙ there, n)
        ]

    set_named :
        (i : ℕ) (s : Symbol)
        → get_elem? (set symbols id new) i ≡ some s
        → find_id (symbol_name s) by_name ≡ some i
    set_named i s there = elim (ℕ_discrete id i) [
      | yes same ↦
          let at_id : get_elem? (set symbols id new) id ≡ some s =
            subst (λ j. get_elem? (set symbols id new) j ≡ some s) (sym same) there in
          let written : s ≡ new = cc self in rw written (rw (e, ← same) (v.named id old here))
      | no other ↦ v.named i s (sym (get_elem?-set_ne symbols new other) ∙ there)
    ]

    -- Writing a symbol of the same name.
    Agree-set : Agree (set symbols id new) by_name
    Agree-set = record { held = set_held; named = set_named }

  module _ (s : Symbol) (vacant : find_id (symbol_name s) by_name ≡ none) where
    push_held :
        (name i : ℕ)
        → find_id name ((symbol_name s, length symbols) ∷ by_name) ≡ some i
        → (x : Symbol) × (get_elem? (symbols ++ s ∷ []) i ≡ some x) × (symbol_name x ≡ name)
    push_held name i at = elim (ℕ_discrete (symbol_name s) name) [
      | yes same ↦
          let last : length symbols ≡ i = ground arith in
          (s, rw (← last) (get_elem?-concat_last symbols s), same)
      | no other ↦
          let (x, there, n) = v.held name i (ground arith) in
          (x, get_elem?-append_left symbols (s ∷ []) i (get_elem?-lt symbols i there) ∙ there, n)
    ]

    push_named :
        (i : ℕ) (x : Symbol)
        → get_elem? (symbols ++ s ∷ []) i ≡ some x
        → find_id (symbol_name x) ((symbol_name s, length symbols) ∷ by_name) ≡ some i
    push_named i x there = elim (get_elem?-concat symbols s i there) [
      | inl (lt, old) ↦ ground (arith, v.named i x old, vacant)
      | inr (last, same) ↦ rw (same, last) (ground arith)
    ]

    -- Pushing a symbol under a vacant name.
    Agree-push : Agree (symbols ++ s ∷ []) ((symbol_name s, length symbols) ∷ by_name)
    Agree-push = record { held = push_held; named = push_named }

pub Effect-IsValid : {t u : SymbolTable} {s : Symbol} → IsValid t → Effect t s u → IsValid u
Effect-IsValid v (unchanged id old at here r e f) = subst₂ Agree (sym e) (sym f) v
Effect-IsValid {s} v (stored vacant e f c) = subst₂ Agree (sym e) (sym f) (Agree-push v s vacant)
Effect-IsValid v (wrote id old new at here c w e f) =
    subst₂ Agree (sym e) (sym f) (Agree-set v id old new here w.same_name)

module _ (t : SymbolTable) (s : Symbol) (v : IsValid t) where
  Ensures-IsValid :
      (o : Option Inserted) → Ensures t s o → (r : Inserted) × (o ≡ some r) × IsValid r.0
  Ensures-IsValid none e = absurd e
  Ensures-IsValid (some (u, ok outcome)) e = ((u, ok outcome), refl, Effect-IsValid v e)
  Ensures-IsValid (some (u, err why)) e = ((u, err why), refl, rw e.0 v)

-- On a valid table with room for a slot, `insert` never panics: no index is out of range and no
-- `unreachable!` is reached, and the table that it leaves is valid, whether it succeeds or refuses.
pub insert-IsValid :
    (t : SymbolTable) (s : Symbol)
    → IsValid t
    → length t.symbols < 2 ^ 32
    → (r : Inserted) × (insert t s ≡ some r) × IsValid r.0
insert-IsValid t s v room = Ensures-IsValid t s v (insert t s) (insert-Ensures t s v room)

rebind_name : (atom value : ℕ) (s : Symbol) → symbol_name (rebind atom value s) ≡ symbol_name s
rebind_name atom value (Symbol.undefined _ _ _) = refl
rebind_name atom value _ = refl

abbrev IsDefined : Symbol → Type 0
IsDefined (Symbol.defined _ _ _ _ _ _ _) = Unit
IsDefined _ = ⊥

-- What binding makes of a symbol: a definition gets the atom and the value and keeps all else, and any other
-- symbol stays as it is.
pub data Rebound (atom value : ℕ) : Symbol → Symbol → Type 0 where
  bound :
      {name origin atom' value' : ℕ} {weak private_extern no_dead_strip : Bool}
      → Rebound atom value
          (Symbol.defined name origin atom' value' weak private_extern no_dead_strip)
          (Symbol.defined name origin atom value weak private_extern no_dead_strip)
  other : {s : Symbol} → ¬ IsDefined s → Rebound atom value s s

rebind-Rebound : (atom value : ℕ) (s : Symbol) → Rebound atom value s (rebind atom value s)
rebind-Rebound atom value (Symbol.defined _ _ _ _ _ _ _) = bound
rebind-Rebound atom value (Symbol.undefined _ _ _) = other (λ e. e)
rebind-Rebound atom value _ = other (λ e. e)

-- On a valid table, `bind_atom` on a slot that exists succeeds. A definition in the slot then has the atom and
-- the value that were given, with its other fields kept; any other symbol in it, and every other slot, stays
-- as it was; the names, the strings and the transitions are left alone, and the table is valid.
pub bind_atom-IsValid :
    (t : SymbolTable) (id atom value : ℕ) (old : Symbol)
    → IsValid t
    → get t id ≡ some old
    → (u : SymbolTable) × (new : Symbol) × (bind_atom t id atom value ≡ some u)
      × (get u id ≡ some new)
      × Rebound atom value old new
      × ((slot : ℕ) → id ≢ slot → get u slot ≡ get t slot)
      × (u.by_name ≡ t.by_name)
      × (u.transitions ≡ t.transitions)
      × (u.interner ≡ t.interner)
      × IsValid u
unfolding bind_atom
bind_atom-IsValid t id atom value old v here =
    let new = rebind atom value old in
    (
      set_symbol t id new,
      new,
      rw here refl,
      get_elem?-set_self t.symbols id new (get_elem?-lt t.symbols id here),
      rebind-Rebound atom value old,
      λ slot apart. get_elem?-set_ne t.symbols new apart,
      refl,
      refl,
      refl,
      Agree-set v id old _ here (rebind_name atom value old),
    )

-- On a valid table, `materialize_common` makes a tentative definition in a slot a strong
-- definition of its name, in the same slot, and the table stays valid.
pub materialize_common-IsValid :
    (t : SymbolTable) (id atom name origin size align : ℕ) (private_extern no_dead_strip : Bool)
    → IsValid t
    → get t id ≡ some (Symbol.common name origin size align private_extern no_dead_strip)
    → (u : SymbolTable) × (materialize_common t id atom ≡ some u)
      × IsValid u
      × (get u id ≡ some (Symbol.defined name origin atom 0 false private_extern no_dead_strip))
unfolding materialize_common mathlib.Core.Option.bind
materialize_common-IsValid t id atom name origin size align p d v here =
    let new = Symbol.defined name origin atom 0 false p d in
    (
      set_symbol t id new,
      rw here refl,
      Agree-set v id _ new here refl,
      get_elem?-set_self t.symbols id new (get_elem?-lt t.symbols id here),
    )
