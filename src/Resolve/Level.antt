-- ===== src/Resolve/Level.antt =====
-- The level of a name is the greatest rank that it was given, whatever the order of the inputs.
use mathlib.Core.List.{Perm, Permᴰ}
use mathlib.Core.Logic.{∥∥₁_elim}
use native.Mathlib.Nat.{ℕ_set}
use afs_ld.Prelude.{
  ℕ, ◌+◌, ◌^◌, ◌≤◌, ◌<◌, ◌≡◌, ◌≢◌, refl, sym, ap, ap₂, ◌∙◌, max, false, List, [], ◌∷◌, ◌++◌, Option,
  none, some, ok, err, arith, length, set, get_elem?, get_elem?-set_self, get_elem?-set_ne,
  length-set, length-append, ◌==◌, ==_iff, if◌then◌else◌, ℕ_discrete, inl, inr, Option-cases,
}
use afs_ld.Resolve.Effect.{Effect, unchanged, stored, wrote, insert-Ensures}
use afs_ld.Resolve.Insert.{Inserted, insert}
use afs_ld.Resolve.Lookup.{
  Agree, IsValid, get_elem?-lt, get_elem?-append_left, get_elem?-concat_last,
}
use afs_ld.Resolve.Rank.{rank, Written}
use afs_ld.Resolve.Symbol.{Symbol, symbol_name}
use afs_ld.Resolve.Table.{SymbolTable, Outcome, find_id, lookup}
use afs_ld.Resolve.Valid.{Effect-IsValid}

abbrev slot_level : Option Symbol → ℕ
slot_level none = 0
slot_level (some s) = rank s + 1

abbrev id_level : List Symbol → Option ℕ → ℕ
id_level symbols none = 0
id_level symbols (some id) = slot_level (get_elem? symbols id)

-- 0 for a vacant name, one more than the rank of the symbol that holds it.
abbrev pub level : SymbolTable → ℕ → ℕ
level t name = id_level t.symbols (lookup t name)

-- The level that a name has once `s` is in.
abbrev pub raised : Symbol → ℕ → ℕ → ℕ
raised s name before = if symbol_name s == name then max before (rank s + 1) else before

module _ (symbols : List Symbol) (by_name : List (ℕ × ℕ)) (v : Agree symbols by_name)
    (name : ℕ) where
  -- Two names have two slots.
  pub apart :
      (s : Symbol) (id i : ℕ)
      → find_id (symbol_name s) by_name ≡ some id
      → find_id name by_name ≡ some i
      → symbol_name s ≢ name
      → id ≢ i
  apart s id i at there other same =
      let (x, here, n) = v.held (symbol_name s) id at in
      let (y, here', m) = v.held name i there in
      let again : get_elem? symbols i ≡ some x = rw (← same) here in
      let one : x ≡ y = cc in other (cc)

  level_set :
      (id : ℕ) (old s new : Symbol)
      → find_id (symbol_name s) by_name ≡ some id
      → get_elem? symbols id ≡ some old
      → Written old s new
      → id_level (set symbols id new) (find_id name by_name)
        ≡ raised s name (id_level symbols (find_id name by_name))
  level_set id old s new at here w = elim (ℕ_discrete (symbol_name s) name) [
    | yes same ↦
        let at' : find_id name by_name ≡ some id = rw (← same) at in
        rw (at', here, get_elem?-set_self symbols id new (get_elem?-lt symbols id here))
          (ground (arith, w.best))
    | no other ↦ elim (Option-cases (find_id name by_name)) [
      | inl vacant ↦ rw vacant (ground arith)
      | inr (i, there) ↦
          rw (there, get_elem?-set_ne symbols new (apart s id i at there other)) (ground arith)
    ]
  ]

  level_keep :
      (id : ℕ) (old s : Symbol)
      → find_id (symbol_name s) by_name ≡ some id
      → get_elem? symbols id ≡ some old
      → rank s ≤ rank old
      → id_level symbols (find_id name by_name)
        ≡ raised s name (id_level symbols (find_id name by_name))
  level_keep id old s at here low = elim (ℕ_discrete (symbol_name s) name) [
    | yes same ↦
        let at' : find_id name by_name ≡ some id = rw (← same) at in rw (at', here) (ground arith)
    | no other ↦ ground arith
  ]

  level_push :
      (s : Symbol)
      → find_id (symbol_name s) by_name ≡ none
      → id_level (symbols ++ s ∷ []) (find_id name ((symbol_name s, length symbols) ∷ by_name))
        ≡ raised s name (id_level symbols (find_id name by_name))
  level_push s vacant = elim (ℕ_discrete (symbol_name s) name) [
    | yes same ↦
        let vacant' : find_id name by_name ≡ none = rw (← same) vacant in
        let test = (==_iff (symbol_name s) name).1 same in
        rw (test, vacant', get_elem?-concat_last symbols s) (omega arith)
    | no other ↦
        let test : (symbol_name s == name) ≡ false = ground arith in
        rw test (elim (Option-cases (find_id name by_name)) [
          | inl gone ↦ rw gone
          | inr (i, there) ↦
              let (y, here, _) = v.held name i there in
              rw (there, get_elem?-append_left symbols (s ∷ []) i (get_elem?-lt symbols i here))
        ])
  ]

module _ {t u : SymbolTable} {s : Symbol} (v : IsValid t) where
  Effect-level : Effect t s u → (name : ℕ) → level u name ≡ raised s name (level t name)
  Effect-level (unchanged id old at here r e f) name =
      ap₂ (λ xs m. id_level xs (find_id name m)) e f
      ∙ level_keep t.symbols t.by_name v name id old s at here r
  Effect-level (stored vacant e f c) name =
      ap₂ (λ xs m. id_level xs (find_id name m)) e f
      ∙ level_push t.symbols t.by_name v name s vacant
  Effect-level (wrote id old new at here c w e f) name =
      ap₂ (λ xs m. id_level xs (find_id name m)) e f
      ∙ level_set t.symbols t.by_name v name id old s new at here w

  Effect-length : Effect t s u → length u.symbols ≤ length t.symbols + 1
  Effect-length (unchanged id old at here r e f) = omega (arith, ap length e)
  Effect-length (stored vacant e f c) = omega (arith, ap length e, length-append t.symbols (s ∷ []))
  Effect-length (wrote id old new at here c w e f) =
      omega (arith, ap length e, length-set t.symbols id new)

module _ (t : SymbolTable) (s : Symbol) (v : IsValid t) (room : length t.symbols < 2 ^ 32) where
  pub insert-Effect : {u : SymbolTable} {o : Outcome} → insert t s ≡ some (u, ok o) → Effect t s u
  insert-Effect e = rw e at (insert-Ensures t s v room)

-- On a valid table with room for a slot, an accepted insertion raises the level of the symbol's
-- name to the greater of what it was and one more than the symbol's rank, and changes the level of
-- no other name.
pub insert-level :
    (t : SymbolTable) (s : Symbol) {u : SymbolTable} {o : Outcome}
    → IsValid t
    → length t.symbols < 2 ^ 32
    → insert t s ≡ some (u, ok o)
    → (name : ℕ)
    → level u name
      ≡ (if symbol_name s == name then max (level t name) (rank s + 1) else level t name)
insert-level t s v room e = Effect-level v (insert-Effect t s v room e)

-- The inputs one after the other; `none` where one is refused.
unfoldable pub accepted : Option Inserted → Option SymbolTable
accepted none = none
accepted (some (u, ok _)) = some u
accepted (some (u, err _)) = none

unfoldable pub insert_all : SymbolTable → List Symbol → Option SymbolTable
insert_all t [] = some t
insert_all t (s ∷ ss) = elim (accepted (insert t s)) [ none ↦ none | some u ↦ insert_all u ss ]

-- The level that the inputs give a name: a maximum over those of that name.
abbrev pub best : ℕ → List Symbol → ℕ → ℕ
best name [] before = before
best name (s ∷ ss) before = best name ss (raised s name before)

accepted-ok :
    (i : Option Inserted) {u : SymbolTable}
    → accepted i ≡ some u
    → (o : Outcome) × (i ≡ some (u, ok o))
unfolding accepted
accepted-ok none h = cc
accepted-ok (some (u, ok o)) h = (o, cc)
accepted-ok (some (u, err e)) h = cc

abbrev id_level_of : Option SymbolTable → ℕ → ℕ
id_level_of none name = 0
id_level_of (some t) name = level t name

none-ne-some : {u : SymbolTable} → none ≢ some u
none-ne-some h = cc

insert_all-cons :
    (t : SymbolTable) (s : Symbol) (ss : List Symbol) {u : SymbolTable}
    → insert_all t (s ∷ ss) ≡ some u
    → (w : SymbolTable) × (o : Outcome) × (insert t s ≡ some (w, ok o)) × (insert_all w ss ≡ some u)
unfolding insert_all
insert_all-cons t s ss h = elim (Option-cases (accepted (insert t s))) [
  | inl refused ↦ absurd (none-ne-some (rw (refused, insert_all) at h))
  | inr (w, taken) ↦
      let (o, e) = accepted-ok (insert t s) taken in (w, o, e, rw (taken, insert_all) at h)
]

insert_all-level :
    (ss : List Symbol) (t : SymbolTable) {u : SymbolTable}
    → IsValid t
    → length t.symbols + length ss ≤ 2 ^ 32
    → insert_all t ss ≡ some u
    → (name : ℕ) → level u name ≡ best name ss (level t name)
insert_all-level [] t {u} v room h name = unfold insert_all in ap (λ o. id_level_of o name) (sym h)
insert_all-level (s ∷ ss) t v room h name =
    let (w, o, e, rest) = insert_all-cons t s ss h in
    let effect = insert-Effect t s v (omega arith) e in
    insert_all-level ss w (Effect-IsValid v effect) (omega (arith, Effect-length v effect)) rest
      name
    ∙ ap (best name ss) (Effect-level v effect name)

raised_comm :
    (a b : Symbol) (name before : ℕ)
    → raised a name (raised b name before) ≡ raised b name (raised a name before)
raised_comm a b name before = ground arith

Permᴰ-best :
    {xs ys : List Symbol} (name before : ℕ)
    → Permᴰ xs ys
    → best name xs before ≡ best name ys before
Permᴰ-best name before Permᴰ.nil = refl
Permᴰ-best name before (Permᴰ.cons {a} {b} {l₁} {l₂} e d) =
    Permᴰ-best name (raised a name before) d ∙ ap (λ s. best name l₂ (raised s name before)) e
Permᴰ-best name before (Permᴰ.swap {a} {b} {a'} {b'} {l} e f) =
    ap (best name l) (raised_comm b a name before)
    ∙ ap₂ (λ x y. best name l (raised x name (raised y name before))) e f
Permᴰ-best name before (Permᴰ.trans d₁ d₂) = Permᴰ-best name before d₁ ∙ Permᴰ-best name before d₂

-- How definite a name ends up does not depend on the order of the inputs: two orders of the same
-- symbols that are both accepted, from the same valid table with room for them, leave every name
-- at the same level.
pub insert_all-perm :
    (t : SymbolTable) (xs ys : List Symbol) {u w : SymbolTable}
    → IsValid t
    → length t.symbols + length xs ≤ 2 ^ 32
    → length t.symbols + length ys ≤ 2 ^ 32
    → Perm xs ys
    → insert_all t xs ≡ some u
    → insert_all t ys ≡ some w
    → (name : ℕ) → level u name ≡ level w name
insert_all-perm t xs ys v rx ry p hx hy name =
    insert_all-level xs t v rx hx name
    ∙ ∥∥₁_elim p (ℕ_set _ _) (Permᴰ-best name (level t name))
    ∙ sym (insert_all-level ys t v ry hy name)
