-- ===== src/Resolve/Effect.antt =====
-- What one `insert` may do to the table, on every branch of the code.
use mathlib.Core.Option
use native.Mathlib.Nat.{mod-eq_of_lt}
use afs_ld.Prelude.{
  ℕ, zero, suc, ◌^◌, ◌≤◌, ◌<◌, ◌≡◌, ◌≢◌, refl, sym, ap, ◌∙◌, max, Bool, true, false, [], ◌∷◌, ◌++◌,
  Option, none, some, ok, err, arith, length, set, ◌==◌, Bool-cases, inl, inr, ◌⊎◌, Option-cases,
}
use afs_ld.Resolve.Insert.{
  merge_weak_ref, merge_undefined, merge_common, archive_fetch, object_load, apply_action, Inserted,
  finish, store_new, insert_vacant, apply_verdict, insert_existing, insert,
}
use afs_ld.Resolve.Matrix.{Action, Verdict, act, collide, unreachable}
use afs_ld.Resolve.Rank.{rank, Written, Merges, Reports, Fits, matrix-Fits}
use afs_ld.Resolve.Symbol.{Symbol, symbol_name, alias_target, is_alias, is_strong_definition}
use afs_ld.Resolve.Lookup.{IsValid}
use afs_ld.Resolve.Table.{
  SymbolTable, Outcome, InsertError, lookup, get, alias_walk, max_alias_depth, alias_would_cycle,
}

-- A new alias has passed the cycle check.
abbrev pub Checked : SymbolTable → Symbol → Type 0
Checked t (Symbol.alias name aliased _ _) = alias_would_cycle t name aliased ≡ some false
Checked t _ = Unit

pub data Effect (t : SymbolTable) (s : Symbol) : SymbolTable → Type 0 where
  unchanged :
      {u : SymbolTable} (id : ℕ) (old : Symbol)
      → lookup t (symbol_name s) ≡ some id
      → get t id ≡ some old
      → rank s ≤ rank old
      → u.symbols ≡ t.symbols
      → u.by_name ≡ t.by_name
      → Effect t s u
  stored :
      {u : SymbolTable}
      → lookup t (symbol_name s) ≡ none
      → u.symbols ≡ t.symbols ++ s ∷ []
      → u.by_name ≡ (symbol_name s, length t.symbols) ∷ t.by_name
      → Checked t s
      → Effect t s u
  wrote :
      {u : SymbolTable} (id : ℕ) (old new : Symbol)
      → lookup t (symbol_name s) ≡ some id
      → get t id ≡ some old
      → is_alias s ≡ false ⊎ ((new ≡ s) × Checked t s)
      → Written old s new
      → u.symbols ≡ set t.symbols id new
      → u.by_name ≡ t.by_name
      → Effect t s u

-- A refused symbol leaves the table alone: two strong definitions, or an alias that closes a cycle.
abbrev pub Refused : SymbolTable → Symbol → InsertError → Type 0
Refused t s (InsertError.duplicate_strong name first second) =
    (rank s ≡ 4)
    × (second ≡ s)
    × (lookup t (symbol_name s) ≡ some first)
    × ((old : Symbol) × (get t first ≡ some old) × (rank old ≡ 4))
Refused t s (InsertError.alias_cycle name) =
    (aliased : ℕ) × (alias_target s ≡ some aliased)
    × (alias_would_cycle t (symbol_name s) aliased ≡ some true)

abbrev pub Ensures : SymbolTable → Symbol → Option Inserted → Type 0
Ensures t s none = ⊥
Ensures t s (some (u, ok outcome)) = Effect t s u
Ensures t s (some (u, err e)) = (u ≡ t) × Refused t s e

module _ (t : SymbolTable) (id : ℕ) (old s : Symbol) (at : lookup t (symbol_name s) ≡ some id)
    (here : get t id ≡ some old) where
  reported :
      (m : Option Outcome) (u : SymbolTable)
      → Reports m
      → Effect t s u
      → Ensures t s (finish (Option.map (λ o. (u, o)) m))
  reported none u r e = r
  reported (some o) u r e = e

  merged :
      (m : Option Symbol) (next : Symbol → SymbolTable) (o : Outcome)
      → Merges old s m
      → ((n : Symbol) → Written old s n → Effect t s (next n))
      → Ensures t s (finish (Option.map (λ n. (next n, o)) m))
  merged none next o f e = f
  merged (some n) next o f e = e n f

  applied :
      (a : Action)
      → is_alias s ≡ false
      → Fits id old s (act a)
      → Ensures t s (finish (apply_action t id old s a))
  unfolding apply_action
  applied Action.keep p f = unchanged id old at here f refl refl
  applied Action.replace p f = wrote id old (merge_weak_ref old s) at here (inl p) f refl refl
  applied Action.coalesce_undefined p f =
      merged (merge_undefined old s) _ _ f (λ n w. wrote id old n at here (inl p) w refl refl)
  applied Action.coalesce_common p f =
      merged (merge_common old s) _ _ f (λ n w. wrote id old n at here (inl p) w refl refl)
  applied Action.replace_and_pending_archive_fetch p f =
      reported (archive_fetch id s) _ f.0 (wrote id old s at here (inl p) f.1 refl refl)
  applied Action.pending_archive_fetch p f =
      reported (archive_fetch id old) t f.0 (unchanged id old at here f.1 refl refl)
  applied Action.pending_object_load p f =
      reported (object_load id old) t f.0 (unchanged id old at here f.1 refl refl)

  settled :
      (v : Verdict)
      → is_alias s ≡ false
      → Fits id old s v
      → Ensures t s (apply_verdict t id old s v)
  settled (act a) p f = applied a p f
  settled collide p f = (refl, (f.1, refl, at, (old, here, f.0)))
  settled unreachable p f = f

strong_rank : (s : Symbol) → is_strong_definition s ≡ true → rank s ≡ 4
strong_rank (Symbol.undefined _ _ _) h = ground arith
strong_rank _ h = ground arith

other_rank : (s : Symbol) → is_strong_definition s ≡ false → rank s ≤ 4
other_rank (Symbol.undefined _ _ _) h = ground arith
other_rank _ h = ground arith

-- An alias is written as it stands.
merge-alias :
    (old : Symbol) (n a o : ℕ) (p : Bool)
    → merge_weak_ref old (Symbol.alias n a o p) ≡ Symbol.alias n a o p
merge-alias (Symbol.undefined _ _ _) n a o p = refl
merge-alias _ n a o p = refl

module _ (t : SymbolTable) (id : ℕ) (old : Symbol) (name aliased origin : ℕ) (p : Bool)
    (at : lookup t name ≡ some id) (here : get t id ≡ some old) (e : symbol_name old ≡ name) where
  alias_written :
      is_strong_definition old ≡ false
      → alias_would_cycle t name aliased ≡ some false
      → Ensures t
          (Symbol.alias name aliased origin p)
          (finish (apply_action t id old (Symbol.alias name aliased origin p) Action.replace))
  unfolding apply_action
  alias_written weak free =
      let new = Symbol.alias name aliased origin p in
      let same = merge-alias old name aliased origin p in
      let best : rank new ≡ max (rank old) (rank new) = omega (arith, other_rank old weak) in
      wrote id old (merge_weak_ref old new) at here (inr (same, free))
        (rw same (record { same_name = sym e; best = best; plain = refl })) refl refl

  -- The alias arm of a name that is held.
  alias_over :
      alias_would_cycle t name aliased ≢ none
      → Ensures t
          (Symbol.alias name aliased origin p)
          (insert_existing t id old (Symbol.alias name aliased origin p))
  alias_over total = elim (Bool-cases (is_strong_definition old)) [
    | inl strong ↦ rw strong (refl, (refl, refl, at, (old, here, strong_rank old strong)))
    | inr weak ↦ rw weak (elim (Option-cases (alias_would_cycle t name aliased)) [
      | inl panic ↦ absurd (total panic)
      | inr (b, free) ↦ elim (Bool-cases b) [
        | inl yes_cycle ↦ rw (free, yes_cycle) (refl, (aliased, refl, free ∙ ap some yes_cycle))
        | inr no_cycle ↦ rw (free, no_cycle) (alias_written weak (free ∙ ap some no_cycle))
      ]
    ])
  ]

-- On a valid table an alias walk never indexes out of range.
alias_walk_total :
    (d : ℕ) (t : SymbolTable) (new_name current : ℕ)
    → IsValid t
    → alias_walk d t new_name current ≢ none
unfolding alias_walk
alias_walk_total zero t n c v = λ e. cc
alias_walk_total (suc d) t n c v = elim (Bool-cases (c == n)) [
  | inl same ↦ rw (same, alias_walk) (λ e. cc)
  | inr other ↦
      rw (other, alias_walk)
        (elim (Option-cases (lookup t c)) [
          | inl vacant ↦ rw (vacant, alias_walk) (λ e. cc)
          | inr (id, at) ↦
              let (s, here, _) = v.held c id at in
              rw (at, here, alias_walk)
                (elim (Option-cases (alias_target s)) [
                  | inl end ↦ rw (end, alias_walk) (λ e. cc)
                  | inr (a, hop) ↦ rw (hop, alias_walk) (alias_walk_total d t n a v)
                ])
        ])
]

alias_would_cycle_total : (t : SymbolTable) (n a : ℕ) → IsValid t → alias_would_cycle t n a ≢ none
unfolding alias_would_cycle
alias_would_cycle_total t n a v = elim (Bool-cases (n == a)) [
  | inl same ↦ rw same (λ e. cc)
  | inr other ↦ rw other (alias_walk_total max_alias_depth t n a v)
]

module _ (t : SymbolTable) (room : length t.symbols < 2 ^ 32) where
  stored_new :
      (s : Symbol)
      → lookup t (symbol_name s) ≡ none
      → Checked t s
      → Ensures t s (some (store_new t s))
  stored_new s vacant c =
      stored vacant refl (ap (λ i. (symbol_name s, i) ∷ t.by_name) (mod-eq_of_lt room)) c

  vacant-Ensures :
      (s : Symbol) → IsValid t → lookup t (symbol_name s) ≡ none → Ensures t s (insert_vacant t s)
  vacant-Ensures (Symbol.alias n a o p) v vacant = elim (Option-cases (alias_would_cycle t n a)) [
    | inl panic ↦ absurd (alias_would_cycle_total t n a v panic)
    | inr (b, free) ↦ elim (Bool-cases b) [
      | inl yes_cycle ↦ rw (free, yes_cycle, Ensures) (refl, (a, refl, free ∙ ap some yes_cycle))
      | inr no_cycle ↦
          rw (free, no_cycle, Ensures)
            (stored_new (Symbol.alias n a o p) vacant (free ∙ ap some no_cycle))
    ]
  ]
  vacant-Ensures (Symbol.undefined n o w) v vacant = stored_new (Symbol.undefined n o w) vacant tt
  vacant-Ensures s v vacant = stored_new s vacant tt

existing-Ensures :
    (t : SymbolTable) (id : ℕ) (old s : Symbol)
    → IsValid t
    → lookup t (symbol_name s) ≡ some id
    → get t id ≡ some old
    → symbol_name old ≡ symbol_name s
    → Ensures t s (insert_existing t id old s)
existing-Ensures t id old (Symbol.alias n a o p) v at here e =
    alias_over t id old n a o p at here e (alias_would_cycle_total t n a v)
existing-Ensures t id old (Symbol.undefined n o w) v at here e =
    settled t id old (Symbol.undefined n o w) at here _ refl
      (matrix-Fits id old (Symbol.undefined n o w) refl e)
existing-Ensures t id old s v at here e =
    settled t id old s at here _ refl (matrix-Fits id old s refl e)

-- On a valid table with room for a slot, `insert` does not panic: its `unreachable!`s are not
-- reached and no index is out of range. A refusal leaves the table as it was, and is for a strong
-- definition or alias over another, or for an alias whose cycle check says yes. Else slots and
-- names are left alone, where the held symbol has at least the rank of the new one; or a vacant
-- name gets a new slot with the symbol; or the slot of the name is written with the greater of the
-- two ranks. A new alias has passed the cycle check.
pub insert-Ensures :
    (t : SymbolTable) (s : Symbol)
    → IsValid t
    → length t.symbols < 2 ^ 32
    → Ensures t s (insert t s)
unfolding insert
insert-Ensures t s v room = elim (Option-cases (lookup t (symbol_name s))) [
  | inl vacant ↦ rw (vacant, Ensures) (vacant-Ensures t room s v vacant)
  | inr (id, at) ↦
      let (old, here, e) = v.held (symbol_name s) id at in
      rw (at, here, Ensures) (existing-Ensures t id old s v at here e)
]
