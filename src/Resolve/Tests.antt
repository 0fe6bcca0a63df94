-- ===== src/Resolve/Tests.antt =====
-- Runs of the symbol table: a reference, then its definition, and an alias of the name.
use mathlib.Core.List.{Permᴰ}
use afs_ld.Prelude.{
  ℕ, ◌+◌, ◌≡◌, ◌≢◌, ◌↔◌, refl, subst, false, max, [], ◌∷◌, some, ok, arith, ◌==◌, if◌then◌else◌,
  sym,
}
use afs_ld.Resolve.Alias.{Ends, IsAcyclic, insert-IsAcyclic}
use afs_ld.Resolve.Chain.{Leads, resolve_chain_iff}
use afs_ld.Resolve.Effect.{Ensures, insert-Ensures}
use afs_ld.Resolve.Insert.{Inserted, insert}
use afs_ld.Resolve.Level.{level, insert_all, accepted, insert-level, insert_all-perm}
use afs_ld.Resolve.Lookup.{IsValid}
use afs_ld.Resolve.Interner.{Interner, intern}
use afs_ld.Resolve.Names.{IsInterned, Handled, intern-resolve}
use afs_ld.Resolve.Rank.{rank}
use afs_ld.Resolve.Symbol.{Symbol, Tag, symbol_name}
use afs_ld.Resolve.Table.{
  Cause, Transition, SymbolTable, Outcome, get, alias_would_cycle, bind_atom, materialize_common,
  resolve_chain, max_alias_depth,
}
use afs_ld.Resolve.Valid.{Rebound, insert-IsValid, bind_atom-IsValid, materialize_common-IsValid}

abbrev empty_table : SymbolTable
empty_table = record {
  interner = record { strings = []; index = [] };
  symbols = [];
  by_name = [];
  transitions = [];
}

abbrev reference : Symbol
reference = Symbol.undefined 7 0 false

abbrev definition : Symbol
definition = Symbol.defined 7 1 4 16 false false false

abbrev other_name : Symbol
other_name = Symbol.alias 3 7 2 false

abbrev moved : ℕ → Tag → Tag → Cause → Transition
moved id from to cause = record { id = id; from = from; to = to; cause = cause }

abbrev referenced : SymbolTable
referenced = record {
  interner = empty_table.interner;
  symbols = reference ∷ [];
  by_name = (7, 0) ∷ [];
  transitions = moved 0 Tag.undefined Tag.undefined Cause.inserted ∷ [];
}

abbrev resolved : SymbolTable
resolved = record {
  interner = empty_table.interner;
  symbols = definition ∷ [];
  by_name = (7, 0) ∷ [];
  transitions =
      moved 0 Tag.undefined Tag.undefined Cause.inserted
      ∷ moved 0 Tag.undefined Tag.defined Cause.replaced
      ∷ [];
}

abbrev defined_first : SymbolTable
defined_first = record {
  interner = empty_table.interner;
  symbols = definition ∷ [];
  by_name = (7, 0) ∷ [];
  transitions = moved 0 Tag.defined Tag.defined Cause.inserted ∷ [];
}

abbrev aliased : SymbolTable
aliased = record {
  interner = empty_table.interner;
  symbols = reference ∷ other_name ∷ [];
  by_name = (3, 1) ∷ (7, 0) ∷ [];
  transitions =
      moved 0 Tag.undefined Tag.undefined Cause.inserted
      ∷ moved 1 Tag.alias Tag.alias Cause.inserted
      ∷ [];
}

accepts_reference : insert empty_table reference ≡ some (referenced, ok (Outcome.inserted 0))
unfolding insert
accepts_reference = refl

accepts_definition :
    insert referenced definition
    ≡ some (resolved, ok (Outcome.replaced 0 Tag.undefined Tag.defined))
unfolding insert
accepts_definition = refl

accepts_alias : insert referenced other_name ≡ some (aliased, ok (Outcome.inserted 1))
unfolding insert alias_would_cycle
accepts_alias = refl

in_order : insert_all empty_table (reference ∷ definition ∷ []) ≡ some resolved
unfolding insert_all insert accepted
in_order = refl

swapped : insert_all empty_table (definition ∷ reference ∷ []) ≡ some defined_first
unfolding insert_all insert accepted
swapped = refl

empty-IsValid : IsValid empty_table
empty-IsValid = record { held = λ name id h. cc; named = λ id s h. cc }

empty-IsAcyclic : IsAcyclic empty_table
empty-IsAcyclic = λ name. Ends.stop refl

referenced-IsValid : IsValid referenced
referenced-IsValid =
    let (r, e, v) = insert-IsValid empty_table reference empty-IsValid (omega arith) in
    let same : (referenced, ok (Outcome.inserted 0)) ≡ r = cc accepts_reference in
    subst (λ q. IsValid (q.0)) (sym same) v

insert-IsValid_example : (r : Inserted) × (insert referenced definition ≡ some r) × IsValid r.0
insert-IsValid_example = insert-IsValid referenced definition referenced-IsValid (omega arith)

insert-Ensures_example : Ensures referenced definition (insert referenced definition)
insert-Ensures_example = insert-Ensures referenced definition referenced-IsValid (omega arith)

resolved-IsValid : IsValid resolved
resolved-IsValid =
    let (r, e, v) = insert-IsValid referenced definition referenced-IsValid (omega arith) in
    let same : (resolved, ok (Outcome.replaced 0 Tag.undefined Tag.defined)) ≡ r =
      cc accepts_definition in
    subst (λ q. IsValid (q.0)) (sym same) v

bind_atom-IsValid_example :
    (u : SymbolTable) × (new : Symbol) × (bind_atom resolved 0 5 64 ≡ some u)
    × (get u 0 ≡ some new)
    × Rebound 5 64 definition new
    × ((slot : ℕ) → 0 ≢ slot → get u slot ≡ get resolved slot)
    × (u.by_name ≡ resolved.by_name)
    × (u.transitions ≡ resolved.transitions)
    × (u.interner ≡ resolved.interner)
    × IsValid u
bind_atom-IsValid_example = bind_atom-IsValid resolved 0 5 64 definition resolved-IsValid refl

insert-level_example : level resolved 7 ≡ (
    if symbol_name definition == 7
    then max (level referenced 7) (rank definition + 1)
    else level referenced 7)
insert-level_example =
    insert-level referenced definition referenced-IsValid (omega arith) accepts_definition 7

insert_all-perm_example : level resolved 7 ≡ level defined_first 7
insert_all-perm_example =
    insert_all-perm empty_table (reference ∷ definition ∷ []) (definition ∷ reference ∷ [])
      {u = resolved} {w = defined_first} empty-IsValid (omega arith) (omega arith)
      ∣ Permᴰ.swap refl refl ∣₁ in_order swapped 7

insert-IsAcyclic_example : IsAcyclic aliased
insert-IsAcyclic_example =
    insert-IsAcyclic referenced other_name referenced-IsValid (omega arith)
      (insert-IsAcyclic empty_table reference empty-IsValid (omega arith) empty-IsAcyclic
        accepts_reference)
      accepts_alias

resolve_chain_iff_example :
    (resolve_chain aliased 3 ≡ some (ok (0, reference)))
    ↔ Leads max_alias_depth aliased 3 0 reference
resolve_chain_iff_example = resolve_chain_iff aliased 3 0 reference

resolve_alias : resolve_chain aliased 3 ≡ some (ok (0, reference))
unfolding resolve_chain
resolve_alias = refl

abbrev one_name : Interner
one_name = record { strings = "_main" ∷ []; index = ("_main", 0) ∷ [] }

one_name-IsInterned : IsInterned one_name
unfolding intern
one_name-IsInterned =
    (intern-resolve (record { strings = []; index = [] })
      (record { held = λ s i h. cc; named = λ i s h. cc }) "_main" (omega arith)).0

intern-resolve_example : Handled one_name one_name-IsInterned "_exit" (intern one_name "_exit")
intern-resolve_example = intern-resolve one_name one_name-IsInterned "_exit" (omega arith)

abbrev tentative : Symbol
tentative = Symbol.common 7 1 64 3 false false

abbrev tentative_table : SymbolTable
tentative_table = record {
  interner = empty_table.interner;
  symbols = tentative ∷ [];
  by_name = (7, 0) ∷ [];
  transitions = moved 0 Tag.common Tag.common Cause.inserted ∷ [];
}

accepts_tentative : insert empty_table tentative ≡ some (tentative_table, ok (Outcome.inserted 0))
unfolding insert
accepts_tentative = refl

tentative-IsValid : IsValid tentative_table
tentative-IsValid =
    let (r, e, v) = insert-IsValid empty_table tentative empty-IsValid (omega arith) in
    let same : (tentative_table, ok (Outcome.inserted 0)) ≡ r = cc accepts_tentative in
    subst (λ q. IsValid (q.0)) (sym same) v

materialize_common-IsValid_example :
    (u : SymbolTable) × (materialize_common tentative_table 0 5 ≡ some u)
    × IsValid u
    × (get u 0 ≡ some (Symbol.defined 7 1 5 0 false false false))
materialize_common-IsValid_example =
    materialize_common-IsValid tentative_table 0 5 7 1 64 3 false false tentative-IsValid refl
