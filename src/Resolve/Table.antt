-- ===== src/Resolve/Table.antt =====
-- `SymbolTable`: one slot per name, alias chains, and the two operations that rewrite a slot. An
-- index out of range and an `unreachable!` are a panic, `none`.
use mathlib.Core.Option
use afs_ld.Prelude.{
  ℕ, zero, suc, Bool, true, false, List, [], ◌∷◌, ◌++◌, Option, none, some, Result, ok, err,
  get_elem?, set, ◌==◌, if◌then◌else◌,
}
use afs_ld.Resolve.Interner.{Interner}
use afs_ld.Resolve.Symbol.{Symbol, Tag, alias_target}

pub data Cause : Type 0 where
  inserted replaced common_coalesced : Cause

pub record Transition : Type 0 where
  pub id : ℕ
  pub from : Tag
  pub to : Tag
  pub cause : Cause

-- `by_name` maps a name to the slot that holds it.
pub record SymbolTable : Type 0 where
  pub interner : Interner
  pub symbols : List Symbol
  pub by_name : List (ℕ × ℕ)
  pub transitions : List Transition

-- `InsertOutcome`
pub data Outcome : Type 0 where
  inserted : (id : ℕ) → Outcome
  replaced : (id : ℕ) (from to : Tag) → Outcome
  kept : (id : ℕ) → Outcome
  common_coalesced : (id : ℕ) → Outcome
  pending_archive_fetch : (id archive member : ℕ) → Outcome
  pending_object_load : (id origin : ℕ) → Outcome

pub data InsertError : Type 0 where
  duplicate_strong : (name first : ℕ) (second : Symbol) → InsertError
  alias_cycle : (name : ℕ) → InsertError

-- `HashMap::get` and `insert` on names.
abbrev pub find_id : ℕ → List (ℕ × ℕ) → Option ℕ
find_id name [] = none
find_id name ((n, id) ∷ rest) = if n == name then some id else find_id name rest

abbrev pub lookup : SymbolTable → ℕ → Option ℕ
lookup t name = find_id name t.by_name

abbrev pub get : SymbolTable → ℕ → Option Symbol
get t id = get_elem? t.symbols id

abbrev pub max_alias_depth : ℕ
max_alias_depth = 32

-- The loop of `alias_would_cycle`; `none` is an index out of range.
unfoldable pub alias_walk : ℕ → SymbolTable → ℕ → ℕ → Option Bool
alias_walk zero t new_name current = some true
alias_walk (suc depth) t new_name current = elim (current == new_name) [
  | true ↦ some true
  | false ↦ elim (lookup t current) [
    | none ↦ some false
    | some id ↦ elim (get t id) [
      | none ↦ none
      | some s ↦ elim (alias_target s) [
        | none ↦ some false
        | some aliased ↦ alias_walk depth t new_name aliased
      ]
    ]
  ]
]

unfoldable pub alias_would_cycle : SymbolTable → ℕ → ℕ → Option Bool
unfolding alias_walk
alias_would_cycle t new_name target =
    if new_name == target then some true else alias_walk max_alias_depth t new_name target

abbrev pub set_symbol : SymbolTable → ℕ → Symbol → SymbolTable
set_symbol t id sym = record t { symbols = set t.symbols id sym }

abbrev pub log : SymbolTable → ℕ → Tag → Tag → Cause → SymbolTable
log t id from to cause = record t {
  transitions = t.transitions ++ record { id = id; from = from; to = to; cause = cause } ∷ [];
}

-- `bind_atom`: only a `Defined` slot changes.
abbrev pub rebind : ℕ → ℕ → Symbol → Symbol
rebind atom value (Symbol.defined n o _ _ w p d) = Symbol.defined n o atom value w p d
rebind atom value sym = sym

unfoldable pub bind_atom : SymbolTable → ℕ → ℕ → ℕ → Option SymbolTable
bind_atom t id atom value = Option.map (λ sym. set_symbol t id (rebind atom value sym)) (get t id)

abbrev pub materialized : ℕ → Symbol → Option Symbol
materialized atom (Symbol.common n o _ _ p d) = some (Symbol.defined n o atom 0 false p d)
materialized atom _ = none

unfoldable pub materialize_common : SymbolTable → ℕ → ℕ → Option SymbolTable
materialize_common t id atom =
    Option.bind (get t id) (λ old. Option.map (set_symbol t id) (materialized atom old))

pub data ResolveError : Type 0 where
  unknown : (name : ℕ) → ResolveError
  alias_cycle : (start : ℕ) → ResolveError

-- The loop of `resolve_chain`; `none` is an index out of range.
unfoldable pub chain_walk : ℕ → SymbolTable → ℕ → ℕ → Option (Result ResolveError (ℕ × Symbol))
chain_walk zero t name current = some (err (ResolveError.alias_cycle name))
chain_walk (suc depth) t name current = elim (lookup t current) [
  | none ↦ some (err (ResolveError.unknown name))
  | some id ↦ elim (get t id) [
    | none ↦ none
    | some s ↦ elim (alias_target s) [
      | none ↦ some (ok (id, s))
      | some aliased ↦ chain_walk depth t name aliased
    ]
  ]
]

unfoldable pub resolve_chain : SymbolTable → ℕ → Option (Result ResolveError (ℕ × Symbol))
unfolding chain_walk
resolve_chain t name = chain_walk max_alias_depth t name name
