-- ===== src/Resolve/Insert.antt =====
-- `SymbolTable::insert`: the vacant slot, the alias rules, and the actions of the matrix.
use mathlib.Core.Option
use afs_ld.Prelude.{
  ℕ, ◌%◌, ◌^◌, true, false, ◌&&◌, ◌||◌, [], ◌∷◌, ◌++◌, Option, none, some, Result, ok, err, length,
  leb, if◌then◌else◌,
}
use afs_ld.Resolve.Matrix.{Action, Verdict, act, collide, unreachable, matrix}
use afs_ld.Resolve.Symbol.{Symbol, symbol_name, kind, is_strong_definition}
use afs_ld.Resolve.Table.{
  Cause, SymbolTable, Outcome, InsertError, lookup, get, alias_would_cycle, set_symbol, log,
}

-- `Action::Replace`: an import that replaces a weak reference becomes a weak import.
abbrev pub merge_weak_ref : Symbol → Symbol → Symbol
merge_weak_ref (Symbol.undefined _ _ weak_ref) (Symbol.dylib_import n d o weak_import) =
    Symbol.dylib_import n d o (weak_import || weak_ref)
merge_weak_ref old new = new

-- `coalesce_undefined`
abbrev pub merge_undefined : Symbol → Symbol → Option Symbol
merge_undefined (Symbol.undefined n o weak) (Symbol.undefined _ _ weak') =
    some (Symbol.undefined n o (weak && weak'))
merge_undefined old new = none

-- `coalesce_common`: the larger one stays, the later one on a tie.
abbrev pub merge_common : Symbol → Symbol → Option Symbol
merge_common (Symbol.common n o size a p d) (Symbol.common n' o' size' a' p' d') =
    some
      (if leb size size' then Symbol.common n' o' size' a' p' d' else Symbol.common n o size a p d)
merge_common old new = none

abbrev pub archive_fetch : ℕ → Symbol → Option Outcome
archive_fetch id (Symbol.lazy_archive _ archive member) =
    some (Outcome.pending_archive_fetch id archive member)
archive_fetch id _ = none

abbrev pub object_load : ℕ → Symbol → Option Outcome
object_load id (Symbol.lazy_object _ origin) = some (Outcome.pending_object_load id origin)
object_load id _ = none

unfoldable pub apply_action :
    SymbolTable → ℕ → Symbol → Symbol → Action → Option (SymbolTable × Outcome)
apply_action t id old new Action.keep = some (t, Outcome.kept id)
apply_action t id old new Action.coalesce_undefined =
    Option.map (λ sym. (set_symbol t id sym, Outcome.kept id)) (merge_undefined old new)
apply_action t id old new Action.replace = some (
  log (set_symbol t id (merge_weak_ref old new)) id (kind old) (kind new) Cause.replaced,
  Outcome.replaced id (kind old) (kind new),
)
apply_action t id old new Action.replace_and_pending_archive_fetch =
    Option.map (λ fetch. (log (set_symbol t id new) id (kind old) (kind new) Cause.replaced, fetch))
      (archive_fetch id new)
apply_action t id old new Action.coalesce_common =
    Option.map
      (λ sym. (
        log (set_symbol t id sym) id (kind old) (kind new) Cause.common_coalesced,
        Outcome.common_coalesced id,
      ))
      (merge_common old new)
apply_action t id old new Action.pending_archive_fetch =
    Option.map (λ fetch. (t, fetch)) (archive_fetch id old)
apply_action t id old new Action.pending_object_load =
    Option.map (λ load. (t, load)) (object_load id old)

-- The table after the call, and the call's result.
abbrev pub Inserted : Type 0
Inserted = SymbolTable × Result InsertError Outcome

abbrev pub finish : Option (SymbolTable × Outcome) → Option Inserted
finish = Option.map (λ r. (r.0, ok r.1))

-- `push_new`
abbrev pub push_new : SymbolTable → Symbol → SymbolTable × ℕ
push_new t sym =
    let id = length t.symbols % 2 ^ 32 in
    (record t { symbols = t.symbols ++ sym ∷ []; by_name = (symbol_name sym, id) ∷ t.by_name }, id)

abbrev pub store_new : SymbolTable → Symbol → Inserted
store_new t sym =
    let id = length t.symbols % 2 ^ 32 in
    (log (push_new t sym).0 id (kind sym) (kind sym) Cause.inserted, ok (Outcome.inserted id))

-- A vacant name.
abbrev pub insert_vacant : SymbolTable → Symbol → Option Inserted
insert_vacant t (Symbol.alias name aliased origin p) = elim (alias_would_cycle t name aliased) [
  | none ↦ none
  | some true ↦ some (t, err (InsertError.alias_cycle name))
  | some false ↦ some (store_new t (Symbol.alias name aliased origin p))
]
insert_vacant t sym = some (store_new t sym)

abbrev pub apply_verdict : SymbolTable → ℕ → Symbol → Symbol → Verdict → Option Inserted
apply_verdict t id old new (act a) = finish (apply_action t id old new a)
apply_verdict t id old new collide =
    some (t, err (InsertError.duplicate_strong (symbol_name new) id new))
apply_verdict t id old new unreachable = none

-- A name that slot `id` holds as `old`.
abbrev pub insert_existing : SymbolTable → ℕ → Symbol → Symbol → Option Inserted
insert_existing t id old (Symbol.alias name aliased origin p) =
    let new = Symbol.alias name aliased origin p in
    if is_strong_definition old
    then some (t, err (InsertError.duplicate_strong name id new))
    else elim (alias_would_cycle t name aliased) [
      | none ↦ none
      | some true ↦ some (t, err (InsertError.alias_cycle name))
      | some false ↦ finish (apply_action t id old new Action.replace)
    ]
insert_existing t id old new = apply_verdict t id old new (matrix old new (kind old) (kind new))

unfoldable pub insert : SymbolTable → Symbol → Option Inserted
unfolding apply_action
insert t sym = elim (lookup t (symbol_name sym)) [
  | none ↦ insert_vacant t sym
  | some id ↦ elim (get t id) [ none ↦ none | some old ↦ insert_existing t id old sym ]
]
