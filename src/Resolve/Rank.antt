-- ===== src/Resolve/Rank.antt =====
-- How definite a symbol is. The resolution matrix of `SymbolTable::insert` is a maximum of ranks.
use afs_ld.Prelude.{ℕ, ◌≤◌, ◌≡◌, max, false, Option, none, some, arith, if◌then◌else◌}
use afs_ld.Resolve.Insert.{
  merge_weak_ref, merge_undefined, merge_common, archive_fetch, object_load,
}
use afs_ld.Resolve.Matrix.{Action, Verdict, act, collide, unreachable, matrix}
use afs_ld.Resolve.Symbol.{Symbol, symbol_name, kind, is_alias}
use afs_ld.Resolve.Table.{Outcome}

-- A reference, a lazy provider, a tentative definition or import, a weak and a strong definition.
abbrev pub rank : Symbol → ℕ
rank (Symbol.undefined _ _ _) = 0
rank (Symbol.lazy_archive _ _ _) = 1
rank (Symbol.lazy_object _ _) = 1
rank (Symbol.common _ _ _ _ _ _) = 2
rank (Symbol.dylib_import _ _ _ _) = 2
rank (Symbol.defined _ _ _ _ weak _ _) = if weak then 3 else 4
rank (Symbol.absolute _ _ _ weak _ _) = if weak then 3 else 4
rank (Symbol.alias _ _ _ _) = 4

-- What is written over `old` when `sym` arrives.
pub record Written (old sym new : Symbol) : Type 0 where
  pub same_name : symbol_name new ≡ symbol_name old
  pub best : rank new ≡ max (rank old) (rank sym)
  pub plain : is_alias new ≡ is_alias sym

abbrev pub Merges : Symbol → Symbol → Option Symbol → Type 0
Merges old sym none = ⊥
Merges old sym (some new) = Written old sym new

abbrev pub Reports : Option Outcome → Type 0
Reports none = ⊥
Reports (some _) = Unit

-- What each verdict of the matrix promises of the two symbols.
abbrev pub Fits : ℕ → Symbol → Symbol → Verdict → Type 0
Fits id old sym (act Action.keep) = rank sym ≤ rank old
Fits id old sym (act Action.coalesce_undefined) = Merges old sym (merge_undefined old sym)
Fits id old sym (act Action.replace) = Written old sym (merge_weak_ref old sym)
Fits id old sym (act Action.replace_and_pending_archive_fetch) =
    Reports (archive_fetch id sym) × Written old sym sym
Fits id old sym (act Action.coalesce_common) = Merges old sym (merge_common old sym)
Fits id old sym (act Action.pending_archive_fetch) =
    Reports (archive_fetch id old) × (rank sym ≤ rank old)
Fits id old sym (act Action.pending_object_load) =
    Reports (object_load id old) × (rank sym ≤ rank old)
Fits id old sym collide = (rank old ≡ 4) × (rank sym ≡ 4)
Fits id old sym unreachable = ⊥

-- For a new symbol that is no alias, under the name that the old one holds, the matrix does not reach
-- its `unreachable!`, and its verdict keeps the promise of that verdict: a kept symbol has at least the
-- rank of the new one, a written one has the greater of the two ranks and the same name, a fetch or a
-- load has an archive member or an object to report, and a collision is of two strong definitions.
pub matrix-Fits :
    (id : ℕ) (old sym : Symbol)
    → is_alias sym ≡ false
    → symbol_name old ≡ symbol_name sym
    → Fits id old sym (matrix old sym (kind old) (kind sym))
matrix-Fits id (Symbol.undefined _ _ _) (Symbol.undefined _ _ _) p e = ground arith
matrix-Fits id _ _ p e = ground arith
