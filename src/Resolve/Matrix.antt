-- ===== src/Resolve/Matrix.antt =====
-- The resolution matrix of `SymbolTable::insert`: what to do with a new symbol for a name that is held.
use afs_ld.Prelude.{Bool, true, false, if◌then◌else◌}
use afs_ld.Resolve.Symbol.{Symbol, Tag, is_strong_defined}

-- `Action`, the verdict of the matrix.
pub data Action : Type 0 where
  keep coalesce_undefined replace replace_and_pending_archive_fetch : Action
  coalesce_common pending_archive_fetch pending_object_load : Action

-- What the matrix says: an action, two strong definitions, or an `unreachable!`.
pub data Verdict : Type 0 where
  act : Action → Verdict
  collide : Verdict
  unreachable : Verdict

-- `defined_vs_defined` on the two strengths.
abbrev pub defined_vs_defined : Bool → Bool → Verdict
defined_vs_defined true true = collide
defined_vs_defined false true = act Action.replace
defined_vs_defined true false = act Action.keep
defined_vs_defined false false = act Action.keep

-- The match on `(existing_kind, new_kind)`.
abbrev pub matrix : Symbol → Symbol → Tag → Tag → Verdict
matrix old new Tag.undefined Tag.undefined = act Action.coalesce_undefined
matrix old new Tag.undefined Tag.defined = act Action.replace
matrix old new Tag.undefined Tag.common = act Action.replace
matrix old new Tag.undefined Tag.dylib_import = act Action.replace
matrix old new Tag.undefined Tag.lazy_object = act Action.replace
matrix old new Tag.undefined Tag.lazy_archive = act Action.replace_and_pending_archive_fetch
matrix old new Tag.defined Tag.undefined = act Action.keep
matrix old new Tag.defined Tag.common = act Action.keep
matrix old new Tag.defined Tag.dylib_import = act Action.keep
matrix old new Tag.defined Tag.lazy_archive = act Action.keep
matrix old new Tag.defined Tag.lazy_object = act Action.keep
matrix old new Tag.defined Tag.defined =
    defined_vs_defined (is_strong_defined old) (is_strong_defined new)
matrix old new Tag.common Tag.undefined = act Action.keep
matrix old new Tag.common Tag.defined = act Action.replace
matrix old new Tag.common Tag.common = act Action.coalesce_common
matrix old new Tag.common Tag.dylib_import = act Action.keep
matrix old new Tag.common Tag.lazy_archive = act Action.keep
matrix old new Tag.common Tag.lazy_object = act Action.keep
matrix old new Tag.dylib_import Tag.undefined = act Action.keep
matrix old new Tag.dylib_import Tag.defined = act Action.replace
matrix old new Tag.dylib_import Tag.common = act Action.keep
matrix old new Tag.dylib_import Tag.dylib_import = act Action.keep
matrix old new Tag.dylib_import Tag.lazy_archive = act Action.keep
matrix old new Tag.dylib_import Tag.lazy_object = act Action.keep
matrix old new Tag.lazy_archive Tag.undefined = act Action.pending_archive_fetch
matrix old new Tag.lazy_archive Tag.defined = act Action.replace
matrix old new Tag.lazy_archive Tag.common = act Action.replace
matrix old new Tag.lazy_archive Tag.dylib_import = act Action.replace
matrix old new Tag.lazy_archive Tag.lazy_object = act Action.replace
matrix old new Tag.lazy_archive Tag.lazy_archive = act Action.keep
matrix old new Tag.lazy_object Tag.undefined = act Action.pending_object_load
matrix old new Tag.lazy_object Tag.defined = act Action.replace
matrix old new Tag.lazy_object Tag.common = act Action.replace
matrix old new Tag.lazy_object Tag.dylib_import = act Action.replace
matrix old new Tag.lazy_object Tag.lazy_archive = act Action.replace
matrix old new Tag.lazy_object Tag.lazy_object = act Action.keep
matrix old new Tag.alias Tag.defined = if is_strong_defined new then collide else act Action.keep
matrix old new Tag.alias Tag.undefined = act Action.keep
matrix old new Tag.alias Tag.common = act Action.keep
matrix old new Tag.alias Tag.dylib_import = act Action.keep
matrix old new Tag.alias Tag.lazy_archive = act Action.keep
matrix old new Tag.alias Tag.lazy_object = act Action.keep
-- The source's `(Alias, _)` arm keeps; the other pairs with a new alias are `unreachable!`.
matrix old new Tag.alias Tag.alias = act Action.keep
matrix old new _ Tag.alias = unreachable
