-- ===== src/Resolve/Symbol.antt =====
-- `Symbol`, the state of one name during resolution, and its classification.
use afs_ld.Prelude.{ℕ, Bool, true, false, ◌||◌, Option, none, some}

-- An `Istr`, an `InputId`, an `AtomId`, … is the number that it wraps.
pub data Symbol : Type 0 where
  undefined : (name origin : ℕ) (weak_ref : Bool) → Symbol
  defined : (name origin atom value : ℕ) (weak private_extern no_dead_strip : Bool) → Symbol
  absolute : (name origin value : ℕ) (weak private_extern no_dead_strip : Bool) → Symbol
  common : (name origin size align_pow2 : ℕ) (private_extern no_dead_strip : Bool) → Symbol
  dylib_import : (name dylib ordinal : ℕ) (weak_import : Bool) → Symbol
  lazy_archive : (name archive member : ℕ) → Symbol
  lazy_object : (name origin : ℕ) → Symbol
  alias : (name aliased origin : ℕ) (private_extern : Bool) → Symbol

-- `SymbolKindTag`
pub data Tag : Type 0 where
  undefined defined common dylib_import lazy_archive lazy_object alias : Tag

abbrev pub symbol_name : Symbol → ℕ
symbol_name (Symbol.undefined n _ _) = n
symbol_name (Symbol.defined n _ _ _ _ _ _) = n
symbol_name (Symbol.absolute n _ _ _ _ _) = n
symbol_name (Symbol.common n _ _ _ _ _) = n
symbol_name (Symbol.dylib_import n _ _ _) = n
symbol_name (Symbol.lazy_archive n _ _) = n
symbol_name (Symbol.lazy_object n _) = n
symbol_name (Symbol.alias n _ _ _) = n

abbrev pub kind : Symbol → Tag
kind (Symbol.undefined _ _ _) = Tag.undefined
kind (Symbol.defined _ _ _ _ _ _ _) = Tag.defined
kind (Symbol.absolute _ _ _ _ _ _) = Tag.defined
kind (Symbol.common _ _ _ _ _ _) = Tag.common
kind (Symbol.dylib_import _ _ _ _) = Tag.dylib_import
kind (Symbol.lazy_archive _ _ _) = Tag.lazy_archive
kind (Symbol.lazy_object _ _) = Tag.lazy_object
kind (Symbol.alias _ _ _ _) = Tag.alias

abbrev pub is_strong_defined : Symbol → Bool
is_strong_defined (Symbol.defined _ _ _ _ false _ _) = true
is_strong_defined (Symbol.absolute _ _ _ false _ _) = true
is_strong_defined _ = false

abbrev pub is_weak_defined : Symbol → Bool
is_weak_defined (Symbol.defined _ _ _ _ true _ _) = true
is_weak_defined (Symbol.absolute _ _ _ true _ _) = true
is_weak_defined _ = false

abbrev pub is_alias : Symbol → Bool
is_alias (Symbol.alias _ _ _ _) = true
is_alias _ = false

abbrev pub is_strong_definition : Symbol → Bool
is_strong_definition s = is_strong_defined s || is_alias s

-- `if let Symbol::Alias { aliased, .. }`
abbrev pub alias_target : Symbol → Option ℕ
alias_target (Symbol.alias _ aliased _ _) = some aliased
alias_target _ = none
