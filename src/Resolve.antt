-- ===== src/Resolve.antt =====
-- src/resolve.rs: interned names, the symbol sum type and the symbol table.
pub mod Interner
pub mod Names
pub mod Symbol
pub mod Table
pub mod Matrix
pub mod Insert
pub mod Lookup
pub mod Valid
pub mod Rank
pub mod Level
pub mod Effect
pub mod Alias
pub mod Chain
mod Tests
