-- ===== src/Reloc.antt =====
-- src/reloc/mod.rs: ARM64 Mach-O relocations, from the wire to the fused form and back.
pub mod Raw
pub mod Fused
pub mod Parse
pub mod Write
pub mod Steps
pub mod RoundTrip
pub mod Relower
pub mod Sound
pub mod Validate
pub mod Patch
mod Tests
