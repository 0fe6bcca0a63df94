-- ===== src/Lib.antt =====
-- afs-ld, the Mach-O linker for ARM64: the readers of an object file, the symbol table that resolves its
-- names, the relocations that are applied to its code, the layout of the output, and tables of names.
--
-- An object file holds sections, symbols, a string table and relocations. The readers take each of them
-- out of the file's bytes: sections (Section.antt, src/section.rs: `from_header` with
-- `classify_section`), symbol records (Nlist.antt, src/symbol.rs: `RawNlist::parse` and `write`,
-- `parse_nlist_table` and `write_nlist_table`, the accessors of `InputSymbol`) and names
-- (StringTable.antt, src/string_table.rs: `from_file` and `get`). They return the errors of Reader.antt
-- (`ReadError` of src/macho/reader.rs). The names that a dylib exports are read out of a trie
-- (Exports.antt, src/macho/exports.rs). Every input's symbols go into one symbol table (Resolve.antt,
-- src/resolve.rs), which holds one slot per name. The code and data of the sections are cut into atoms
-- (Atoms.antt, src/atom.rs: `AtomTable`), and the layout (Layout.antt, src/layout.rs, with the output
-- records of src/section.rs) places atoms in sections, sections in segments, and segments in memory and
-- in the file. Relocations (Reloc.antt, src/reloc/mod.rs) are parsed, fused and validated, and
-- src/reloc/arm64.rs patches the instructions at them (Reloc/Patch.antt), by way of slots of the GOT, of
-- stubs and of thread pointers where a target is in a dylib (Synth.antt, src/synth/got.rs, stubs.rs and
-- tlv.rs). Which symbols the output exports is up to lists of patterns (Visibility.antt,
-- src/symbol_visibility.rs), and their names go into the output's string table
-- (StringTable/Builder.antt, src/string_table.rs: `StringTableBuilder`). Leb.antt is src/leb.rs, the
-- number codec of the dyld tables and of the export trie.
--
-- The symbol table. Resolve/Interner.antt: `StringInterner`. Resolve/Symbol.antt: `Symbol`, whose
-- handles and ids are the numbers that they wrap. Resolve/Table.antt: `SymbolTable` with `lookup`,
-- `get`, `bind_atom`, `materialize_common`, `resolve_chain` and `alias_would_cycle`.
-- Resolve/Matrix.antt: the match of `insert` on the kinds of the old and the new symbol.
-- Resolve/Insert.antt: `insert` with `apply_action`, `coalesce_undefined`, `coalesce_common` and
-- `push_new`. The state is passed on explicitly; a map is an association list, the latest entry first;
-- `none` is a panic (an index out of range or an `unreachable!`), and `err` a refusal. The abstract view
-- of the table (Resolve/Rank.antt, Resolve/Level.antt) is one number per name: 0 for a vacant name, and
-- else one more than the rank of its symbol (0 a reference, 1 a lazy provider, 2 a tentative definition
-- or an import, 3 a weak and 4 a strong definition or an alias). The walks along aliases take the
-- source's bound of 32 steps as fuel, so no other bound is chosen. A slot id is `len() as u32`, which
-- wraps: what is shown of a new slot supposes fewer than 2 ^ 32 slots.
--
-- Relocations. Reloc/Raw.antt: the eight bytes of `relocation_info`. Reloc/Fused.antt: `Reloc` and
-- `validate_relocs`. Reloc/Parse.antt: the loop of `parse_relocs` as a machine, `Parser`, with its two
-- pending slots and its output, one `step` for each raw entry. Reloc/Write.antt: `write_relocs`.
-- Reloc/Patch.antt: `patch_branch26`, `patch_page21`, `patch_pageoff12` and `encode_branch26`, on the
-- bytes of an atom and an offset in them; the error's path, atom and referent are left out. What a
-- patched instruction does is said by `branch_destination`, `adrp_page` and `Adds`, which read the
-- fields as the architecture defines them. `Counts` lists the encodings that a page offset is for; an
-- `add` whose immediate is shifted is none of them. Reloc/Sound.antt: what the comments ask of a
-- relocation, beside Reloc/Validate.antt, what the code asks.
--
-- The layout. Layout/Build.antt: `build_with_synthetics_and_extra_filtered` as a whole, with the order
-- of the atoms in a section. Layout/Group.antt: its loop that groups atoms into output sections by their
-- keys, and the sections of generated tables, of a synthetic plan that is an input. Layout/Place.antt:
-- its loop that places the atoms of a section. Layout/Split.antt: `split_sections_after_atoms` and
-- `insert_extra_sections`. Layout/Segments.antt: `build_segments` with the protection of segments, and
-- the order of sections. Layout/Addresses.antt: `assign_addresses`; its loop over the segments keeps
-- where the next one may begin in memory and in the file (`Progress`), its loop over a segment's
-- sections keeps four cursors (`Cursors`). A panic is `err` with its message. Sums of sizes wrap at 64
-- bits, as in a release build, and where nothing wraps is a condition.
--
-- Exports.antt: `entries` walks the trie and keeps the nodes that it has visited, `lookup` follows one
-- name. Both take the source's bound of depth, `MAX_DEPTH`, plus one as fuel, which ends just where the
-- source refuses. The entry that `lookup` returns has an empty name, as in the source.
--
-- Visibility.antt: the first loop of `wildcard_matches` runs on `(value.len() + 1) * (pattern.len() +
-- 1)` rounds of fuel: each round takes an item of the pattern, or moves the saved star on by a byte of
-- the value and begins again after it.
--
-- StringTable/Builder.antt: `build_with_name_offsets` and `finish`. Sorting is by insertion, which is
-- stable as Rust's is; the map of `finish` is an association list.
--
-- Numbers are natural numbers, and an unsigned machine word is one below its bound, with its wrap-around
-- written out; an i64 is an integer where the code only compares and adds, and its 64-bit pattern where
-- it wraps. `usize` has 64 bits. A string is its bytes; whether bytes are UTF-8 and how
-- `from_utf8_lossy` repairs them are parameters of the definitions that ask.
--
-- Not modelled: archives, atomization and liveness, the accessors of the layout by atom, code folding,
-- the dyld opcode streams, unwind tables and the code signature, the readers of dylibs and text stubs,
-- the writer, the files of patterns, the other patches and the thunks, the ELF back end, and the command
-- line. They are apart from what is modelled, or assemble it into files and messages.
pub mod Prelude
pub mod Reader
pub mod Leb
pub mod Resolve
pub mod Reloc
pub mod Nlist
pub mod Synth
pub mod StringTable
pub mod Section
pub mod Exports
pub mod Visibility
pub mod Atoms
pub mod Layout
